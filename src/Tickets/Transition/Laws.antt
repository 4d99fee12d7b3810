-- ===== src/Tickets/Transition/Laws.antt =====
-- What a requester, and anybody, can make of a ticket by the `transition` handler.
use cursor_multi_agent.Prelude.{
  ℕ, String, ◌≡◌, true, some, List, arith, ok, eq_iff, ◌≢◌, Option, if◌then◌else◌, ◌⊎◌, refl, none,
  inl, inr, sym, is_ok,
}
use cursor_multi_agent.Domain.{
  AuthUser, TicketStatus, is_employee, closed, same_status, TicketCloseReason, reopened, resolved,
  requester_confirmed, requester_cancelled,
}
use cursor_multi_agent.Store.{Ticket, Db, find_ticket, ticket_key}
use cursor_multi_agent.Access.{can_write_ticket, administered_team}
use cursor_multi_agent.Tickets.Status.Effects.{written_row}
use cursor_multi_agent.Sla.Policy.{SlaTables}
use cursor_multi_agent.Tickets.Status.{
  Transitions, apply_status_transition_in_tx, transitioned, is_valid_transition,
  default_status_transitions, write_transition,
}
use cursor_multi_agent.Tickets.Guards.{as_access, resolve_close_reason, is_requester_transition}
use cursor_multi_agent.Tickets.Transition.{transition, requester_may}
use cursor_multi_agent.Store.Tables.{find_by, find_by-key}
use mathlib.Core.Path.{subst}
use cursor_multi_agent.Tickets.Status.Pause.{moved_row}

own_move :
    (user : AuthUser) (t : Ticket) (to : TicketStatus)
    → is_employee user.role ≡ true
    → requester_may user t to ≡ true
    → (t.requester_id ≡ user.id) × (is_requester_transition t.status to ≡ true)
own_move user t to h may = ground (arith, eq_iff t.requester_id user.id)

stored_found :
    (db : Db) (id : String) {t : Ticket}
    → find_ticket db id ≡ some t
    → find_by ticket_key id db.tickets ≡ some t
unfolding find_ticket
stored_found db id found = found

module _ (tables : SlaTables) (table : Transitions) where
  -- What an accepted request has passed.
  pub transition_cases :
      (now : ℕ) (id : String) (to : TicketStatus) (user : AuthUser) (db : Db) {after : Db}
      {allowed : List TicketStatus}
      → transition tables table now id to user db ≡ ok (after, allowed)
      → (t : Ticket) × (find_ticket db id ≡ some t)
        × (requester_may user t to ≡ true)
        × (can_write_ticket user (as_access t) ≡ true)
        × (apply_status_transition_in_tx tables table now t to user.id
              (resolve_close_reason user t.status to)
              db
            ≡ ok after)
  unfolding transition
  transition_cases now id to user db h = ground arith

  requester_moves :
      (from to : TicketStatus)
      → is_requester_transition from to ≡ true
      → (from ≢ to) × ((to ≡ closed) ⊎ (to ≡ reopened))
  requester_moves from to h = ground arith

  requester_closes :
      (now : ℕ) (user : AuthUser) (t : Ticket)
      → is_employee user.role ≡ true
      → (transitioned tables table now t closed
          (resolve_close_reason user t.status closed)
          t).close_reason
        ≡ some (if same_status t.status resolved then requester_confirmed else requester_cancelled)
  unfolding transitioned resolve_close_reason
  requester_closes now user t h = ground arith

  requester_reopens :
      (now : ℕ) (t : Ticket) (r : Option TicketCloseReason)
      → (transitioned tables table now t reopened r t).close_reason ≡ none
  unfolding transitioned
  requester_reopens now t r = refl

  transitioned-status :
      (now : ℕ) (t : Ticket) (to : TicketStatus) (reason : Option TicketCloseReason)
      → (transitioned tables table now t to reason t).status ≡ to
  unfolding transitioned
  transitioned-status now t to reason = refl

  requester_row :
      (now : ℕ) (user : AuthUser) (t : Ticket) (to : TicketStatus)
      → is_employee user.role ≡ true
      → (to ≡ closed) ⊎ (to ≡ reopened)
      → (transitioned tables table now t to (resolve_close_reason user t.status to) t).close_reason
        ≡ (if same_status to closed
            then some
                (if same_status t.status resolved then requester_confirmed else requester_cancelled)
            else none)
  requester_row now user t to h (inl e) = rw e (requester_closes now user t h)
  requester_row now user t to h (inr e) = rw e (requester_reopens now t _)

  -- An accepted transition by an EMPLOYEE, whatever the table: the ticket is his own, the move is one
  -- of the five of `REQUESTER_TRANSITIONS`, and the stored row has the new status and, if that is
  -- CLOSED, the reason "confirmed" from RESOLVED and "cancelled" otherwise, and else no reason.
  pub requester_transition :
      (now : ℕ) (id : String) (to : TicketStatus) (user : AuthUser) (db : Db) {after : Db}
      {allowed : List TicketStatus}
      → is_employee user.role ≡ true
      → transition tables table now id to user db ≡ ok (after, allowed)
      → (t row : Ticket) × (find_ticket db id ≡ some t)
        × (t.requester_id ≡ user.id)
        × (is_requester_transition t.status to ≡ true)
        × (find_ticket after id ≡ some row)
        × (row.status ≡ to)
        × (row.close_reason ≡ (
            if same_status to closed
            then some
                (if same_status t.status resolved then requester_confirmed else requester_cancelled)
            else none))
  requester_transition now id to user db {after} h done =
      let (t, found, may, writes, applied) = transition_cases now id to user db done in
      let own = own_move user t to h may in
      let same : t.id ≡ id = find_by-key ticket_key id db.tickets (stored_found db id found) in
      let (moves, target) = requester_moves t.status to own.1 in
      let stored : find_ticket db t.id ≡ some t =
        subst (λ k. find_ticket db k ≡ some t) (sym same) found in
      let row = moved_row tables table now t to user.id _ db moves stored applied in
      (
        t,
        transitioned tables table now t to (resolve_close_reason user t.status to) t,
        found,
        own.0,
        own.1,
        subst
            (λ k.
              find_ticket after k
              ≡ some (transitioned tables table now t to (resolve_close_reason user t.status to) t))
            same row,
        transitioned-status now t to _,
        requester_row now user t to h target,
      )

module _ (tables : SlaTables) where
  requester_writes :
      (user : AuthUser) (t : Ticket)
      → is_employee user.role ≡ true
      → t.requester_id ≡ user.id
      → t.deleted_at ≡ none
      → can_write_ticket user (as_access t) ≡ true
  unfolding can_write_ticket administered_team
  requester_writes user t h own live = ground (arith, eq_iff t.requester_id user.id)

  requester_applied :
      (now : ℕ) (t : Ticket) (to : TicketStatus) (actor : String)
      (reason : Option TicketCloseReason) (db : Db)
      → is_requester_transition t.status to ≡ true
      → apply_status_transition_in_tx tables default_status_transitions now t to actor reason db
        ≡ ok (write_transition tables default_status_transitions now t to actor reason db)
  unfolding apply_status_transition_in_tx is_valid_transition default_status_transitions
  requester_applied now t to actor reason db move = ground arith

  -- With the default table, a requester is never refused one of the five moves on a stored ticket of
  -- his own that is not deleted.
  pub requester_accepted :
      (now : ℕ) (id : String) (to : TicketStatus) (user : AuthUser) (db : Db) (t : Ticket)
      → is_employee user.role ≡ true
      → find_ticket db id ≡ some t
      → t.requester_id ≡ user.id
      → t.deleted_at ≡ none
      → is_requester_transition t.status to ≡ true
      → is_ok (transition tables default_status_transitions now id to user db) ≡ true
  unfolding transition
  requester_accepted now id to user db t h found own live move =
      let reason = resolve_close_reason user t.status to in
      let same : t.id ≡ id = find_by-key ticket_key id db.tickets (stored_found db id found) in
      let stored : find_ticket db t.id ≡ some t =
        subst (λ k. find_ticket db k ≡ some t) (sym same) found in
      let done = write_transition tables default_status_transitions now t to user.id reason db in
      let row : find_ticket done id
          ≡ some (transitioned tables default_status_transitions now t to reason t) =
        subst
          (λ k.
            find_ticket done k
            ≡ some (transitioned tables default_status_transitions now t to reason t))
          same (written_row tables default_status_transitions now t to user.id reason db stored) in
      ground (
        arith,
        requester_applied now t to user.id reason db move,
        requester_writes user t h own live,
        eq_iff t.requester_id user.id,
      )
