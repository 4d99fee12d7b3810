-- ===== src/Tickets/Requests/Handlers.antt =====
-- The tickets and the users after each ticket handler by itself.
use cursor_multi_agent.Prelude.{
  ℕ, String, ◌≡◌, true, Option, none, some, List, arith, ok, sym, All, truthy, eq_iff, or_else,
}
use cursor_multi_agent.Domain.{AuthUser, TicketStatus, TicketPriority}
use cursor_multi_agent.Store.{
  Ticket, Db, find_ticket, user_role, ticket_key, update_ticket, create_event,
}
use cursor_multi_agent.Store.Tables.{find_by-key, All-update_by, All-find_by, update_by, find_by}
use cursor_multi_agent.Sla.Policy.{SlaTables}
use cursor_multi_agent.Sla.Engine.Laws.{sync-tickets, sync-users}
use cursor_multi_agent.Tickets.Status.{
  default_status_transitions, apply_status_transition_in_tx, write_transition,
}
use cursor_multi_agent.Tickets.Status.Laws.{IsConsistent}
use cursor_multi_agent.Tickets.Status.Effects.{apply-IsConsistent}
use cursor_multi_agent.Tickets.Transition.Laws.{transition_cases}
use cursor_multi_agent.Tickets.Assignment.Laws.{apply_assignee-IsConsistent}
use cursor_multi_agent.Tickets.Requests.{
  transition, assign, transfer, change_priority, soft_delete, restore,
}
use mathlib.Core.Path.{subst}
use cursor_multi_agent.Tickets.Transition.{transition}
use cursor_multi_agent.Tickets.Assignment.{
  assign, apply_assignee_in_tx, write_assignee, log_status, ensure_follower,
}
use cursor_multi_agent.Tickets.Transfer.{
  transfer, apply_team_transfer_in_tx, write_transfer, grant_prior_team,
}
use cursor_multi_agent.Tickets.Priority.{change_priority, prioritised_row, write_priority}
use cursor_multi_agent.Tickets.Removal.{
  write_deletion, write_restoration, soft_delete, restore, deleted_row, restored_row,
}
use cursor_multi_agent.Tickets.Removal.Laws.{deletion_cases, restoration_cases}

-- Every ticket is consistent, and no user has an empty id.
pub record IsWellFormed (db : Db) : Type 0 where
  pub tickets_ok : All IsConsistent db.tickets
  pub named : user_role "" db.users ≡ none

pub stored_under_key :
    (db : Db) (id : String) {t : Ticket} → find_ticket db id ≡ some t → find_ticket db t.id ≡ some t
unfolding find_ticket
stored_under_key db id {t} found =
    subst (λ k. find_by ticket_key k db.tickets ≡ some t)
      (sym (find_by-key ticket_key id db.tickets found)) found

-- A write to the stored row of a ticket.
pub row-IsConsistent :
    (change : Ticket → Ticket) (t : Ticket) (db : Db)
    → find_ticket db t.id ≡ some t
    → (IsConsistent t → IsConsistent (change t))
    → All IsConsistent db.tickets
    → All IsConsistent (update_by ticket_key t.id change db.tickets)
unfolding find_ticket
row-IsConsistent change t db found keeps all =
    All-update_by ticket_key IsConsistent change t.id db.tickets found
      (keeps (All-find_by ticket_key IsConsistent t.id db.tickets found all)) all

module _ (tables : SlaTables) where
  pub transition-IsConsistent :
      (user : AuthUser) (now : ℕ) (id : String) (to : TicketStatus) (db : Db) {after : Db}
      {allowed : List TicketStatus}
      → transition tables default_status_transitions now id to user db ≡ ok (after, allowed)
      → All IsConsistent db.tickets
      → All IsConsistent after.tickets
  transition-IsConsistent user now id to db h all =
      let (t, found, _, _, applied) =
        transition_cases tables default_status_transitions now id to user db h in
      apply-IsConsistent tables now t to user.id _ db (stored_under_key db id found) applied all

  pub transition-users :
      (user : AuthUser) (now : ℕ) (id : String) (to : TicketStatus) (db : Db) {after : Db}
      {allowed : List TicketStatus}
      → transition tables default_status_transitions now id to user db ≡ ok (after, allowed)
      → after.users ≡ db.users
  unfolding apply_status_transition_in_tx write_transition create_event update_ticket
  transition-users user now id to db h =
      let (t, found, _, _, applied) =
        transition_cases tables default_status_transitions now id to user db h in
      grind (arith, sync-users)

  pub assign_cases :
      (user : AuthUser) (id : String) (assignee : Option String) (db : Db) {after : Db}
      → assign id assignee user db ≡ ok after
      → (t : Ticket) × (find_ticket db id ≡ some t)
        × (apply_assignee_in_tx t (or_else assignee user.id) user.id db ≡ ok after)
  unfolding assign
  assign_cases user id assignee db h = ground arith

  pub known_named :
      (t : Ticket) (assignee actor : String) (db : Db) {after : Db}
      → user_role "" db.users ≡ none
      → apply_assignee_in_tx t assignee actor db ≡ ok after
      → truthy assignee ≡ true
  unfolding apply_assignee_in_tx
  known_named t assignee actor db named h = ground (arith, eq_iff assignee "")

  pub assign-IsConsistent :
      (user : AuthUser) (id : String) (assignee : Option String) (db : Db) {after : Db}
      → assign id assignee user db ≡ ok after
      → IsWellFormed db
      → All IsConsistent after.tickets
  assign-IsConsistent user id assignee db h ok_db =
      let (t, found, applied) = assign_cases user id assignee db h in
      apply_assignee-IsConsistent t _ user.id db (known_named t _ user.id db ok_db.named applied)
        (stored_under_key db id found) applied ok_db.tickets_ok

  pub assign-users :
      (user : AuthUser) (id : String) (assignee : Option String) (db : Db) {after : Db}
      → assign id assignee user db ≡ ok after
      → after.users ≡ db.users
  unfolding apply_assignee_in_tx write_assignee log_status ensure_follower create_event
      update_ticket
  assign-users user id assignee db h =
      let (t, found, applied) = assign_cases user id assignee db h in ground arith

  pub transfer_cases :
      (user : AuthUser) (id team : String) (assignee : Option String) (db : Db) {after : Db}
      → transfer tables id team assignee user db ≡ ok after
      → (t : Ticket) × (find_ticket db id ≡ some t)
        × (apply_team_transfer_in_tx tables true t team assignee user.id db ≡ ok after)
  unfolding transfer
  transfer_cases user id team assignee db h = ground arith

  pub transfer-users :
      (user : AuthUser) (id team : String) (assignee : Option String) (db : Db) {after : Db}
      → transfer tables id team assignee user db ≡ ok after
      → after.users ≡ db.users
  unfolding apply_team_transfer_in_tx write_transfer log_status ensure_follower create_event
      update_ticket grant_prior_team
  transfer-users user id team assignee db h =
      let (t, found, applied) = transfer_cases user id team assignee db h in
      grind (arith, sync-users)

  pub priority_cases :
      (user : AuthUser) (id : String) (priority : TicketPriority) (db : Db) {after : Db}
      → change_priority tables id priority user db ≡ ok after
      → (t : Ticket) × (find_ticket db id ≡ some t)
        × (after ≡ write_priority tables t priority user.id db)
  unfolding change_priority
  priority_cases user id priority db h = ground arith

  pub prioritised_row-IsConsistent :
      (t : Ticket) (priority : TicketPriority)
      → IsConsistent t
      → IsConsistent (prioritised_row tables t priority t)
  unfolding prioritised_row
  prioritised_row-IsConsistent t priority c = record {
    has_assignee = c.has_assignee;
    paused_iff = c.paused_iff;
    completed_iff = c.completed_iff;
    closed_at_set = c.closed_at_set;
    reason_iff = c.reason_iff;
    resolved_at_set = c.resolved_at_set;
  }

  pub priority-IsConsistent :
      (user : AuthUser) (id : String) (priority : TicketPriority) (db : Db) {after : Db}
      → change_priority tables id priority user db ≡ ok after
      → All IsConsistent db.tickets
      → All IsConsistent after.tickets
  unfolding write_priority create_event update_ticket
  priority-IsConsistent user id priority db h all =
      let (t, found, written) = priority_cases user id priority db h in
      subst (λ d. All IsConsistent d.tickets) (sym written)
        (rw sync-tickets (
          row-IsConsistent (prioritised_row tables t priority) t db (stored_under_key db id found)
            (prioritised_row-IsConsistent t priority) all))

  pub priority-users :
      (user : AuthUser) (id : String) (priority : TicketPriority) (db : Db) {after : Db}
      → change_priority tables id priority user db ≡ ok after
      → after.users ≡ db.users
  unfolding write_priority create_event update_ticket
  priority-users user id priority db h =
      let (t, found, written) = priority_cases user id priority db h in grind (arith, sync-users)

pub removal-IsConsistent :
    (user : AuthUser) (now : ℕ) (id : String) (db : Db) {after : Db}
    → soft_delete now id user db ≡ ok after
    → All IsConsistent db.tickets
    → All IsConsistent after.tickets
unfolding write_deletion create_event update_ticket
removal-IsConsistent user now id db h all =
    let (t, found, _, written) = deletion_cases now id user db h in
    subst (λ d. All IsConsistent d.tickets) (sym written)
      (row-IsConsistent (deleted_row now user.id) t db (stored_under_key db id found)
        (unfold deleted_row in λ c. ground arith) all)

pub restore-IsConsistent :
    (user : AuthUser) (id : String) (db : Db) {after : Db}
    → restore id user db ≡ ok after
    → All IsConsistent db.tickets
    → All IsConsistent after.tickets
unfolding write_restoration create_event update_ticket
restore-IsConsistent user id db h all =
    let (t, found, _, _, written) = restoration_cases id user db h in
    subst (λ d. All IsConsistent d.tickets) (sym written)
      (row-IsConsistent restored_row t db (stored_under_key db id found)
        (unfold restored_row in λ c. ground arith) all)

pub removal-users :
    (user : AuthUser) (now : ℕ) (id : String) (db : Db) {after : Db}
    → soft_delete now id user db ≡ ok after
    → after.users ≡ db.users
unfolding soft_delete write_deletion create_event update_ticket
removal-users user now id db h = ground arith

pub restore-users :
    (user : AuthUser) (id : String) (db : Db) {after : Db}
    → restore id user db ≡ ok after
    → after.users ≡ db.users
unfolding restore write_restoration create_event update_ticket
restore-users user id db h = ground arith
