-- ===== src/Automation/Actions/Laws.antt =====
-- What the actions of a rule keep.
use cursor_multi_agent.Prelude.{
  ℕ, String, ◌≡◌, refl, true, false, List, [], ◌∷◌, arith, ok, All, Bool-cases, inl, inr, ◌⊎◌,
  Result, some, truthy, ok_injective, ap, >>=-eq-ok, none, ◌∙◌, if◌then◌else◌,
}
use mathlib.Core.Path.{subst}
use cursor_multi_agent.Sla.Policy.{SlaTables}
use cursor_multi_agent.Store.{Db, Ticket, create_event, update_ticket, find_ticket, ticket_key}
use cursor_multi_agent.Automation.Actions.{
  reprioritised_row, write_set_priority, ActionNode, Ticket, create_event, TicketPriority,
  update_ticket, find_ticket, some, execute_action, assign_team, assign_user, set_priority,
  set_status, add_follower, outside, truthy, refreshes, refreshed, execute_actions,
  apply_assignee_in_tx, ensure_follower, get_ticket_for_actions, none, same_status, closed,
  auto_closed,
}
use cursor_multi_agent.Domain.{TicketPriority, same_status, closed, auto_closed}
use cursor_multi_agent.Tickets.Status.Laws.{IsConsistent}
use cursor_multi_agent.Sla.Engine.Laws.{sync-tickets}
use cursor_multi_agent.Tickets.Requests.Handlers.{row-IsConsistent, stored_under_key}
use cursor_multi_agent.Tickets.Status.{default_status_transitions}
use cursor_multi_agent.Tickets.Assignment.{apply_assignee_in_tx, ensure_follower}
use cursor_multi_agent.Tickets.Transfer.Laws.{apply_transfer-IsConsistent}
use cursor_multi_agent.Tickets.Assignment.Laws.{apply_assignee-IsConsistent}
use cursor_multi_agent.Store.Tables.{find_by}
use cursor_multi_agent.Tickets.Status.Effects.{apply-IsConsistent}

module _ (tables : SlaTables) (side_action : String → Db → Result (Unit {0})) where
  reprioritised_row-IsConsistent :
      (t : Ticket) (p : TicketPriority)
      → IsConsistent t
      → IsConsistent (reprioritised_row tables t p t)
  unfolding reprioritised_row
  reprioritised_row-IsConsistent t p c = ground arith

  set_priority-IsConsistent :
      (t : Ticket) (p : TicketPriority) (actor : String) (db : Db)
      → find_ticket db t.id ≡ some t
      → All IsConsistent db.tickets
      → All IsConsistent (write_set_priority tables t p actor db).tickets
  unfolding write_set_priority create_event update_ticket
  set_priority-IsConsistent t p actor db found all = rw sync-tickets (
      row-IsConsistent (reprioritised_row tables t p) t db found
        (reprioritised_row-IsConsistent t p) all)

  assign_user_cases :
      (now : ℕ) (actor user : String) (t : Ticket) (db : Db) {after : Db}
      → execute_action tables default_status_transitions side_action now actor
          (assign_user user)
          t
          db
        ≡ ok after
      → (db ≡ after) ⊎ ((truthy user ≡ true) × (apply_assignee_in_tx t user actor db ≡ ok after))
  unfolding execute_action
  assign_user_cases now actor user t db h = ground arith

  -- An action after which the ticket is not read again leaves the tickets alone.
  unrefreshed :
      (now : ℕ) (actor : String) (a : ActionNode) (t : Ticket) (db : Db) {after : Db}
      → refreshes a t ≡ false
      → execute_action tables default_status_transitions side_action now actor a t db ≡ ok after
      → after.tickets ≡ db.tickets
  unfolding execute_action refreshes ensure_follower
  unrefreshed now actor a t db e h = ground arith

  execute_action-IsConsistent :
      (now : ℕ) (actor : String) (a : ActionNode) (t : Ticket) (db : Db) {after : Db}
      → find_ticket db t.id ≡ some t
      → execute_action tables default_status_transitions side_action now actor a t db ≡ ok after
      → All IsConsistent db.tickets
      → All IsConsistent after.tickets
  unfolding execute_action
  execute_action-IsConsistent now actor (assign_team team) t db {after} found h all =
      elim (Bool-cases (truthy team)) [
        | inl e ↦
            apply_transfer-IsConsistent tables false t team none actor db found (rw e at h) all
        | inr e ↦ subst (λ d. All IsConsistent d.tickets) (ok_injective db after (rw e at h)) all
      ]
  execute_action-IsConsistent now actor (assign_user user) t db {after} found h all =
      elim (assign_user_cases now actor user t db h) [
        | inl same ↦ subst (λ d. All IsConsistent d.tickets) same all
        | inr (named, applied) ↦ apply_assignee-IsConsistent t user actor db named found applied all
      ]
  execute_action-IsConsistent now actor (set_priority p) t db {after} found h all =
      subst (λ d. All IsConsistent d.tickets)
        (ok_injective (write_set_priority tables t p actor db) after h)
        (set_priority-IsConsistent t p actor db found all)
  execute_action-IsConsistent now actor (set_status s) t db {after} found h all =
      elim (Bool-cases (same_status s t.status)) [
        | inl e ↦ subst (λ d. All IsConsistent d.tickets) (ok_injective db after (rw e at h)) all
        | inr e ↦
            apply-IsConsistent tables now t s actor
              (if same_status s closed then some auto_closed else none) db found (rw e at h) all
      ]
  execute_action-IsConsistent now actor (add_follower user target) t db found h all =
      rw (unrefreshed now actor (add_follower user target) t db (unfold refreshes in refl) h) all
  execute_action-IsConsistent now actor (outside type) t db found h all =
      rw (unrefreshed now actor (outside type) t db (unfold refreshes in refl) h) all

  refreshed_found :
      (a : ActionNode) (t : Ticket) (after : Db) {current : Ticket}
      → refreshes a t ≡ true
      → refreshed a t after ≡ ok current
      → find_ticket after t.id ≡ some current
  unfolding refreshed get_ticket_for_actions
  refreshed_found a t after e h = ground arith

  -- The ticket of the next action is the stored one.
  current_stored :
      (now : ℕ) (actor : String) (a : ActionNode) (t : Ticket) (db : Db) {after : Db}
      {current : Ticket}
      → find_ticket db t.id ≡ some t
      → execute_action tables default_status_transitions side_action now actor a t db ≡ ok after
      → refreshed a t after ≡ ok current
      → find_ticket after current.id ≡ some current
  unfolding refreshed find_ticket
  current_stored now actor a t db {after} {current} found h read =
      elim (Bool-cases (refreshes a t)) [
        | inl e ↦ stored_under_key after t.id (refreshed_found a t after e read)
        | inr e ↦
            subst (λ c. find_ticket after c.id ≡ some c) (ok_injective t current (rw e at read))
              (ap (find_by ticket_key t.id) (unrefreshed now actor a t db e h) ∙ found)
      ]

  -- The actions of a rule, carried out on a stored ticket, keep every ticket consistent.
  pub execute_actions-IsConsistent :
      (now : ℕ) (actor : String) (actions : List ActionNode) (t : Ticket) (db : Db) {after : Db}
      → find_ticket db t.id ≡ some t
      → execute_actions tables default_status_transitions side_action now actor actions t db
        ≡ ok after
      → All IsConsistent db.tickets
      → All IsConsistent after.tickets
  unfolding execute_actions
  execute_actions-IsConsistent now actor [] t db {after} found h all =
      subst (λ d. All IsConsistent d.tickets) (ok_injective db after h) all
  execute_actions-IsConsistent now actor (a ∷ rest) t db found h all =
      let (mid, done, more) =
        >>=-eq-ok (execute_action tables default_status_transitions side_action now actor a t db) _
          h in
      let (current, read, last) = >>=-eq-ok (refreshed a t mid) _ more in
      execute_actions-IsConsistent now actor rest current mid
        (current_stored now actor a t db found done read) last
        (execute_action-IsConsistent now actor a t db found done all)
