-- ===== src/Automation/Actions.antt =====
-- The actions of automation rules: `executeActions`. The actions that change the ticket row or its
-- followers are modelled, except for `set_category`; the others (notifications, notes, tags, mail) write
-- to tables that are left out here, and a parameter says whether one of them throws.
-- A priority that is none makes the source skip the action, and a status that is none makes it throw;
-- here both are of their enumeration.
pub mod Laws
use cursor_multi_agent.Prelude.{
  ℕ, String, Bool, true, false, not, ◌&&◌, Option, none, some, List, [], ◌∷◌, ◌==◌, ◌+◌, ◌-◌, ◌*◌,
  if◌then◌else◌, Result, ok, err, ◌>>=◌, plain_error, truthy, present, is_some,
}
use cursor_multi_agent.Domain.{
  TicketStatus, TicketPriority, closed, same_status, auto_closed, TicketCloseReason,
}
use cursor_multi_agent.Store.{
  Ticket, Db, find_ticket, update_ticket, create_event, ticket_priority_changed,
}
use cursor_multi_agent.Sla.Policy.{SlaTables, get_sla_config, hour_ms}
use cursor_multi_agent.Sla.Engine.{no_options, sync_from_ticket}
use cursor_multi_agent.Tickets.Status.{Transitions, apply_status_transition_in_tx}
use cursor_multi_agent.Tickets.Assignment.{apply_assignee_in_tx, ensure_follower}
use cursor_multi_agent.Tickets.Transfer.{apply_team_transfer_in_tx}

-- Whom `add_follower` means without a user id.
pub data FollowerTarget : Type 0 where
  requester assignee nobody : FollowerTarget

pub data ActionNode : Type 0 where
  assign_team assign_user : String → ActionNode
  set_priority : TicketPriority → ActionNode
  set_status : TicketStatus → ActionNode
  add_follower : Option String → FollowerTarget → ActionNode
  outside : String → ActionNode

unfoldable pub resolve_follower_id : Option String → FollowerTarget → Ticket → Option String
resolve_follower_id user_id target t =
    if present user_id
    then user_id
    else elim target [ requester ↦ some t.requester_id | assignee ↦ t.assignee_id | nobody ↦ none ]

-- `getTicketForActions`
unfoldable pub get_ticket_for_actions : Db → String → Result Ticket
get_ticket_for_actions db id = elim (find_ticket db id) [
  | none ↦ err (plain_error "Ticket not found")
  | some t ↦ if is_some t.deleted_at then err (plain_error "Ticket not found") else ok t
]

-- The date moved by plain hours, from the old policy's span to the new one's.
unfoldable pub moved_due : Option ℕ → ℕ → ℕ → ℕ → ℕ
moved_due (some due) old_hours new_hours created_at =
    due + new_hours * hour_ms - old_hours * hour_ms
moved_due none old_hours new_hours created_at = created_at + new_hours * hour_ms

module _ (tables : SlaTables) where
  unfoldable pub reprioritised_row : Ticket → TicketPriority → Ticket → Ticket
  reprioritised_row current priority row =
      let old_sla = get_sla_config tables current.priority current.assigned_team_id in
      let new_sla = get_sla_config tables priority current.assigned_team_id in
      record row {
        priority = priority;
        first_response_due_at = some (
            moved_due current.first_response_due_at old_sla.first_response_hours
              new_sla.first_response_hours current.created_at);
        due_at = some (
            moved_due current.due_at old_sla.resolution_hours new_sla.resolution_hours
              current.created_at);
      }

  unfoldable pub write_set_priority : Ticket → TicketPriority → String → Db → Db
  write_set_priority current priority actor db =
      sync_from_ticket tables current.id
        (record no_options {
          policy_config_id =
              some (get_sla_config tables priority current.assigned_team_id).policy_config_id;
        })
        (create_event
          (record {
            ticket_id = current.id;
            body = ticket_priority_changed current.priority priority;
            created_by_id = some actor;
          })
          (update_ticket current.id (reprioritised_row current priority) db))

-- Is the ticket read again after the action?
unfoldable pub refreshes : ActionNode → Ticket → Bool
refreshes (assign_team team) t = truthy team
refreshes (assign_user user) t = truthy user
refreshes (set_priority p) t = true
refreshes (set_status s) t = not (same_status s t.status)
refreshes (add_follower user_id target) t = false
refreshes (outside type) t = false

unfoldable pub refreshed : ActionNode → Ticket → Db → Result Ticket
refreshed a t after = if refreshes a t then get_ticket_for_actions after t.id else ok t

module _ (tables : SlaTables) (table : Transitions)
    (side_action : String → Db → Result (Unit {0})) where
  -- One action on the ticket as it was last read.
  unfoldable pub execute_action : ℕ → String → ActionNode → Ticket → Db → Result Db
  execute_action now actor (assign_team team) t db =
      if truthy team then apply_team_transfer_in_tx tables false t team none actor db else ok db
  execute_action now actor (assign_user user) t db =
      if not (truthy user)
      then ok db
      else if not (present t.assigned_team_id)
      then err (plain_error "assign_user requires the ticket to be assigned to a team first")
      else apply_assignee_in_tx t user actor db
  execute_action now actor (set_priority p) t db = ok (write_set_priority tables t p actor db)
  execute_action now actor (set_status s) t db =
      if same_status s t.status
      then ok db
      else apply_status_transition_in_tx tables table now t s actor
          (if same_status s closed then some auto_closed else none) db
  execute_action now actor (add_follower user_id target) t db =
      elim (resolve_follower_id user_id target t) [
        | none ↦ ok db
        | some follower ↦ if truthy follower then ok (ensure_follower t.id follower db) else ok db
      ]
  execute_action now actor (outside type) t db = side_action type db >>= λ done. ok db

  -- `current` goes from action to action.
  unfoldable pub execute_actions : ℕ → String → List ActionNode → Ticket → Db → Result Db
  execute_actions now actor [] t db = ok db
  execute_actions now actor (a ∷ rest) t db = execute_action now actor a t db >>= λ after.
      refreshed a t after >>= λ current. execute_actions now actor rest current after
