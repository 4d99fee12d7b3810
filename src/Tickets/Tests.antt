-- ===== src/Tickets/Tests.antt =====
-- A small help desk: the tickets, users and databases at which the theorems on tickets are applied.
mod Status
mod Handlers
mod Messages
mod Creation
use cursor_multi_agent.Prelude.{
  ◌+◌, ◌*◌, ◌≡◌, refl, true, none, some, [], ◌∷◌, ok, All, arith, is_ok, ◌⊎◌, ◌-◌,
}
use cursor_multi_agent.Domain.{
  AuthUser, employee, agent, owner, new, assigned, waiting_on_requester, in_progress, closed, sev3,
}
use cursor_multi_agent.Store.{
  Ticket, Db, find_ticket, update_ticket, ticket_status_changed, create_event, has_pair, add_pair,
  remove_pair, user_role, has_team,
}
use cursor_multi_agent.Sla.Policy.{
  SlaTables, hour_ms, get_sla_config, team_row, default_sla_config, add_sla_hours,
  subtract_sla_hours, resolve_effective_policy_config_id,
}
use cursor_multi_agent.Store.Tables.{find_by, update_by}
use cursor_multi_agent.Tickets.Status.Laws.{IsConsistent}
use cursor_multi_agent.Tickets.Status.{
  includes_status, write_transition, apply_status_transition_in_tx, transitioned,
  get_available_transitions_for_ticket, default_status_transitions, is_valid_transition,
  effective_close_reason, resumed_due_at, next_due_date, next_paused_at,
}
use cursor_multi_agent.Tickets.Status.Effects.{
  apply-IsConsistent, available_iff_accepted, accepted_effect,
}
use cursor_multi_agent.Tickets.Status.Pause.{pause_extends_due}
use cursor_multi_agent.Sla.Engine.{
  compute_next_due_at, linked_policy, resolved_policy, updated_instance, created_instance,
  upsert_instance, sync_from_ticket,
}
use cursor_multi_agent.Access.{
  can_write_ticket, can_view_ticket, operational_team_ids, administered_team, can_write_in_scope,
}
use cursor_multi_agent.Tickets.Guards.{can_assign_ticket, resolve_close_reason}
use cursor_multi_agent.Tickets.Assignment.{
  ensure_follower, may_be_assigned, assigned_row, log_status, write_assignee, apply_assignee_in_tx,
  assign,
}
use cursor_multi_agent.Tickets.Transfer.{
  cycle_start, transferred_first_response, transferred_due, transferred_row, grant_prior_team,
  write_transfer, may_receive, apply_team_transfer_in_tx, transfer,
}
use cursor_multi_agent.Tickets.Transition.{transition}
use cursor_multi_agent.Tickets.Removal.{
  is_team_admin_of_ticket, deleted_row, restored_row, write_deletion, write_restoration,
  soft_delete, restore,
}
use cursor_multi_agent.Tickets.Priority.{prioritised_row, write_priority, change_priority}
use cursor_multi_agent.Tickets.Requests.{handle, serve}

-- Calendars that are open all day.
abbrev pub tables : SlaTables
tables = record {
  assigned_row = λ _ _. none;
  default_row = λ _. none;
  add_business_hours = λ _ start hours. start + hours * hour_ms;
  subtract_business_hours = λ _ end_at hours. end_at;
}

abbrev pub laptop : Ticket
laptop = record {
  id = "t1";
  requester_id = "eve";
  status = new;
  priority = sev3;
  assigned_team_id = some "it";
  assignee_id = none;
  created_at = 1_000;
  first_response_due_at = none;
  first_response_at = none;
  due_at = some 500_000;
  sla_paused_at = none;
  resolved_at = none;
  closed_at = none;
  completed_at = none;
  close_reason = none;
  deleted_at = none;
  deleted_by_id = none;
}

abbrev pub desk : Db
desk = record {
  tickets = laptop ∷ [];
  events = [];
  admin_events = [];
  sla_instances = [];
  ticket_access = [];
  followers = [];
  teams = "it" ∷ "hr" ∷ [];
  team_members = ("it", "ann") ∷ [];
  users = ("eve", employee) ∷ ("ann", agent) ∷ ("boss", owner) ∷ [];
}

abbrev busy : Ticket
busy = record laptop { status = assigned; assignee_id = some "ann" }

abbrev busy_desk : Db
busy_desk = record desk { tickets = busy ∷ [] }

abbrev eve : AuthUser
eve = record {
  id = "eve";
  role = employee;
  team_id = none;
  primary_team_id = none;
  member_team_ids = none;
}

abbrev boss : AuthUser
boss = record eve { id = "boss"; role = owner }

abbrev ann : AuthUser
ann = record eve { id = "ann"; role = agent; member_team_ids = some ("it" ∷ []) }

model : Unit {0}
unfolding find_ticket find_by update_by update_ticket create_event has_pair add_pair remove_pair
    user_role has_team get_sla_config team_row default_sla_config add_sla_hours subtract_sla_hours
    resolve_effective_policy_config_id compute_next_due_at linked_policy resolved_policy
    updated_instance created_instance upsert_instance sync_from_ticket default_status_transitions
    is_valid_transition get_available_transitions_for_ticket effective_close_reason resumed_due_at
    next_due_date next_paused_at transitioned write_transition apply_status_transition_in_tx
    can_write_ticket can_view_ticket operational_team_ids administered_team can_write_in_scope
    can_assign_ticket resolve_close_reason ensure_follower may_be_assigned assigned_row log_status
    write_assignee apply_assignee_in_tx assign cycle_start transferred_first_response
    transferred_due transferred_row grant_prior_team write_transfer may_receive
    apply_team_transfer_in_tx transfer transition is_team_admin_of_ticket deleted_row restored_row
    write_deletion write_restoration soft_delete restore prioritised_row write_priority
    change_priority handle serve
model = tt
