-- ===== src/Sla/Tests.antt =====
-- The theorems on service levels at concrete tickets and instances.
use cursor_multi_agent.Prelude.{◌+◌, ◌*◌, ◌≡◌, refl, false, none, some, [], ◌∷◌}
use cursor_multi_agent.Domain.{new, sev3}
use cursor_multi_agent.Store.{Ticket, Db, SlaInstance, find_ticket, instance_key}
use cursor_multi_agent.Sla.Policy.{
  SlaTables, PolicyRow, hour_ms, get_sla_config, resolve_effective_policy_config_id, team_row,
}
use cursor_multi_agent.Store.Tables.{find_by}
use cursor_multi_agent.Sla.Engine.{compute_next_due_at, sync_from_ticket, no_options}
use cursor_multi_agent.Sla.Engine.Laws.{Mirrors, sync-Mirrors}

abbrev gold : PolicyRow
gold = record {
  policy_config_id = "gold";
  first_response_hours = 1;
  resolution_hours = 8;
  business_hours_only = false;
}

abbrev tables : SlaTables
tables = record {
  assigned_row = λ _ _. some gold;
  default_row = λ _. none;
  add_business_hours = λ _ start hours. start + hours * hour_ms;
  subtract_business_hours = λ _ end_at hours. end_at;
}

abbrev printer : Ticket
printer = record {
  id = "t7";
  requester_id = "eve";
  status = new;
  priority = sev3;
  assigned_team_id = some "it";
  assignee_id = none;
  created_at = 1_000;
  first_response_due_at = some 90;
  first_response_at = some 60;
  due_at = some 500;
  sla_paused_at = none;
  resolved_at = none;
  closed_at = none;
  completed_at = none;
  close_reason = none;
  deleted_at = none;
  deleted_by_id = none;
}

abbrev desk : Db
desk = record {
  tickets = printer ∷ [];
  events = [];
  admin_events = [];
  sla_instances = [];
  ticket_access = [];
  followers = [];
  teams = [];
  team_members = [];
  users = [];
}

model : Unit {0}
unfolding find_ticket find_by get_sla_config team_row resolve_effective_policy_config_id
    compute_next_due_at
model = tt

sync-Mirrors_example :
    let after = sync_from_ticket tables "t7" no_options desk in
    (i : SlaInstance) × (find_by instance_key "t7" after.sla_instances ≡ some i)
    × Mirrors printer i
    × (after.tickets ≡ desk.tickets)
unfolding model
sync-Mirrors_example = sync-Mirrors tables no_options "t7" desk refl
