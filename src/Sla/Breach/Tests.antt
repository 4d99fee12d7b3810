-- ===== src/Sla/Breach/Tests.antt =====
-- The theorems on the breach worker at a ticket that is late.
use cursor_multi_agent.Prelude.{
  ◌+◌, ◌*◌, ◌≡◌, refl, true, none, some, [], ◌∷◌, List, ◌++◌, if◌then◌else◌, false,
}
use cursor_multi_agent.Domain.{new, sev3}
use cursor_multi_agent.Store.Tables.{find_by}
use cursor_multi_agent.Sla.Breach.{WorkerConfig, Run, BreachType}
use cursor_multi_agent.Store.{Ticket, SlaInstance, Db, find_ticket, BreachType, TicketEvent}
use cursor_multi_agent.Sla.Breach.Marks.{IsBreached}
use cursor_multi_agent.Sla.Breach.Ticks.{tick-IsBreached}
use cursor_multi_agent.Sla.Breach.Worker.{handle_breach, breach_event, breach_intent, tick}
use cursor_multi_agent.Sla.Breach.Effects.{breach_once, has_recipients, breach_effect}
use cursor_multi_agent.Sla.Policy.{SlaTables, hour_ms}

abbrev config : WorkerConfig
config = record {
  at_risk_threshold_ms = 100;
  priority_bump_enabled = true;
  on_call_emails = [];
  members = record { team_id = "it"; is_team_lead = true; user_id = "lea"; email = "lea@x" } ∷ [];
  batch_size = 10;
}

abbrev late : Ticket
late = record {
  id = "t7";
  requester_id = "eve";
  status = new;
  priority = sev3;
  assigned_team_id = some "it";
  assignee_id = none;
  created_at = 10;
  first_response_due_at = some 90;
  first_response_at = none;
  due_at = some 500;
  sla_paused_at = none;
  resolved_at = none;
  closed_at = none;
  completed_at = none;
  close_reason = none;
  deleted_at = none;
  deleted_by_id = none;
}

abbrev clock : SlaInstance
clock = record {
  ticket_id = "t7";
  policy_config_id = none;
  priority = sev3;
  first_response_due_at = some 90;
  resolution_due_at = some 500;
  paused_at = none;
  next_due_at = some 90;
  first_response_at_risk_notified_at = none;
  resolution_at_risk_notified_at = none;
  first_response_breached_at = none;
  resolution_breached_at = none;
}

abbrev desk : Db
desk = record {
  tickets = late ∷ [];
  events = [];
  admin_events = [];
  sla_instances = clock ∷ [];
  ticket_access = [];
  followers = [];
  teams = [];
  team_members = [];
  users = [];
}

abbrev breached_desk : Db
breached_desk = record desk {
  sla_instances = record clock { first_response_breached_at = some 95 } ∷ [];
}

abbrev start : Run
start = record { db = desk; intents = [] }

model : Unit {0}
unfolding find_by find_ticket
model = tt

abbrev tables : SlaTables
tables = record {
  assigned_row = λ _ _. none;
  default_row = λ _. none;
  add_business_hours = λ _ start hours. start + hours * hour_ms;
  subtract_business_hours = λ _ end_at hours. end_at;
}

tick-IsBreached_example :
    IsBreached BreachType.first_response "t7" 95
      (tick tables 50 false true config 200 true breached_desk).db
unfolding model
tick-IsBreached_example =
    tick-IsBreached tables BreachType.first_response "t7" 95 50 false true config 200 true
      breached_desk (record clock { first_response_breached_at = some 95 }, refl, refl)

breach_effect_example :
    let after = handle_breach config 95 clock late BreachType.first_response start in
    IsBreached BreachType.first_response "t7" 95 after.db
    × ((bumps : List TicketEvent) × (after.db.events
          ≡ bumps ++ (breach_event clock late BreachType.first_response ∷ [])))
    × (after.intents ≡ (
        if has_recipients config late
        then [] ++ (breach_intent config clock late BreachType.first_response ∷ [])
        else []))
unfolding model
breach_effect_example = breach_effect config 95 clock late BreachType.first_response start refl refl

breach_once_example :
    let once = handle_breach config 95 clock late BreachType.first_response start in
    handle_breach config 200 clock late BreachType.first_response once ≡ once
breach_once_example =
    breach_once config 95 200 clock clock late late BreachType.first_response start refl
