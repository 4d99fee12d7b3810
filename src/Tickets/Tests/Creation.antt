-- ===== src/Tickets/Tests/Creation.antt =====
-- The theorems on new tickets at concrete creations.
use cursor_multi_agent.Prelude.{◌≡◌, refl, true, false, none, some, List, [], ◌∷◌, ok, is_ok}
use cursor_multi_agent.Domain.{assigned, sev1, closed}
use cursor_multi_agent.Store.{Ticket, find_ticket, has_pair}
use cursor_multi_agent.Fields.Values.{
  validate_and_normalize_values_for_ticket, validate_each, check_required, dedupe_onto,
}
use cursor_multi_agent.Routing.Rules.{
  RoutingRule, route_target, first_target, sender_email, matches, evaluate_routing_conditions,
  legacy_text, eval_one, test_text, hay_of, target_of_rule, apply_actions, apply_action,
  checked_assignee, read_priority,
}
use cursor_multi_agent.Routing.RoundRobin.{
  resolve_assignee, resolve_for_team, next_member, find_index,
}
use cursor_multi_agent.Tickets.Requests.{message, to_status, to_assignee}
use cursor_multi_agent.Tickets.Requests.Handlers.{IsWellFormed}
use cursor_multi_agent.Tickets.Creation.{
  CreateTicket, Setting, Desk, Inserted, create_ticket, team_member_ids, inserted_row,
  check_assignee, resolved_assignee, log_assignment, follow_assignee, dated, save_ticket,
  write_ticket, creation_target, new_ticket, write_creation,
}
use cursor_multi_agent.Tickets.Creation.Laws.{IsNewTicket, created_ticket, created_member}
use cursor_multi_agent.Tickets.Creation.Sequences.{
  Entry, opening, handling, serve_entries, serve_entries-IsWellFormed,
}
use cursor_multi_agent.Tickets.Tests.{tables, desk, eve, boss, model}
use cursor_multi_agent.Tickets.Tests.Handlers.{desk-IsWellFormed}

-- Tickets that speak of a laptop are urgent and go to IT, whose members take turns.
abbrev laptops_to_it : RoutingRule
laptops_to_it = record {
  team_id = "it";
  assignee_id = none;
  keywords = "laptop" ∷ [];
  match_type = "ALL";
  conditions = [];
  actions = record { type = "set_priority"; value = "SEV1" } ∷ [];
}

abbrev office : Setting
office = record {
  texts = record {
    trim = λ s. s;
    lower = λ s. s;
    as_number = λ s. some s;
    as_date = λ s. some s;
    split_commas = λ s. s ∷ [];
    join_commas = λ parts. "";
  };
  to_upper_case = λ s. s;
  email_of = λ id. none;
  rules = laptops_to_it ∷ [];
  fields = [];
  sla = tables;
}

abbrev front : Desk
front = record {
  db = desk;
  teams = record { id = "it"; round_robin = true; last_assigned_user_id = none } ∷ [];
  values = [];
}

abbrev broken : CreateTicket
broken = record {
  subject = "my laptop";
  description = "is dead";
  priority = none;
  channel = none;
  requester_id = none;
  assigned_team_id = none;
  assignee_id = none;
  category_id = none;
  custom_field_values = none;
  tags = some ("screen" ∷ []);
}

abbrev row_two : Inserted
row_two = record { id = "t2"; created_at = 2_000; skip_required_custom_fields = false }

creation : Unit {0}
unfolding model create_ticket team_member_ids inserted_row check_assignee resolved_assignee
    log_assignment follow_assignee dated save_ticket write_ticket creation_target new_ticket
    write_creation route_target first_target sender_email matches evaluate_routing_conditions
    legacy_text eval_one test_text hay_of target_of_rule apply_actions apply_action checked_assignee
    read_priority resolve_assignee resolve_for_team next_member find_index
    validate_and_normalize_values_for_ticket validate_each check_required dedupe_onto
creation = tt

abbrev opened : Desk
opened =
    write_creation office broken row_two eve "eve" (creation_target office broken "eve" desk) []
      front

opens : create_ticket office broken row_two eve front ≡ ok (opened, "screen" ∷ [])
unfolding creation
opens = refl

abbrev opened_row : Ticket
opened_row =
    dated office
      (new_ticket office broken row_two "eve" (creation_target office broken "eve" desk) front)
      (new_ticket office broken row_two "eve" (creation_target office broken "eve" desk) front)

-- The turn is Ann's, and the rule has made the ticket urgent.
opened_for_ann :
    (opened_row.assignee_id ≡ some "ann")
    × (opened_row.status ≡ assigned)
    × (opened_row.priority ≡ sev1)
unfolding creation
opened_for_ann = (refl, refl, refl)

stored_row : find_ticket opened.db "t2" ≡ some opened_row
unfolding creation
stored_row = refl

created_ticket_example : (row : Ticket) × IsNewTicket office row_two "eve" desk opened.db row
created_ticket_example = created_ticket office broken row_two eve front opens

created_member_example : has_pair "it" "ann" desk.team_members ≡ true
unfolding creation
created_member_example =
    created_member office broken row_two eve front {row = opened_row} {who = "ann"} opens stored_row
      opened_for_ann.0 refl

-- A requester may not open a ticket for somebody else.
refuses_others :
    is_ok (create_ticket office (record broken { requester_id = some "ann" }) row_two eve front)
    ≡ false
unfolding creation
refuses_others = refl

abbrev morning : List Entry
morning =
    opening eve row_two broken
    ∷ handling (record { user = boss; now = 2_500; command = to_assignee "t2" (some "boss") })
    ∷ handling (record {
      user = boss;
      now = 3_000;
      command =
          message "t2"
            (record { author_id = none; body = "on it"; type = none; mentioned_ids = [] });
    })
    ∷ handling (record { user = eve; now = 4_000; command = to_status "t1" closed })
    ∷ []

serve_entries-IsWellFormed_example : IsWellFormed (serve_entries office morning front).db
serve_entries-IsWellFormed_example =
    serve_entries-IsWellFormed office morning front desk-IsWellFormed
