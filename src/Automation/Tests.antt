-- ===== src/Automation/Tests.antt =====
-- The theorems on automation at a rule that raises the priority of tickets about laptops.
use cursor_multi_agent.Prelude.{
  ◌*◌, List, String, ◌≡◌, refl, true, false, none, List, [], ◌∷◌, arith, ok, All, ◌⊎◌, ◌++◌, Result,
  ℕ, some,
}
use cursor_multi_agent.Domain.{sev1}
use cursor_multi_agent.Tickets.Tests.{tables, laptop, desk}
use cursor_multi_agent.Automation.Conditions.{
  TextFns, Texts, cons, field_is, one, str, nil, evaluate_conditions, every_node, ConditionNodes,
  evaluate_node, number, evaluate_single, ticket_to_context, at_least, as_number, value_number,
}
use cursor_multi_agent.Automation.Engine.{
  AutomationRule, Office, run_rule, applies, sla_breached, run_for_ticket, run_rules,
  unassigned_for,
}
use cursor_multi_agent.Store.{Db, sla_breached, find_ticket, update_ticket, create_event, Ticket}
use cursor_multi_agent.Automation.Actions.{
  execute_actions, execute_action, refreshes, refreshed, get_ticket_for_actions, write_set_priority,
  reprioritised_row, set_priority, moved_due,
}
use cursor_multi_agent.Automation.Engine.Laws.{NoneApplies, not_repeated, first_match}
use cursor_multi_agent.Tickets.Status.Laws.{IsConsistent}
use cursor_multi_agent.Tickets.Status.{default_status_transitions}
use cursor_multi_agent.Automation.Engine.Safety.{run_for_ticket-IsConsistent}
use cursor_multi_agent.Store.Tables.{find_by, update_by}
use cursor_multi_agent.Sla.Policy.{
  get_sla_config, team_row, default_sla_config, resolve_effective_policy_config_id,
}
use cursor_multi_agent.Sla.Engine.{
  compute_next_due_at, linked_policy, resolved_policy, updated_instance, created_instance,
  upsert_instance, sync_from_ticket,
}
use cursor_multi_agent.Automation.Scheduler.{
  rule_candidates, order_key, order_by, insert_by, candidate_where, extract_threshold, visit_all,
  visit, visit_field,
}
use mathlib.Core.List.Memᴰ
use cursor_multi_agent.Automation.Scheduler.Thresholds.{Avoids, AvoidsAll}

-- A reading of texts that is enough for the words below.
abbrev plain : TextFns
plain = record {
  to_lower_case = λ s. s;
  trim = λ s. s;
  decimal = λ n. "0";
  read_number = λ s. none;
  read_array = λ xs. none;
}

abbrev texts : Texts
texts = record { subject = "Laptop"; description = none; category_id = none; updated_at = 1_000 }

abbrev raise_laptops : AutomationRule
raise_laptops = record {
  id = "r1";
  trigger = sla_breached;
  is_active = true;
  team_id = none;
  conditions = cons (field_is "subject" "equals" (one (str "Laptop"))) nil;
  actions = set_priority sev1 ∷ [];
  created_by_id = "boss";
}

abbrev office : Office
office = record { db = desk; executions = [] }

abbrev never : String → Db → Result (Unit {0})
never type db = ok tt

model : Unit {0}
unfolding find_ticket find_by update_by update_ticket create_event get_sla_config team_row
    default_sla_config resolve_effective_policy_config_id compute_next_due_at linked_policy
    resolved_policy updated_instance created_instance upsert_instance sync_from_ticket
    execute_actions execute_action refreshes refreshed get_ticket_for_actions write_set_priority
    reprioritised_row moved_due run_rule run_rules run_for_ticket applies evaluate_conditions
    every_node
model = tt

first_match_example :
    (NoneApplies plain tables default_status_transitions never 9 sla_breached laptop texts []
        (raise_laptops ∷ [])
      × (run_rules plain tables default_status_transitions never 9 sla_breached laptop texts
            (raise_laptops ∷ [])
            office
          ≡ (false, office)))
    ⊎ ((before : List AutomationRule) × (rule : AutomationRule) × (after : List AutomationRule)
        × (raise_laptops ∷ [] ≡ before ++ (rule ∷ after))
        × NoneApplies plain tables default_status_transitions never 9 sla_breached laptop texts []
            before
        × (applies plain tables default_status_transitions never 9 sla_breached laptop texts rule []
            ≡ true)
        × (run_rules plain tables default_status_transitions never 9 sla_breached laptop texts
              (raise_laptops ∷ [])
              office
            ≡ run_rule plain tables default_status_transitions never 9 sla_breached laptop rule
                office))
first_match_example =
    first_match plain tables default_status_transitions never 9 sla_breached laptop texts
      (raise_laptops ∷ []) office

not_repeated_example :
    applies plain tables default_status_transitions never 10 sla_breached laptop texts raise_laptops
      (run_rule plain tables default_status_transitions never 9 sla_breached laptop raise_laptops
        office).1.executions
    ≡ false
unfolding model
not_repeated_example =
    not_repeated plain tables default_status_transitions never 9 10 sla_breached laptop laptop texts
      raise_laptops office refl refl refl (omega arith)

run_for_ticket-IsConsistent_example :
    All IsConsistent
      (run_for_ticket plain tables default_status_transitions never 9 "t1" sla_breached texts
        (raise_laptops ∷ [])
        office).1.db.tickets
run_for_ticket-IsConsistent_example =
    run_for_ticket-IsConsistent plain tables never 9 "t1" sla_breached texts (raise_laptops ∷ [])
      office (ground arith, tt)

abbrev waiting_conditions : ConditionNodes
waiting_conditions = cons (field_is "hoursUnassigned" "gte" (one (number 24))) nil

abbrev a_day_on : ℕ
a_day_on = 100_000_000

scheduled : Unit {0}
unfolding evaluate_conditions every_node evaluate_node evaluate_single ticket_to_context at_least
    as_number value_number extract_threshold visit_all visit visit_field Avoids AvoidsAll
scheduled = tt

-- The batch has room for one ticket; the laptop is the older one.
abbrev two_rows : List (Ticket × Texts)
two_rows = (record laptop { id = "t2"; created_at = 2_000 }, texts) ∷ (laptop, texts) ∷ []

-- It is the one that is chosen.
oldest_first :
    rule_candidates 1 unassigned_for
      (extract_threshold plain waiting_conditions)
      (some "it")
      (2 * a_day_on)
      two_rows
    ≡ some ((laptop, texts) ∷ [])
unfolding scheduled rule_candidates order_key order_by insert_by candidate_where
oldest_first = refl
