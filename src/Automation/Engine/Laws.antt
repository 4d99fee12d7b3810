-- ===== src/Automation/Engine/Laws.antt =====
-- Which rule runs, and how often.
use cursor_multi_agent.Prelude.{
  ℕ, String, ◌≡◌, refl, true, false, List, [], ◌∷◌, ◌++◌, ◌⊎◌, arith, eq_refl, Result, All, inl,
  Bool-cases, ◌≤◌, inr, ◌+◌, ap, ◌*◌,
}
use cursor_multi_agent.Automation.Conditions.{TextFns, Texts}
use cursor_multi_agent.Sla.Policy.{SlaTables, hour_ms}
use cursor_multi_agent.Tickets.Status.{Transitions}
use cursor_multi_agent.Store.{Db, Ticket}
use cursor_multi_agent.Automation.Engine.{
  AutomationTrigger, run_rules, run_rule, Ticket, already_executed_recently, AutomationRule,
  applies, Execution, Office, is_de_duped, sla_de_dupe_hours, hour_ms,
}

module _ (fns : TextFns) (tables : SlaTables) (table : Transitions)
    (side_action : String → Db → Result (Unit {0})) where
  -- No rule of the list applies.
  abbrev pub NoneApplies :
      ℕ → AutomationTrigger → Ticket → Texts → List Execution → List AutomationRule → Type 0
  NoneApplies now trigger t x executions rules =
      All (λ r. applies fns tables table side_action now trigger t x r executions ≡ false) rules

  -- A run either finds no rule that applies and changes nothing, or carries out exactly one, the first
  -- that applies.
  pub first_match :
      (now : ℕ) (trigger : AutomationTrigger) (t : Ticket) (x : Texts) (rules : List AutomationRule)
      (office : Office)
      → (NoneApplies now trigger t x office.executions rules
          × (run_rules fns tables table side_action now trigger t x rules office ≡ (false, office)))
        ⊎ ((before : List AutomationRule) × (rule : AutomationRule) × (after : List AutomationRule)
            × (rules ≡ before ++ (rule ∷ after))
            × NoneApplies now trigger t x office.executions before
            × (applies fns tables table side_action now trigger t x rule office.executions ≡ true)
            × (run_rules fns tables table side_action now trigger t x rules office
                ≡ run_rule fns tables table side_action now trigger t rule office))
  unfolding run_rules
  first_match now trigger t x [] office = inl (tt, refl)
  first_match now trigger t x (rule ∷ rest) office =
      elim (Bool-cases
        (applies fns tables table side_action now trigger t x rule office.executions)) [
          | inl hit ↦ inr ([], rule, rest, refl, tt, hit, rw hit)
          | inr no_match ↦ elim (first_match now trigger t x rest office) [
            | inl (none_of, same) ↦ inl ((no_match, none_of), rw (no_match, same))
            | inr (before, chosen, after, split, skipped, hit, same) ↦ inr (
              rule ∷ before,
              chosen,
              after,
              ap (λ l. rule ∷ l) split,
              (no_match, skipped),
              hit,
              rw (no_match, same),
            )
          ]
        ]

  -- The transaction of a rule either succeeds, and then the rule counts as executed; or it fails, and
  -- then the database is as it was and the failure does not count as an execution.
  pub rule_is_atomic :
      (now : ℕ) (trigger : AutomationTrigger) (t : Ticket) (rule : AutomationRule) (office : Office)
      → let run = run_rule fns tables table side_action now trigger t rule office in
        ((run.0 ≡ true)
          × (already_executed_recently now rule.id t.id trigger run.1.executions ≡ true))
        ⊎ ((run.0 ≡ false)
            × (run.1.db ≡ office.db)
            × (already_executed_recently now rule.id t.id trigger run.1.executions
                ≡ already_executed_recently now rule.id t.id trigger office.executions))
  unfolding run_rule already_executed_recently
  rule_is_atomic now trigger t rule office = ground (arith, eq_refl rule.id, eq_refl t.id)

  -- A rule of a de-duplicated trigger that has run with success does not apply to the same ticket again
  -- within 24 hours, whatever has become of the ticket.
  pub not_repeated :
      (now later : ℕ) (trigger : AutomationTrigger) (t u : Ticket) (x : Texts)
      (rule : AutomationRule) (office : Office)
      → (run_rule fns tables table side_action now trigger t rule office).0 ≡ true
      → is_de_duped trigger ≡ true
      → u.id ≡ t.id
      → later ≤ now + sla_de_dupe_hours * hour_ms
      → applies fns tables table side_action later trigger u x rule
          (run_rule fns tables table side_action now trigger t rule office).1.executions
        ≡ false
  unfolding run_rule already_executed_recently applies
  not_repeated now later trigger t u x rule office ran duped same soon =
      ground (arith, eq_refl rule.id, eq_refl t.id)
