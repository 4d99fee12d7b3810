-- ===== src/Automation/Engine/Safety.antt =====
-- Automation and the consistency of tickets.
use cursor_multi_agent.Prelude.{
  ℕ, String, ◌≡◌, List, [], ◌∷◌, ok, err, All, Bool-cases, inl, inr, Option-cases, Result, some,
  is_some, refl,
}
use cursor_multi_agent.Automation.Conditions.{TextFns, Texts}
use cursor_multi_agent.Sla.Policy.{SlaTables}
use cursor_multi_agent.Store.{Db, create_event, Ticket, find_ticket}
use cursor_multi_agent.Automation.Engine.{
  run_rule, run_rules, run_for_ticket, create_event, AutomationTrigger, Ticket, AutomationRule,
  Office, find_ticket, some, execute_actions, applies, is_some,
}
use cursor_multi_agent.Tickets.Status.Laws.{IsConsistent}
use cursor_multi_agent.Tickets.Status.{default_status_transitions}
use cursor_multi_agent.Automation.Actions.{execute_actions}
use cursor_multi_agent.Automation.Actions.Laws.{execute_actions-IsConsistent}
use cursor_multi_agent.Tickets.Requests.Handlers.{stored_under_key}

module _ (fns : TextFns) (tables : SlaTables) (side_action : String → Db → Result (Unit {0})) where
  run_rule-IsConsistent :
      (now : ℕ) (trigger : AutomationTrigger) (t : Ticket) (rule : AutomationRule) (office : Office)
      → find_ticket office.db t.id ≡ some t
      → All IsConsistent office.db.tickets
      → All IsConsistent
          (run_rule fns tables default_status_transitions side_action now trigger t rule
            office).1.db.tickets
  unfolding run_rule create_event
  run_rule-IsConsistent now trigger t rule office found all =
      go
        (execute_actions tables default_status_transitions side_action now rule.created_by_id
          rule.actions t office.db)
        refl
    where
      go :
          (r : Result Db)
          → execute_actions tables default_status_transitions side_action now rule.created_by_id
              rule.actions t office.db
            ≡ r
          → All IsConsistent
              (run_rule fns tables default_status_transitions side_action now trigger t rule
                office).1.db.tickets
      go (ok after) e =
          rw (e, run_rule)
            (execute_actions-IsConsistent tables side_action now rule.created_by_id rule.actions t
              office.db found e all)
      go (err e) failed = rw (failed, run_rule) all

  run_rules-IsConsistent :
      (now : ℕ) (trigger : AutomationTrigger) (t : Ticket) (x : Texts) (rules : List AutomationRule)
      (office : Office)
      → find_ticket office.db t.id ≡ some t
      → All IsConsistent office.db.tickets
      → All IsConsistent
          (run_rules fns tables default_status_transitions side_action now trigger t x rules
            office).1.db.tickets
  unfolding run_rules
  run_rules-IsConsistent now trigger t x [] office found all = all
  run_rules-IsConsistent now trigger t x (rule ∷ rest) office found all =
      elim (Bool-cases (
        applies fns tables default_status_transitions side_action now trigger t x rule
          office.executions)) [
            | inl hit ↦ rw hit (run_rule-IsConsistent now trigger t rule office found all)
            | inr miss ↦ rw miss (run_rules-IsConsistent now trigger t x rest office found all)
          ]

  -- With the default table of transitions, a run of the automation for a ticket keeps every ticket
  -- consistent, whatever the rules, and whether it succeeds or not.
  pub run_for_ticket-IsConsistent :
      (now : ℕ) (id : String) (trigger : AutomationTrigger) (x : Texts)
      (rules : List AutomationRule) (office : Office)
      → All IsConsistent office.db.tickets
      → All IsConsistent
          (run_for_ticket fns tables default_status_transitions side_action now id trigger x rules
            office).1.db.tickets
  unfolding run_for_ticket
  run_for_ticket-IsConsistent now id trigger x rules office all =
      elim (Option-cases (find_ticket office.db id)) [
        | inl absent ↦ rw (absent, run_for_ticket) all
        | inr (t, found) ↦ elim (Bool-cases (is_some t.deleted_at)) [
          | inl gone ↦ rw (found, run_for_ticket, gone) all
          | inr live ↦
              rw (found, run_for_ticket, live)
                (run_rules-IsConsistent now trigger t x _ office
                  (stored_under_key office.db id found) all)
        ]
      ]
