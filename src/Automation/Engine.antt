-- ===== src/Automation/Engine.antt =====
-- `runForTicket`: the first rule that applies is carried out in a transaction. The mails and the realtime
-- message after the commit are left out.
pub mod Laws
pub mod Safety
use cursor_multi_agent.Automation.Conditions.{nil, cons}
use cursor_multi_agent.Prelude.{
  ℕ, String, Bool, true, false, not, ◌&&◌, ◌||◌, Option, none, some, List, [], ◌∷◌, ◌==◌, ◌-◌, ◌*◌,
  leb, if◌then◌else◌, Result, ok, err, any, present, ◌===◌, is_some, is_empty, eqb, filter,
}
use cursor_multi_agent.Store.{Ticket, Db, find_ticket, create_event, automation_rule_executed}
use cursor_multi_agent.Sla.Policy.{SlaTables, hour_ms}
use cursor_multi_agent.Tickets.Status.{Transitions}
use cursor_multi_agent.Automation.Conditions.{
  ConditionNodes, TextFns, cons, Texts, evaluate_conditions, ticket_to_context,
}
use cursor_multi_agent.Automation.Actions.{ActionNode, execute_actions}

pub data AutomationTrigger : Type 0 where
  ticket_created status_changed sla_approaching sla_breached time_in_status unassigned_for :
      AutomationTrigger

-- The position of a trigger in its enumeration, for `===` on triggers.
abbrev pub trigger_ordinal : AutomationTrigger → ℕ
trigger_ordinal ticket_created = 0
trigger_ordinal status_changed = 1
trigger_ordinal sla_approaching = 2
trigger_ordinal sla_breached = 3
trigger_ordinal time_in_status = 4
trigger_ordinal unassigned_for = 5

abbrev pub same_trigger : AutomationTrigger → AutomationTrigger → Bool
same_trigger a b = eqb (trigger_ordinal a) (trigger_ordinal b)

-- `DE_DUPED_TRIGGERS.includes(trigger)`
abbrev pub is_de_duped : AutomationTrigger → Bool
is_de_duped ticket_created = false
is_de_duped status_changed = false
is_de_duped _ = true

pub record AutomationRule : Type 0 where
  pub id : String
  pub trigger : AutomationTrigger
  pub is_active : Bool
  pub team_id : Option String
  pub conditions : ConditionNodes
  pub actions : List ActionNode
  pub created_by_id : String

-- A row of `AutomationExecution`.
pub record Execution : Type 0 where
  pub rule_id : String
  pub ticket_id : String
  pub trigger : AutomationTrigger
  pub success : Bool
  pub executed_at : ℕ

pub record Office : Type 0 where
  pub db : Db
  pub executions : List Execution

abbrev pub sla_de_dupe_hours : ℕ
sla_de_dupe_hours = 24

abbrev pub counts_for : ℕ → String → String → AutomationTrigger → Execution → Bool
counts_for since rule_id ticket_id trigger e =
    (e.rule_id == rule_id)
    && (e.ticket_id == ticket_id)
    && same_trigger e.trigger trigger
    && e.success
    && leb since e.executed_at

unfoldable pub already_executed_recently :
    ℕ → String → String → AutomationTrigger → List Execution → Bool
already_executed_recently now rule_id ticket_id trigger executions =
    any (counts_for (now - sla_de_dupe_hours * hour_ms) rule_id ticket_id trigger) executions

abbrev pub no_conditions : ConditionNodes → Bool
no_conditions nil = true
no_conditions (cons n nodes) = false

module _ (fns : TextFns) (tables : SlaTables) (table : Transitions)
    (side_action : String → Db → Result (Unit {0})) where
  -- The tests of the loop, each of which is a `continue`.
  unfoldable pub applies :
      ℕ → AutomationTrigger → Ticket → Texts → AutomationRule → List Execution → Bool
  applies now trigger t x rule executions =
      not (
        present rule.team_id
        && not (elim rule.team_id [ none ↦ false | some team ↦ t.assigned_team_id === team ]))
      && not (no_conditions rule.conditions)
      && evaluate_conditions fns (ticket_to_context now t x) rule.conditions
      && not (is_empty rule.actions)
      && not (is_de_duped trigger && already_executed_recently now rule.id t.id trigger executions)

  -- The transaction of a rule and its record: does it succeed, and what it leaves.
  unfoldable pub run_rule : ℕ → AutomationTrigger → Ticket → AutomationRule → Office → Bool × Office
  run_rule now trigger t rule office =
      elim (execute_actions tables table side_action now rule.created_by_id rule.actions t
        office.db) [
          | ok db ↦ (
            true,
            record {
              db =
                  create_event
                    (record {
                      ticket_id = t.id;
                      body = automation_rule_executed rule.id;
                      created_by_id = some rule.created_by_id;
                    })
                    db;
              executions =
                  record {
                    rule_id = rule.id;
                    ticket_id = t.id;
                    trigger = trigger;
                    success = true;
                    executed_at = now;
                  }
                  ∷ office.executions;
            },
          )
          | err e ↦ (
            false,
            record office {
              executions =
                  record {
                    rule_id = rule.id;
                    ticket_id = t.id;
                    trigger = trigger;
                    success = false;
                    executed_at = now;
                  }
                  ∷ office.executions;
            },
          )
        ]

  -- The loop over the rules of the query; the first component is `executed > 0`.
  unfoldable pub run_rules :
      ℕ → AutomationTrigger → Ticket → Texts → List AutomationRule → Office → Bool × Office
  run_rules now trigger t x [] office = (false, office)
  run_rules now trigger t x (rule ∷ rest) office =
      let later = run_rules now trigger t x rest office in
      if applies now trigger t x rule office.executions
      then run_rule now trigger t rule office
      else later

  -- `where: { trigger, isActive: true }`; the rules stand in the order of the query.
  abbrev pub selected : AutomationTrigger → List AutomationRule → List AutomationRule
  selected trigger rules = filter (λ r. r.is_active && same_trigger r.trigger trigger) rules

  unfoldable pub run_for_ticket :
      ℕ → String → AutomationTrigger → Texts → List AutomationRule → Office → Bool × Office
  run_for_ticket now id trigger x rules office = elim (find_ticket office.db id) [
    | none ↦ (false, office)
    | some t ↦
        if is_some t.deleted_at
        then (false, office)
        else run_rules now trigger t x (selected trigger rules) office
  ]
