-- ===== src/Automation/Scheduler.antt =====
-- apps/api/src/automation/automation-scheduler.service.ts: the threshold of a timed rule and the tickets
-- that a run selects by it for the rule engine. Hours are natural numbers.
pub mod Batches
pub mod Thresholds
pub mod Laws
use cursor_multi_agent.Automation.Conditions.{malformed, all_of, any_of, field_is, nil, cons}
use cursor_multi_agent.Automation.Engine.{time_in_status, unassigned_for}
use cursor_multi_agent.Prelude.{
  ℕ, String, Bool, true, false, not, ◌&&◌, ◌||◌, Option, none, some, List, [], ◌∷◌, ◌++◌, ◌==◌, ◌+◌,
  ◌*◌, leb, any, filter, take, if◌then◌else◌, is_none, present, ◌===◌, is_empty,
}
use cursor_multi_agent.Domain.{
  TicketStatus, new, triaged, assigned, in_progress, waiting_on_requester, waiting_on_vendor,
  resolved, closed, reopened, same_status,
}
use cursor_multi_agent.Store.{Ticket}
use cursor_multi_agent.Sla.Policy.{hour_ms}
use cursor_multi_agent.Automation.Conditions.{
  Scalar, Value, TextFns, str, one, value_number, ConditionNode, ConditionNodes, Texts, status_text,
  several, field_is, all_of, any_of, cons,
}
use cursor_multi_agent.Automation.Engine.{AutomationTrigger}

pub record RuleThreshold : Type 0 where
  pub hours : Option ℕ
  pub statuses : List TicketStatus

abbrev pub ticket_statuses : List TicketStatus
ticket_statuses =
    new ∷ triaged ∷ assigned ∷ in_progress ∷ waiting_on_requester ∷ waiting_on_vendor ∷ resolved
    ∷ closed ∷ reopened ∷ []

-- The statuses that a value names.
unfoldable pub named_statuses : Scalar → List TicketStatus
named_statuses (str s) = filter (λ x. status_text x == s) ticket_statuses
named_statuses _ = []

unfoldable pub all_named : List Scalar → List TicketStatus
all_named [] = []
all_named (x ∷ xs) = named_statuses x ++ all_named xs

-- The statuses that a condition on `status` adds.
unfoldable pub added_statuses : String → Value → List TicketStatus
added_statuses operator (one x) = if operator == "equals" then named_statuses x else []
added_statuses operator (several xs) = if operator == "in" then all_named xs else []

abbrev pub is_hour_field : String → Bool
is_hour_field field = (field == "hoursSinceActivity") || (field == "hoursUnassigned")

module _ (fns : TextFns) where
  unfoldable pub visit_field : String → String → Value → RuleThreshold → RuleThreshold
  visit_field field operator value result =
      if is_hour_field field && (operator == "gte")
      then (elim (value_number fns value) [
        | none ↦ result
        | some hours ↦ record result { hours = some hours }
      ])
      else if field == "status"
      then record result { statuses = result.statuses ++ added_statuses operator value }
      else result

  unfoldable mutual
    pub visit : ConditionNode → RuleThreshold → RuleThreshold
    visit (field_is field operator value) result = visit_field field operator value result
    visit (all_of nodes) result = visit_all nodes result
    visit (any_of nodes) result = result
    visit malformed result = result

    pub visit_all : ConditionNodes → RuleThreshold → RuleThreshold
    visit_all nil result = result
    visit_all (cons n nodes) result = visit_all nodes (visit n result)

  unfoldable pub extract_threshold : ConditionNodes → RuleThreshold
  extract_threshold conditions = visit_all conditions (record { hours = none; statuses = [] })

abbrev pub in_team : Option String → Ticket → Bool
in_team none t = true
in_team (some team) t = not (present (some team)) || (t.assigned_team_id === team)

abbrev pub time_in_status_query : ℕ → List TicketStatus → Option String → ℕ → Ticket → Texts → Bool
time_in_status_query hours statuses team now t x =
    is_none t.deleted_at
    && any (λ s. same_status s t.status) statuses
    && leb (x.updated_at + hours * hour_ms) now
    && in_team team t

abbrev pub unassigned_for_query : ℕ → Option String → ℕ → Ticket → Texts → Bool
unassigned_for_query hours team now t x =
    is_none t.deleted_at
    && is_none t.assignee_id
    && not (same_status t.status resolved || same_status t.status closed)
    && leb (t.created_at + hours * hour_ms) now
    && in_team team t

-- Does the query of `candidateWhere` select the ticket? None if the rule has no query.
unfoldable pub candidate_where :
    AutomationTrigger → RuleThreshold → Option String → ℕ → Option (Ticket → Texts → Bool)
candidate_where trigger threshold team now = elim threshold.hours [
  | none ↦ none
  | some hours ↦ elim trigger [
    | time_in_status ↦
        if is_empty threshold.statuses
        then none
        else some (time_in_status_query hours threshold.statuses team now)
    | unassigned_for ↦ some (unassigned_for_query hours team now)
    | _ ↦ none
  ]
]

-- `orderBy`, ascending
unfoldable pub order_key : AutomationTrigger → Ticket × Texts → ℕ
order_key time_in_status row = row.1.updated_at
order_key _ row = row.0.created_at

module _ {A : Type 0} (key : A → ℕ) where
  unfoldable pub insert_by : A → List A → List A
  insert_by x [] = x ∷ []
  insert_by x (y ∷ ys) =
      let later = insert_by x ys in if leb (key x) (key y) then x ∷ y ∷ ys else y ∷ later

  unfoldable pub order_by : List A → List A
  order_by [] = []
  order_by (x ∷ xs) = insert_by x (order_by xs)

-- `candidates` of `runOnce`: what the query gives of the tickets; none for a rule that is skipped.
unfoldable pub rule_candidates :
    ℕ
    → AutomationTrigger
    → RuleThreshold
    → Option String
    → ℕ
    → List (Ticket × Texts)
    → Option (List (Ticket × Texts))
rule_candidates batch_size trigger threshold team now rows =
    elim (candidate_where trigger threshold team now) [
      | none ↦ none
      | some where_clause ↦ some (
          take batch_size
            (order_by (order_key trigger) (filter (λ row. where_clause row.0 row.1) rows)))
    ]
