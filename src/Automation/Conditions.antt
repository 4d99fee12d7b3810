-- ===== src/Automation/Conditions.antt =====
-- The conditions of automation rules: `ticketToContext` and `evaluateConditions`. What JavaScript does
-- with texts (case mapping, trimming, the reading and writing of numbers) is a parameter; numbers are
-- natural, and a condition's value is a scalar or a list of scalars.
use text.Mathlib.Text.{find?}
use cursor_multi_agent.Prelude.{
  ℕ, String, Bool, true, false, not, ◌&&◌, ◌||◌, Option, none, some, List, ◌==◌, leb, any,
  if◌then◌else◌, eqb, ◌-◌, ◌/◌, or_else, is_some, present,
}
use cursor_multi_agent.Domain.{
  TicketStatus, TicketPriority, new, triaged, assigned, in_progress, waiting_on_requester,
  waiting_on_vendor, resolved, closed, reopened, sev1, sev2, sev3, sev4,
}
use cursor_multi_agent.Sla.Policy.{hour_ms}
use cursor_multi_agent.Store.{Ticket}

-- A JavaScript value that is neither an object nor an array.
pub data Scalar : Type 0 where
  undefined null : Scalar
  str : String → Scalar
  number : ℕ → Scalar
  flag : Bool → Scalar

pub data Value : Type 0 where
  one : Scalar → Value
  several : List Scalar → Value

-- `ConditionNode`; `malformed` is anything else in the stored JSON.
mutual
  pub data ConditionNode : Type 0 where
    field_is : String → String → Value → ConditionNode
    all_of any_of : ConditionNodes → ConditionNode
    malformed : ConditionNode

  pub data ConditionNodes : Type 0 where
    nil : ConditionNodes
    cons : ConditionNode → ConditionNodes → ConditionNodes

-- `toLowerCase`, `trim`, `String` of a number, and `Number` of a text and of an array if it is finite.
pub record TextFns : Type 0 where
  pub to_lower_case : String → String
  pub trim : String → String
  pub decimal : ℕ → String
  pub read_number : String → Option ℕ
  pub read_array : List Scalar → Option ℕ

-- The columns of a ticket that only conditions read.
pub record Texts : Type 0 where
  pub subject : String
  pub description : Option String
  pub category_id : Option String
  pub updated_at : ℕ

abbrev pub status_text : TicketStatus → String
status_text new = "NEW"
status_text triaged = "TRIAGED"
status_text assigned = "ASSIGNED"
status_text in_progress = "IN_PROGRESS"
status_text waiting_on_requester = "WAITING_ON_REQUESTER"
status_text waiting_on_vendor = "WAITING_ON_VENDOR"
status_text resolved = "RESOLVED"
status_text closed = "CLOSED"
status_text reopened = "REOPENED"

abbrev pub priority_text : TicketPriority → String
priority_text sev1 = "SEV1"
priority_text sev2 = "SEV2"
priority_text sev3 = "SEV3"
priority_text sev4 = "SEV4"

abbrev pub nullable : Option String → Scalar
nullable none = null
nullable (some s) = str s

-- `wholeHoursSince`
abbrev pub whole_hours_since : ℕ → ℕ → ℕ
whole_hours_since now at = (now - at) / hour_ms

-- `ctx[field]` of the context of a ticket.
unfoldable pub ticket_to_context : ℕ → Ticket → Texts → String → Scalar
ticket_to_context now t x field =
    if field == "id"
    then str t.id
    else if field == "subject"
    then str x.subject
    else if field == "description"
    then str (or_else x.description "")
    else if field == "priority"
    then str (priority_text t.priority)
    else if field == "status"
    then str (status_text t.status)
    else if field == "assignedTeamId"
    then nullable t.assigned_team_id
    else if field == "assigneeId"
    then nullable t.assignee_id
    else if field == "categoryId"
    then nullable x.category_id
    else if field == "requesterId"
    then str t.requester_id
    else if field == "hoursSinceActivity"
    then number (whole_hours_since now x.updated_at)
    else if field == "hoursUnassigned"
    then number (if present t.assignee_id then 0 else whole_hours_since now t.created_at)
    else undefined

-- `a === b`
abbrev pub same_scalar : Scalar → Scalar → Bool
same_scalar undefined undefined = true
same_scalar null null = true
same_scalar (str a) (str b) = a == b
same_scalar (number a) (number b) = eqb a b
same_scalar (flag true) (flag true) = true
same_scalar (flag false) (flag false) = true
same_scalar _ _ = false

-- `raw == null`
abbrev pub is_nullish : Scalar → Bool
is_nullish undefined = true
is_nullish null = true
is_nullish _ = false

module _ (fns : TextFns) where
  unfoldable pub normalize_comparable_value : Scalar → Option String
  normalize_comparable_value undefined = none
  normalize_comparable_value null = none
  normalize_comparable_value (str s) = some s
  normalize_comparable_value (number n) = some (fns.decimal n)
  normalize_comparable_value (flag true) = some "true"
  normalize_comparable_value (flag false) = some "false"

  -- `(normalizeComparableValue(x) ?? '').toLowerCase()`
  unfoldable pub lowered : Scalar → String
  lowered x = fns.to_lower_case (or_else (normalize_comparable_value x) "")

  unfoldable pub lowered_value : Value → String
  lowered_value (one x) = lowered x
  lowered_value (several xs) = fns.to_lower_case ""

  -- Is `raw` the option `v` of a list?
  unfoldable pub is_option : Scalar → Scalar → Bool
  is_option raw v = elim (normalize_comparable_value v) [
    | none ↦ same_scalar raw v
    | some s ↦ (fns.to_lower_case s == lowered raw) || same_scalar raw v
  ]

  unfoldable pub is_in : Scalar → Value → Bool
  is_in raw (one x) = same_scalar raw x
  is_in raw (several xs) = any (is_option raw) xs

  unfoldable pub is_blank : Scalar → Bool
  is_blank raw = is_nullish raw || (fns.trim (or_else (normalize_comparable_value raw) "") == "")

  -- `Number(x)` if it is finite
  unfoldable pub as_number : Scalar → Option ℕ
  as_number undefined = none
  as_number null = some 0
  as_number (str s) = fns.read_number s
  as_number (number n) = some n
  as_number (flag true) = some 1
  as_number (flag false) = some 0

  unfoldable pub value_number : Value → Option ℕ
  value_number (one x) = as_number x
  value_number (several xs) = fns.read_array xs

  unfoldable pub at_least : Option ℕ → Option ℕ → Bool
  at_least (some a) (some b) = leb b a
  at_least _ _ = false

  unfoldable pub evaluate_single : Scalar → String → Value → Bool
  evaluate_single raw operator value =
      if operator == "contains"
      then is_some (find? (lowered raw) (lowered_value value))
      else if operator == "equals"
      then lowered raw == lowered_value value
      else if operator == "notEquals"
      then not (lowered raw == lowered_value value)
      else if operator == "in"
      then is_in raw value
      else if operator == "notIn"
      then not (is_in raw value)
      else if operator == "isEmpty"
      then is_blank raw
      else if operator == "isNotEmpty"
      then not (is_blank raw)
      else if operator == "gte"
      then at_least (as_number raw) (value_number value)
      else false

  unfoldable mutual
    pub evaluate_node : (String → Scalar) → ConditionNode → Bool
    evaluate_node ctx (field_is field operator value) = evaluate_single (ctx field) operator value
    evaluate_node ctx (all_of nodes) = every_node ctx nodes
    evaluate_node ctx (any_of nodes) = some_node ctx nodes
    evaluate_node ctx malformed = false

    pub every_node : (String → Scalar) → ConditionNodes → Bool
    every_node ctx nil = true
    every_node ctx (cons n nodes) = evaluate_node ctx n && every_node ctx nodes

    pub some_node : (String → Scalar) → ConditionNodes → Bool
    some_node ctx nil = false
    some_node ctx (cons n nodes) = evaluate_node ctx n || some_node ctx nodes

  -- `evaluateConditions`: all nodes of the list.
  unfoldable pub evaluate_conditions : (String → Scalar) → ConditionNodes → Bool
  evaluate_conditions ctx conditions = every_node ctx conditions
