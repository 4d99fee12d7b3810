-- ===== src/Routing/Rules.antt =====
-- `routeTarget`: the first routing rule that matches a new ticket. The case mappings and the trimming of
-- texts are parameters. The rules are those of the query, in its order; absent columns of an older
-- schema are the defaults that the query gives them.
pub mod Laws
use text.Mathlib.Text.{find?}
use cursor_multi_agent.Prelude.{
  ℕ, String, Bool, true, false, not, ◌&&◌, ◌||◌, Option, none, some, List, [], ◌∷◌, ◌==◌, ◌++◌, any,
  all, if◌then◌else◌, or_else, is_some, present, truthy, is_empty,
}
use Prim.Native.String
use cursor_multi_agent.Domain.{TicketPriority, sev1, sev2, sev3, sev4}
use cursor_multi_agent.Store.{has_pair}

pub record RoutingCondition : Type 0 where
  pub field : String
  pub op : String
  -- `c.value ?? ''`
  pub value : String

pub record RoutingAction : Type 0 where
  pub type : String
  pub value : String

pub record RoutingRule : Type 0 where
  pub team_id : String
  pub assignee_id : Option String
  pub keywords : List String
  pub match_type : String
  pub conditions : List RoutingCondition
  pub actions : List RoutingAction

-- The argument `ctx` of `routeTarget`.
pub record RoutingContext : Type 0 where
  pub subject : String
  pub description : String
  pub priority : Option TicketPriority
  pub channel : Option String
  pub category_id : Option String
  pub requester_id : Option String

-- `{ teamId, assigneeId, setPriority, addTags }`
pub record RouteTarget : Type 0 where
  pub team_id : String
  pub assignee_id : Option String
  pub set_priority : Option TicketPriority
  pub add_tags : List String

abbrev pub priority_name : TicketPriority → String
priority_name sev1 = "SEV1"
priority_name sev2 = "SEV2"
priority_name sev3 = "SEV3"
priority_name sev4 = "SEV4"

-- The priority that a text names.
unfoldable pub read_priority : String → Option TicketPriority
read_priority s =
    if s == "SEV1"
    then some sev1
    else if s == "SEV2"
    then some sev2
    else if s == "SEV3"
    then some sev3
    else if s == "SEV4"
    then some sev4
    else none

abbrev pub contains_text : String → String → Bool
contains_text hay needle = is_some (find? hay needle)

-- `hay`; none for a field that is not known.
unfoldable pub hay_of : RoutingContext → Option String → String → Option String
hay_of ctx sender_email field =
    if field == "subject"
    then some ctx.subject
    else if field == "message"
    then some ctx.description
    else if field == "priority"
    then some (elim ctx.priority [ none ↦ "" | some p ↦ priority_name p ])
    else if field == "channel"
    then some (or_else ctx.channel "")
    else if field == "category"
    then some (or_else ctx.category_id "")
    else if field == "sender"
    then some (or_else sender_email "")
    else none

abbrev pub tests_sender : RoutingRule → Bool
tests_sender r = any (λ c. c.field == "sender") r.conditions

module _ (to_lower_case to_upper_case trim : String → String) where
  unfoldable pub test_text : String → String → String → Bool
  test_text op subject needle =
      if op == "contains"
      then contains_text subject needle
      else if op == "not_contains"
      then not (contains_text subject needle)
      else if op == "is"
      then subject == needle
      else if op == "is_not"
      then not (subject == needle)
      else false

  -- `evalOne`
  unfoldable pub eval_one : RoutingContext → Option String → RoutingCondition → Bool
  eval_one ctx sender_email c = elim (hay_of ctx sender_email c.field) [
    | none ↦ false
    | some hay ↦ test_text c.op (trim (to_lower_case hay)) (trim (to_lower_case c.value))
  ]

  unfoldable pub evaluate_routing_conditions :
      List RoutingCondition → String → RoutingContext → Option String → Bool
  evaluate_routing_conditions conditions match_type ctx sender_email =
      if match_type == "ANY"
      then any (eval_one ctx sender_email) conditions
      else all (eval_one ctx sender_email) conditions

  unfoldable pub legacy_text : RoutingContext → String
  legacy_text ctx =
      to_lower_case
        (Prim.Native.String.◌++◌ ctx.subject (Prim.Native.String.◌++◌ " " ctx.description))

  -- `matched`
  unfoldable pub matches : RoutingContext → Option String → RoutingRule → Bool
  matches ctx sender_email r =
      if is_empty r.conditions
      then any (λ keyword. contains_text (legacy_text ctx) (to_lower_case keyword)) r.keywords
      else evaluate_routing_conditions r.conditions r.match_type ctx sender_email

  unfoldable pub apply_action : RoutingAction → RouteTarget → RouteTarget
  apply_action a target =
      if not (truthy a.value)
      then target
      else if a.type == "assign_team"
      then record target { team_id = a.value }
      else if a.type == "assign_member"
      then record target { assignee_id = some a.value }
      else if a.type == "set_priority"
      then (elim (read_priority (to_upper_case a.value)) [
        | none ↦ target
        | some p ↦ record target { set_priority = some p }
      ])
      else if a.type == "add_tag"
      then record target { add_tags = target.add_tags ++ (a.value ∷ []) }
      else target

  unfoldable pub apply_actions : List RoutingAction → RouteTarget → RouteTarget
  apply_actions [] target = target
  apply_actions (a ∷ rest) target = apply_actions rest (apply_action a target)

  -- An assignee who is not a member of the team is dropped.
  unfoldable pub checked_assignee : List (String × String) → RouteTarget → RouteTarget
  checked_assignee members target = elim target.assignee_id [
    | none ↦ target
    | some user ↦
        if not (truthy user) || has_pair target.team_id user members
        then target
        else record target { assignee_id = none }
  ]

  unfoldable pub target_of_rule : List (String × String) → RoutingRule → RouteTarget
  target_of_rule members r = checked_assignee members (
      apply_actions r.actions (record {
        team_id = r.team_id;
        assignee_id = r.assignee_id;
        set_priority = none;
        add_tags = [];
      }))

  -- The loop over the rules.
  unfoldable pub first_target :
      List (String × String)
      → RoutingContext
      → Option String
      → List RoutingRule
      → Option RouteTarget
  first_target members ctx sender_email [] = none
  first_target members ctx sender_email (r ∷ rest) =
      let later = first_target members ctx sender_email rest in
      if matches ctx sender_email r then some (target_of_rule members r) else later

  -- The requester's mail address is looked up only if a rule tests the sender.
  unfoldable pub sender_email :
      (String → Option String) → RoutingContext → List RoutingRule → Option String
  sender_email email_of ctx rules =
      if any tests_sender rules && present ctx.requester_id
      then (elim ctx.requester_id [ none ↦ none | some id ↦ email_of id ])
      else none

  unfoldable pub route_target :
      (String → Option String)
      → List (String × String)
      → List RoutingRule
      → RoutingContext
      → Option RouteTarget
  route_target email_of members rules ctx =
      first_target members ctx (sender_email email_of ctx rules) rules
