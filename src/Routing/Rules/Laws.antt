-- ===== src/Routing/Rules/Laws.antt =====
-- The lookup of the sender and the assignee of a routed ticket.
use mathlib.Core.Option.{some-injective}
use mathlib.Core.Path.{subst}
use cursor_multi_agent.Prelude.{
  String, ◌≡◌, refl, true, false, List, [], ◌∷◌, arith, some, none, Option, Bool-cases, inl, inr,
  if◌then◌else◌, present, any, truthy, ◌==◌, all, ap, ◌∙◌,
}
use cursor_multi_agent.Routing.Rules.{
  RoutingContext, eval_one, first_target, route_target, checked_assignee, hay_of, RoutingCondition,
  matches, RoutingRule, sender_email, RouteTarget, target_of_rule, evaluate_routing_conditions,
  tests_sender, has_pair,
}
use cursor_multi_agent.Store.{has_pair}

-- The address of the requester, looked up whether a rule tests it or not.
abbrev pub address_of : (String → Option String) → RoutingContext → Option String
address_of email_of ctx =
    if present ctx.requester_id
    then (elim ctx.requester_id [ none ↦ none | some id ↦ email_of id ])
    else none

hay_without_sender :
    (ctx : RoutingContext) (p q : Option String) (field : String)
    → (field == "sender") ≡ false
    → hay_of ctx p field ≡ hay_of ctx q field
unfolding hay_of
hay_without_sender ctx p q field h = ground arith

module _ (to_lower_case to_upper_case trim : String → String) where
  one_without_sender :
      (ctx : RoutingContext) (p q : Option String) (c : RoutingCondition)
      → (c.field == "sender") ≡ false
      → eval_one to_lower_case to_upper_case trim ctx p c
        ≡ eval_one to_lower_case to_upper_case trim ctx q c
  unfolding eval_one hay_of
  one_without_sender ctx p q c h = rw (eval_one, hay_without_sender ctx p q c.field h)

  any_without_sender :
      (ctx : RoutingContext) (p q : Option String) (cs : List RoutingCondition)
      → any (λ c. c.field == "sender") cs ≡ false
      → any (eval_one to_lower_case to_upper_case trim ctx p) cs
        ≡ any (eval_one to_lower_case to_upper_case trim ctx q) cs
  any_without_sender ctx p q [] h = refl
  any_without_sender ctx p q (c ∷ cs) h =
      ground (arith, one_without_sender ctx p q c, any_without_sender ctx p q cs)

  all_without_sender :
      (ctx : RoutingContext) (p q : Option String) (cs : List RoutingCondition)
      → any (λ c. c.field == "sender") cs ≡ false
      → all (eval_one to_lower_case to_upper_case trim ctx p) cs
        ≡ all (eval_one to_lower_case to_upper_case trim ctx q) cs
  all_without_sender ctx p q [] h = refl
  all_without_sender ctx p q (c ∷ cs) h =
      ground (arith, one_without_sender ctx p q c, all_without_sender ctx p q cs)

  matches_without_sender :
      (ctx : RoutingContext) (p q : Option String) (r : RoutingRule)
      → tests_sender r ≡ false
      → matches to_lower_case to_upper_case trim ctx p r
        ≡ matches to_lower_case to_upper_case trim ctx q r
  unfolding matches evaluate_routing_conditions
  matches_without_sender ctx p q r h =
      ground
        (arith, any_without_sender ctx p q r.conditions, all_without_sender ctx p q r.conditions)

  first_without_sender :
      (members : List (String × String)) (ctx : RoutingContext) (p q : Option String)
      (rules : List RoutingRule)
      → any tests_sender rules ≡ false
      → first_target to_lower_case to_upper_case trim members ctx p rules
        ≡ first_target to_lower_case to_upper_case trim members ctx q rules
  unfolding first_target
  first_without_sender members ctx p q [] h = refl
  first_without_sender members ctx p q (r ∷ rest) h =
      ground (arith, matches_without_sender ctx p q r, first_without_sender members ctx p q rest)

  -- It makes no difference to a routing that the requester's address is looked up only if some rule
  -- tests the sender.
  pub lazy_sender :
      (email_of : String → Option String) (members : List (String × String))
      (rules : List RoutingRule) (ctx : RoutingContext)
      → route_target to_lower_case to_upper_case trim email_of members rules ctx
        ≡ first_target to_lower_case to_upper_case trim members ctx (address_of email_of ctx) rules
  unfolding route_target sender_email
  lazy_sender email_of members rules ctx = elim (Bool-cases (any tests_sender rules)) [
    | inl e ↦ rw e
    | inr e ↦
        rw (e, sender_email)
          (first_without_sender members ctx none (address_of email_of ctx) rules e)
  ]

  checked_member :
      (members : List (String × String)) (t : RouteTarget) {user : String}
      → (checked_assignee to_lower_case to_upper_case trim members t).assignee_id ≡ some user
      → truthy user ≡ true
      → has_pair (checked_assignee to_lower_case to_upper_case trim members t).team_id user members
        ≡ true
  unfolding checked_assignee
  checked_member members t h named = ground arith

  member_of_rule :
      (members : List (String × String)) (r : RoutingRule) {target : RouteTarget} {user : String}
      → target_of_rule to_lower_case to_upper_case trim members r ≡ target
      → target.assignee_id ≡ some user
      → truthy user ≡ true
      → has_pair target.team_id user members ≡ true
  unfolding target_of_rule
  member_of_rule members r {target} {user} same assigned named =
      subst (λ x. has_pair x.team_id user members ≡ true) same
        (checked_member members _ (ap (λ x. x.assignee_id) same ∙ assigned) named)

  first_member :
      (members : List (String × String)) (ctx : RoutingContext) (sender : Option String)
      (rules : List RoutingRule) {target : RouteTarget} {user : String}
      → first_target to_lower_case to_upper_case trim members ctx sender rules ≡ some target
      → target.assignee_id ≡ some user
      → truthy user ≡ true
      → has_pair target.team_id user members ≡ true
  unfolding first_target target_of_rule
  first_member members ctx sender [] routed assigned named = cc
  first_member members ctx sender (r ∷ rest) {target} routed assigned named =
      elim (Bool-cases (matches to_lower_case to_upper_case trim ctx sender r)) [
        | inl e ↦
            member_of_rule members r
              (some-injective (target_of_rule to_lower_case to_upper_case trim members r) target
                (rw e at routed))
              assigned named
        | inr e ↦ first_member members ctx sender rest (rw e at routed) assigned named
      ]

  -- The assignee of a routed ticket is a member of the team that it is routed to, whatever the rule and
  -- its actions name.
  pub routed_member :
      (email_of : String → Option String) (members : List (String × String))
      (rules : List RoutingRule) (ctx : RoutingContext) {target : RouteTarget} {user : String}
      → route_target to_lower_case to_upper_case trim email_of members rules ctx ≡ some target
      → target.assignee_id ≡ some user
      → truthy user ≡ true
      → has_pair target.team_id user members ≡ true
  unfolding route_target
  routed_member email_of members rules ctx routed assigned named =
      first_member members ctx (sender_email to_lower_case to_upper_case trim email_of ctx rules)
        rules routed assigned named
