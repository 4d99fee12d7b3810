-- ===== src/Routing/Tests.antt =====
-- The theorems on routing at a small team.
use cursor_multi_agent.Prelude.{String, ◌≡◌, refl, true, none, some, List, [], ◌∷◌, inl, Option}
use cursor_multi_agent.Routing.Rules.{
  RoutingRule, RoutingContext, RouteTarget, route_target, matches, first_target,
  evaluate_routing_conditions, eval_one, test_text, hay_of, apply_action, apply_actions,
  checked_assignee, target_of_rule, sender_email,
}
use cursor_multi_agent.Routing.RoundRobin.{Team, resolve_times}
use cursor_multi_agent.Store.Tables.{find_by}
use cursor_multi_agent.Store.{has_pair}
use cursor_multi_agent.Routing.RoundRobin.Laws.{full_turn}

abbrev to_it : RoutingRule
to_it = record {
  team_id = "it";
  assignee_id = some "ann";
  keywords = "laptop" ∷ [];
  match_type = "ALL";
  conditions = record { field = "sender"; op = "is"; value = "eve@x" } ∷ [];
  actions = record { type = "add_tag"; value = "hardware" } ∷ [];
}

abbrev ctx : RoutingContext
ctx = record {
  subject = "Laptop";
  description = "broken";
  priority = none;
  channel = none;
  category_id = none;
  requester_id = some "eve";
}

abbrev email_of : String → Option String
email_of id = some "eve@x"

abbrev same : String → String
same s = s

abbrev hardware : RouteTarget
hardware = record {
  team_id = "it";
  assignee_id = some "ann";
  set_priority = none;
  add_tags = "hardware" ∷ [];
}

abbrev desk_team : Team
desk_team = record { id = "it"; round_robin = true; last_assigned_user_id = none }

abbrev members_of : String → List String
members_of id = "ann" ∷ "bob" ∷ []

model : Unit {0}
unfolding find_by has_pair matches evaluate_routing_conditions eval_one test_text hay_of
    apply_action apply_actions checked_assignee target_of_rule first_target sender_email
    route_target
model = tt

full_turn_example :
    (resolve_times 2 "it" members_of (desk_team ∷ [])).0 ≡ some "ann" ∷ some "bob" ∷ []
unfolding model
full_turn_example =
    full_turn members_of "it" "ann" ("bob" ∷ []) (desk_team ∷ []) {t = desk_team} refl refl refl
      refl (refl, (refl, tt), (refl, tt, tt)) (inl refl)
