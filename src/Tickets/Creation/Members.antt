-- ===== src/Tickets/Creation/Members.antt =====
-- Where the assignee of a new ticket comes from.
use cursor_multi_agent.Prelude.{
  ℕ, zero, suc, String, ◌≡◌, true, Option, none, some, List, [], ◌∷◌, arith, sym, refl, includes,
  truthy, present, or_else, eq_refl, eq_iff, get_elem?, ◌+◌, ◌%◌, length, Bool-cases, Option-cases,
  inl, inr, ◌∙◌, ◌⊎◌, ok,
}
use mathlib.Core.Option.{some-injective}
use mathlib.Core.Path.{subst}
use cursor_multi_agent.Store.{has_pair, Db}
use cursor_multi_agent.Store.Tables.{find_by}
use cursor_multi_agent.Routing.RoundRobin.{
  Team, team_key, find_index, next_member, resolve_for_team, resolve_assignee,
}
use cursor_multi_agent.Tickets.Creation.{
  team_member_ids, Setting, check_assignee, resolved_assignee, creation_target, CreateTicket,
  Inserted, RouteTarget, target_assignee, AuthUser, Desk, target_team,
}
use cursor_multi_agent.Routing.Rules.{RouteTarget}
use cursor_multi_agent.Routing.Rules.Laws.{routed_member}
use cursor_multi_agent.Domain.{AuthUser}

includes-team_member_ids :
    (rows : List (String × String)) (team user : String)
    → includes (team_member_ids rows team) user ≡ has_pair team user rows
unfolding team_member_ids has_pair
includes-team_member_ids [] team user = refl
includes-team_member_ids ((t, u) ∷ rows) team user =
    ground (arith, includes-team_member_ids rows team user)

includes-get :
    (xs : List String) (i : ℕ) {x : String} → get_elem? xs i ≡ some x → includes xs x ≡ true
includes-get [] i h = cc
includes-get (y ∷ xs) zero {x} h = ground (arith, eq_iff y x, some-injective y x h)
includes-get (y ∷ xs) (suc i) {x} h = ground (arith, includes-get xs i h)

get_or_first :
    (first : String) (rest : List String) (i : ℕ)
    → includes (first ∷ rest) (or_else (get_elem? (first ∷ rest) i) first) ≡ true
get_or_first first rest i = elim (Option-cases (get_elem? (first ∷ rest) i)) [
  | inl beyond ↦
      subst (λ o. includes (first ∷ rest) (or_else o first) ≡ true) (sym beyond)
        (ground (arith, eq_refl first))
  | inr (next, found) ↦
      subst (λ o. includes (first ∷ rest) (or_else o first) ≡ true) (sym found)
        (includes-get (first ∷ rest) i found)
]

next_cases :
    (first : String) (members : List String) (last : Option String)
    → (next_member first members last ≡ first)
      ⊎ ((i : ℕ) × (next_member first members last ≡ or_else (get_elem? members i) first))
unfolding next_member
next_cases first members last = elim (Bool-cases (present last)) [
  | inr e ↦ inl (rw e)
  | inl e ↦ elim (Option-cases (find_index (or_else last "") members)) [
    | inl absent ↦ inl (rw (e, absent))
    | inr (i, here) ↦ inr ((i + 1) % length members, rw (e, here))
  ]
]

-- The next in turn is one of the members.
next-includes :
    (first : String) (rest : List String) (last : Option String)
    → includes (first ∷ rest) (next_member first (first ∷ rest) last) ≡ true
next-includes first rest last = elim (next_cases first (first ∷ rest) last) [
  | inl e ↦ subst (λ u. includes (first ∷ rest) u ≡ true) (sym e) (ground (arith, eq_refl first))
  | inr (i, e) ↦ subst (λ u. includes (first ∷ rest) u ≡ true) (sym e) (get_or_first first rest i)
]

team-includes :
    (team : Team) (members : List String) (teams : List Team) {user : String}
    → (resolve_for_team team members teams).0 ≡ some user
    → includes members user ≡ true
unfolding resolve_for_team
team-includes team [] teams h = cc
team-includes team (first ∷ rest) teams {user} h =
    subst (λ u. includes (first ∷ rest) u ≡ true) (some-injective _ user h)
      (next-includes first rest team.last_assigned_user_id)

-- A round robin gives a member of the team.
resolved-has_pair :
    (rows : List (String × String)) (team : Option String) (teams : List Team) {user : String}
    → (resolve_assignee team (team_member_ids rows) teams).0 ≡ some user
    → has_pair (or_else team "") user rows ≡ true
unfolding resolve_assignee
resolved-has_pair rows none teams h = cc
resolved-has_pair rows (some id) teams {user} h = elim (Bool-cases (truthy id)) [
  | inr e ↦ ground arith
  | inl e ↦ elim (Option-cases (find_by team_key id teams)) [
    | inl absent ↦ ground arith
    | inr (team, found) ↦
        sym (includes-team_member_ids rows id user)
        ∙ ground (arith, team-includes team (team_member_ids rows id) teams {user = user})
  ]
]

module _ (setting : Setting) where
  target-has_pair :
      (payload : CreateTicket) (requester : String) (db : Db) {target : RouteTarget} {user : String}
      → creation_target setting payload requester db ≡ some target
      → target.assignee_id ≡ some user
      → truthy user ≡ true
      → has_pair target.team_id user db.team_members ≡ true
  unfolding creation_target
  target-has_pair payload requester db {target} {user} chosen named id =
      elim (Bool-cases (present payload.assigned_team_id)) [
        | inl e ↦ ground arith
        | inr e ↦
            routed_member setting.texts.lower setting.to_upper_case setting.texts.trim
              setting.email_of db.team_members setting.rules _ (rw e at chosen) named id
      ]

  routed-has_pair :
      (payload : CreateTicket) (requester : String) (db : Db) (target : Option RouteTarget)
      {user : String}
      → creation_target setting payload requester db ≡ target
      → target_assignee target ≡ some user
      → truthy user ≡ true
      → has_pair (or_else (target_team target) "") user db.team_members ≡ true
  routed-has_pair payload requester db none chosen named id = cc
  routed-has_pair payload requester db (some target) chosen named id =
      target-has_pair payload requester db chosen named id

named-has_pair :
    (payload : CreateTicket) (inserted : Inserted) (team : Option String) (user : AuthUser)
    (db : Db)
    → check_assignee payload inserted team user db ≡ ok tt
    → present payload.assignee_id ≡ true
    → has_pair (or_else team "") (or_else payload.assignee_id "") db.team_members ≡ true
unfolding check_assignee
named-has_pair payload inserted team user db passed named = ground arith

-- The three origins of an assignee.
resolved_cases :
    (payload : CreateTicket) (target : Option RouteTarget) (desk : Desk) {who : String}
    → (resolved_assignee payload target desk).0 ≡ some who
    → truthy who ≡ true
    → ((payload.assignee_id ≡ some who))
      ⊎ (target_assignee target ≡ some who)
      ⊎ ((resolve_assignee (target_team target) (team_member_ids desk.db.team_members) desk.teams).0
          ≡ some who)
unfolding resolved_assignee
resolved_cases payload target desk given id = ground arith

module _ (setting : Setting) where
  -- The assignee of a new ticket is a member of its team, wherever he comes from.
  pub assignee-has_pair :
      (payload : CreateTicket) (inserted : Inserted) (requester : String) (user : AuthUser)
      (desk : Desk) (target : Option RouteTarget) {who : String}
      → creation_target setting payload requester desk.db ≡ target
      → check_assignee payload inserted (target_team target) user desk.db ≡ ok tt
      → (resolved_assignee payload target desk).0 ≡ some who
      → truthy who ≡ true
      → has_pair (or_else (target_team target) "") who desk.db.team_members ≡ true
  assignee-has_pair payload inserted requester user desk target {who} chosen passed given id =
      elim (resolved_cases payload target desk given id) [
        | inl named ↦
            subst
              (λ o.
                has_pair (or_else (target_team target) "") (or_else o "") desk.db.team_members
                ≡ true)
              named
              (named-has_pair payload inserted (target_team target) user desk.db passed
                (ground arith))
        | inr (inl routed) ↦
            routed-has_pair setting payload requester desk.db target chosen routed id
        | inr (inr turn) ↦
            resolved-has_pair desk.db.team_members (target_team target) desk.teams turn
      ]
