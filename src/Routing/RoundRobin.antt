-- ===== src/Routing/RoundRobin.antt =====
-- `resolveAssignee`: the next member of a team whose strategy is round robin. The row of the team is
-- locked for the transaction, so that resolutions of one team follow each other.
pub mod Laws
use cursor_multi_agent.Prelude.{
  ℕ, zero, suc, String, Bool, true, false, not, Option, none, some, List, [], ◌∷◌, ◌==◌, ◌+◌, ◌%◌,
  if◌then◌else◌, truthy, present, length, get_elem?, is_empty, or_else,
}
use cursor_multi_agent.Store.Tables.{find_by, update_by}

-- A row of `Team`; `round_robin` is the strategy ROUND_ROBIN.
pub record Team : Type 0 where
  pub id : String
  pub round_robin : Bool
  pub last_assigned_user_id : Option String

abbrev pub team_key : Team → String
team_key t = t.id

-- `members.findIndex((m) => m.userId === user)`, none for -1
unfoldable pub find_index : String → List String → Option ℕ
find_index user [] = none
find_index user (m ∷ rest) =
    if m == user
    then some 0
    else elim (find_index user rest) [ none ↦ none | some i ↦ some (suc i) ]

-- `nextMember` of the members, of whom there is one; in the order of their creation.
unfoldable pub next_member : String → List String → Option String → String
next_member first members last =
    if present last
    then elim (find_index (or_else last "") members) [
      | none ↦ first
      | some i ↦ or_else (get_elem? members ((i + 1) % length members)) first
    ]
    else first

abbrev pub with_last : String → Team → Team
with_last user t = record t { last_assigned_user_id = some user }

unfoldable pub resolve_for_team : Team → List String → List Team → Option String × List Team
resolve_for_team team [] teams = (none, teams)
resolve_for_team team (first ∷ rest) teams =
    let next = next_member first (first ∷ rest) team.last_assigned_user_id in
    (some next, update_by team_key team.id (with_last next) teams)

unfoldable pub resolve_assignee :
    Option String → (String → List String) → List Team → Option String × List Team
resolve_assignee none members_of teams = (none, teams)
resolve_assignee (some team_id) members_of teams =
    if not (truthy team_id) then (none, teams) else elim (find_by team_key team_id teams) [
      | none ↦ (none, teams)
      | some team ↦
          if team.round_robin
          then resolve_for_team team (members_of team_id) teams
          else (none, teams)
    ]

-- Consecutive resolutions for one team, with the members that they give.
unfoldable pub resolve_times :
    ℕ → String → (String → List String) → List Team → List (Option String) × List Team
resolve_times zero team_id members_of teams = ([], teams)
resolve_times (suc n) team_id members_of teams =
    let step = resolve_assignee (some team_id) members_of teams in
    let rest = resolve_times n team_id members_of step.1 in (step.0 ∷ rest.0, rest.1)
