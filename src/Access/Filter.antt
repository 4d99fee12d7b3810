-- ===== src/Access/Filter.antt =====
-- `buildTicketAccessFilter` and `roleFilter` of access-control.service.ts, as the Prisma
-- `TicketWhereInput` that they build. What Prisma makes of such an input is a parameter.
pub mod Laws
use cursor_multi_agent.Prelude.{
  String, Bool, true, false, ◌&&◌, ◌||◌, ◌≡◌, Option, none, some, List, [], ◌∷◌, ◌==◌, ◌===◌,
  is_empty, is_none, if◌then◌else◌,
}
use cursor_multi_agent.Domain.{AuthUser, is_owner, is_employee, is_lead}
use cursor_multi_agent.Access.{AccessTicket, operational_team_ids, administered_team, has_grant}

mutual
  pub data Where : Type 0 where
    -- `{}`
    everything : Where
    -- `{ requesterId }`, `{ assignedTeamId }`, `{ accessGrants: { some: { teamId } } }`
    requester_is assigned_team_is granted_to : String → Where
    -- `{ deletedAt: null }`
    not_deleted : Where
    -- `{ AND: [...] }`, `{ OR: [...] }`
    all_of any_of : Wheres → Where

  pub data Wheres : Type 0 where
    nil : Wheres
    cons : Where → Wheres → Wheres

abbrev pub every_clause : (Where → Bool) → Wheres → Bool
every_clause m nil = true
every_clause m (cons w ws) = m w && every_clause m ws

abbrev pub some_clause : (Where → Bool) → Wheres → Bool
some_clause m nil = false
some_clause m (cons w ws) = m w || some_clause m ws

-- `teamScope.flatMap((teamId) => [{ assignedTeamId }, { accessGrants }])`
unfoldable pub scope_clauses : List String → Wheres
scope_clauses [] = nil
scope_clauses (team ∷ scope) =
    cons (assigned_team_is team) (cons (granted_to team) (scope_clauses scope))

pub scope_filter : AuthUser → List String → Where
unfolding scope_clauses
scope_filter user scope =
    if is_empty scope
    then requester_is user.id
    else if is_lead user.role
    then any_of (scope_clauses scope)
    else any_of (scope_clauses scope)

pub role_filter : AuthUser → Where
unfolding scope_filter
role_filter user = if is_owner user.role then everything else elim (administered_team user) [
  | some team ↦ any_of (cons (assigned_team_is team) (cons (granted_to team) nil))
  | none ↦
      if is_employee user.role
      then requester_is user.id
      else scope_filter user (operational_team_ids user)
]

-- The flag is `options?.includeDeleted`.
unfoldable pub build_ticket_access_filter : AuthUser → Bool → Where
unfolding role_filter
build_ticket_access_filter user include_deleted =
    if include_deleted && is_owner user.role
    then role_filter user
    else all_of (cons not_deleted (cons (role_filter user) nil))

-- Prisma's documented reading of a `where` input: a list relation filter `some` asks for one related
-- row, `AND` for all clauses and `OR` for one of them, and `{}` for nothing.
pub record PrismaSemantics : Type 0 where
  pub matches : Where → AccessTicket → Bool
  pub at_everything : (t : AccessTicket) → matches everything t ≡ true
  pub at_requester :
      (s : String) (t : AccessTicket) → matches (requester_is s) t ≡ (t.requester_id == s)
  pub at_team :
      (s : String) (t : AccessTicket) → matches (assigned_team_is s) t ≡ (t.assigned_team_id === s)
  pub at_grant : (s : String) (t : AccessTicket) → matches (granted_to s) t ≡ has_grant t s
  pub at_live : (t : AccessTicket) → matches not_deleted t ≡ is_none t.deleted_at
  pub at_and :
      (ws : Wheres) (t : AccessTicket) → matches (all_of ws) t ≡ every_clause (λ w. matches w t) ws
  pub at_or :
      (ws : Wheres) (t : AccessTicket) → matches (any_of ws) t ≡ some_clause (λ w. matches w t) ws
