-- ===== src/Access.antt =====
-- apps/api/src/common/access-control.service.ts: who may see, write to and post on a ticket.
-- The Prisma filter and the SQL condition that select the visible tickets are in `Filter` and `Sql`;
-- the theorems are in `Roles` and in `Filter/Laws`, `Sql/Laws`.
pub mod Filter
pub mod Sql
pub mod Roles
mod Tests
use cursor_multi_agent.Prelude.{
  ℕ, String, Bool, true, false, not, ◌&&◌, ◌||◌, Option, none, some, List, [], ◌∷◌, any, filter,
  is_empty, or_else, truthy, present, ◌==◌, ◌===◌, includes, includes_some, if◌then◌else◌, is_none,
  is_some,
}
use cursor_multi_agent.Domain.{
  UserRole, AuthUser, is_owner, is_team_admin, is_employee, is_lead, is_agent,
}

-- The part of a ticket that the checks read; `access_grants` holds the teams of the grants, and
-- `deleted_at` an instant in milliseconds.
pub record AccessTicket : Type 0 where
  pub requester_id : String
  pub assigned_team_id : Option String
  pub assignee_id : Option String
  pub access_grants : Option (List String)
  pub deleted_at : Option ℕ

-- `user.teamId ? [user.teamId] : []`
abbrev session_team : Option String → List String
session_team none = []
session_team (some team) = if truthy team then team ∷ [] else []

unfoldable pub operational_team_ids : AuthUser → List String
operational_team_ids user =
    let from_rows = filter truthy (or_else user.member_team_ids []) in
    if is_empty from_rows then session_team user.team_id else from_rows

-- The team of `user.role === UserRole.TEAM_ADMIN && user.primaryTeamId`, if that holds.
unfoldable pub administered_team : AuthUser → Option String
administered_team user =
    if is_team_admin user.role && present user.primary_team_id then user.primary_team_id else none

unfoldable pub has_grant : AccessTicket → String → Bool
has_grant ticket team = includes (or_else ticket.access_grants []) team

-- `ticket.accessGrants?.some((grant) => teamScope.includes(grant.teamId)) ?? false`
unfoldable pub has_read_grant : AccessTicket → List String → Bool
has_read_grant ticket scope = any (includes scope) (or_else ticket.access_grants [])

unfoldable pub can_view_in_scope : AuthUser → List String → AccessTicket → Bool
unfolding has_read_grant
can_view_in_scope user scope ticket =
    if is_empty scope
    then ticket.requester_id == user.id
    else if is_lead user.role
    then includes_some scope ticket.assigned_team_id || has_read_grant ticket scope
    else includes_some scope ticket.assigned_team_id || has_read_grant ticket scope

unfoldable pub can_view_ticket : AuthUser → AccessTicket → Bool
unfolding can_view_in_scope has_grant
can_view_ticket user ticket =
    if is_some ticket.deleted_at && not (is_owner user.role)
    then false
    else if is_owner user.role
    then true
    else elim (administered_team user) [
      | some team ↦ ticket.assigned_team_id === team || has_grant ticket team
      | none ↦
          if is_employee user.role
          then ticket.requester_id == user.id
          else can_view_in_scope user (operational_team_ids user) ticket
    ]

unfoldable pub is_peer_agent : AuthUser → AccessTicket → Bool
is_peer_agent user ticket =
    if not (is_agent user.role)
    then false
    else if ticket.assignee_id === user.id
    then false
    else includes_some (operational_team_ids user) ticket.assigned_team_id

unfoldable pub can_write_in_scope : AuthUser → List String → AccessTicket → Bool
can_write_in_scope user scope ticket =
    if is_empty scope
    then false
    else if is_lead user.role
    then includes_some scope ticket.assigned_team_id
    else includes_some scope ticket.assigned_team_id
      && (ticket.assignee_id === user.id || is_none ticket.assignee_id)

unfoldable pub can_write_ticket : AuthUser → AccessTicket → Bool
unfolding can_write_in_scope
can_write_ticket user ticket =
    if is_some ticket.deleted_at
    then false
    else if is_owner user.role
    then true
    else elim (administered_team user) [
      | some team ↦ ticket.assigned_team_id === team
      | none ↦
          if is_employee user.role
          then ticket.requester_id == user.id
          else can_write_in_scope user (operational_team_ids user) ticket
    ]

unfoldable pub can_post_message : AuthUser → AccessTicket → Bool
can_post_message user ticket =
    if is_some ticket.deleted_at
    then false
    else if can_write_ticket user ticket
    then true
    else is_peer_agent user ticket
