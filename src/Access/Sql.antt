-- ===== src/Access/Sql.antt =====
-- `accessConditionSql` and `roleConditionSql` of access-control.service.ts, as the condition that they
-- put together. What the database makes of a condition is a parameter.
pub mod Laws
use Prim.Native.Char.{code}
use Prim.Native.String.{◌++◌}
use cursor_multi_agent.Prelude.{
  ℕ, String, Bool, true, false, not, ◌&&◌, ◌||◌, ◌≡◌, Option, none, some, List, [], ◌∷◌, ◌==◌,
  is_empty, is_none, leb, eqb, if◌then◌else◌, Result, ok, err, plain_error,
}
use cursor_multi_agent.Domain.{AuthUser, is_owner, is_employee, is_lead}
use cursor_multi_agent.Access.{AccessTicket, operational_team_ids, administered_team, has_grant}

mutual
  -- The alias of the ticket table is the first argument of what names a column.
  pub data Sql : Type 0 where
    -- `TRUE`
    sql_true : Sql
    -- `alias."requesterId" = value`, `alias."assignedTeamId" = value`
    requester_eq team_eq : String → String → Sql
    -- `EXISTS (SELECT 1 FROM "TicketAccess" ta WHERE ...)`
    grant_exists : String → String → Sql
    -- `alias."deletedAt" IS NULL`
    deleted_is_null : String → Sql
    -- `(a OR b)`, `(a AND (b))`
    or_sql and_sql : Sql → Sql → Sql
    -- `Prisma.join(parts, ' OR ')`
    join_or : Sqls → Sql

  pub data Sqls : Type 0 where
    nil : Sqls
    cons : Sql → Sqls → Sqls

-- `/^[a-zA-Z_]+$/`
abbrev is_alias_char : ℕ → Bool
is_alias_char c = leb b'a' c && leb c b'z' || leb b'A' c && leb c b'Z' || eqb c b'_'

abbrev all_alias_chars : String → Bool
all_alias_chars String.[] = true
all_alias_chars (String.◌∷◌ c s) = is_alias_char (code c) && all_alias_chars s

unfoldable pub is_alias : String → Bool
is_alias s = not (s == "") && all_alias_chars s

unfoldable pub team_part : String → String → Sql
team_part alias team = or_sql (team_eq alias team) (grant_exists alias team)

unfoldable pub scope_parts : String → List String → Sqls
scope_parts alias [] = nil
scope_parts alias (team ∷ scope) = cons (team_part alias team) (scope_parts alias scope)

pub scope_condition : AuthUser → String → List String → Sql
scope_condition user alias scope =
    if is_empty scope
    then requester_eq alias user.id
    else if is_lead user.role
    then join_or (scope_parts alias scope)
    else join_or (scope_parts alias scope)

pub role_condition_sql : AuthUser → String → Sql
unfolding scope_condition
role_condition_sql user alias =
    if is_owner user.role then sql_true else elim (administered_team user) [
      | some team ↦ team_part alias team
      | none ↦
          if is_employee user.role
          then requester_eq alias user.id
          else scope_condition user alias (operational_team_ids user)
    ]

unfoldable pub visible_condition : AuthUser → String → Bool → Sql
visible_condition user alias include_deleted =
    if include_deleted && is_owner user.role
    then role_condition_sql user alias
    else and_sql (deleted_is_null alias) (role_condition_sql user alias)

abbrev pub invalid_alias : String → String
invalid_alias alias = "Invalid SQL alias: \"" ++ (alias ++ "\"")

unfoldable pub access_condition_sql : AuthUser → String → Bool → Result Sql
access_condition_sql user alias include_deleted =
    if not (is_alias alias)
    then err (plain_error (invalid_alias alias))
    else ok (visible_condition user alias include_deleted)

-- SQL's truth values: `none` is NULL.
abbrev pub or_null : Option Bool → Option Bool → Option Bool
or_null (some true) b = some true
or_null (some false) b = b
or_null none (some true) = some true
or_null none _ = none

abbrev pub and_null : Option Bool → Option Bool → Option Bool
and_null (some false) b = some false
and_null (some true) b = b
and_null none (some false) = some false
and_null none _ = none

-- `column = value`
abbrev pub eq_null : Option String → String → Option Bool
eq_null none v = none
eq_null (some c) v = some (c == v)

abbrev pub join_null : (Sql → Option Bool) → Sqls → Option Bool
join_null m nil = some false
join_null m (cons c nil) = m c
join_null m (cons c (cons d cs)) = or_null (m c) (join_null m (cons d cs))

-- What the database's documentation says of the value of a condition at a row of the ticket table.
pub record SqlSemantics : Type 0 where
  pub value : Sql → AccessTicket → Option Bool
  pub at_true : (t : AccessTicket) → value sql_true t ≡ some true
  pub at_requester :
      (a s : String) (t : AccessTicket) → value (requester_eq a s) t ≡ some (t.requester_id == s)
  pub at_team :
      (a s : String) (t : AccessTicket) → value (team_eq a s) t ≡ eq_null t.assigned_team_id s
  pub at_grant :
      (a s : String) (t : AccessTicket) → value (grant_exists a s) t ≡ some (has_grant t s)
  pub at_deleted :
      (a : String) (t : AccessTicket) → value (deleted_is_null a) t ≡ some (is_none t.deleted_at)
  pub at_or :
      (c d : Sql) (t : AccessTicket) → value (or_sql c d) t ≡ or_null (value c t) (value d t)
  pub at_and :
      (c d : Sql) (t : AccessTicket) → value (and_sql c d) t ≡ and_null (value c t) (value d t)
  pub at_join :
      (cs : Sqls) (t : AccessTicket) → value (join_or cs) t ≡ join_null (λ c. value c t) cs
