-- ===== src/Access/Sql/Laws.antt =====
-- The SQL condition against the Prisma filter.
use Prim.Native.String.{◌++◌}
use cursor_multi_agent.Prelude.{
  String, ◌≡◌, refl, sym, ◌∙◌, Bool, true, false, ◌||◌, Option, none, some, List, [], ◌∷◌, any, inl,
  inr, arith, ◌===◌, is_none, Bool-cases, Option-cases, ok, err, plain_error, ◌⊎◌,
}
use cursor_multi_agent.Domain.{AuthUser, is_owner}
use cursor_multi_agent.Access.{
  AccessTicket, operational_team_ids, administered_team, has_grant, can_view_in_scope,
  can_view_ticket,
}
use cursor_multi_agent.Access.Filter.{PrismaSemantics, build_ticket_access_filter}
use cursor_multi_agent.Access.Filter.Laws.{scope_sees, filter-owner, filter-eq-can_view}
use cursor_multi_agent.Access.Sql.{
  Sql, team_eq, grant_exists, sql_true, deleted_is_null, is_alias, team_part, scope_parts,
  scope_condition, role_condition_sql, visible_condition, access_condition_sql, or_null, join_null,
  SqlSemantics,
}

-- A WHERE clause keeps a row only if its value is TRUE.
abbrev pub kept : Option Bool → Bool
kept (some b) = b
kept none = false

module _ (db : SqlSemantics) (t : AccessTicket) (alias : String) where
  team_part-kept :
      (team : String)
      → kept (db.value (team_part alias team) t) ≡ (t.assigned_team_id === team) || has_grant t team
  unfolding team_part
  team_part-kept team = elim (Option-cases t.assigned_team_id) [
    | inl e ↦ ground (
      arith,
      db.at_or (team_eq alias team) (grant_exists alias team) t,
      db.at_team alias team t,
      db.at_grant alias team t,
    )
    | inr (s, e) ↦ ground (
      arith,
      db.at_or (team_eq alias team) (grant_exists alias team) t,
      db.at_team alias team t,
      db.at_grant alias team t,
    )
  ]

  kept-or_null : (a b : Option Bool) → kept (or_null a b) ≡ kept a || kept b
  kept-or_null a b = ground arith

  join-kept :
      (scope : List String)
      → kept (join_null (λ c. db.value c t) (scope_parts alias scope))
        ≡ any (λ s. (t.assigned_team_id === s) || has_grant t s) scope
  unfolding scope_parts
  join-kept [] = refl
  join-kept (s ∷ []) = ground (arith, team_part-kept s)
  join-kept (s ∷ r ∷ scope) = ground (
    arith,
    kept-or_null (db.value (team_part alias s) t)
        (join_null (λ c. db.value c t) (scope_parts alias (r ∷ scope))),
    team_part-kept s,
    join-kept (r ∷ scope),
  )

  scope_condition-kept :
      (user : AuthUser) (scope : List String)
      → kept (db.value (scope_condition user alias scope) t) ≡ can_view_in_scope user scope t
  unfolding scope_condition can_view_in_scope
  scope_condition-kept user scope = ground (
    arith,
    db.at_requester alias user.id t,
    db.at_join (scope_parts alias scope) t,
    join-kept scope,
    scope_sees t scope,
  )

  role_condition-kept :
      (user : AuthUser)
      → t.deleted_at ≡ none
      → kept (db.value (role_condition_sql user alias) t) ≡ can_view_ticket user t
  unfolding role_condition_sql can_view_ticket
  role_condition-kept user live = elim (Option-cases (administered_team user)) [
    | inl e ↦ ground (
      arith,
      db.at_true t,
      db.at_requester alias user.id t,
      scope_condition-kept user (operational_team_ids user),
    )
    | inr (team, e) ↦ ground (arith, db.at_true t, team_part-kept team)
  ]

module _ (db : SqlSemantics) (prisma : PrismaSemantics) (t : AccessTicket) (user : AuthUser) where
  owner_condition-kept :
      (alias : String) (include_deleted : Bool)
      → is_owner user.role ≡ true
      → kept (db.value (visible_condition user alias include_deleted) t)
        ≡ include_deleted || is_none t.deleted_at
  unfolding visible_condition role_condition_sql
  owner_condition-kept alias include_deleted h =
      ground
        (arith, db.at_true t, db.at_and (deleted_is_null alias) sql_true t, db.at_deleted alias t)

  other_condition-kept :
      (alias : String) (include_deleted : Bool)
      → is_owner user.role ≡ false
      → kept (db.value (visible_condition user alias include_deleted) t) ≡ can_view_ticket user t
  unfolding visible_condition
  other_condition-kept alias include_deleted h = elim (Option-cases t.deleted_at) [
    | inl live ↦ ground (
      arith,
      db.at_and (deleted_is_null alias) (role_condition_sql user alias) t,
      db.at_deleted alias t,
      role_condition-kept db t alias user live,
    )
    | inr (at, gone) ↦
        unfold can_view_ticket in
        ground (
          arith,
          db.at_and (deleted_is_null alias) (role_condition_sql user alias) t,
          db.at_deleted alias t,
        )
  ]

  visible_condition-kept :
      (alias : String) (include_deleted : Bool)
      → kept (db.value (visible_condition user alias include_deleted) t)
        ≡ prisma.matches (build_ticket_access_filter user include_deleted) t
  visible_condition-kept alias include_deleted = elim (Bool-cases (is_owner user.role)) [
    | inl h ↦
        owner_condition-kept alias include_deleted h
        ∙ sym (filter-owner prisma t user include_deleted h)
    | inr h ↦
        other_condition-kept alias include_deleted h
        ∙ sym (filter-eq-can_view prisma t user include_deleted h)
  ]

  -- With a valid alias the condition is built, and it keeps exactly the rows that the Prisma filter
  -- of the same user and options selects; with any other alias an error is thrown.
  pub sql-selects-filter :
      (alias : String) (include_deleted : Bool)
      → ((is_alias alias ≡ true)
          × (c : Sql) × (access_condition_sql user alias include_deleted ≡ ok c)
          × (kept (db.value c t)
              ≡ prisma.matches (build_ticket_access_filter user include_deleted) t))
        ⊎ ((is_alias alias ≡ false)
            × (access_condition_sql user alias include_deleted
                ≡ err (plain_error ("Invalid SQL alias: \"" ++ (alias ++ "\"")))))
  unfolding access_condition_sql
  sql-selects-filter alias include_deleted = elim (Bool-cases (is_alias alias)) [
    | inr bad ↦ inr (bad, rw bad)
    | inl good ↦ inl (
      good,
      visible_condition user alias include_deleted,
      rw good,
      visible_condition-kept alias include_deleted,
    )
  ]
