-- ===== src/Access/Filter/Laws.antt =====
-- The filter against `canViewTicket`.
use cursor_multi_agent.Prelude.{
  String, ◌≡◌, refl, sym, Bool, true, false, ◌||◌, Option, none, some, List, [], ◌∷◌, any, inl, inr,
  arith, ◌==◌, ◌===◌, includes, includes_some, or_else, eq_iff, is_none, Option-cases,
}
use cursor_multi_agent.Domain.{AuthUser, is_owner}
use cursor_multi_agent.Access.{
  AccessTicket, operational_team_ids, administered_team, has_grant, has_read_grant,
  can_view_in_scope, can_view_ticket,
}
use cursor_multi_agent.Access.Filter.{
  Wheres, everything, assigned_team_is, granted_to, not_deleted, nil, cons, some_clause,
  scope_clauses, scope_filter, role_filter, build_ticket_access_filter, PrismaSemantics,
}

pub any_or {ℓ} :
    {A : Type ℓ} (p q : A → Bool) (xs : List A) → any (λ x. p x || q x) xs ≡ any p xs || any q xs
any_or p q [] = refl
any_or p q (x ∷ xs) = ground (arith, any_or p q xs)

any-false {ℓ} : {A : Type ℓ} (xs : List A) → any (λ _. false) xs ≡ false
any-false [] = refl
any-false (x ∷ xs) = any-false xs

==_comm : (a b : String) → (a == b) ≡ (b == a)
==_comm a b = ground (arith, eq_iff a b, eq_iff b a)

includes_flip : (s : String) (xs : List String) → any (λ x. s == x) xs ≡ includes xs s
includes_flip s [] = refl
includes_flip s (x ∷ xs) = ground (arith, ==_comm s x, includes_flip s xs)

-- Two lists share a team, from either side.
pub share_comm : (xs ys : List String) → any (includes ys) xs ≡ any (includes xs) ys
share_comm [] ys = sym (any-false ys)
share_comm (x ∷ xs) ys =
    rw (any_or (λ y. x == y) (includes xs) ys, includes_flip x ys, share_comm xs ys)

pub any_team :
    (o : Option String) (scope : List String) → any (λ s. o === s) scope ≡ includes_some scope o
any_team none scope = any-false scope
any_team (some s) scope = includes_flip s scope

-- The clauses of a team scope, read one by one, say what `canViewTicket` asks of the scope.
pub scope_sees :
    (t : AccessTicket) (scope : List String)
    → any (λ s. (t.assigned_team_id === s) || has_grant t s) scope
      ≡ includes_some scope t.assigned_team_id || has_read_grant t scope
unfolding has_grant has_read_grant
scope_sees t scope = rw (
  any_or (λ s. t.assigned_team_id === s) (includes (or_else t.access_grants [])) scope,
  any_team t.assigned_team_id scope,
  share_comm scope (or_else t.access_grants []),
)

abbrev admin_clauses : String → Wheres
admin_clauses team = cons (assigned_team_is team) (cons (granted_to team) nil)

module _ (prisma : PrismaSemantics) (t : AccessTicket) where
  scope_clauses-sees :
      (scope : List String)
      → some_clause (λ w. prisma.matches w t) (scope_clauses scope)
        ≡ any (λ s. (t.assigned_team_id === s) || has_grant t s) scope
  unfolding scope_clauses
  scope_clauses-sees [] = refl
  scope_clauses-sees (s ∷ scope) =
      ground (arith, prisma.at_team s t, prisma.at_grant s t, scope_clauses-sees scope)

  scope_filter-sees :
      (user : AuthUser) (scope : List String)
      → prisma.matches (scope_filter user scope) t ≡ can_view_in_scope user scope t
  unfolding scope_filter can_view_in_scope
  scope_filter-sees user scope = ground (
    arith,
    prisma.at_requester user.id t,
    prisma.at_or (scope_clauses scope) t,
    scope_clauses-sees scope,
    scope_sees t scope,
  )

  -- For a ticket that is not deleted, the role filter is the view check.
  role_filter-can_view :
      (user : AuthUser)
      → t.deleted_at ≡ none
      → prisma.matches (role_filter user) t ≡ can_view_ticket user t
  unfolding role_filter can_view_ticket
  role_filter-can_view user live = elim (Option-cases (administered_team user)) [
    | inl e ↦ ground (
      arith,
      prisma.at_everything t,
      prisma.at_requester user.id t,
      scope_filter-sees user (operational_team_ids user),
    )
    | inr (team, e) ↦ ground (
      arith,
      prisma.at_everything t,
      prisma.at_or (admin_clauses team) t,
      prisma.at_team team t,
      prisma.at_grant team t,
    )
  ]

  -- Every role but OWNER: the tickets that the filter selects, with or without `includeDeleted`, are
  -- exactly those that `canViewTicket` lets the user see.
  pub filter-eq-can_view :
      (user : AuthUser) (include_deleted : Bool)
      → is_owner user.role ≡ false
      → prisma.matches (build_ticket_access_filter user include_deleted) t ≡ can_view_ticket user t
  unfolding build_ticket_access_filter
  filter-eq-can_view user include_deleted h = elim (Option-cases t.deleted_at) [
    | inl live ↦ ground (
      arith,
      prisma.at_and (cons not_deleted (cons (role_filter user) nil)) t,
      prisma.at_live t,
      role_filter-can_view user live,
    )
    | inr (at, gone) ↦
        unfold can_view_ticket in
        ground (
          arith,
          prisma.at_and (cons not_deleted (cons (role_filter user) nil)) t,
          prisma.at_live t,
        )
  ]

  -- An OWNER's filter selects everything with `includeDeleted`, and else all that is not deleted.
  pub filter-owner :
      (user : AuthUser) (include_deleted : Bool)
      → is_owner user.role ≡ true
      → prisma.matches (build_ticket_access_filter user include_deleted) t
        ≡ include_deleted || is_none t.deleted_at
  unfolding build_ticket_access_filter role_filter
  filter-owner user include_deleted h = ground (
    arith,
    prisma.at_and (cons not_deleted (cons everything nil)) t,
    prisma.at_live t,
    prisma.at_everything t,
  )
