-- ===== src/Categories/Races.antt =====
-- `update` of categories.service.ts reads the chain of the new parent before its write, and not in one
-- transaction with it.
use mathlib.Core.Path.{subst}
use cursor_multi_agent.Prelude.{
  ◌≡◌, ◌⊎◌, refl, String, true, false, none, some, List, ◌==◌, arith, eq_iff, eq_refl, truthy, ok,
  inl, inr, ◌∙◌,
}
use cursor_multi_agent.Store.Tables.{update_by}
use cursor_multi_agent.Categories.{
  Category, CategoryDb, category_id, find_category, UpdateCategory, updated_row, validate_update,
  validate_parent_update, ensure_category, walk, write_update,
}
use cursor_multi_agent.Categories.Tree.{Ends, missing, root, under, find-updated}

-- A request that only moves a category.
abbrev pub move_under : String → UpdateCategory
move_under parent = record {
  name = none;
  slug = none;
  description = none;
  parent_id = some (some parent);
  is_active = none;
}

endless :
    (rows : List Category) (a b : String) (ca cb : Category)
    → truthy a ≡ true
    → truthy b ≡ true
    → find_category a rows ≡ some ca
    → ca.parent_id ≡ some b
    → find_category b rows ≡ some cb
    → cb.parent_id ≡ some a
    → {j : String} → Ends rows j
    → (j ≡ a) ⊎ (j ≡ b)
    → ⊥
endless rows a b ca cb ta tb fa pa fb pb {j} (missing gone) here = ground arith
endless rows a b ca cb ta tb fa pa fb pb {j} (root {c = c} found top) here = ground arith
endless rows a b ca cb ta tb fa pa fb pb {j} (under {parent = p} {c = c} found set rest) here =
    endless rows a b ca cb ta tb fa pa fb pb rest (next_of here)
  where
    next_of : (j ≡ a) ⊎ (j ≡ b) → (p ≡ a) ⊎ (p ≡ b)
    next_of (inl e) = inr (ground arith)
    next_of (inr e) = inl (ground arith)

root_accepted :
    (id parent : String) (rows : List Category) (c : Category)
    → find_category parent rows ≡ some c
    → (parent == id) ≡ false
    → c.parent_id ≡ none
    → validate_update id (move_under parent) rows ≡ ok tt
unfolding validate_update validate_parent_update ensure_category walk
root_accepted id parent rows c found other top = ground (arith, found, other, top)

-- Two top-level categories: to move each under the other is accepted by both checks if both read the
-- categories before either write; and once both writes are done, neither chain of parents ends.
pub crossing_moves :
    (a b : String) (db first second : CategoryDb) (ca cb : Category)
    → find_category a db.categories ≡ some ca
    → find_category b db.categories ≡ some cb
    → (a == b) ≡ false
    → truthy a ≡ true
    → truthy b ≡ true
    → ca.parent_id ≡ none
    → cb.parent_id ≡ none
    → write_update a (move_under b) db ≡ ok first
    → write_update b (move_under a) first ≡ ok second
    → (validate_update a (move_under b) db.categories ≡ ok tt)
      × (validate_update b (move_under a) db.categories ≡ ok tt)
      × ¬ Ends second.categories a
      × ¬ Ends second.categories b
unfolding write_update
crossing_moves a b db first second ca cb fa fb other named_a named_b ta tb wa wb =
    let rows = update_by category_id a (updated_row (move_under b)) db.categories in
    let rows' = update_by category_id b (updated_row (move_under a)) rows in
    let other' : (b == a) ≡ false = ground (arith, eq_iff a b, eq_iff b a) in
    let after : second.categories ≡ rows' = ground (arith, fa, fb) in
    let found_b : find_category b rows ≡ some cb =
      find-updated a b (updated_row (move_under b)) (λ c. refl) db.categories ∙ rw (other, fb) in
    let found_a : find_category a rows ≡ some (updated_row (move_under b) ca) =
      find-updated a a (updated_row (move_under b)) (λ c. refl) db.categories
      ∙ rw (eq_refl a, fa) in
    let last_a : find_category a rows' ≡ some (updated_row (move_under b) ca) =
      find-updated b a (updated_row (move_under a)) (λ c. refl) rows ∙ rw (other', found_a) in
    let last_b : find_category b rows' ≡ some (updated_row (move_under a) cb) =
      find-updated b b (updated_row (move_under a)) (λ c. refl) rows ∙ rw (eq_refl b, found_b) in
    let loop = λ (j : String) (ends : Ends rows' j) (here : (j ≡ a) ⊎ (j ≡ b)).
      endless rows' a b _ _ named_a named_b last_a refl last_b refl ends here in
    (
      root_accepted a b db.categories cb fb other' tb,
      root_accepted b a db.categories ca fa other ta,
      λ ends. loop a (subst (λ rows. Ends rows a) after ends) (inl refl),
      λ ends. loop b (subst (λ rows. Ends rows b) after ends) (inr refl),
    )
