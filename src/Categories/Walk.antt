-- ===== src/Categories/Walk.antt =====
-- The loop of `validateParentUpdate` ends, and what it accepts is a chain that ends without the category.
use cursor_multi_agent.Prelude.{
  ℕ, zero, suc, ◌+◌, ◌<◌, ◌≤◌, ◌≡◌, refl, String, true, false, not, Option, none, some, List, [],
  ◌∷◌, filter, length, arith, eq_iff, includes, Option-cases, inl, inr, is_some, Bool-cases, ◌==◌,
  ap, ◌∙◌, sym,
}
use cursor_multi_agent.Store.Tables.{find_by}
use cursor_multi_agent.Categories.{Category, find_category, walk}

-- The rows whose id the loop has not met.
abbrev pub unseen : List String → List Category → ℕ
unseen seen rows = length (filter (λ c. not (includes seen c.id)) rows)

pub unseen_le : (seen : List String) (rows : List Category) → unseen seen rows ≤ length rows
unseen_le seen [] = omega arith
unseen_le seen (c ∷ rows) = ground (arith, unseen_le seen rows)

unseen_mono :
    (x : String) (seen : List String) (rows : List Category)
    → unseen (x ∷ seen) rows ≤ unseen seen rows
unseen_mono x seen [] = omega arith
unseen_mono x seen (c ∷ rows) = ground (arith, unseen_mono x seen rows)

-- To meet the id of a row leaves fewer.
unseen_less :
    (x : String) (seen : List String) (rows : List Category) (found : Category)
    → find_category x rows ≡ some found
    → includes seen x ≡ false
    → unseen (x ∷ seen) rows < unseen seen rows
unfolding find_category find_by
unseen_less x seen [] found h new = absurd (ground arith)
unseen_less x seen (c ∷ rows) found h new = elim (Bool-cases (c.id == x)) [
  | inl here ↦
      let same = (eq_iff c.id x).0 here in
      let fresh : includes seen c.id ≡ false = ap (λ s. includes seen s) same ∙ new in
      let met : (x == c.id) ≡ true = (eq_iff x c.id).1 (sym same) in
      let fewer = unseen_mono x seen rows in rw (fresh, met) (omega arith)
  | inr other ↦
      let fewer = unseen_less x seen rows found (rw other at h) new in
      let other' : (x == c.id) ≡ false = ground (arith, eq_iff c.id x, eq_iff x c.id) in
      rw other' (ground arith)
]

pub walk_ends :
    (fuel : ℕ) (id : String) (seen : List String) (cursor : Option String) (rows : List Category)
    → unseen seen rows + 1 < fuel
    → is_some (walk fuel id seen cursor rows) ≡ true
unfolding walk
walk_ends zero id seen cursor rows h = absurd (omega arith)
walk_ends (suc fuel) id seen none rows h = refl
walk_ends (suc fuel) id seen (some cursor) rows h =
    elim (Option-cases (find_category cursor rows)) [
      | inl gone ↦ ground arith
      | inr (next, found) ↦ ground (
        arith,
        unseen_less cursor seen rows next found,
        walk_ends fuel id (cursor ∷ seen) next.parent_id rows,
      )
    ]
