-- ===== src/Categories/Forests.antt =====
-- Forests after a category is created or deleted.
use mathlib.Core.Path.{subst}
use mathlib.Core.Option.{some-injective}
use cursor_multi_agent.Prelude.{
  ◌≡◌, refl, String, true, false, not, Option, none, some, List, [], ◌∷◌, ◌==◌, filter, arith,
  eq_iff, eq_refl, if◌then◌else◌, Option-cases, Bool-cases, inl, inr, ◌∙◌, is_some, present, sym,
  ◌===◌, ap,
}
use cursor_multi_agent.Store.Tables.{find_by}
use cursor_multi_agent.Categories.{Category, find_category, parent_exists, has_children}
use cursor_multi_agent.Categories.Tree.{Ends, missing, root, under, SameBut, write-Ends}
use cursor_multi_agent.Categories.Updates.{IsForest}

pub find-created :
    (c : Category) (j : String) (rows : List Category)
    → find_category j (c ∷ rows) ≡ (if c.id == j then some c else find_category j rows)
unfolding find_category find_by
find-created c j rows = refl

pub created_exists :
    (c : Category) (parent : Option String) (rows : List Category)
    → parent_exists parent rows ≡ true
    → parent_exists parent (c ∷ rows) ≡ true
created_exists c none rows h = refl
created_exists c (some parent) rows h = ap is_some (find-created c parent rows) ∙ ground arith

pub not_fresh :
    (id parent : String) (rows : List Category)
    → find_category id rows ≡ none
    → parent_exists (some parent) rows ≡ true
    → (id == parent) ≡ false
not_fresh id parent rows fresh exists = ground (arith, eq_iff id parent)

-- A chain through existing parents does not meet a new id.
pub extended :
    (c : Category) (rows : List Category)
    → find_category c.id rows ≡ none
    → IsForest rows
    → {j : String} → (c.id == j) ≡ false
    → Ends rows j
    → Ends (c ∷ rows) j
extended c rows fresh forest {j} other (missing gone) =
    missing (find-created c j rows ∙ ground (arith, other))
extended c rows fresh forest {j} other (root {c = d} found top) =
    root {c = d} (find-created c j rows ∙ ground (arith, other)) top
extended c rows fresh forest {j} other (under {parent = p} {c = d} found set rest) =
    under {c = d} (find-created c j rows ∙ ground (arith, other)) set (
      extended c rows fresh forest
        (not_fresh c.id p rows fresh
          (subst (λ o. parent_exists o rows ≡ true) set (forest.parents j d found)))
        rest)

-- A row with a new id under a parent that is there.
pub created-IsForest :
    (c : Category) (rows : List Category)
    → find_category c.id rows ≡ none
    → parent_exists c.parent_id rows ≡ true
    → IsForest rows
    → IsForest (c ∷ rows)
created-IsForest c rows fresh exists forest =
    let same : SameBut c.id rows (c ∷ rows) =
      λ j other. find-created c j rows ∙ ground (arith, other) in
    let own_row : find_category c.id (c ∷ rows) ≡ some c =
      find-created c c.id rows ∙ ground (arith, eq_refl c.id) in
    let own : Ends (c ∷ rows) c.id = elim (Option-cases c.parent_id) [
      | inl unset ↦ root own_row (ap present unset)
      | inr (p, set) ↦ under own_row set (
          extended c rows fresh forest
            (not_fresh c.id p rows fresh (subst (λ o. parent_exists o rows ≡ true) set exists))
            (forest.chains p))
    ] in
    record {
      chains = λ j. write-Ends rows _ c.id same own (forest.chains j);
      parents = λ j d found. elim (Bool-cases (c.id == j)) [
        | inl here ↦
            let is_new : c ≡ d =
              some-injective _ _ (sym (find-created c j rows ∙ ground (arith, here)) ∙ found) in
            subst (λ x. parent_exists x.parent_id (c ∷ rows) ≡ true) is_new
              (created_exists c c.parent_id rows exists)
        | inr other ↦
            created_exists c d.parent_id rows (forest.parents j d (sym (same j other) ∙ found))
      ];
    }

pub find-deleted :
    (id j : String) (rows : List Category)
    → find_category j (filter (λ c. not (c.id == id)) rows)
      ≡ (if id == j then none else find_category j rows)
unfolding find_category find_by
find-deleted id j [] = ground arith
find-deleted id j (c ∷ rows) =
    ground (arith, eq_iff id j, eq_iff c.id id, eq_iff c.id j, find-deleted id j rows)

pub childless :
    (id j : String) (rows : List Category) (d : Category)
    → has_children id rows ≡ false
    → find_category j rows ≡ some d
    → (d.parent_id === id) ≡ false
unfolding find_category find_by
childless id j [] d h found = absurd (ground arith)
childless id j (c ∷ rows) d h found = elim (Bool-cases (c.id == j)) [
  | inl here ↦
      subst (λ x. (x.parent_id === id) ≡ false) (some-injective c d (rw here at found))
        (ground arith)
  | inr other ↦ childless id j rows d (ground arith) (rw other at found)
]

pub deleted_exists :
    (id : String) (parent : Option String) (rows : List Category)
    → (parent === id) ≡ false
    → parent_exists parent rows ≡ true
    → parent_exists parent (filter (λ c. not (c.id == id)) rows) ≡ true
deleted_exists id none rows other h = refl
deleted_exists id (some parent) rows other h =
    ap is_some (find-deleted id parent rows) ∙ ground (arith, eq_iff id parent, eq_iff parent id)

pub deleted-IsForest :
    (id : String) (rows : List Category)
    → has_children id rows ≡ false
    → IsForest rows
    → IsForest (filter (λ c. not (c.id == id)) rows)
deleted-IsForest id rows none_below forest =
    let same : SameBut id rows (filter (λ c. not (c.id == id)) rows) =
      λ j other. find-deleted id j rows ∙ ground (arith, other) in
    record {
      chains = λ j.
          write-Ends rows _ id same (missing (find-deleted id id rows ∙ ground (arith, eq_refl id)))
            (forest.chains j);
      parents = λ j d found. elim (Bool-cases (id == j)) [
        | inl here ↦ absurd (ground (arith, find-deleted id j rows))
        | inr other ↦
            let found' = sym (same j other) ∙ found in
            deleted_exists id d.parent_id rows (childless id j rows d none_below found')
              (forest.parents j d found')
      ];
    }
