-- ===== src/Categories/Updates.antt =====
-- `update` of categories.service.ts keeps the categories a forest.
use mathlib.Core.Option.{some-injective}
use mathlib.Core.Path.{subst}
use cursor_multi_agent.Prelude.{
  eq_refl, ◌+◌, ◌≡◌, refl, String, true, false, Option, none, some, List, [], ◌∷◌, ◌==◌, length,
  arith, eq_iff, ok, Option-cases, Bool-cases, inl, inr, ◌∙◌, is_some, present, sym, or_else, ap,
}
use cursor_multi_agent.Domain.{AuthUser}
use cursor_multi_agent.Store.Tables.{update_by}
use cursor_multi_agent.Categories.{
  Category, CategoryDb, category_id, find_category, walk, updated_row, UpdateCategory, update,
  validate_parent_update, validate_update, write_update, ensure_category, parent_exists,
  with_categories,
}
use cursor_multi_agent.Categories.Walk.{walk_ends, unseen_le}
use cursor_multi_agent.Categories.Tree.{
  Ends, missing, root, under, row-Ends, SameBut, walk_accepts, write-Ends, find-updated,
}

-- Every chain of parents ends, and every parent is there.
pub record IsForest (rows : List Category) : Type 0 where
  pub chains : (id : String) → Ends rows id
  pub parents :
      (id : String) (c : Category)
      → find_category id rows ≡ some c
      → parent_exists c.parent_id rows ≡ true

pub SameBut-update :
    (id : String) (payload : UpdateCategory) (rows : List Category)
    → SameBut id rows (update_by category_id id (updated_row payload) rows)
SameBut-update id payload rows j other =
    find-updated id j (updated_row payload) (λ c. refl) rows ∙ ground (arith, other)

-- The loop gives an answer for every table.
pub walk_total :
    (id parent : String) (cursor : Option String) (rows : List Category)
    → is_some (walk (length rows + 2) id (parent ∷ []) cursor rows) ≡ true
walk_total id parent cursor rows =
    walk_ends (length rows + 2) id (parent ∷ []) cursor rows
      (omega (arith, unseen_le (parent ∷ []) rows))

pub updated_found :
    (id : String) (payload : UpdateCategory) (rows : List Category) (c : Category)
    → find_category id rows ≡ some c
    → find_category id (update_by category_id id (updated_row payload) rows)
      ≡ some (updated_row payload c)
updated_found id payload rows c found =
    find-updated id id (updated_row payload) (λ c. refl) rows ∙ rw (eq_refl id, found)

-- A parent that is accepted is another category, whose chain the loop has followed to its end.
accepted_parts :
    (id parent : String) (rows : List Category)
    → validate_parent_update id (some parent) rows ≡ ok tt
    → (p : Category) × (find_category parent rows ≡ some p)
      × ((parent == id) ≡ false)
      × (walk (length rows + 2) id (p.id ∷ []) p.parent_id rows ≡ some (ok tt))
unfolding validate_parent_update ensure_category
accepted_parts id parent rows h = elim (Option-cases (find_category parent rows)) [
  | inl gone ↦ absurd (ground arith)
  | inr (p, found) ↦ elim (Option-cases (walk (length rows + 2) id (p.id ∷ []) p.parent_id rows)) [
    | inl stopped ↦ absurd (ground arith)
    | inr (answer, e) ↦ (p, found, ground arith, ground arith)
  ]
]

-- A new parent that is accepted leaves the chain of the category ending.
accepted_parent :
    (id : String) (payload : UpdateCategory) (parent : Option String) (rows : List Category)
    (c : Category)
    → validate_parent_update id parent rows ≡ ok tt
    → find_category id rows ≡ some c
    → payload.parent_id ≡ some parent
    → Ends (update_by category_id id (updated_row payload) rows) id
accepted_parent id payload none rows c h found set =
    root (updated_found id payload rows c found) (ap (λ o. present (or_else o c.parent_id)) set)
accepted_parent id payload (some parent) rows c h found set =
    let (p, found_parent, other, walked) = accepted_parts id parent rows h in
    let same = SameBut-update id payload rows in
    let other' : (id == parent) ≡ false = ground (arith, eq_iff id parent, eq_iff parent id) in
    under (updated_found id payload rows c found) (ap (λ o. or_else o c.parent_id) set) (
      row-Ends _ parent p (same parent other' ∙ found_parent)
        (walk_accepts (length rows + 2) id (p.id ∷ []) p.parent_id rows _ same walked))

-- The row of an id after an update that leaves the parent alone.
kept_row :
    (id j : String) (payload : UpdateCategory) (rows : List Category) (c : Category)
    → payload.parent_id ≡ none
    → find_category j rows ≡ some c
    → (d : Category) × (find_category j (update_by category_id id (updated_row payload) rows)
        ≡ some d)
      × (d.parent_id ≡ c.parent_id)
kept_row id j payload rows c unset found = elim (Bool-cases (id == j)) [
  | inl here ↦ (
    updated_row payload c,
    find-updated id j (updated_row payload) (λ c. refl) rows ∙ rw (here, found),
    ap (λ o. or_else o c.parent_id) unset,
  )
  | inr other ↦ (c, SameBut-update id payload rows j other ∙ found, refl)
]

-- So does a request that leaves the parent alone.
kept_parent :
    (id : String) (payload : UpdateCategory) (rows : List Category)
    → payload.parent_id ≡ none
    → {j : String} → Ends rows j
    → Ends (update_by category_id id (updated_row payload) rows) j
kept_parent id payload rows unset {j} (missing gone) =
    missing (find-updated id j (updated_row payload) (λ c. refl) rows ∙ ground (arith, gone))
kept_parent id payload rows unset {j} (root {c = c} found top) =
    let (d, found', same) = kept_row id j payload rows c unset found in
    root found' (ap present same ∙ top)
kept_parent id payload rows unset {j} (under {parent = p} {c = c} found set rest) =
    let (d, found', same) = kept_row id j payload rows c unset found in
    under found' (same ∙ set) (kept_parent id payload rows unset rest)

still_there :
    (id : String) (payload : UpdateCategory) (parent : Option String) (rows : List Category)
    → parent_exists parent rows ≡ true
    → parent_exists parent (update_by category_id id (updated_row payload) rows) ≡ true
still_there id payload none rows h = refl
still_there id payload (some parent) rows h =
    ap is_some (find-updated id parent (updated_row payload) (λ c. refl) rows) ∙ ground arith

parents_kept :
    (id : String) (payload : UpdateCategory) (rows : List Category) (c : Category)
    → IsForest rows
    → find_category id rows ≡ some c
    → parent_exists (updated_row payload c).parent_id rows ≡ true
    → (j : String) (d : Category)
    → find_category j (update_by category_id id (updated_row payload) rows) ≡ some d
    → parent_exists d.parent_id (update_by category_id id (updated_row payload) rows) ≡ true
parents_kept id payload rows c forest found exists j d found' = elim (Bool-cases (id == j)) [
  | inl here ↦
      let at_id =
        sym (updated_found id payload rows c found)
        ∙ ap (λ k. find_category k (update_by category_id id (updated_row payload) rows))
            ((eq_iff id j).0 here)
        ∙ found' in
      subst
        (λ x.
          parent_exists x.parent_id (update_by category_id id (updated_row payload) rows) ≡ true)
        (some-injective _ _ at_id)
        (still_there id payload (updated_row payload c).parent_id rows exists)
  | inr other ↦
      still_there id payload d.parent_id rows
        (forest.parents j d (sym (SameBut-update id payload rows j other) ∙ found'))
]

updated-IsForest :
    (id : String) (payload : UpdateCategory) (rows : List Category) (c : Category)
    → IsForest rows
    → find_category id rows ≡ some c
    → validate_update id payload rows ≡ ok tt
    → parent_exists (updated_row payload c).parent_id rows ≡ true
    → IsForest (update_by category_id id (updated_row payload) rows)
unfolding validate_update
updated-IsForest id payload rows c forest found valid exists = record {
  chains = elim (Option-cases payload.parent_id) [
    | inl unset ↦ λ j. kept_parent id payload rows unset (forest.chains j)
    | inr (parent, set) ↦ λ j.
        write-Ends rows _ id (SameBut-update id payload rows)
          (accepted_parent id payload parent rows c (ground (arith, set)) found set)
          (forest.chains j)
  ];
  parents = parents_kept id payload rows c forest found exists;
}

pub update-IsForest :
    (id : String) (payload : UpdateCategory) (user : AuthUser) (db : CategoryDb)
    {after : CategoryDb}
    → update id payload user db ≡ ok after
    → IsForest db.categories
    → IsForest after.categories
unfolding update write_update
update-IsForest id payload user db {after} h forest =
    elim (Option-cases (find_category id db.categories)) [
      | inl gone ↦ absurd (ground arith)
      | inr (c, found) ↦
          let written : after
              ≡ with_categories db (update_by category_id id (updated_row payload) db.categories) =
            ground arith in
          subst (λ x. IsForest x.categories) (sym written)
            (updated-IsForest id payload db.categories c forest found (ground arith) (ground arith))
    ]
