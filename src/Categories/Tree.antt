-- ===== src/Categories/Tree.antt =====
-- Chains of parents, and what a write does to them.
use cursor_multi_agent.Prelude.{
  ℕ, zero, suc, ◌≡◌, String, true, false, Option, none, some, List, ◌∷◌, ◌==◌, arith, eq_iff,
  truthy, if◌then◌else◌, ok, Option-cases, Bool-cases, inl, inr, ◌∙◌, present,
}
use mathlib.Core.Option
use mathlib.Core.Path.{subst}
use cursor_multi_agent.Store.Tables.{update_by, find_by-update}
use cursor_multi_agent.Categories.{Category, category_id, find_category, walk}
use mathlib.Core.Path.{subst}

-- The chain of parents from an id comes to an end.
pub data Ends (rows : List Category) : String → Type 0 where
  missing : {id : String} → find_category id rows ≡ none → Ends rows id
  root :
      {id : String} {c : Category}
      → find_category id rows ≡ some c
      → present c.parent_id ≡ false
      → Ends rows id
  under :
      {id parent : String} {c : Category}
      → find_category id rows ≡ some c
      → c.parent_id ≡ some parent
      → Ends rows parent
      → Ends rows id

-- From a parent field.
abbrev pub EndsFrom : List Category → Option String → Type 0
EndsFrom rows none = Unit
EndsFrom rows (some parent) = truthy parent ≡ true → Ends rows parent

pub find-updated :
    (id j : String) (change : Category → Category)
    → ((c : Category) → (change c).id ≡ c.id)
    → (rows : List Category)
    → find_category j (update_by category_id id change rows)
      ≡ (if id == j then Option.map change (find_category j rows) else find_category j rows)
unfolding find_category
find-updated id j change keeps rows = find_by-update category_id change keeps id j rows

-- A row whose parent's chain ends.
pub row-Ends :
    (rows : List Category) (id : String) (c : Category)
    → find_category id rows ≡ some c
    → EndsFrom rows c.parent_id
    → Ends rows id
row-Ends rows id c found chain = elim (Option-cases c.parent_id) [
  | inl none_set ↦ root found (ground (arith, none_set))
  | inr (parent, set) ↦ elim (Bool-cases (truthy parent)) [
    | inl named ↦ under found set (subst (EndsFrom rows) set chain named)
    | inr empty ↦ root found (ground (arith, set, empty))
  ]
]

-- Two tables that differ at one id only.
abbrev pub SameBut : String → List Category → List Category → Type 0
SameBut id rows rows' =
    (j : String) → (id == j) ≡ false → find_category j rows' ≡ find_category j rows

-- What the loop accepts is a chain that ends, also after a write to `id`.
pub walk_accepts :
    (fuel : ℕ) (id : String) (seen : List String) (cursor : Option String)
    (rows rows' : List Category)
    → SameBut id rows rows'
    → walk fuel id seen cursor rows ≡ some (ok tt)
    → EndsFrom rows' cursor
unfolding walk
walk_accepts zero id seen none rows rows' same h = tt
walk_accepts zero id seen (some cursor) rows rows' same h = λ named. absurd (ground arith)
walk_accepts (suc fuel) id seen none rows rows' same h = tt
walk_accepts (suc fuel) id seen (some cursor) rows rows' same h = λ named.
    let other : (id == cursor) ≡ false = ground (arith, eq_iff id cursor, eq_iff cursor id) in
    elim (Option-cases (find_category cursor rows)) [
      | inl gone ↦ missing (same cursor other ∙ gone)
      | inr (next, found) ↦
          row-Ends rows' cursor next (same cursor other ∙ found)
            (walk_accepts fuel id (cursor ∷ seen) next.parent_id rows rows' same (ground arith))
    ]

-- A write to `id` that leaves its own chain ending leaves every chain ending.
pub write-Ends :
    (rows rows' : List Category) (id : String)
    → SameBut id rows rows'
    → Ends rows' id
    → {j : String} → Ends rows j
    → Ends rows' j
write-Ends rows rows' id same own {j} (missing gone) = elim (Bool-cases (id == j)) [
  | inl here ↦ subst (Ends rows') ((eq_iff id j).0 here) own
  | inr other ↦ missing (same j other ∙ gone)
]
write-Ends rows rows' id same own {j} (root found top) = elim (Bool-cases (id == j)) [
  | inl here ↦ subst (Ends rows') ((eq_iff id j).0 here) own
  | inr other ↦ root (same j other ∙ found) top
]
write-Ends rows rows' id same own {j} (under found set rest) = elim (Bool-cases (id == j)) [
  | inl here ↦ subst (Ends rows') ((eq_iff id j).0 here) own
  | inr other ↦ under (same j other ∙ found) set (write-Ends rows rows' id same own rest)
]
