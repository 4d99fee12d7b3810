-- ===== src/Store/Tables.antt =====
-- A table whose rows have a text key: `findUnique` and `update` on the key.
use cursor_multi_agent.Prelude.{
  String, true, false, ◌≡◌, ◌≢◌, refl, Option, none, some, List, [], ◌∷◌, ◌==◌, arith, eq_iff,
  if◌then◌else◌, All, Bool-cases, inl, inr, sym,
}
use mathlib.Core.Option
use mathlib.Core.Option.{some-injective}
use mathlib.Core.Path.{subst}

module _ {ℓ} {A : Type ℓ} (key : A → String) where
  unfoldable pub find_by : String → List A → Option A
  find_by id [] = none
  find_by id (x ∷ xs) = if key x == id then some x else find_by id xs

  -- The key is unique, so the first row that has it is the row.
  unfoldable pub update_by : String → (A → A) → List A → List A
  update_by id change [] = []
  update_by id change (x ∷ xs) = if key x == id then change x ∷ xs else x ∷ update_by id change xs

module _ {ℓ} {A : Type ℓ} (key : A → String) where
  found_here :
      (id : String) (x : A) (xs : List A) {a : A}
      → (key x == id) ≡ true
      → find_by key id (x ∷ xs) ≡ some a
      → x ≡ a
  unfolding find_by
  found_here id x xs {a} e h = some-injective x a (rw e at h)

  found_later :
      (id : String) (x : A) (xs : List A) {a : A}
      → (key x == id) ≡ false
      → find_by key id (x ∷ xs) ≡ some a
      → find_by key id xs ≡ some a
  unfolding find_by
  found_later id x xs e h = rw e at h

  pub find_by-key : (id : String) (xs : List A) {a : A} → find_by key id xs ≡ some a → key a ≡ id
  find_by-key id [] h = unfold find_by in cc h
  find_by-key id (x ∷ xs) h = elim (Bool-cases (key x == id)) [
    | inl e ↦ subst (λ y. key y ≡ id) (found_here id x xs e h) ((eq_iff (key x) id).0 e)
    | inr e ↦ find_by-key id xs (found_later id x xs e h)
  ]

  module _ (change : A → A) (keeps : (a : A) → key (change a) ≡ key a) where
    -- The row read back after an update is the changed row.
    pub find_by-update_self :
        (id : String) (xs : List A)
        → find_by key id (update_by key id change xs) ≡ Option.map change (find_by key id xs)
    unfolding find_by update_by
    find_by-update_self id [] = refl
    find_by-update_self id (x ∷ xs) =
        ground (arith, keeps x, eq_iff (key x) id, find_by-update_self id xs)

    -- An update leaves the rows of other keys alone.
    pub find_by-update_ne :
        (id j : String) (xs : List A)
        → id ≢ j
        → find_by key j (update_by key id change xs) ≡ find_by key j xs
    unfolding find_by update_by
    find_by-update_ne id j [] h = refl
    find_by-update_ne id j (x ∷ xs) h =
        ground (arith, keeps x, eq_iff (key x) id, eq_iff (key x) j, find_by-update_ne id j xs h)

    -- Both in one.
    pub find_by-update :
        (id j : String) (xs : List A)
        → find_by key j (update_by key id change xs)
          ≡ (if id == j then Option.map change (find_by key j xs) else find_by key j xs)
    find_by-update id j xs = elim (Bool-cases (id == j)) [
      | inl e ↦ rw (e, (eq_iff id j).0 e) (find_by-update_self j xs)
      | inr e ↦ rw e (find_by-update_ne id j xs (λ same. ground (arith, eq_iff id j)))
    ]

  -- A predicate that the changed row satisfies stays true of all rows.
  pub All-update_by {κ} :
      (P : A → Type κ) (change : A → A) (id : String) (xs : List A) {a : A}
      → find_by key id xs ≡ some a
      → P (change a)
      → All P xs
      → All P (update_by key id change xs)
  unfolding update_by
  All-update_by P change id [] found p all = tt
  All-update_by P change id (x ∷ xs) {a} found p (px, all) = elim (Bool-cases (key x == id)) [
    | inl e ↦ rw e (subst (λ y. P (change y)) (sym (found_here id x xs e found)) p, all)
    | inr e ↦ rw e (px, All-update_by P change id xs (found_later id x xs e found) p all)
  ]

  pub All-find_by {κ} :
      (P : A → Type κ) (id : String) (xs : List A) {a : A}
      → find_by key id xs ≡ some a
      → All P xs
      → P a
  All-find_by P id [] found all = unfold find_by in cc found
  All-find_by P id (x ∷ xs) found (px, all) = elim (Bool-cases (key x == id)) [
    | inl e ↦ subst P (found_here id x xs e found) px
    | inr e ↦ All-find_by P id xs (found_later id x xs e found) all
  ]
