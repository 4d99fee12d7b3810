-- ===== src/Automation/Scheduler/Batches.antt =====
-- The batch of tickets that runOnce of automation-scheduler.service.ts takes in the order of its query.
use mathlib.Core.List.{Memᴰ}
use mathlib.Core.Path.{subst}
use cursor_multi_agent.Prelude.{
  ℕ, zero, suc, ◌≡◌, ◌≤◌, ◌⊎◌, refl, sym, ap, Bool, true, List, [], ◌∷◌, arith, All, length, take,
  filter, leb, leb→le, Bool-cases, inl, inr,
}
use cursor_multi_agent.Automation.Scheduler.{insert_by, order_by}

All-Mem : {A : Type 0} (P : A → Type 0) (xs : List A) {a : A} → Memᴰ a xs → All P xs → P a
All-Mem P [] listed all = elim listed [ ]
All-Mem P (x ∷ xs) (Memᴰ.head e) (here, all) = subst P (sym e) here
All-Mem P (x ∷ xs) (Memᴰ.tail listed) (here, all) = All-Mem P xs listed all

pub Mem-filter :
    {A : Type 0} (p : A → Bool) (xs : List A) {a : A}
    → Memᴰ a xs
    → p a ≡ true
    → Memᴰ a (filter p xs)
Mem-filter p [] listed passes = elim listed [ ]
Mem-filter p (x ∷ xs) {a} (Memᴰ.head e) passes =
    let here : p x ≡ true = subst (λ y. p y ≡ true) e passes in rw here (Memᴰ.head e)
Mem-filter p (x ∷ xs) {a} (Memᴰ.tail listed) passes = elim (Bool-cases (p x)) [
  | inl e ↦ rw e (Memᴰ.tail (Mem-filter p xs listed passes))
  | inr e ↦ rw e (Mem-filter p xs listed passes)
]

module _ {A : Type 0} (key : A → ℕ) where
  abbrev Ascends : List A → Type 0
  Ascends [] = Unit
  Ascends (x ∷ xs) = All (λ y. key x ≤ key y) xs × Ascends xs

  Mem-here : (x : A) (ys : List A) → Memᴰ x (insert_by key x ys)
  unfolding insert_by
  Mem-here x [] = Memᴰ.head refl
  Mem-here x (y ∷ ys) = elim (Bool-cases (leb (key x) (key y))) [
    | inl e ↦ rw e (Memᴰ.head refl)
    | inr e ↦ rw e (Memᴰ.tail (Mem-here x ys))
  ]

  Mem-insert : (x : A) (ys : List A) {a : A} → Memᴰ a ys → Memᴰ a (insert_by key x ys)
  unfolding insert_by
  Mem-insert x [] listed = elim listed [ ]
  Mem-insert x (y ∷ ys) (Memᴰ.head same) = elim (Bool-cases (leb (key x) (key y))) [
    | inl e ↦ rw e (Memᴰ.tail (Memᴰ.head same))
    | inr e ↦ rw e (Memᴰ.head same)
  ]
  Mem-insert x (y ∷ ys) (Memᴰ.tail listed) = elim (Bool-cases (leb (key x) (key y))) [
    | inl e ↦ rw e (Memᴰ.tail (Memᴰ.tail listed))
    | inr e ↦ rw e (Memᴰ.tail (Mem-insert x ys listed))
  ]

  Mem-order : (xs : List A) {a : A} → Memᴰ a xs → Memᴰ a (order_by key xs)
  unfolding order_by
  Mem-order [] listed = elim listed [ ]
  Mem-order (x ∷ xs) {a} (Memᴰ.head e) =
      subst (λ b. Memᴰ b (insert_by key x (order_by key xs))) (sym e) (Mem-here x (order_by key xs))
  Mem-order (x ∷ xs) (Memᴰ.tail listed) = Mem-insert x (order_by key xs) (Mem-order xs listed)

  All-insert : (P : A → Type 0) (x : A) (ys : List A) → P x → All P ys → All P (insert_by key x ys)
  unfolding insert_by
  All-insert P x [] p all = (p, tt)
  All-insert P x (y ∷ ys) p (q, all) = elim (Bool-cases (leb (key x) (key y))) [
    | inl e ↦ rw e (p, (q, all))
    | inr e ↦ rw e (q, All-insert P x ys p all)
  ]

  All-above : (a b : ℕ) (ys : List A) → a ≤ b → All (λ y. b ≤ key y) ys → All (λ y. a ≤ key y) ys
  All-above a b [] low all = tt
  All-above a b (y ∷ ys) low (here, all) = (omega (arith, low, here), All-above a b ys low all)

  insert-Ascends : (x : A) (ys : List A) → Ascends ys → Ascends (insert_by key x ys)
  unfolding insert_by
  insert-Ascends x [] up = (tt, tt)
  insert-Ascends x (y ∷ ys) (above, up) = elim (Bool-cases (leb (key x) (key y))) [
    | inl e ↦
        let low = leb→le (key x) (key y) e in
        rw e ((low, All-above (key x) (key y) ys low above), (above, up))
    | inr e ↦
        rw e
          (All-insert (λ z. key y ≤ key z) x ys (ground (arith, e)) above, insert-Ascends x ys up)
  ]

  order-Ascends : (xs : List A) → Ascends (order_by key xs)
  unfolding order_by
  order-Ascends [] = tt
  order-Ascends (x ∷ xs) = insert-Ascends x (order_by key xs) (order-Ascends xs)

  -- What is in the list is among the first, or they are full of what comes no later.
  abbrev pub InBatch : ℕ → A → List A → Type 0
  InBatch n a batch = Memᴰ a batch ⊎ ((length batch ≡ n) × All (λ r. key r ≤ key a) batch)

  taken-InBatch : (n : ℕ) (xs : List A) {a : A} → Ascends xs → Memᴰ a xs → InBatch n a (take n xs)
  taken-InBatch zero xs up listed = inr (refl, tt)
  taken-InBatch (suc n) [] up listed = elim listed [ ]
  taken-InBatch (suc n) (x ∷ xs) up (Memᴰ.head e) = inl (Memᴰ.head e)
  taken-InBatch (suc n) (x ∷ xs) {a} (above, up) (Memᴰ.tail listed) =
      elim (taken-InBatch n xs up listed) [
        | inl early ↦ inl (Memᴰ.tail early)
        | inr (full, all) ↦ inr (ap suc full, (All-Mem (λ y. key x ≤ key y) xs listed above, all))
      ]

  pub ordered-InBatch :
      (n : ℕ) (xs : List A) {a : A} → Memᴰ a xs → InBatch n a (take n (order_by key xs))
  ordered-InBatch n xs listed =
      taken-InBatch n (order_by key xs) (order-Ascends xs) (Mem-order xs listed)

  All-order : (P : A → Type 0) (xs : List A) → All P xs → All P (order_by key xs)
  unfolding order_by
  All-order P [] all = tt
  All-order P (x ∷ xs) (here, all) = All-insert P x (order_by key xs) here (All-order P xs all)

  All-take : (P : A → Type 0) (n : ℕ) (xs : List A) → All P xs → All P (take n xs)
  All-take P zero xs all = tt
  All-take P (suc n) [] all = tt
  All-take P (suc n) (x ∷ xs) (here, all) = (here, All-take P n xs all)

  All-pass :
      (P : A → Type 0) (p : A → Bool)
      → ((x : A) → p x ≡ true → P x)
      → (xs : List A) → All P (filter p xs)
  All-pass P p why [] = tt
  All-pass P p why (x ∷ xs) = elim (Bool-cases (p x)) [
    | inl e ↦ rw e (why x e, All-pass P p why xs)
    | inr e ↦ rw e (All-pass P p why xs)
  ]

  -- All that a batch holds has passed the filter.
  pub batch-All :
      (P : A → Type 0) (p : A → Bool)
      → ((x : A) → p x ≡ true → P x)
      → (n : ℕ) (xs : List A) → All P (take n (order_by key (filter p xs)))
  batch-All P p why n xs =
      All-take P n (order_by key (filter p xs)) (All-order P (filter p xs) (All-pass P p why xs))
