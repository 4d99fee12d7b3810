-- ===== src/Retention/Batches.antt =====
-- Rows deleted by the ids of a batch, where no two rows have one id.
use cursor_multi_agent.Prelude.{
  ℕ, zero, suc, ◌≡◌, refl, String, Bool, false, not, List, [], ◌∷◌, filter, map, take, includes,
  arith, eq_iff, eq_refl, All, Bool-cases, inl, inr, ◌∙◌, ap,
}
use cursor_multi_agent.Fields.Items.{Distinct}
use cursor_multi_agent.Retention.{RetainedTicket, ticket_id, delete_ids}

abbrev pub ids_of : List RetainedTicket → List String
ids_of rows = map ticket_id rows

-- The rest of a table after its first rows.
abbrev pub drop : ℕ → List RetainedTicket → List RetainedTicket
drop zero rows = rows
drop (suc n) [] = []
drop (suc n) (t ∷ rows) = drop n rows

-- None of the ids is that of a row.
abbrev Foreign : List String → List RetainedTicket → Type 0
Foreign ids rows = All (λ t. includes ids t.id ≡ false) rows

module _ (p : RetainedTicket → Bool) where
  fewer_ids :
      (rows : List RetainedTicket) (id : String)
      → includes (ids_of rows) id ≡ false
      → includes (ids_of (filter p rows)) id ≡ false
  fewer_ids [] id h = refl
  fewer_ids (t ∷ rows) id h = ground (arith, fewer_ids rows id)

  filter-Distinct :
      (rows : List RetainedTicket) → Distinct (ids_of rows) → Distinct (ids_of (filter p rows))
  filter-Distinct [] d = tt
  filter-Distinct (t ∷ rows) (new, d) = elim (Bool-cases (p t)) [
    | inl kept ↦ rw kept (fewer_ids rows t.id new, filter-Distinct rows d)
    | inr left ↦ rw left (filter-Distinct rows d)
  ]

taken_ids :
    (n : ℕ) (rows : List RetainedTicket) (id : String)
    → includes (ids_of rows) id ≡ false
    → includes (ids_of (take n rows)) id ≡ false
taken_ids zero rows id h = refl
taken_ids (suc n) [] id h = refl
taken_ids (suc n) (t ∷ rows) id h = ground (arith, taken_ids n rows id)

-- Rows whose ids are not deleted stay.
delete-Foreign :
    (ids : List String) (rows : List RetainedTicket) → Foreign ids rows → delete_ids ids rows ≡ rows
unfolding delete_ids
delete-Foreign ids [] h = refl
delete-Foreign ids (t ∷ rows) (new, h) = rw new (ap (λ r. t ∷ r) (delete-Foreign ids rows h))

-- An id that no row has makes no difference.
delete_unknown :
    (id : String) (ids : List String) (rows : List RetainedTicket)
    → includes (ids_of rows) id ≡ false
    → delete_ids (id ∷ ids) rows ≡ delete_ids ids rows
unfolding delete_ids
delete_unknown id ids [] h = refl
delete_unknown id ids (t ∷ rows) h =
    ground (arith, eq_iff id t.id, eq_iff t.id id, delete_unknown id ids rows)

delete_nothing : (rows : List RetainedTicket) → delete_ids [] rows ≡ rows
unfolding delete_ids
delete_nothing [] = refl
delete_nothing (t ∷ rows) = ap (λ r. t ∷ r) (delete_nothing rows)

-- To delete the first rows is to drop them.
pub delete-take :
    (n : ℕ) (rows : List RetainedTicket)
    → Distinct (ids_of rows)
    → delete_ids (ids_of (take n rows)) rows ≡ drop n rows
unfolding delete_ids
delete-take zero rows d = delete_nothing rows
delete-take (suc n) [] d = refl
delete-take (suc n) (t ∷ rows) (new, d) =
    rw (eq_refl t.id) (delete_unknown t.id (ids_of (take n rows)) rows new ∙ delete-take n rows d)

pub delete-filter :
    (ids : List String) (p : RetainedTicket → Bool) (rows : List RetainedTicket)
    → filter p (delete_ids ids rows) ≡ delete_ids ids (filter p rows)
unfolding delete_ids
delete-filter ids p [] = refl
delete-filter ids p (t ∷ rows) = ground (arith, delete-filter ids p rows)

Foreign-add :
    (id : String) (ids : List String) (rows : List RetainedTicket)
    → includes (ids_of rows) id ≡ false
    → Foreign ids rows
    → Foreign (id ∷ ids) rows
Foreign-add id ids [] h foreign = tt
Foreign-add id ids (t ∷ rows) h (other, foreign) =
    (ground (arith, eq_iff id t.id, eq_iff t.id id), Foreign-add id ids rows (ground arith) foreign)

Foreign-take :
    (n : ℕ) (batch rows : List RetainedTicket)
    → Foreign (ids_of batch) rows
    → Foreign (ids_of (take n batch)) rows
Foreign-take n batch [] foreign = tt
Foreign-take n batch (t ∷ rows) (other, foreign) =
    (taken_ids n batch t.id other, Foreign-take n batch rows foreign)

module _ (p : RetainedTicket → Bool) where
  Foreign-filter :
      (rows : List RetainedTicket)
      → Distinct (ids_of rows)
      → Foreign (ids_of (filter p rows)) (filter (λ t. not (p t)) rows)
  Foreign-filter [] d = tt
  Foreign-filter (t ∷ rows) (new, d) = elim (Bool-cases (p t)) [
    | inl past ↦ rw past (
        Foreign-add t.id (ids_of (filter p rows)) (filter (λ t. not (p t)) rows)
          (fewer_ids (λ t. not (p t)) rows t.id new) (Foreign-filter rows d))
    | inr kept ↦ rw kept (fewer_ids p rows t.id new, Foreign-filter rows d)
  ]

  -- A batch of rows past their window takes no other row,
  pub batch_keeps :
      (n : ℕ) (rows : List RetainedTicket)
      → Distinct (ids_of rows)
      → filter (λ t. not (p t)) (delete_ids (ids_of (take n (filter p rows))) rows)
        ≡ filter (λ t. not (p t)) rows
  batch_keeps n rows d =
      delete-filter (ids_of (take n (filter p rows))) (λ t. not (p t)) rows
      ∙ delete-Foreign (ids_of (take n (filter p rows))) (filter (λ t. not (p t)) rows)
          (Foreign-take n (filter p rows) (filter (λ t. not (p t)) rows) (Foreign-filter rows d))

  -- and of those it leaves all but the batch.
  pub batch_leaves :
      (n : ℕ) (rows : List RetainedTicket)
      → Distinct (ids_of rows)
      → filter p (delete_ids (ids_of (take n (filter p rows))) rows) ≡ drop n (filter p rows)
  batch_leaves n rows d =
      delete-filter (ids_of (take n (filter p rows))) p rows
      ∙ delete-take n (filter p rows) (filter-Distinct p rows d)

-- What is left has distinct ids.
pub delete-Distinct :
    (ids : List String) (rows : List RetainedTicket)
    → Distinct (ids_of rows)
    → Distinct (ids_of (delete_ids ids rows))
unfolding delete_ids
delete-Distinct ids rows d = filter-Distinct (λ t. not (includes ids t.id)) rows d
