-- ===== src/Retention/Kept.antt =====
-- The rows of tickets that a purge keeps.
use cursor_multi_agent.Prelude.{
  ℕ, ◌≡◌, refl, Bool, true, false, not, ◌||◌, none, some, List, [], ◌∷◌, filter, take, arith,
  Bool-cases, Option-cases, inl, inr, ◌∙◌, sym, ap, Option, String,
}
use cursor_multi_agent.Fields.Items.{Distinct}
use cursor_multi_agent.Retention.{
  RetainedTicket, RetentionPolicy, purge_tickets, purge_closed, soft_deleted_past, closed_past,
  purge_rows, delete_ids,
}
use cursor_multi_agent.Retention.Batches.{ids_of, batch_keeps, delete-Distinct}
use mathlib.Core.Path.{subst}

-- Past the window of soft-deleted tickets, or past that of closed tickets, if the policy has one.
abbrev pub is_expired : RetentionPolicy → ℕ → RetainedTicket → Bool
is_expired policy now t =
    soft_deleted_past policy now t
    || (elim policy.closed_ticket_days [ none ↦ false | some days ↦ closed_past days now t ])

pub absorbed :
    {A : Type 0} (p r : A → Bool)
    → ((t : A) → r t ≡ true → p t ≡ false)
    → (rows : List A) → filter r (filter (λ t. not (p t)) rows) ≡ filter r rows
absorbed p r h [] = refl
absorbed p r h (t ∷ rows) = ground (arith, h t, absorbed p r h rows)

pub rows_kept :
    {A : Type 0} (dry_run : Bool) (p r : A → Bool)
    → ((t : A) → r t ≡ true → p t ≡ false)
    → (rows : List A) → filter r (purge_rows dry_run p rows).0 ≡ filter r rows
rows_kept true p r h rows = refl
rows_kept false p r h rows = absorbed p r h rows

-- What is the same apart from the rows of `p` is the same to a test that none of them passes.
pub same_apart :
    (p r : RetainedTicket → Bool)
    → ((t : RetainedTicket) → r t ≡ true → p t ≡ false)
    → (rows rows' : List RetainedTicket)
    → filter (λ t. not (p t)) rows' ≡ filter (λ t. not (p t)) rows
    → filter r rows' ≡ filter r rows
same_apart p r h rows rows' same =
    sym (absorbed p r h rows') ∙ ap (filter r) same ∙ absorbed p r h rows

-- A purge of tickets keeps the rows that are not past the window, and no two of them come to share an id.
pub purge_keeps :
    (policy : RetentionPolicy) (p : RetainedTicket → Bool) (rows : List RetainedTicket)
    → Distinct (ids_of rows)
    → (filter (λ t. not (p t)) (purge_tickets policy p rows).0 ≡ filter (λ t. not (p t)) rows)
      × Distinct (ids_of (purge_tickets policy p rows).0)
unfolding purge_tickets
purge_keeps policy p rows d = elim (Bool-cases policy.dry_run) [
  | inl dry ↦ rw dry (refl, d)
  | inr wet ↦ rw wet (
    batch_keeps p policy.batch_size rows d,
    delete-Distinct (ids_of (take policy.batch_size (filter p rows))) rows d,
  )
]

pub with_window :
    (policy : RetentionPolicy) (now days : ℕ) (rows : List RetainedTicket)
    → policy.closed_ticket_days ≡ some days
    → purge_closed policy now rows ≡ purge_tickets policy (closed_past days now) rows
unfolding purge_closed
with_window policy now days rows set =
    ap
      (λ (window : Option ℕ). elim window as (λ _. List RetainedTicket × ℕ × List String) [
        | none ↦ (rows, 0, [])
        | some days ↦ purge_tickets policy (closed_past days now) rows
      ])
      set

pub without_window :
    (policy : RetentionPolicy) (now : ℕ) (rows : List RetainedTicket)
    → policy.closed_ticket_days ≡ none
    → purge_closed policy now rows ≡ (rows, 0, [])
unfolding purge_closed
without_window policy now rows unset =
    ap
      (λ (window : Option ℕ). elim window as (λ _. List RetainedTicket × ℕ × List String) [
        | none ↦ (rows, 0, [])
        | some days ↦ purge_tickets policy (closed_past days now) rows
      ])
      unset

-- So does the purge of closed tickets, if there is one.
pub closed_keeps :
    (policy : RetentionPolicy) (now : ℕ) (r : RetainedTicket → Bool) (rows : List RetainedTicket)
    → Distinct (ids_of rows)
    → ((days : ℕ) (t : RetainedTicket)
        → policy.closed_ticket_days ≡ some days
        → r t ≡ true
        → closed_past days now t ≡ false)
    → (filter r (purge_closed policy now rows).0 ≡ filter r rows)
      × Distinct (ids_of (purge_closed policy now rows).0)
closed_keeps policy now r rows d h = elim (Option-cases policy.closed_ticket_days) [
  | inl unset ↦
      subst
        (λ (out : List RetainedTicket × ℕ × List String).
          (filter r out.0 ≡ filter r rows) × Distinct (ids_of out.0))
        (sym (without_window policy now rows unset)) (refl, d)
  | inr (days, set) ↦
      let (kept, d') = purge_keeps policy (closed_past days now) rows d in
      subst
        (λ (out : List RetainedTicket × ℕ × List String).
          (filter r out.0 ≡ filter r rows) × Distinct (ids_of out.0))
        (sym (with_window policy now days rows set))
        (
          same_apart (closed_past days now) r (λ t. h days t set) rows
              (purge_tickets policy (closed_past days now) rows).0 kept,
          d',
        )
]

pub purged :
    (policy : RetentionPolicy) (p : RetainedTicket → Bool) (rows : List RetainedTicket)
    → policy.dry_run ≡ false
    → (purge_tickets policy p rows).0
      ≡ delete_ids (ids_of (take policy.batch_size (filter p rows))) rows
unfolding purge_tickets
purged policy p rows wet = rw wet

pub deleted_first :
    (policy : RetentionPolicy) (now days : ℕ) (t : RetainedTicket)
    → soft_deleted_past policy now t ≡ true
    → closed_past days now t ≡ false
deleted_first policy now days t h = elim (Option-cases t.deleted_at) [
  | inl live ↦ ground (arith, live)
  | inr (when, gone) ↦ ground (arith, gone)
]
