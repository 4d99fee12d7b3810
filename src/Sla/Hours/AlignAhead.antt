-- ===== src/Sla/Hours/AlignAhead.antt =====
-- `align_from`: the next business minute from an instant.
use cursor_multi_agent.Prelude.{
  ℕ, zero, suc, ◌≤◌, ◌<◌, ◌≡◌, false, some, ltb, leb, arith, ◌∙◌, Bool-cases, Option-cases, inl,
  inr, ltb→lt,
}
use cursor_multi_agent.Sla.Hours.{Zone, BusinessHoursSettings, open_window, align_from}
use cursor_multi_agent.Sla.Hours.Spec.{
  IsRegular, is_open, business_minutes, business_append, business_closed, window_bounds, open_iff,
  closed_day, window_today,
}

module _ (zone : Zone) (settings : BusinessHoursSettings) (regular : IsRegular zone) where
  abbrev pub Opened : ℕ → ℕ → ℕ → ℕ → Type 0
  Opened t r s e =
      (t ≤ r)
      × (s ≤ r)
      × (r < e)
      × (open_window zone settings r ≡ some (s, e))
      × (business_minutes zone settings t r ≡ 0)

  -- Nothing of a day before `r` is business time.
  pub skip_day :
      (t r s e : ℕ)
      → ((u : ℕ) → t ≤ u → u < zone.next_day t → is_open zone settings u ≡ false)
      → Opened (zone.next_day t) r s e
      → Opened t r s e
  skip_day t r s e shut (after, low, high, found, none_open) = (
    omega (arith, regular.later t),
    low,
    high,
    found,
    omega (
      arith,
      business_append zone settings t (zone.next_day t) r (omega (arith, regular.later t)) after,
      business_closed zone settings t (zone.next_day t) shut,
    ),
  )

  -- `r` lies in the window of the day of `t`, and nothing between is business time.
  pub Opened-at :
      (t r s e : ℕ)
      → open_window zone settings t ≡ some (s, e)
      → t ≤ r
      → s ≤ r
      → r < e
      → ((u : ℕ) → t ≤ u → u < r → is_open zone settings u ≡ false)
      → Opened t r s e
  Opened-at t r s e found p q l shut =
      let bounds = window_bounds zone settings regular t s e found in
      let begun = regular.begun t in
      (
        p,
        q,
        l,
        window_today zone settings regular t r (omega arith) (omega arith) ∙ found,
        business_closed zone settings t r shut,
      )

  pub align_from_lem :
      (i t r : ℕ) → align_from zone settings i t ≡ some r → (s : ℕ) × (e : ℕ) × Opened t r s e
  unfolding align_from
  align_from_lem zero t r h = cc
  align_from_lem (suc i) t r h = elim (Option-cases (open_window zone settings t)) [
    | inl shut ↦
        let (s, e, opened) = align_from_lem i (zone.next_day t) r (ground arith) in
        (
          s,
          e,
          skip_day t r s e
              (λ u p q.
                closed_day zone settings regular t u shut (omega (arith, regular.begun t)) q)
              opened,
        )
    | inr ((s, e), found) ↦
        let bounds = window_bounds zone settings regular t s e found in
        let begun = regular.begun t in
        elim (Bool-cases (ltb t s)) [
          | inl before ↦
              let at_start : r ≡ s = ground arith in
              (
                s,
                e,
                Opened-at t r s e found (omega (arith, at_start, ltb→lt t s before))
                    (omega (arith, at_start)) (omega (arith, at_start))
                    (λ u p q.
                      open_iff zone settings regular t u s e found (omega arith) (omega arith)
                      ∙ ground arith),
              )
          | inr started ↦ elim (Bool-cases (leb e t)) [
            | inl over ↦
                let (s', e', opened) = align_from_lem i (zone.next_day t) r (ground arith) in
                (
                  s',
                  e',
                  skip_day t r s' e'
                      (λ u p q.
                        open_iff zone settings regular t u s e found (omega arith) q ∙ ground arith)
                      opened,
                )
            | inr running ↦
                let here : r ≡ t = ground arith in
                (
                  s,
                  e,
                  Opened-at t r s e found (omega arith) (ground arith) (ground arith)
                      (λ u p q. absurd (omega arith)),
                )
          ]
        ]
  ]
