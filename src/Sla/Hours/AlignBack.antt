-- ===== src/Sla/Hours/AlignBack.antt =====
-- `align_backward_from`: the last business minute before an instant.
use cursor_multi_agent.Prelude.{
  ℕ, zero, suc, ◌-◌, ◌≤◌, ◌<◌, ◌≡◌, false, some, ltb, leb, arith, ◌∙◌, ap, sym, Bool-cases,
  Option-cases, inl, inr, ltb→lt, leb→le,
}
use cursor_multi_agent.Sla.Hours.{
  Zone, BusinessHoursSettings, open_window, align_backward_from, end_of_previous_day,
}
use cursor_multi_agent.Sla.Hours.Spec.{
  IsRegular, is_open, business_minutes, business_append, business_closed, window_bounds, open_iff,
  closed_day, window_today, midnight_closed,
}

module _ (zone : Zone) (settings : BusinessHoursSettings) (regular : IsRegular zone) where
  -- `r` is in a window, its end included, and nothing from there to `t` is business time.
  abbrev pub Shut : ℕ → ℕ → ℕ → ℕ → Type 0
  Shut t r s e =
      (r ≤ t)
      × (s < r)
      × (r ≤ e)
      × (open_window zone settings r ≡ some (s, e))
      × (business_minutes zone settings r t ≡ 0)

  -- The minute before a day is closed: it is the last one of the day before.
  pub eve_closed :
      (t : ℕ) → 0 < zone.start_of_day t → is_open zone settings (zone.start_of_day t - 1) ≡ false
  eve_closed t h =
      ap (λ u. is_open zone settings (u - 1)) (sym (regular.adjacent t h))
      ∙ midnight_closed zone settings regular (zone.start_of_day t - 1)

  pub skip_back :
      (t r s e : ℕ)
      → ((u : ℕ) → zone.start_of_day t ≤ u → u < t → is_open zone settings u ≡ false)
      → Shut (end_of_previous_day zone t) r s e
      → Shut t r s e
  skip_back t r s e shut (before, low, high, found, none_open) =
      let begun = regular.begun t in
      (
        omega arith,
        low,
        high,
        found,
        omega (
          arith,
          business_append zone settings r (zone.start_of_day t - 1) t before (omega arith),
          business_closed zone settings (zone.start_of_day t - 1) t (λ u p q.
              elim (Bool-cases (leb (zone.start_of_day t) u)) [
                | inl today ↦ shut u (leb→le _ _ today) q
                | inr yesterday ↦
                    let at_eve : zone.start_of_day t - 1 ≡ u = ground arith in
                    ap (is_open zone settings) (sym at_eve) ∙ eve_closed t (ground arith)
              ]),
        ),
      )

  pub Shut-at :
      (t r s e : ℕ)
      → open_window zone settings t ≡ some (s, e)
      → r ≤ t
      → s < r
      → r ≤ e
      → ((u : ℕ) → r ≤ u → u < t → is_open zone settings u ≡ false)
      → Shut t r s e
  Shut-at t r s e found p q l shut =
      let bounds = window_bounds zone settings regular t s e found in
      let later = regular.later t in
      (
        p,
        q,
        l,
        window_today zone settings regular t r (omega arith) (omega arith) ∙ found,
        business_closed zone settings r t shut,
      )

  pub align_backward_lem :
      (i t r : ℕ)
      → align_backward_from zone settings i t ≡ some r
      → (s : ℕ) × (e : ℕ) × Shut t r s e
  unfolding align_backward_from
  align_backward_lem zero t r h = cc
  align_backward_lem (suc i) t r h = elim (Option-cases (open_window zone settings t)) [
    | inl shut ↦
        let (s, e, found) = align_backward_lem i (end_of_previous_day zone t) r (ground arith) in
        (
          s,
          e,
          skip_back t r s e
              (λ u p q.
                closed_day zone settings regular t u shut p (omega (arith, regular.later t)))
              found,
        )
    | inr ((s, e), found) ↦
        let bounds = window_bounds zone settings regular t s e found in
        let later = regular.later t in
        elim (Bool-cases (ltb e t)) [
          | inl after ↦
              let at_end : r ≡ e = ground arith in
              (
                s,
                e,
                Shut-at t r s e found (omega (arith, ltb→lt e t after)) (omega arith) (omega arith)
                    (λ u p q.
                      open_iff zone settings regular t u s e found (omega arith) (omega arith)
                      ∙ ground arith),
              )
          | inr within ↦ elim (Bool-cases (leb t s)) [
            | inl early ↦
                let (s', e', opened) =
                  align_backward_lem i (end_of_previous_day zone t) r (ground arith) in
                (
                  s',
                  e',
                  skip_back t r s' e'
                      (λ u p q.
                        open_iff zone settings regular t u s e found p (omega arith) ∙ ground arith)
                      opened,
                )
            | inr running ↦
                let here : r ≡ t = ground arith in
                (
                  s,
                  e,
                  Shut-at t r s e found (omega arith) (ground arith) (ground arith)
                      (λ u p q. absurd (omega arith)),
                )
          ]
        ]
  ]
