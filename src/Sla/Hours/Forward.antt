-- ===== src/Sla/Hours/Forward.antt =====
-- `alignToBusinessWindow` and `addBusinessHours` against the count of business minutes.
use cursor_multi_agent.Prelude.{
  ◌/◌, ℕ, zero, suc, ◌≤◌, ◌<◌, ◌≡◌, some, leb, arith, ◌∙◌, Bool-cases, inl, inr, true, ◌+◌, ◌-◌,
  leb→le, if◌then◌else◌, ap, ◌*◌,
}
use cursor_multi_agent.Sla.Hours.{
  Zone, BusinessHoursSettings, open_window, align_from, add_on_day, align_to_business_window,
  add_rounds, finished, again, add_business_hours,
}
use cursor_multi_agent.Sla.Hours.Spec.{
  IsRegular, is_open, business_minutes, business_append, business_closed, window_bounds, open_iff,
  business_all, window_parts,
}
use cursor_multi_agent.Sla.Hours.AlignAhead.{Opened, align_from_lem}

module _ (zone : Zone) (settings : BusinessHoursSettings) (regular : IsRegular zone) where
  -- From an open cursor, a round works until the minutes are used up or the window ends.
  add_on_open :
      (n c s e : ℕ)
      → open_window zone settings c ≡ some (s, e)
      → c < e
      → add_on_day zone settings n c
        ≡ (if leb n (e - c) then finished (c + n) else again (n - (e - c)) (e + 1))
  unfolding add_on_day
  add_on_open n c s e found l =
      let parts = window_parts zone settings c s e found in
      ground (arith, parts.day_found, parts.is_enabled, parts.end_read, parts.end_at)

  minute_open :
      (c u s e : ℕ)
      → open_window zone settings c ≡ some (s, e)
      → s ≤ c
      → c ≤ u
      → u < e
      → is_open zone settings u ≡ true
  minute_open c u s e found low p q =
      let bounds = window_bounds zone settings regular c s e found in
      let begun = regular.begun c in
      open_iff zone settings regular c u s e found (omega arith) (omega arith) ∙ ground arith

  end_closed :
      (c s e : ℕ)
      → open_window zone settings c ≡ some (s, e)
      → c < e
      → business_minutes zone settings e (e + 1) ≡ 0
  end_closed c s e found l =
      let bounds = window_bounds zone settings regular c s e found in
      let begun = regular.begun c in
      business_closed zone settings e (e + 1) (λ u p q.
        open_iff zone settings regular c u s e found (omega arith) (omega arith) ∙ ground arith)

  worked :
      (c r s e : ℕ)
      → open_window zone settings c ≡ some (s, e)
      → s ≤ c
      → c ≤ r
      → r ≤ e
      → business_minutes zone settings c r ≡ r - c
  worked c r s e found low p q =
      business_all zone settings c r (λ u a b. minute_open c u s e found low a (omega arith))

  -- The cursor `r` is where `n` minutes of business time after `t` are over.
  abbrev pub EndsAfter : ℕ → ℕ → ℕ → Type 0
  EndsAfter t n r =
      (t < r) × (business_minutes zone settings t r ≡ n) × (is_open zone settings (r - 1) ≡ true)

  abbrev pub OpensWithin : ℕ → Type 0
  OpensWithin u = (r : ℕ) × (align_from zone settings 14 u ≡ some r)

  finishes :
      (i n t c r : ℕ)
      → align_from zone settings 14 t ≡ some c
      → add_on_day zone settings n c ≡ finished r
      → add_rounds zone settings (suc i) n t ≡ some r
  unfolding add_rounds align_to_business_window
  finishes i n t c r at e = ground (arith, at, e)

  continues :
      (i n t c left next : ℕ)
      → align_from zone settings 14 t ≡ some c
      → add_on_day zone settings n c ≡ again left next
      → add_rounds zone settings (suc i) n t ≡ add_rounds zone settings i left next
  unfolding add_rounds align_to_business_window
  continues i n t c left next at e = ground (arith, at, e)

  next_round :
      (t c s e n r : ℕ)
      → Opened zone settings regular t c s e
      → EndsAfter (e + 1) (n - (e - c)) r
      → e - c < n
      → EndsAfter t n r
  next_round t c s e n r (p, low, high, found, idle) (after, count, last) more = (
    omega arith,
    omega (
      arith,
      business_append zone settings t c r p (omega arith),
      business_append zone settings c e r (omega arith) (omega arith),
      business_append zone settings e (e + 1) r (omega arith) (omega arith),
      worked c e s e found low (omega arith) (omega arith),
      end_closed c s e found high,
    ),
    last,
  )

  pub add_rounds_lem :
      (i n t origin : ℕ)
      → ((u : ℕ) → origin ≤ u → OpensWithin u)
      → origin ≤ t
      → n ≤ i
      → 0 < n
      → (r : ℕ) × (add_rounds zone settings i n t ≡ some r) × EndsAfter t n r
  add_rounds_lem zero n t origin opens o fuel more = absurd (omega arith)
  add_rounds_lem (suc i) n t origin opens o fuel more =
      let (c, at) = opens t o in
      let (s, e, opened) = align_from_lem zone settings regular 14 t c at in
      let (p, low, high, found, idle) = opened in
      elim (Bool-cases (leb n (e - c))) [
        | inl enough ↦ (
          c + n,
          finishes i n t c (c + n) at (
              add_on_open n c s e found high
              ∙ ap (λ b. if b then finished (c + n) else again (n - (e - c)) (e + 1)) enough),
          (
            omega arith,
            omega (
              arith,
              business_append zone settings t c (c + n) p (omega arith),
              worked c (c + n) s e found low (omega arith) (omega (arith, leb→le n (e - c) enough)),
            ),
            minute_open c (c + n - 1) s e found low (omega arith)
                (omega (arith, leb→le n (e - c) enough)),
          ),
        )
        | inr short ↦
            let longer : e - c < n = ground arith in
            let (r, rest, ends) =
              add_rounds_lem i (n - (e - c)) (e + 1) origin opens (omega arith) (omega arith)
                (omega arith) in
            (
              r,
              continues i n t c (n - (e - c)) (e + 1) at (
                    add_on_open n c s e found high
                    ∙ ap (λ b. if b then finished (c + n) else again (n - (e - c)) (e + 1)) short)
                  ∙ rest,
              next_round t c s e n r opened ends longer,
            )
      ]

  -- For a zone with regular days, at least one and at most 20,000 minutes' worth of hours, and a
  -- calendar that from every minute on opens again within the 14 days of the search: the due date
  -- is the end of an open minute, and exactly that many minutes of business time lie between the
  -- whole minute of the start and the due date.
  pub add_in_minutes :
      (start hours : ℕ)
      → ((u : ℕ) → start / 60_000 ≤ u → OpensWithin u)
      → 0 < hours
      → hours * 60 ≤ 20_000
      → (r : ℕ) × (add_business_hours zone settings start hours ≡ r * 60_000)
        × EndsAfter (start / 60_000) (hours * 60) r
  unfolding add_business_hours
  add_in_minutes start hours opens more few =
      let (r, rounds, ends) =
        add_rounds_lem 20_000 (hours * 60) (start / 60_000) (start / 60_000) opens (omega arith) few
          (omega arith) in
      (r, ground (arith, rounds), ends)
