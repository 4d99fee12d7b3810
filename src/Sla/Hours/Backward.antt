-- ===== src/Sla/Hours/Backward.antt =====
-- `alignBackwardToBusinessWindow` and `subtractBusinessHours` against the count of business minutes.
use cursor_multi_agent.Prelude.{
  ◌/◌, ℕ, zero, suc, ◌-◌, ◌≤◌, ◌<◌, ◌≡◌, some, ltb, leb, if◌then◌else◌, arith, ◌∙◌, ap, sym,
  Bool-cases, inl, inr, ltb→lt, leb→le, true, Bool, ◌*◌,
}
use cursor_multi_agent.Sla.Hours.{
  Zone, BusinessHoursSettings, open_window, align_backward_from, subtract_on_day, finished, again,
  subtract_rounds, subtract_business_hours, align_backward_to_business_window,
}
use cursor_multi_agent.Sla.Hours.Spec.{
  IsRegular, is_open, business_minutes, business_append, business_closed, window_bounds,
  window_parts, open_iff, business_all,
}
use cursor_multi_agent.Sla.Hours.AlignBack.{Shut, eve_closed, align_backward_lem}

module _ (zone : Zone) (settings : BusinessHoursSettings) (regular : IsRegular zone) where
  -- From a cursor in a window, a round works back until the minutes are used up or the window begins.
  subtract_on_open :
      (n c s e : ℕ)
      → open_window zone settings c ≡ some (s, e)
      → s < c
      → subtract_on_day zone settings n c
        ≡ (if leb n (c - s) then finished (c - n) else again (n - (c - s)) (s - 1))
  unfolding subtract_on_day
  subtract_on_open n c s e found l =
      let parts = window_parts zone settings c s e found in
      ground (arith, parts.day_found, parts.is_enabled, parts.start_read, parts.start_at)

  finishes :
      (i n t c r : ℕ)
      → align_backward_from zone settings 14 t ≡ some c
      → subtract_on_day zone settings n c ≡ finished r
      → subtract_rounds zone settings (suc i) n t ≡ some r
  unfolding subtract_rounds align_backward_to_business_window
  finishes i n t c r at e = ground (arith, at, e)

  continues :
      (i n t c left next : ℕ)
      → align_backward_from zone settings 14 t ≡ some c
      → subtract_on_day zone settings n c ≡ again left next
      → subtract_rounds zone settings (suc i) n t ≡ subtract_rounds zone settings i left next
  unfolding subtract_rounds align_backward_to_business_window
  continues i n t c left next at e = ground (arith, at, e)

  worked :
      (c s e a : ℕ)
      → open_window zone settings c ≡ some (s, e)
      → s < c
      → c ≤ e
      → s ≤ a
      → a ≤ c
      → (business_minutes zone settings a c ≡ c - a) × (a < c → is_open zone settings a ≡ true)
  worked c s e a found low high p q =
      let bounds = window_bounds zone settings regular c s e found in
      let begun = regular.begun c in
      let later = regular.later c in
      let minute : (u : ℕ) → a ≤ u → u < c → is_open zone settings u ≡ true = (λ u f g.
        open_iff zone settings regular c u s e found (omega arith) (omega arith) ∙ ground arith) in
      (business_all zone settings a c minute, λ l. minute a (omega arith) l)

  before_closed :
      (c s e : ℕ)
      → open_window zone settings c ≡ some (s, e)
      → 0 < s
      → business_minutes zone settings (s - 1) s ≡ 0
  before_closed c s e found more =
      let bounds = window_bounds zone settings regular c s e found in
      let begun = regular.begun c in
      let later = regular.later c in
      business_closed zone settings (s - 1) s (λ u p q.
        elim (Bool-cases (leb (zone.start_of_day c) u)) [
          | inl today ↦
              open_iff zone settings regular c u s e found (leb→le _ _ today) (omega arith)
              ∙ ground arith
          | inr yesterday ↦
              let at_eve : zone.start_of_day c - 1 ≡ u = ground arith in
              ap (is_open zone settings) (sym at_eve)
              ∙ eve_closed zone settings regular c (ground arith)
        ])

  no_minutes : (a b : ℕ) → b ≤ a → business_minutes zone settings a b ≡ 0
  no_minutes a b h = business_closed zone settings a b (λ u p q. absurd (omega arith))

  abbrev pub StartsBefore : ℕ → ℕ → ℕ → Type 0
  StartsBefore t n r =
      (r < t) × (business_minutes zone settings r t ≡ n) × (is_open zone settings r ≡ true)

  abbrev pub OpenedWithin : ℕ → Type 0
  OpenedWithin u = (r : ℕ) × (align_backward_from zone settings 14 u ≡ some r)

  -- A cursor with business time since `origin` is aligned to one that has as much.
  aligned_after :
      (t c s e n origin : ℕ)
      → Shut zone settings regular t c s e
      → 0 < n
      → n ≤ business_minutes zone settings origin t
      → (origin < c) × (n ≤ business_minutes zone settings origin c)
  aligned_after t c s e n origin (p, low, high, found, idle) more enough =
      elim (Bool-cases (ltb origin c)) [
        | inl after ↦ (
          ltb→lt origin c after,
          omega (
            arith,
            ltb→lt origin c after,
            business_append zone settings origin c t (omega (arith, ltb→lt origin c after)) p,
          ),
        )
        | inr before ↦ absurd (elim (Bool-cases (leb origin t)) [
          | inl inside ↦ omega (
            arith,
            leb→le origin t inside,
            business_append zone settings c origin t (ground arith) (leb→le origin t inside),
          )
          | inr outside ↦ omega (arith, no_minutes origin t (ground arith))
        ])
      ]

  -- What is left for the days before.
  left_before :
      (c s e n origin : ℕ)
      → open_window zone settings c ≡ some (s, e)
      → s < c
      → c ≤ e
      → origin < c
      → c - s < n
      → n ≤ business_minutes zone settings origin c
      → (0 < s) × (n - (c - s) ≤ business_minutes zone settings origin (s - 1))
  left_before c s e n origin found low high after more enough = elim (Bool-cases (ltb origin s)) [
    | inl before ↦
        let l = ltb→lt origin s before in
        (
          omega arith,
          omega (
            arith,
            business_append zone settings origin (s - 1) c (omega arith) (omega arith),
            business_append zone settings (s - 1) s c (omega arith) (omega arith),
            before_closed c s e found (omega arith),
            (worked c s e s found low high (omega arith) (omega arith)).0,
          ),
        )
    | inr inside ↦
        let p : s ≤ origin = ground arith in
        absurd (omega (arith, (worked c s e origin found low high p (omega arith)).0))
  ]

  previous_round :
      (t c s e n r : ℕ)
      → Shut zone settings regular t c s e
      → 0 < s
      → StartsBefore (s - 1) (n - (c - s)) r
      → c - s < n
      → StartsBefore t n r
  previous_round t c s e n r (p, low, high, found, idle) pos (before, count, first) more = (
    omega arith,
    omega (
      arith,
      business_append zone settings r c t (omega arith) p,
      business_append zone settings r s c (omega arith) (omega arith),
      business_append zone settings r (s - 1) s (omega arith) (omega arith),
      (worked c s e s found low high (omega arith) (omega arith)).0,
      before_closed c s e found pos,
    ),
    first,
  )

  pub subtract_rounds_lem :
      (i n t origin : ℕ)
      → ((u : ℕ) → origin < u → OpenedWithin u)
      → n ≤ business_minutes zone settings origin t
      → n ≤ i
      → 0 < n
      → (r : ℕ) × (subtract_rounds zone settings i n t ≡ some r) × StartsBefore t n r
  subtract_rounds_lem zero n t origin opened o fuel more = absurd (omega arith)
  subtract_rounds_lem (suc i) n t origin opened o fuel more = elim (Bool-cases (ltb origin t)) [
    | inr before ↦ absurd (omega (arith, no_minutes origin t (ground arith)))
    | inl after ↦
        let (c, at) = opened t (ltb→lt origin t after) in
        let (s, e, shut) = align_backward_lem zone settings regular 14 t c at in
        let (p, low, high, found, idle) = shut in
        let (inside, enough) = aligned_after t c s e n origin shut more o in
        let branch = λ (b : Bool). if b then finished (c - n) else again (n - (c - s)) (s - 1) in
        elim (Bool-cases (leb n (c - s))) [
          | inl fits ↦
              let room = leb→le n (c - s) fits in
              let (count, first) =
                worked c s e (c - n) found low high (omega arith) (omega arith) in
              (
                c - n,
                finishes i n t c (c - n) at (subtract_on_open n c s e found low ∙ ap branch fits),
                (
                  omega arith,
                  omega (arith, count, business_append zone settings (c - n) c t (omega arith) p),
                  first (omega arith),
                ),
              )
          | inr short ↦
              let longer : c - s < n = ground arith in
              let (pos, rest) = left_before c s e n origin found low high inside longer enough in
              let (r, rounds, starts) =
                subtract_rounds_lem i (n - (c - s)) (s - 1) origin opened rest (omega arith)
                  (omega arith) in
              (
                r,
                continues i n t c (n - (c - s)) (s - 1) at
                      (subtract_on_open n c s e found low ∙ ap branch short)
                    ∙ rounds,
                previous_round t c s e n r shut pos starts longer,
              )
        ]
  ]

  -- The start of a cycle, in minutes, for any number of hours that the guardrail lets pass and that lie
  -- after `origin`.
  pub subtract_in_minutes :
      (end_at hours origin : ℕ)
      → ((u : ℕ) → origin < u → OpenedWithin u)
      → hours * 60 ≤ business_minutes zone settings origin (end_at / 60_000)
      → 0 < hours
      → hours * 60 ≤ 20_000
      → (r : ℕ) × (subtract_business_hours zone settings end_at hours ≡ r * 60_000)
        × StartsBefore (end_at / 60_000) (hours * 60) r
  unfolding subtract_business_hours
  subtract_in_minutes end_at hours origin opened enough more few =
      let (r, rounds, starts) =
        subtract_rounds_lem 20_000 (hours * 60) (end_at / 60_000) origin opened enough few
          (omega arith) in
      (r, ground (arith, rounds), starts)
