-- ===== src/Sla/Hours/Unwind.antt =====
-- `addBusinessHours` and `subtractBusinessHours` as a transfer between teams composes them: a deadline
-- is unwound to the start of its cycle.
use cursor_multi_agent.Prelude.{
  sym, ◌/◌, ℕ, ◌*◌, ◌≤◌, ◌<◌, ◌≡◌, true, ltb, arith, ◌∙◌, ap, Bool-cases, inl, inr, ltb→lt,
}
use cursor_multi_agent.Sla.Hours.{
  Zone, BusinessHoursSettings, add_business_hours, subtract_business_hours,
}
use cursor_multi_agent.Sla.Hours.Spec.{
  IsRegular, is_open, business_minutes, business_append, business_some,
}
use cursor_multi_agent.Sla.Hours.Forward.{OpensWithin, add_in_minutes}
use cursor_multi_agent.Sla.Hours.Backward.{OpenedWithin, subtract_in_minutes}

module _ (zone : Zone) (settings : BusinessHoursSettings) where
  -- With the same business time up to `t`, two open minutes are one.
  same_start :
      (a b t : ℕ)
      → a ≤ t
      → b ≤ t
      → is_open zone settings a ≡ true
      → is_open zone settings b ≡ true
      → business_minutes zone settings a t ≡ business_minutes zone settings b t
      → a ≡ b
  same_start a b t p q open_a open_b same = elim (Bool-cases (ltb a b)) [
    | inl before ↦
        let l = ltb→lt a b before in
        absurd (
          omega (
            arith,
            business_some zone settings a b l open_a,
            business_append zone settings a b t (omega arith) q,
          ))
    | inr not_before ↦ elim (Bool-cases (ltb b a)) [
      | inl after ↦
          let l = ltb→lt b a after in
          absurd (
            omega (
              arith,
              business_some zone settings b a l open_b,
              business_append zone settings b a t (omega arith) p,
            ))
      | inr not_after ↦ ground arith
    ]
  ]

  module _ (regular : IsRegular zone) where
    -- For a zone with regular days, at least one and at most 20,000 minutes' worth of hours, a
    -- start in business time, and a calendar that from every minute on opens again, and looking
    -- back has been open, within the 14 days of the searches: to subtract from a due date the hours
    -- that it was computed with gives the whole minute of the start.
    pub unwind_deadline :
        (start hours : ℕ)
        → ((u : ℕ) → start / 60_000 ≤ u → OpensWithin zone settings regular u)
        → ((u : ℕ) → start / 60_000 < u → OpenedWithin zone settings regular u)
        → is_open zone settings (start / 60_000) ≡ true
        → 0 < hours
        → hours * 60 ≤ 20_000
        → subtract_business_hours zone settings (add_business_hours zone settings start hours) hours
          ≡ start / 60_000 * 60_000
    unwind_deadline start hours opens opened open_now more few =
        let (r, added, (after, count, last)) =
          add_in_minutes zone settings regular start hours opens more few in
        let whole : r * 60_000 / 60_000 ≡ r = omega arith in
        let enough : hours * 60
            ≤ business_minutes zone settings (start / 60_000) (r * 60_000 / 60_000) =
          rw whole (omega arith) in
        let (b, subtracted, (before, back, first)) =
          subtract_in_minutes zone settings regular (r * 60_000) hours (start / 60_000) opened
            enough more few in
        let same : b ≡ start / 60_000 =
          same_start b (start / 60_000) r (omega arith) (omega arith) first open_now
            (ap (business_minutes zone settings b) (sym whole) ∙ back ∙ sym count) in
        ap (λ t. subtract_business_hours zone settings t hours) added
        ∙ subtracted
        ∙ ap (λ t. t * 60_000) same
