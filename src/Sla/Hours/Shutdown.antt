-- ===== src/Sla/Hours/Shutdown.antt =====
-- What `addBusinessHours` does in a fortnight without business hours.
use cursor_multi_agent.Prelude.{
  ◌/◌, ℕ, suc, ◌+◌, ◌*◌, ◌≤◌, ◌<◌, ◌≡◌, true, some, none, arith, Option-cases, inl, inr,
}
use cursor_multi_agent.Sla.Hours.{
  Zone, BusinessHoursSettings, BusinessDaySchedule, add_business_hours, align_from,
  align_to_business_window, add_on_day, add_rounds, finished, day_of, open_window, time_to_minutes,
}
use cursor_multi_agent.Sla.Hours.Spec.{
  IsRegular, window_parts, closed_day, business_minutes, business_closed, time-lt-1440,
}

module _ (zone : Zone) (settings : BusinessHoursSettings) (regular : IsRegular zone) where
  closed_now :
      (i t e : ℕ) (day : BusinessDaySchedule)
      → align_from zone settings (suc i) t ≡ none
      → day_of zone settings t ≡ some day
      → time_to_minutes day.end ≡ some e
      → t < zone.at_time t e
      → open_window zone settings t ≡ none
  unfolding align_from
  closed_now i t e day none_found today read l = elim (Option-cases (open_window zone settings t)) [
    | inl shut ↦ shut
    | inr ((s, e'), found) ↦
        let parts = window_parts zone settings t s e' found in
        ground (arith, parts.day_found, parts.end_read, parts.end_at)
  ]

  shutdown_round :
      (n t e : ℕ) (day : BusinessDaySchedule)
      → align_from zone settings 14 t ≡ none
      → day_of zone settings t ≡ some day
      → day.enabled ≡ true
      → time_to_minutes day.end ≡ some e
      → 0 < n
      → t + n ≤ zone.at_time t e
      → add_on_day zone settings n (align_to_business_window zone settings t) ≡ finished (t + n)
  unfolding add_on_day align_to_business_window
  shutdown_round n t e day none_found today on read more fits = ground arith

  first_round :
      (i n t r : ℕ)
      → add_on_day zone settings n (align_to_business_window zone settings t) ≡ finished r
      → add_rounds zone settings (suc i) n t ≡ some r
  unfolding add_rounds
  first_round i n t r e = ground (arith, e)

  -- If the first fourteen days from the start are closed but the weekday of the start is enabled, the
  -- loop works on that closed day: hours that fit before the end of its schedule are added as they are,
  -- though none of them is business time.
  pub shutdown_counts :
      (t hours e : ℕ) (day : BusinessDaySchedule)
      → align_from zone settings 14 t ≡ none
      → day_of zone settings t ≡ some day
      → day.enabled ≡ true
      → time_to_minutes day.end ≡ some e
      → 0 < hours
      → t + hours * 60 ≤ zone.at_time t e
      → (add_business_hours zone settings (t * 60_000) hours ≡ (t + hours * 60) * 60_000)
        × (business_minutes zone settings t (t + hours * 60) ≡ 0)
  unfolding add_business_hours
  shutdown_counts t hours e day none_found today on read more fits =
      let whole : t * 60_000 / 60_000 ≡ t = omega arith in
      let rounds =
        first_round 19_999 (hours * 60) t (t + hours * 60)
          (shutdown_round (hours * 60) t e day none_found today on read (omega arith) fits) in
      let shut = closed_now 13 t e day none_found today read (omega arith) in
      let begun = regular.begun t in
      let bound = (regular.within_day t e (time-lt-1440 day.end read)).1 in
      (
        ground (arith, whole, rounds),
        business_closed zone settings t (t + hours * 60)
            (λ u p q. closed_day zone settings regular t u shut (omega arith) (omega arith)),
      )
