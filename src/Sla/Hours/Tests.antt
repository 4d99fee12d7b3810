-- ===== src/Sla/Hours/Tests.antt =====
-- Runs of the arithmetic of business hours at concrete inputs: the calendar of UTC from the first of
-- January 1970 on, an office that opens every day, and one that shuts for a fortnight.
use cursor_multi_agent.Prelude.{
  ◌/◌, ◌%◌, ℕ, String, suc, ◌+◌, ◌-◌, ◌*◌, ◌≤◌, ◌<◌, ◌≡◌, refl, true, false, some, none, ltb, leb,
  arith, List, [], ◌∷◌, map, get_elem?, or_else, ap, find, Bool-cases, inl, inr,
}
use cursor_multi_agent.Sla.Hours.{
  BusinessWeekDay, monday, tuesday, wednesday, thursday, friday, saturday, sunday, is_day, Zone,
  BusinessHoursSettings, BusinessDaySchedule, add_business_hours, subtract_business_hours,
  align_from, align_backward_from, add_on_day, add_rounds, day_of, open_window, time_to_minutes,
  window_of, window_on, is_holiday, align_to_business_window,
}
use cursor_multi_agent.Sla.Hours.Spec.{IsRegular, is_open, business_minutes}
use cursor_multi_agent.Sla.Hours.Forward.{add_in_minutes, EndsAfter}
use cursor_multi_agent.Sla.Hours.Unwind.{unwind_deadline}
use cursor_multi_agent.Sla.Hours.Bounds.{never_early}
use cursor_multi_agent.Sla.Hours.Shutdown.{shutdown_counts}
use cursor_multi_agent.Sla.Hours.Settings.{
  get_business_hours_settings, business_days_order, RawDay, RawField,
}
use cursor_multi_agent.Sla.Hours.Schedule.{settings-IsWeek, IsWeek}

abbrev week_from_epoch : List BusinessWeekDay
week_from_epoch = thursday ∷ friday ∷ saturday ∷ sunday ∷ monday ∷ tuesday ∷ wednesday ∷ []

abbrev fortnight : List String
fortnight =
    "1970-01-01" ∷ "1970-01-02" ∷ "1970-01-03" ∷ "1970-01-04" ∷ "1970-01-05" ∷ "1970-01-06"
    ∷ "1970-01-07" ∷ "1970-01-08" ∷ "1970-01-09" ∷ "1970-01-10" ∷ "1970-01-11" ∷ "1970-01-12"
    ∷ "1970-01-13" ∷ "1970-01-14" ∷ []

abbrev utc_weekday : ℕ → BusinessWeekDay
utc_weekday t = or_else (get_elem? week_from_epoch (t / 1440 % 7)) thursday

-- The dates after the fortnight are not told apart.
abbrev utc_date : ℕ → String
utc_date t = or_else (get_elem? fortnight (t / 1440)) "later"

abbrev utc : Zone
utc = record {
  weekday = utc_weekday;
  local_date = utc_date;
  start_of_day = λ t. t / 1440 * 1440;
  next_day = λ t. (t / 1440 + 1) * 1440;
  at_time = λ t m. t / 1440 * 1440 + m;
}

same_day : (t u : ℕ) → t / 1440 * 1440 ≤ u → u < (t / 1440 + 1) * 1440 → u / 1440 ≡ t / 1440
same_day t u p q = omega arith

utc-IsRegular : IsRegular utc
utc-IsRegular = record {
  begun = λ t. omega arith;
  later = λ t. omega arith;
  weekday_today =
      λ t u p q. ap (λ d. or_else (get_elem? week_from_epoch (d % 7)) thursday) (same_day t u p q);
  date_today = λ t u p q. ap (λ d. or_else (get_elem? fortnight d) "later") (same_day t u p q);
  time_today = λ t u m p q. ap (λ d. d * 1440 + m) (same_day t u p q);
  within_day = λ t m l. (omega arith, omega arith);
  in_order = λ t m n p q. omega arith;
  adjacent = λ t l. omega arith;
}

abbrev office_day : BusinessWeekDay → BusinessDaySchedule
office_day d = record { day = d; enabled = true; start = "09:00"; end = "17:00" }

abbrev office : BusinessHoursSettings
office = record { schedule = map office_day business_days_order; holidays = [] }

abbrev shut_office : BusinessHoursSettings
shut_office = record {
  schedule = map office_day business_days_order;
  holidays = map (λ d. record { name = "Company shutdown"; date = d }) fortnight;
}

office_has :
    (d : BusinessWeekDay) → find (λ item. is_day item.day d) office.schedule ≡ some (office_day d)
office_has monday = refl
office_has tuesday = refl
office_has wednesday = refl
office_has thursday = refl
office_has friday = refl
office_has saturday = refl
office_has sunday = refl

office_open :
    (t : ℕ) → open_window utc office t ≡ some (t / 1440 * 1440 + 540, t / 1440 * 1440 + 1020)
unfolding open_window day_of window_of time_to_minutes is_holiday
office_open t i = window_on (office_has (utc_weekday t) i) false (utc.at_time t)

opens_soon : (i t : ℕ) → (r : ℕ) × (align_from utc office (suc (suc i)) t ≡ some r)
unfolding align_from
opens_soon i t =
    let day = t / 1440 * 1440 in
    let tomorrow = (t / 1440 + 1) * 1440 in
    let today_open = office_open t in
    let tomorrow_open = office_open tomorrow in
    elim (Bool-cases (ltb t (day + 540))) [
      | inl before ↦ (day + 540, ground arith)
      | inr started ↦ elim (Bool-cases (leb (day + 1020) t)) [
        | inl over ↦ (tomorrow / 1440 * 1440 + 540, ground arith)
        | inr running ↦ (t, ground arith)
      ]
    ]

opened_before :
    (i t : ℕ) → 1440 < t → (r : ℕ) × (align_backward_from utc office (suc (suc i)) t ≡ some r)
unfolding align_backward_from
opened_before i t l =
    let day = t / 1440 * 1440 in
    let eve = day - 1 in
    let today_open = office_open t in
    let eve_open = office_open eve in
    elim (Bool-cases (ltb (day + 1020) t)) [
      | inl over ↦ (day + 1020, ground arith)
      | inr within ↦ elim (Bool-cases (leb t (day + 540))) [
        | inl early ↦ (eve / 1440 * 1440 + 1020, ground arith)
        | inr running ↦ (t, ground arith)
      ]
    ]

abbrev keep_text : String → String
keep_text s = s

-- Saturday, the third of January, 16:00.
abbrev saturday_afternoon : ℕ
saturday_afternoon = 3840

hours_run : Unit {0}
unfolding add_business_hours subtract_business_hours add_rounds add_on_day align_to_business_window
    align_from open_window day_of window_of time_to_minutes is_holiday is_open
    get_business_hours_settings
hours_run = tt

next_morning :
    add_business_hours utc office (saturday_afternoon * 60_000) 2 ≡ (3 * 1440 + 600) * 60_000
unfolding hours_run
next_morning = refl

add_in_minutes_example :
    (r : ℕ) × (add_business_hours utc office (saturday_afternoon * 60_000) 24 ≡ r * 60_000)
    × EndsAfter utc office utc-IsRegular saturday_afternoon 1440 r
add_in_minutes_example =
    add_in_minutes utc office utc-IsRegular (saturday_afternoon * 60_000) 24
      (λ u p. opens_soon 12 u) (omega arith) (omega arith)

unwind_deadline_example :
    subtract_business_hours utc office
      (add_business_hours utc office (saturday_afternoon * 60_000) 24)
      24
    ≡ saturday_afternoon * 60_000
unfolding hours_run
unwind_deadline_example =
    unwind_deadline utc office utc-IsRegular (saturday_afternoon * 60_000) 24
      (λ u p. opens_soon 12 u) (λ u p. opened_before 12 u (omega arith)) refl (omega arith)
      (omega arith)

never_early_example :
    saturday_afternoon * 60_000 + 7_200_000
    ≤ add_business_hours utc shut_office (saturday_afternoon * 60_000) 2
never_early_example = never_early utc shut_office (λ t. omega arith) (saturday_afternoon * 60_000) 2

-- Two hours from the first of January, 10:00.
shutdown_counts_example :
    (add_business_hours utc shut_office (600 * 60_000) 2 ≡ 720 * 60_000)
    × (business_minutes utc shut_office 600 720 ≡ 0)
unfolding hours_run
shutdown_counts_example =
    shutdown_counts utc shut_office utc-IsRegular 600 2 1020 (office_day thursday) refl refl refl
      refl (omega arith) (omega arith)

settings-IsWeek_example :
    IsWeek
      (get_business_hours_settings keep_text
        (λ team. none)
        (some (record {
          schedule = some (
              RawDay.object
                (RawField.text "Friday")
                (RawField.text "10:00")
                (RawField.text "9:00")
                RawField.missing
              ∷ []);
          holidays = none;
        }))
        (some "it")).schedule
settings-IsWeek_example =
    settings-IsWeek keep_text (λ team. none)
      (some (record {
        schedule = some (
            RawDay.object (RawField.text "Friday") (RawField.text "10:00") (RawField.text "9:00")
              RawField.missing
            ∷ []);
        holidays = none;
      }))
      (some "it")
