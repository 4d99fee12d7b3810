-- ===== src/Sla/Hours/Schedule.antt =====
-- The schedule that the loops of the business hours read, whatever is stored.
use cursor_multi_agent.Prelude.{
  ℕ, String, true, Option, none, some, List, [], ◌∷◌, eqb, map, if◌then◌else◌, or_else, ◌≡◌, All,
  is_some, sym, arith, Option-cases, ◌∙◌, inl, refl, ap, inr, eqb→eq,
}
use cursor_multi_agent.Sla.Hours.{
  BusinessWeekDay, monday, tuesday, wednesday, thursday, friday, saturday, sunday, is_day,
  BusinessDaySchedule, window_of, day_number, time_to_minutes,
}
use cursor_multi_agent.Sla.Hours.Settings.{
  RawDay, object, no_object, RawDay, BusinessHoursRow, business_days_order, default_day,
  read_schedule, entry_for, normalize_business_schedule, find_business_hours_row, settings_of,
  get_business_hours_settings, object,
}

-- A schedule of the seven days in order, each with a start before its end.
pub record IsWeek (schedule : List BusinessDaySchedule) : Type 0 where
  pub in_order : map (λ item. item.day) schedule ≡ business_days_order
  pub readable : All (λ item. is_some (window_of item) ≡ true) schedule

abbrev of_number : ℕ → BusinessWeekDay
of_number n =
    if eqb n 1
    then monday
    else if eqb n 2
    then tuesday
    else if eqb n 3
    then wednesday
    else if eqb n 4
    then thursday
    else if eqb n 5
    then friday
    else if eqb n 6
    then saturday
    else sunday

of_number_day : (d : BusinessWeekDay) → of_number (day_number d) ≡ d
of_number_day monday = refl
of_number_day tuesday = refl
of_number_day wednesday = refl
of_number_day thursday = refl
of_number_day friday = refl
of_number_day saturday = refl
of_number_day sunday = refl

is_day-eq : (d e : BusinessWeekDay) → is_day d e ≡ true → d ≡ e
is_day-eq d e h =
    sym (of_number_day d) ∙ ap of_number (eqb→eq (day_number d) (day_number e) h) ∙ of_number_day e

abbrev IsEntry : BusinessWeekDay → BusinessDaySchedule → Type 0
IsEntry d entry = (entry.day ≡ d) × (is_some (window_of entry) ≡ true)

default_day-IsEntry : (d : BusinessWeekDay) → IsEntry d (default_day d)
unfolding window_of time_to_minutes
default_day-IsEntry monday = (refl, refl)
default_day-IsEntry tuesday = (refl, refl)
default_day-IsEntry wednesday = (refl, refl)
default_day-IsEntry thursday = (refl, refl)
default_day-IsEntry friday = (refl, refl)
default_day-IsEntry saturday = (refl, refl)
default_day-IsEntry sunday = (refl, refl)

module _ (trim : String → String) where
  entry_for-IsEntry :
      (d : BusinessWeekDay) (raws : List RawDay) (entry : BusinessDaySchedule)
      → entry_for trim d raws ≡ some entry
      → IsEntry d entry
  unfolding entry_for read_schedule
  entry_for-IsEntry d [] entry h = cc
  entry_for-IsEntry d (no_object ∷ rest) entry h = ground (arith, entry_for-IsEntry d rest entry)
  entry_for-IsEntry d (object day start end enabled ∷ rest) entry h =
      ground (arith, entry_for-IsEntry d rest entry, is_day-eq entry.day d)

  slot :
      (d : BusinessWeekDay) (raws : List RawDay)
      → IsEntry d (or_else (entry_for trim d raws) (default_day d))
  slot d raws = elim (Option-cases (entry_for trim d raws)) [
    | inl unset ↦ rw unset (default_day-IsEntry d)
    | inr (entry, found) ↦ rw found (entry_for-IsEntry d raws entry found)
  ]

  IsWeek-of :
      (f : BusinessWeekDay → BusinessDaySchedule)
      → ((d : BusinessWeekDay) → IsEntry d (f d))
      → IsWeek (map f business_days_order)
  IsWeek-of f h = record {
    in_order = cc (
      (h monday).0,
      (h tuesday).0,
      (h wednesday).0,
      (h thursday).0,
      (h friday).0,
      (h saturday).0,
      (h sunday).0,
    );
    readable = (
      (h monday).1,
      (
        (h tuesday).1,
        ((h wednesday).1, ((h thursday).1, ((h friday).1, ((h saturday).1, ((h sunday).1, tt))))),
      ),
    );
  }

  settings_of-IsWeek : (row : Option BusinessHoursRow) → IsWeek (settings_of trim row).schedule
  unfolding settings_of normalize_business_schedule
  settings_of-IsWeek none = IsWeek-of default_day default_day-IsEntry
  settings_of-IsWeek (some row) =
      IsWeek-of (λ d. or_else (entry_for trim d (or_else row.schedule [])) (default_day d))
        (λ d. slot d (or_else row.schedule []))

  -- Whatever is stored, and for whichever team, the schedule that the loops read has the seven days of
  -- the week in order, each with a start that can be read and lies before its end.
  pub settings-IsWeek :
      (by_team : String → Option BusinessHoursRow) (global : Option BusinessHoursRow)
      (team : Option String)
      → IsWeek (get_business_hours_settings trim by_team global team).schedule
  unfolding get_business_hours_settings
  settings-IsWeek by_team global team =
      settings_of-IsWeek (find_business_hours_row trim by_team global team)
