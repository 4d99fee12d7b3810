-- ===== src/Sla/Hours/Settings.antt =====
-- The settings of business hours, as they are read from what is stored: getBusinessHoursSettings of
-- apps/api/src/tickets/ticket-sla-calculation.service.ts.
use cursor_multi_agent.Prelude.{
  ℕ, String, Bool, true, false, not, ◌&&◌, ◌||◌, Option, none, some, List, [], ◌∷◌, ◌==◌, eqb, map,
  if◌then◌else◌, or_else, truthy, codes, is_some,
}
use cursor_multi_agent.Sla.Hours.{
  BusinessWeekDay, monday, tuesday, wednesday, thursday, friday, saturday, sunday, is_day,
  BusinessDaySchedule, Holiday, BusinessHoursSettings, window_of, is_digit,
}

-- A field of a stored object: `number` has the text that `String` gives; `other` is an object or an array.
pub data RawField : Type 0 where
  missing null other : RawField
  text number : String → RawField
  flag : Bool → RawField

-- An element of the stored schedule, or of the stored holidays.
pub data RawDay : Type 0 where
  no_object : RawDay
  object : RawField → RawField → RawField → RawField → RawDay

pub data RawHoliday : Type 0 where
  no_object : RawHoliday
  object : RawField → RawField → RawHoliday

-- A stored row; `none` in the place of a list is a value that is not an array.
pub record BusinessHoursRow : Type 0 where
  pub schedule : Option (List RawDay)
  pub holidays : Option (List RawHoliday)

abbrev pub business_days_order : List BusinessWeekDay
business_days_order = monday ∷ tuesday ∷ wednesday ∷ thursday ∷ friday ∷ saturday ∷ sunday ∷ []

abbrev pub default_day : BusinessWeekDay → BusinessDaySchedule
default_day friday = record { day = friday; enabled = true; start = "09:00"; end = "17:00" }
default_day saturday = record { day = saturday; enabled = false; start = "10:00"; end = "14:00" }
default_day sunday = record { day = sunday; enabled = false; start = "10:00"; end = "14:00" }
default_day d = record { day = d; enabled = true; start = "09:00"; end = "18:00" }

-- `businessDaysOrder.includes(value)`, with the day that it names
abbrev pub day_named : String → Option BusinessWeekDay
day_named s =
    if s == "Monday"
    then some monday
    else if s == "Tuesday"
    then some tuesday
    else if s == "Wednesday"
    then some wednesday
    else if s == "Thursday"
    then some thursday
    else if s == "Friday"
    then some friday
    else if s == "Saturday"
    then some saturday
    else if s == "Sunday"
    then some sunday
    else none

abbrev pub read_day : RawField → Option BusinessWeekDay
read_day (text s) = day_named s
read_day _ = none

-- `Boolean(value ?? true)`
abbrev pub read_enabled : RawField → Bool
read_enabled missing = true
read_enabled null = true
read_enabled other = true
read_enabled (text s) = truthy s
read_enabled (number s) = not (s == "0")
read_enabled (flag b) = b

module _ (trim : String → String) where
  unfoldable pub read_trimmed_primitive : RawField → String
  read_trimmed_primitive (text s) = trim s
  read_trimmed_primitive (number s) = trim s
  read_trimmed_primitive (flag b) = trim (if b then "true" else "false")
  read_trimmed_primitive _ = ""

  -- The entry that an element sets in the map, if it is not skipped.
  unfoldable pub read_schedule : RawDay → Option BusinessDaySchedule
  read_schedule no_object = none
  read_schedule (object day start end enabled) = elim (read_day day) [
    | none ↦ none
    | some d ↦
        let entry : BusinessDaySchedule = record {
          day = d;
          enabled = read_enabled enabled;
          start = read_trimmed_primitive start;
          end = read_trimmed_primitive end;
        } in
        if is_some (window_of entry) then some entry else none
  ]

  -- The map after the elements, read at one day: the last entry for it.
  unfoldable pub entry_for : BusinessWeekDay → List RawDay → Option BusinessDaySchedule
  entry_for d [] = none
  entry_for d (raw ∷ rest) = elim (entry_for d rest) [
    | some entry ↦ some entry
    | none ↦ elim (read_schedule raw) [
      | none ↦ none
      | some entry ↦ if is_day entry.day d then some entry else none
    ]
  ]

  unfoldable pub normalize_business_schedule : Option (List RawDay) → List BusinessDaySchedule
  normalize_business_schedule raw =
      map (λ d. or_else (entry_for d (or_else raw [])) (default_day d)) business_days_order

  -- `Map.set`
  unfoldable pub set_holiday : Holiday → List Holiday → List Holiday
  set_holiday h [] = h ∷ []
  set_holiday h (g ∷ rest) =
      let tail = set_holiday h rest in if g.date == h.date then h ∷ rest else g ∷ tail

  abbrev pub is_date_codes : List ℕ → Bool
  is_date_codes (a ∷ b ∷ c ∷ d ∷ p ∷ e ∷ f ∷ q ∷ g ∷ h ∷ []) =
      is_digit a
      && is_digit b
      && is_digit c
      && is_digit d
      && eqb p b'-'
      && is_digit e
      && is_digit f
      && eqb q b'-'
      && is_digit g
      && is_digit h
  is_date_codes _ = false

  unfoldable pub read_holiday : RawHoliday → Option Holiday
  read_holiday no_object = none
  read_holiday (object name date) =
      let n = read_trimmed_primitive name in
      let d = read_trimmed_primitive date in
      if not (truthy n) || not (is_date_codes (codes d))
      then none
      else some (record { name = n; date = d })

  unfoldable pub normalize_holidays_onto : List Holiday → List RawHoliday → List Holiday
  normalize_holidays_onto dedup [] = dedup
  normalize_holidays_onto dedup (raw ∷ rest) =
      normalize_holidays_onto
        (elim (read_holiday raw) [ none ↦ dedup | some h ↦ set_holiday h dedup ]) rest

  unfoldable pub normalize_business_holidays : Option (List RawHoliday) → List Holiday
  normalize_business_holidays raw = normalize_holidays_onto [] (or_else raw [])

  -- `findBusinessHoursRow`: the team's row, or the one with the id `global`.
  unfoldable pub find_business_hours_row :
      (String → Option BusinessHoursRow)
      → Option BusinessHoursRow
      → Option String
      → Option BusinessHoursRow
  find_business_hours_row by_team global none = global
  find_business_hours_row by_team global (some team) = elim (by_team team) [
    | none ↦ global
    | some row ↦ if truthy team then some row else global
  ]

  unfoldable pub settings_of : Option BusinessHoursRow → BusinessHoursSettings
  settings_of none = record { schedule = map default_day business_days_order; holidays = [] }
  settings_of (some row) = record {
    schedule = normalize_business_schedule row.schedule;
    holidays = normalize_business_holidays row.holidays;
  }

  -- The settings that the loops read, but for the time zone.
  unfoldable pub get_business_hours_settings :
      (String → Option BusinessHoursRow)
      → Option BusinessHoursRow
      → Option String
      → BusinessHoursSettings
  get_business_hours_settings by_team global team =
      settings_of (find_business_hours_row by_team global team)
