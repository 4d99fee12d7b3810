-- ===== src/Sla/Hours.antt =====
-- The arithmetic of business hours in apps/api/src/tickets/ticket-sla-calculation.service.ts:
-- alignToBusinessWindow, addBusinessHours and their mirror images. Every step of the source sets the
-- seconds and milliseconds of its cursor to zero, so a cursor is a number of whole minutes here; the
-- operations of luxon on a cursor are the record `Zone`.
pub mod Spec
pub mod AlignAhead
pub mod Forward
pub mod AlignBack
pub mod Backward
pub mod Unwind
pub mod Settings
pub mod Schedule
pub mod Bounds
pub mod Shutdown
mod Tests
use cursor_multi_agent.Prelude.{
  zero, suc, ℕ, String, Bool, not, ◌&&◌, ◌||◌, Option, none, some, List, [], ◌∷◌, ◌==◌, ◌+◌, ◌-◌,
  ◌*◌, ◌/◌, leb, ltb, eqb, any, find, if◌then◌else◌, or_else, codes, suc,
}

pub data BusinessWeekDay : Type 0 where
  monday tuesday wednesday thursday friday saturday sunday : BusinessWeekDay

abbrev pub day_number : BusinessWeekDay → ℕ
day_number monday = 1
day_number tuesday = 2
day_number wednesday = 3
day_number thursday = 4
day_number friday = 5
day_number saturday = 6
day_number sunday = 7

abbrev pub is_day : BusinessWeekDay → BusinessWeekDay → Bool
is_day d e = eqb (day_number d) (day_number e)

pub record BusinessDaySchedule : Type 0 where
  pub day : BusinessWeekDay
  pub enabled : Bool
  pub start : String
  pub end : String

pub record Holiday : Type 0 where
  pub name : String
  pub date : String

-- The timezone is in the operations of `Zone`.
pub record BusinessHoursSettings : Type 0 where
  pub schedule : List BusinessDaySchedule
  pub holidays : List Holiday

-- luxon's operations on a DateTime in the zone of the settings, on whole minutes: `toFormat('cccc')`,
-- `toFormat('yyyy-LL-dd')`, `startOf('day')`, `plus({ days: 1 }).startOf('day')` and `set` of an hour
-- and a minute, given as minutes of the day.
pub record Zone : Type 0 where
  pub weekday : ℕ → BusinessWeekDay
  pub local_date : ℕ → String
  pub start_of_day : ℕ → ℕ
  pub next_day : ℕ → ℕ
  pub at_time : ℕ → ℕ → ℕ

abbrev pub is_digit : ℕ → Bool
is_digit c = leb b'0' c && leb c b'9'

-- `/^([01]\d|2[0-3])/` and `/[0-5]\d$/`
abbrev is_hour : ℕ → ℕ → Bool
is_hour a b =
    ((eqb a b'0' || eqb a b'1') && is_digit b) || (eqb a b'2' && (leb b'0' b && leb b b'3'))

abbrev is_minute : ℕ → ℕ → Bool
is_minute a b = leb b'0' a && leb a b'5' && is_digit b

abbrev two_digits : ℕ → ℕ → ℕ
two_digits a b = (a - b'0') * 10 + (b - b'0')

abbrev pub minutes_of_codes : List ℕ → Option ℕ
minutes_of_codes (a ∷ b ∷ c ∷ d ∷ e ∷ []) =
    if is_hour a b && eqb c b':' && is_minute d e
    then some (two_digits a b * 60 + two_digits d e)
    else none
minutes_of_codes _ = none

unfoldable pub time_to_minutes : String → Option ℕ
time_to_minutes time = minutes_of_codes (codes time)

-- What one round of the loops leaves: the final cursor, or the minutes left and the next cursor.
pub data Round : Type 0 where
  finished : ℕ → Round
  again : ℕ → ℕ → Round

-- The start and the end of a day's schedule, unless they are missing or out of order.
unfoldable pub window_of : BusinessDaySchedule → Option (ℕ × ℕ)
window_of day = elim (time_to_minutes day.start) [
  | none ↦ none
  | some s ↦ elim (time_to_minutes day.end) [
    | none ↦ none
    | some e ↦ if leb e s then none else some (s, e)
  ]
]

-- A window as a pair of cursors, by the schedule of the day, whether it is a holiday, and its times.
abbrev pub window_on : Option BusinessDaySchedule → Bool → (ℕ → ℕ) → Option (ℕ × ℕ)
window_on none holiday at_time = none
window_on (some day) holiday at_time =
    if not day.enabled || holiday
    then none
    else elim (window_of day) [ none ↦ none | some (s, e) ↦ some (at_time s, at_time e) ]

-- `minus({ days: 1 }).endOf('day')`, to the minute
abbrev pub end_of_previous_day : Zone → ℕ → ℕ
end_of_previous_day zone cursor = zone.start_of_day cursor - 1

module _ (zone : Zone) (settings : BusinessHoursSettings) where
  unfoldable pub day_of : ℕ → Option BusinessDaySchedule
  day_of cursor = find (λ item. is_day item.day (zone.weekday cursor)) settings.schedule

  unfoldable pub is_holiday : ℕ → Bool
  is_holiday cursor = any (λ holiday. holiday.date == zone.local_date cursor) settings.holidays

  -- The window of the cursor's day, unless the day is skipped.
  unfoldable pub open_window : ℕ → Option (ℕ × ℕ)
  open_window cursor = window_on (day_of cursor) (is_holiday cursor) (zone.at_time cursor)

  -- The rounds of `alignToBusinessWindow`; none if they are used up.
  unfoldable pub align_from : ℕ → ℕ → Option ℕ
  align_from zero cursor = none
  align_from (suc i) cursor =
      let later = align_from i (zone.next_day cursor) in
      elim (open_window cursor) [
        | none ↦ later
        | some (s, e) ↦ if ltb cursor s then some s else if leb e cursor then later else some cursor
      ]

  unfoldable pub align_to_business_window : ℕ → ℕ
  align_to_business_window start = or_else (align_from 14 start) start

  unfoldable pub align_backward_from : ℕ → ℕ → Option ℕ
  align_backward_from zero cursor = none
  align_backward_from (suc i) cursor =
      let earlier = align_backward_from i (end_of_previous_day zone cursor) in
      elim (open_window cursor) [
        | none ↦ earlier
        | some (s, e) ↦
            if ltb e cursor then some e else if leb cursor s then earlier else some cursor
      ]

  unfoldable pub align_backward_to_business_window : ℕ → ℕ
  align_backward_to_business_window end_at = or_else (align_backward_from 14 end_at) end_at

  -- The rest of a round of `addBusinessHours`, from the aligned cursor.
  unfoldable pub add_on_day : ℕ → ℕ → Round
  add_on_day remaining cursor = elim (day_of cursor) [
    | none ↦ again remaining (zone.next_day cursor)
    | some day ↦
        if not day.enabled
        then again remaining (zone.next_day cursor)
        else elim (time_to_minutes day.end) [
          | none ↦ again remaining (zone.next_day cursor)
          | some e ↦
              let window_end = zone.at_time cursor e in
              let available = window_end - cursor in
              if eqb available 0
              then again remaining (zone.next_day cursor)
              else if leb remaining available
              then finished (cursor + remaining)
              else again (remaining - available) (window_end + 1)
        ]
  ]

  -- None if the guardrail stops the loop.
  unfoldable pub add_rounds : ℕ → ℕ → ℕ → Option ℕ
  add_rounds zero remaining cursor = none
  add_rounds (suc i) remaining cursor =
      elim (add_on_day remaining (align_to_business_window cursor)) [
        | finished last ↦ some last
        | again left next ↦ add_rounds i left next
      ]

  unfoldable pub subtract_on_day : ℕ → ℕ → Round
  subtract_on_day remaining cursor = elim (day_of cursor) [
    | none ↦ again remaining (end_of_previous_day zone cursor)
    | some day ↦
        if not day.enabled
        then again remaining (end_of_previous_day zone cursor)
        else elim (time_to_minutes day.start) [
          | none ↦ again remaining (end_of_previous_day zone cursor)
          | some s ↦
              let window_start = zone.at_time cursor s in
              let available = cursor - window_start in
              if eqb available 0
              then again remaining (window_start - 1)
              else if leb remaining available
              then finished (cursor - remaining)
              else again (remaining - available) (window_start - 1)
        ]
  ]

  unfoldable pub subtract_rounds : ℕ → ℕ → ℕ → Option ℕ
  subtract_rounds zero remaining cursor = none
  subtract_rounds (suc i) remaining cursor =
      elim (subtract_on_day remaining (align_backward_to_business_window cursor)) [
        | finished last ↦ some last
        | again left next ↦ subtract_rounds i left next
      ]

  -- Instants in milliseconds; the guardrail falls back to plain hours.
  unfoldable pub add_business_hours : ℕ → ℕ → ℕ
  add_business_hours start_at hours =
      if eqb (hours * 60) 0
      then start_at
      else elim (add_rounds 20_000 (hours * 60) (start_at / 60_000)) [
        | none ↦ start_at + hours * 3_600_000
        | some cursor ↦ cursor * 60_000
      ]

  unfoldable pub subtract_business_hours : ℕ → ℕ → ℕ
  subtract_business_hours end_at hours =
      if eqb (hours * 60) 0
      then end_at
      else elim (subtract_rounds 20_000 (hours * 60) (end_at / 60_000)) [
        | none ↦ end_at - hours * 3_600_000
        | some cursor ↦ cursor * 60_000
      ]
