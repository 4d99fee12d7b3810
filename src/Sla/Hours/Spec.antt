-- ===== src/Sla/Hours/Spec.antt =====
-- What business hours are: the minutes that lie in a window of the settings, whichever way a loop of
-- ticket-sla-calculation.service.ts walks over them.
use cursor_multi_agent.Prelude.{
  List, [], ◌∷◌, ℕ, zero, suc, ◌+◌, ◌-◌, ◌≤◌, ◌<◌, ◌≡◌, refl, Bool, true, false, ◌&&◌, none, some,
  ltb, leb, if◌then◌else◌, arith, Option-cases, inl, inr, String, List, codes, ◌∷◌, ◌∙◌, ap, find,
  any, ◌==◌,
}
use cursor_multi_agent.Sla.Hours.{
  Zone, BusinessHoursSettings, BusinessDaySchedule, day_of, open_window, window_of, time_to_minutes,
  minutes_of_codes, is_holiday, window_on, is_day,
}

-- luxon in a zone whose days follow one another, each with all its minutes in order.
pub record IsRegular (zone : Zone) : Type 0 where
  pub begun : (t : ℕ) → zone.start_of_day t ≤ t
  pub later : (t : ℕ) → t < zone.next_day t
  -- What is read of a day is the same at all its minutes.
  pub weekday_today :
      (t u : ℕ) → zone.start_of_day t ≤ u → u < zone.next_day t → zone.weekday u ≡ zone.weekday t
  pub date_today :
      (t u : ℕ)
      → zone.start_of_day t ≤ u
      → u < zone.next_day t
      → zone.local_date u ≡ zone.local_date t
  pub time_today :
      (t u m : ℕ)
      → zone.start_of_day t ≤ u
      → u < zone.next_day t
      → zone.at_time u m ≡ zone.at_time t m
  pub within_day :
      (t m : ℕ)
      → m < 1440
      → (zone.start_of_day t ≤ zone.at_time t m) × (zone.at_time t m < zone.next_day t)
  pub in_order : (t m n : ℕ) → m < n → n < 1440 → zone.at_time t m < zone.at_time t n
  -- The day before ends where the day begins.
  pub adjacent :
      (t : ℕ)
      → 0 < zone.start_of_day t
      → zone.next_day (zone.start_of_day t - 1) ≡ zone.start_of_day t

codes-lt-1440 : (cs : List ℕ) {m : ℕ} → minutes_of_codes cs ≡ some m → m < 1440
codes-lt-1440 [] h = cc
codes-lt-1440 (a ∷ []) h = cc
codes-lt-1440 (a ∷ b ∷ []) h = cc
codes-lt-1440 (a ∷ b ∷ c ∷ []) h = cc
codes-lt-1440 (a ∷ b ∷ c ∷ d ∷ []) h = cc
codes-lt-1440 (a ∷ b ∷ c ∷ d ∷ e ∷ []) h = ground arith
codes-lt-1440 (a ∷ b ∷ c ∷ d ∷ e ∷ f ∷ cs) h = cc

pub time-lt-1440 : (time : String) {m : ℕ} → time_to_minutes time ≡ some m → m < 1440
unfolding time_to_minutes
time-lt-1440 time h = codes-lt-1440 (codes time) h

pub record InWindow (zone : Zone) (settings : BusinessHoursSettings) (t s e : ℕ) : Type 0 where
  pub day : BusinessDaySchedule
  pub starts : ℕ
  pub ends : ℕ
  pub day_found : day_of zone settings t ≡ some day
  pub is_enabled : day.enabled ≡ true
  pub start_read : time_to_minutes day.start ≡ some starts
  pub end_read : time_to_minutes day.end ≡ some ends
  pub start_at : s ≡ zone.at_time t starts
  pub end_at : e ≡ zone.at_time t ends
  pub ordered : starts < ends

module _ (zone : Zone) (settings : BusinessHoursSettings) where
  pub window_parts :
      (t s e : ℕ) → open_window zone settings t ≡ some (s, e) → InWindow zone settings t s e
  unfolding open_window window_of
  window_parts t s e h = elim (Option-cases (day_of zone settings t)) [
    | inl missing ↦ absurd (ground arith)
    | inr (d, found) ↦ elim (Option-cases (time_to_minutes d.start)) [
      | inl missing ↦ absurd (ground arith)
      | inr (a, read) ↦ elim (Option-cases (time_to_minutes d.end)) [
        | inl missing ↦ absurd (ground arith)
        | inr (b, end_read) ↦ record {
          day = d;
          starts = a;
          ends = b;
          day_found = found;
          is_enabled = ground arith;
          start_read = read;
          end_read = end_read;
          start_at = ground arith;
          end_at = ground arith;
          ordered = ground arith;
        }
      ]
    ]
  ]

  -- The minute after `t` is business time.
  unfoldable pub is_open : ℕ → Bool
  is_open t = elim (open_window zone settings t) [ none ↦ false | some (s, e) ↦ leb s t && ltb t e ]

  -- Business minutes among the `n` minutes from `a` on, and between two cursors.
  pub minutes_open : ℕ → ℕ → ℕ
  minutes_open a zero = 0
  minutes_open a (suc n) = (if is_open a then 1 else 0) + minutes_open (a + 1) n

  abbrev pub business_minutes : ℕ → ℕ → ℕ
  business_minutes a b = minutes_open a (b - a)

  pub minutes_append :
      (a n m : ℕ) → minutes_open a (n + m) ≡ minutes_open a n + minutes_open (a + n) m
  unfolding minutes_open
  minutes_append a zero m = ground arith
  minutes_append a (suc n) m =
      let e : suc n + m ≡ suc (n + m) = omega arith in
      let f : a + suc n ≡ a + 1 + n = omega arith in
      rw (e, f) (ground (arith, minutes_append (a + 1) n m))

  pub minutes_closed :
      (a n : ℕ) → ((u : ℕ) → a ≤ u → u < a + n → is_open u ≡ false) → minutes_open a n ≡ 0
  unfolding minutes_open
  minutes_closed a zero h = refl
  minutes_closed a (suc n) h = ground (
    arith,
    h a (omega arith) (omega arith),
    minutes_closed (a + 1) n (λ u p q. h u (omega arith) (omega arith)),
  )

  pub minutes_all :
      (a n : ℕ) → ((u : ℕ) → a ≤ u → u < a + n → is_open u ≡ true) → minutes_open a n ≡ n
  unfolding minutes_open
  minutes_all a zero h = refl
  minutes_all a (suc n) h = ground (
    arith,
    h a (omega arith) (omega arith),
    minutes_all (a + 1) n (λ u p q. h u (omega arith) (omega arith)),
  )

  pub business_append :
      (a b c : ℕ)
      → a ≤ b
      → b ≤ c
      → business_minutes a c ≡ business_minutes a b + business_minutes b c
  business_append a b c p q =
      let e : c - a ≡ (b - a) + (c - b) = omega arith in
      let f : a + (b - a) ≡ b = omega arith in
      rw e (
        minutes_append a (b - a) (c - b)
        ∙ ap (λ x. minutes_open a (b - a) + minutes_open x (c - b)) f)

  pub business_closed :
      (a b : ℕ) → ((u : ℕ) → a ≤ u → u < b → is_open u ≡ false) → business_minutes a b ≡ 0
  business_closed a b h = minutes_closed a (b - a) (λ u p q. h u p (omega arith))

  pub business_all :
      (a b : ℕ) → ((u : ℕ) → a ≤ u → u < b → is_open u ≡ true) → business_minutes a b ≡ b - a
  business_all a b h = minutes_all a (b - a) (λ u p q. h u p (omega arith))

  -- An open minute is a minute of business time.
  pub business_some : (a b : ℕ) → a < b → is_open a ≡ true → 0 < business_minutes a b
  unfolding minutes_open
  business_some a b l open_now =
      let e : b - a ≡ suc (b - a - 1) = omega arith in rw e (ground (arith, open_now))

  module _ (regular : IsRegular zone) where
    -- A day has one window.
    pub window_today :
        (t u : ℕ)
        → zone.start_of_day t ≤ u
        → u < zone.next_day t
        → open_window zone settings u ≡ open_window zone settings t
    unfolding open_window day_of is_holiday
    window_today t u p q i =
        window_on
          (find (λ item. is_day item.day (regular.weekday_today t u p q i)) settings.schedule)
          (any (λ holiday. holiday.date == regular.date_today t u p q i) settings.holidays)
          (λ m. regular.time_today t u m p q i)

    pub window_bounds :
        (t s e : ℕ)
        → open_window zone settings t ≡ some (s, e)
        → (zone.start_of_day t ≤ s) × (s < e) × (e < zone.next_day t)
    window_bounds t s e h =
        let parts = window_parts t s e h in
        let bound = time-lt-1440 parts.day.end parts.end_read in
        ground (
          arith,
          regular.within_day t parts.starts (omega arith),
          regular.within_day t parts.ends bound,
          regular.in_order t parts.starts parts.ends parts.ordered bound,
          parts.start_at,
          parts.end_at,
        )

    pub closed_day :
        (t u : ℕ)
        → open_window zone settings t ≡ none
        → zone.start_of_day t ≤ u
        → u < zone.next_day t
        → is_open u ≡ false
    unfolding is_open
    closed_day t u none_open p q = ground (arith, window_today t u p q)

    pub open_iff :
        (t u s e : ℕ)
        → open_window zone settings t ≡ some (s, e)
        → zone.start_of_day t ≤ u
        → u < zone.next_day t
        → is_open u ≡ (leb s u && ltb u e)
    unfolding is_open
    open_iff t u s e found p q = ground (arith, window_today t u p q)

    -- The last minute of a day is never open.
    pub midnight_closed : (t : ℕ) → is_open (zone.next_day t - 1) ≡ false
    midnight_closed t = elim (Option-cases (open_window zone settings t)) [
      | inl shut ↦
          closed_day t (zone.next_day t - 1) shut (ground (arith, regular.begun t, regular.later t))
            (ground (arith, regular.later t))
      | inr ((s, e), found) ↦
          let bounds = window_bounds t s e found in
          open_iff t (zone.next_day t - 1) s e found
            (omega (arith, regular.begun t, regular.later t)) (omega (arith, regular.later t))
          ∙ ground (arith, bounds)
    ]
