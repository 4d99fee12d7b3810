-- ===== src/Sla/Hours/Bounds.antt =====
-- Bounds of `addBusinessHours` for any settings, malformed ones included.
use mathlib.Core.Path.{subst}
use cursor_multi_agent.Prelude.{
  refl, ◌⊎◌, ◌/◌, ℕ, zero, suc, ◌+◌, ◌*◌, ◌≤◌, ◌<◌, ◌≡◌, some, arith, Option-cases, inl, inr,
}
use cursor_multi_agent.Sla.Hours.{
  Zone, BusinessHoursSettings, add_business_hours, align_from, align_to_business_window, add_on_day,
  add_rounds, Round, finished, again,
}

Round-cases :
    (round : Round)
    → ((last : ℕ) × (round ≡ finished last)) ⊎ ((left : ℕ) × (next : ℕ) × (round ≡ again left next))
Round-cases (finished last) = inl (last, refl)
Round-cases (again left next) = inr (left, next, refl)

module _ (zone : Zone) (settings : BusinessHoursSettings)
    (next_later : (t : ℕ) → t < zone.next_day t) where
  align_from_later : (i t r : ℕ) → align_from zone settings i t ≡ some r → t ≤ r
  unfolding align_from
  align_from_later zero t r h = cc
  align_from_later (suc i) t r h =
      ground (arith, next_later t, align_from_later i (zone.next_day t) r)

  align_later : (t : ℕ) → t ≤ align_to_business_window zone settings t
  unfolding align_to_business_window
  align_later t = elim (Option-cases (align_from zone settings 14 t)) [
    | inl missing ↦ ground (arith, missing)
    | inr (r, found) ↦ ground (arith, found, align_from_later 14 t r found)
  ]

  -- A round takes no more business minutes than pass.
  abbrev Elapsed : ℕ → ℕ → Round → Type 0
  Elapsed n t (finished r) = t + n ≤ r
  Elapsed n t (again left next) = t + n ≤ next + left

  on_day-Elapsed : (n t : ℕ) → Elapsed n t (add_on_day zone settings n t)
  unfolding add_on_day
  on_day-Elapsed n t = ground (arith, next_later t)

  rounds_elapsed : (i n t r : ℕ) → add_rounds zone settings i n t ≡ some r → t + n ≤ r
  unfolding add_rounds
  rounds_elapsed zero n t r h = cc
  rounds_elapsed (suc i) n t r h =
      let aligned = align_to_business_window zone settings t in
      elim (Round-cases (add_on_day zone settings n aligned)) [
        | inl (last, e) ↦
            let passed = subst (Elapsed n aligned) e (on_day-Elapsed n aligned) in
            ground (arith, e, align_later t)
        | inr (left, next, e) ↦
            let passed = subst (Elapsed n aligned) e (on_day-Elapsed n aligned) in
            let rest : add_rounds zone settings i left next ≡ some r = ground (arith, e) in
            omega (arith, align_later t, rounds_elapsed i left next r rest)
      ]

  -- The due date in business hours is never before the one in plain hours, counted from the whole
  -- minute of the start; whatever the schedule and the holidays, and if the guardrail stops the loop.
  pub never_early :
      (start hours : ℕ)
      → start / 60_000 * 60_000 + hours * 3_600_000 ≤ add_business_hours zone settings start hours
  unfolding add_business_hours
  never_early start hours =
      elim (Option-cases (add_rounds zone settings 20_000 (hours * 60) (start / 60_000))) [
        | inl stopped ↦ ground (arith, stopped)
        | inr (r, found) ↦
            ground (arith, found, rounds_elapsed 20_000 (hours * 60) (start / 60_000) r found)
      ]
