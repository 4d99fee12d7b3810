-- ===== src/Scoring.antt =====
-- apps/api/src/reports/ai-accuracy.scoring.ts: how well the routing by a model agrees with what people
-- made of it. A ratio is its numerator and denominator; the harmonic mean of two ratios and the list of
-- the least confident decisions are left out, since they are about floating-point numbers.
pub mod Laws
mod Tests
use cursor_multi_agent.Prelude.{
  ℕ, String, Bool, true, false, not, ◌&&◌, Option, none, some, List, [], ◌∷◌, ◌==◌, ◌+◌, ◌-◌, eqb,
  if◌then◌else◌, filter, length, or_else, is_some, present,
}

pub record ScoredDecision : Type 0 where
  pub ticket_id : Option String
  pub predicted_team_id : Option String
  pub accepted : Bool

pub record ScoredCorrection : Type 0 where
  pub ticket_id : String
  pub to_value : Option String

abbrev pub unrouted : String
unrouted = "__unrouted__"

-- `null` when there is nothing to divide by.
unfoldable pub ratio : ℕ → ℕ → Option (ℕ × ℕ)
ratio numerator denominator = if eqb denominator 0 then none else some (numerator, denominator)

-- `correctionByTicket.get(ticketId)`: the last correction wins; the outer none is `undefined`.
unfoldable pub correction_of : String → List ScoredCorrection → Option (Option String)
correction_of id [] = none
correction_of id (c ∷ rest) = elim (correction_of id rest) [
  | some to ↦ some to
  | none ↦ if c.ticket_id == id then some c.to_value else none
]

-- A `Map<string, number>` of counters.
abbrev pub Counter : Type 0
Counter = List (String × ℕ)

unfoldable pub count_of : String → Counter → ℕ
count_of key [] = 0
count_of key ((k, n) ∷ rest) = if k == key then n else count_of key rest

unfoldable pub bump : String → Counter → Counter
bump key [] = (key, 1) ∷ []
bump key ((k, n) ∷ rest) =
    let later = bump key rest in if k == key then (k, n + 1) ∷ rest else (k, n) ∷ later

-- The variables of the loop, less the confusion matrix.
pub record Tally : Type 0 where
  pub tp : Counter
  pub fp : Counter
  pub fn : Counter
  pub corrected : ℕ

abbrev pub empty_tally : Tally
empty_tally = record { tp = []; fp = []; fn = []; corrected = 0 }

abbrev pub predicted_of : ScoredDecision → String
predicted_of d = or_else d.predicted_team_id unrouted

-- `correctedTo`
unfoldable pub corrected_to : List ScoredCorrection → ScoredDecision → Option (Option String)
corrected_to corrections d =
    if present d.ticket_id then correction_of (or_else d.ticket_id "") corrections else none

-- `actual`
unfoldable pub actual_of : List ScoredCorrection → ScoredDecision → String
actual_of corrections d = elim (corrected_to corrections d) [
  | none ↦ predicted_of d
  | some to ↦ or_else to unrouted
]

-- The body of the loop.
unfoldable pub tally_decision : List ScoredCorrection → ScoredDecision → Tally → Tally
tally_decision corrections d t =
    let predicted = predicted_of d in
    let actual = actual_of corrections d in
    if is_some (corrected_to corrections d) && not (actual == predicted)
    then record t { corrected = t.corrected + 1; fp = bump predicted t.fp; fn = bump actual t.fn }
    else record t { tp = bump predicted t.tp }

unfoldable pub tally_all : List ScoredCorrection → List ScoredDecision → Tally → Tally
tally_all corrections [] t = t
tally_all corrections (d ∷ rest) t = tally_all corrections rest (tally_decision corrections d t)

pub record DepartmentScore : Type 0 where
  pub true_positives : ℕ
  pub false_positives : ℕ
  pub false_negatives : ℕ
  pub precision : Option (ℕ × ℕ)
  pub recall : Option (ℕ × ℕ)

abbrev pub accepted_of : List ScoredDecision → List ScoredDecision
accepted_of decisions = filter (λ d. d.accepted) decisions

-- `byDepartment[department]`
unfoldable pub score_of : List ScoredDecision → List ScoredCorrection → String → DepartmentScore
score_of decisions corrections department =
    let t = tally_all corrections (accepted_of decisions) empty_tally in
    let true_positives = count_of department t.tp in
    let false_positives = count_of department t.fp in
    let false_negatives = count_of department t.fn in
    record {
      true_positives = true_positives;
      false_positives = false_positives;
      false_negatives = false_negatives;
      precision = ratio true_positives (true_positives + false_positives);
      recall = ratio true_positives (true_positives + false_negatives);
    }

-- `accuracy`
unfoldable pub accuracy : List ScoredDecision → List ScoredCorrection → Option (ℕ × ℕ)
accuracy decisions corrections =
    let accepted = accepted_of decisions in
    let t = tally_all corrections accepted empty_tally in
    ratio (length accepted - t.corrected) (length accepted)
