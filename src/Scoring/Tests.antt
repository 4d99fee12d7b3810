-- ===== src/Scoring/Tests.antt =====
-- The theorems on scoring at two decisions, one of which was corrected twice.
use cursor_multi_agent.Prelude.{◌≡◌, true, some, [], ◌∷◌, List, none}
use cursor_multi_agent.Scoring.{
  ScoredDecision, ScoredCorrection, correction_of, score_of, corrected_to, actual_of,
}
use cursor_multi_agent.Scoring.Laws.{score_counts}

abbrev decisions : List ScoredDecision
decisions =
    record { ticket_id = some "t1"; predicted_team_id = some "it"; accepted = true }
    ∷ record { ticket_id = some "t2"; predicted_team_id = some "hr"; accepted = true }
    ∷ []

abbrev corrections : List ScoredCorrection
corrections =
    record { ticket_id = "t2"; to_value = none }
    ∷ record { ticket_id = "t2"; to_value = some "it" }
    ∷ []

model : Unit {0}
unfolding correction_of corrected_to actual_of
model = tt

score_counts_example :
    let score = score_of decisions corrections "it" in
    (score.true_positives ≡ 1) × (score.false_positives ≡ 0) × (score.false_negatives ≡ 1)
unfolding model
score_counts_example = score_counts decisions corrections "it"
