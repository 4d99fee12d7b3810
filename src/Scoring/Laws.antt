-- ===== src/Scoring/Laws.antt =====
-- The figures of the report, counted independently of the loop.
use cursor_multi_agent.Prelude.{
  ℕ, String, Bool, ◌≡◌, true, false, List, [], ◌∷◌, arith, ◌+◌, ◌==◌, eq_iff, if◌then◌else◌, not,
  ◌&&◌, refl, ◌∙◌, Option, none, some, or_else, or_option, Option-cases, is_some, Bool-cases, inl,
  eq_refl, inr, length, ap,
}
use cursor_multi_agent.Scoring.{
  ScoredDecision, count_of, ScoredCorrection, bump, predicted_of, tally_decision, tally_all,
  Counter, actual_of, Tally, score_of, corrected_to, accepted_of, empty_tally, accuracy, ratio,
  correction_of, unrouted,
}

-- How many decisions a test holds of.
abbrev pub how_many : (ScoredDecision → Bool) → List ScoredDecision → ℕ
how_many test [] = 0
how_many test (d ∷ rest) = (if test d then 1 else 0) + how_many test rest

count-bump :
    (key d : String) (c : Counter)
    → count_of d (bump key c) ≡ count_of d c + (if key == d then 1 else 0)
unfolding count_of bump
count-bump key d [] = ground (arith, eq_iff key d)
count-bump key d ((k, n) ∷ rest) =
    ground (arith, eq_iff k key, eq_iff k d, eq_iff key d, count-bump key d rest)

module _ (corrections : List ScoredCorrection) where
  -- The department is where the model sent the ticket, and people left it.
  abbrev pub right_for : String → ScoredDecision → Bool
  right_for team d = (predicted_of d == team) && (actual_of corrections d == team)

  abbrev pub wrong_for : String → ScoredDecision → Bool
  wrong_for team d = (predicted_of d == team) && not (actual_of corrections d == team)

  abbrev pub missed_for : String → ScoredDecision → Bool
  missed_for team d = not (predicted_of d == team) && (actual_of corrections d == team)

  abbrev pub moved : ScoredDecision → Bool
  moved d = not (actual_of corrections d == predicted_of d)

  -- A ticket that nobody moved stands where it was sent.
  guard_lem :
      (d : ScoredDecision)
      → (is_some (corrected_to corrections d) && not (actual_of corrections d == predicted_of d))
        ≡ moved d
  unfolding actual_of
  guard_lem d = ground (arith, eq_refl (predicted_of d))

  step_moved :
      (d : ScoredDecision) (t : Tally)
      → moved d ≡ true
      → tally_decision corrections d t ≡ record t {
        corrected = t.corrected + 1;
        fp = bump (predicted_of d) t.fp;
        fn = bump (actual_of corrections d) t.fn;
      }
  unfolding tally_decision
  step_moved d t e = rw (guard_lem d, e)

  step_kept :
      (d : ScoredDecision) (t : Tally)
      → moved d ≡ false
      → tally_decision corrections d t ≡ record t { tp = bump (predicted_of d) t.tp }
  unfolding tally_decision
  step_kept d t e = rw (guard_lem d, e)

  decision_counts :
      (team : String) (d : ScoredDecision) (t : Tally)
      → let after = tally_decision corrections d t in
        (count_of team after.tp ≡ count_of team t.tp + (if right_for team d then 1 else 0))
        × (count_of team after.fp ≡ count_of team t.fp + (if wrong_for team d then 1 else 0))
        × (count_of team after.fn ≡ count_of team t.fn + (if missed_for team d then 1 else 0))
        × (after.corrected ≡ t.corrected + (if moved d then 1 else 0))
  decision_counts team d t =
      let p = predicted_of d in
      let a = actual_of corrections d in
      elim (Bool-cases (moved d)) [
        | inl e ↦ rw (step_moved d t e) (
          ground (arith, eq_iff p team, eq_iff a team, eq_iff a p),
          ground (arith, eq_iff p team, eq_iff a team, eq_iff a p, count-bump p team t.fp),
          ground (arith, eq_iff p team, eq_iff a team, eq_iff a p, count-bump a team t.fn),
          ground (arith, e),
        )
        | inr e ↦ rw (step_kept d t e) (
          ground (arith, eq_iff p team, eq_iff a team, eq_iff a p, count-bump p team t.tp),
          ground (arith, eq_iff p team, eq_iff a team, eq_iff a p),
          ground (arith, eq_iff p team, eq_iff a team, eq_iff a p),
          ground (arith, e),
        )
      ]

  tally_counts :
      (team : String) (ds : List ScoredDecision) (t : Tally)
      → let after = tally_all corrections ds t in
        (count_of team after.tp ≡ count_of team t.tp + how_many (right_for team) ds)
        × (count_of team after.fp ≡ count_of team t.fp + how_many (wrong_for team) ds)
        × (count_of team after.fn ≡ count_of team t.fn + how_many (missed_for team) ds)
        × (after.corrected ≡ t.corrected + how_many moved ds)
  unfolding tally_all
  tally_counts team [] t = (omega arith, omega arith, omega arith, omega arith)
  tally_counts team (d ∷ rest) t =
      let (a, b, c, e) = decision_counts team d t in
      let (p, q, r, s) = tally_counts team rest (tally_decision corrections d t) in
      (omega (arith, a, p), omega (arith, b, q), omega (arith, c, r), omega (arith, e, s))

-- The specification, apart from the code: the correction of a ticket that is read last.
abbrev pub last_read :
    String → Option (Option String) → List ScoredCorrection → Option (Option String)
last_read id found [] = found
last_read id found (c ∷ rest) =
    last_read id (if c.ticket_id == id then some c.to_value else found) rest

abbrev pub named_team : Option String → String
named_team none = "__unrouted__"
named_team (some team) = team

-- Where the model sent the ticket of a decision.
abbrev pub sent_to : ScoredDecision → String
sent_to d = named_team d.predicted_team_id

-- Where the ticket stands: where the last correction of it says, and else where it was sent.
abbrev pub stands_at : List ScoredCorrection → ScoredDecision → String
stands_at corrections d = elim d.ticket_id [
  | none ↦ sent_to d
  | some id ↦
      if id == ""
      then sent_to d
      else elim (last_read id none corrections) [ none ↦ sent_to d | some to ↦ named_team to ]
]

-- A decision counts for a department if it was accepted and passes a test on the two places.
abbrev pub counted : (String → String → Bool) → List ScoredCorrection → List ScoredDecision → ℕ
counted test corrections decisions =
    how_many (λ d. d.accepted && test (sent_to d) (stands_at corrections d)) decisions

last_read_lem :
    (id : String) (found : Option (Option String)) (cs : List ScoredCorrection)
    → last_read id found cs ≡ or_option (correction_of id cs) found
unfolding correction_of
last_read_lem id found [] = refl
last_read_lem id found (c ∷ rest) =
    last_read_lem id (if c.ticket_id == id then some c.to_value else found) rest ∙ ground arith

named_lem : (to : Option String) → or_else to unrouted ≡ named_team to
named_lem none = refl
named_lem (some team) = refl

sent_lem : (d : ScoredDecision) → predicted_of d ≡ sent_to d
sent_lem d = named_lem d.predicted_team_id

standing_lem :
    (corrections : List ScoredCorrection) (d : ScoredDecision)
    → actual_of corrections d ≡ stands_at corrections d
unfolding actual_of corrected_to
standing_lem corrections d = elim (Option-cases d.ticket_id) [
  | inl e ↦ rw (e, actual_of, corrected_to) (sent_lem d)
  | inr (id, e) ↦ elim (Bool-cases (id == "")) [
    | inl blank ↦ rw (e, actual_of, corrected_to, blank) (sent_lem d)
    | inr named ↦ elim (Option-cases (correction_of id corrections)) [
      | inl none_of ↦
          rw (e, actual_of, corrected_to, named, last_read_lem id none corrections, none_of)
            (sent_lem d)
      | inr (to, last) ↦
          rw (e, actual_of, corrected_to, named, last_read_lem id none corrections, last)
            (named_lem to)
    ]
  ]
]

how_many-accepted :
    (p q : ScoredDecision → Bool)
    → ((d : ScoredDecision) → p d ≡ q d)
    → (ds : List ScoredDecision)
    → how_many p (accepted_of ds) ≡ how_many (λ d. d.accepted && q d) ds
how_many-accepted p q same [] = refl
how_many-accepted p q same (d ∷ ds) = ground (arith, same d, how_many-accepted p q same ds)

-- The score of a department, counted over the accepted decisions: its true positives were sent there
-- and stand there, its false positives were sent there and stand elsewhere, and its false negatives were
-- sent elsewhere and stand there. A ticket stands where the last correction of it says, and where it was
-- sent if it has none.
pub score_counts :
    (decisions : List ScoredDecision) (corrections : List ScoredCorrection) (team : String)
    → let score = score_of decisions corrections team in
      (score.true_positives
        ≡ counted (λ sent stands. (sent == team) && (stands == team)) corrections decisions)
      × (score.false_positives
          ≡ counted (λ sent stands. (sent == team) && not (stands == team)) corrections decisions)
      × (score.false_negatives
          ≡ counted (λ sent stands. not (sent == team) && (stands == team)) corrections decisions)
unfolding score_of count_of
score_counts decisions corrections team =
    let (a, b, c, e) = tally_counts corrections team (accepted_of decisions) empty_tally in
    let standing = standing_lem corrections in
    (
      omega (arith, a)
          ∙ how_many-accepted (right_for corrections team) _ (λ d. rw (standing d, sent_lem d))
              decisions,
      omega (arith, b)
          ∙ how_many-accepted (wrong_for corrections team) _ (λ d. rw (standing d, sent_lem d))
              decisions,
      omega (arith, c)
          ∙ how_many-accepted (missed_for corrections team) _ (λ d. rw (standing d, sent_lem d))
              decisions,
    )

complement :
    (corrections : List ScoredCorrection) (ds : List ScoredDecision)
    → length ds
      ≡ how_many (λ d. actual_of corrections d == predicted_of d) ds
        + how_many (moved corrections) ds
complement corrections [] = omega arith
complement corrections (d ∷ rest) = elim (Bool-cases (actual_of corrections d == predicted_of d)) [
  | inl e ↦ rw e (omega (arith, complement corrections rest))
  | inr e ↦ rw e (omega (arith, complement corrections rest))
]

-- The accuracy is the share of the accepted decisions whose ticket stands where it was sent, and null
-- if none was accepted.
pub accuracy_counts :
    (decisions : List ScoredDecision) (corrections : List ScoredCorrection)
    → accuracy decisions corrections
      ≡ ratio
          (how_many (λ d. actual_of corrections d == predicted_of d) (accepted_of decisions))
          (length (accepted_of decisions))
unfolding accuracy
accuracy_counts decisions corrections =
    let counted = (tally_counts corrections "" (accepted_of decisions) empty_tally).3 in
    ap (λ n. ratio n (length (accepted_of decisions)))
      (omega (arith, counted, complement corrections (accepted_of decisions)))
