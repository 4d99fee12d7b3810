-- ===== src/Outbox/Delivery.antt =====
-- The attempts of the job of a mail.
use cursor_multi_agent.Prelude.{
  ℕ, zero, suc, String, ◌≡◌, ◌≢◌, refl, sym, arith, ◌+◌, inl, inr, Option-cases, some, true, false,
  Bool,
}
use mathlib.Core.Path.{subst}
use cursor_multi_agent.Outbox.{
  run_attempts, run_job, Post, Mail, Attempt, pending, max_email_outbox_attempts, failed, process,
  failed_row, next_status, claimed_row,
}
use cursor_multi_agent.Outbox.Laws.{mail_of, fault, faults, unsent, settled_untouched}
use cursor_multi_agent.Outbox.Attempts.{
  AllAnswered, IsSettled, HasEnded, attempt_ends, attempt_again, last_failed, back_to_pending,
  accepted_settles, wrong, fault_before,
}

module _ (attempts : ℕ → Attempt) (now : ℕ) (id : String) where
  attempts_settle :
      (left made : ℕ) (s : Post) {m : Mail}
      → mail_of id s ≡ some m
      → m.status ≡ pending
      → m.attempts ≡ made
      → made + suc left ≡ max_email_outbox_attempts
      → AllAnswered attempts (suc left) made
      → IsSettled attempts
          (suc left)
          made
          id
          s
          (run_attempts true (suc left) attempts made now id s)
  attempts_settle zero made s {m} here waiting counted budget (up, noting, answered) =
      elim (Option-cases (fault (attempts made))) [
        | inl well ↦ accepted_settles attempts now id zero made s here waiting up well
        | inr (message, error) ↦
            let (thrown, row, out) = faults now (attempts made) id s here waiting up noting error in
            let (done, spent) = last_failed made message m counted budget in
            subst (IsSettled attempts 1 made id s)
              (sym (attempt_again true attempts now id zero made s thrown))
              (inr (
                (wrong attempts now id made error, tt),
                failed_row (next_status true (some (claimed_row m))) message (claimed_row m),
                unfold run_attempts in row,
                done,
                spent,
                unfold run_attempts in out,
              ))
      ]
  attempts_settle (suc left) made s {m} here waiting counted budget (up, noting, answered) =
      elim (Option-cases (fault (attempts made))) [
        | inl well ↦ accepted_settles attempts now id (suc left) made s here waiting up well
        | inr (message, error) ↦
            let (thrown, row, out) = faults now (attempts made) id s here waiting up noting error in
            let (open_again, spent) = back_to_pending left made message m counted budget in
            let mid = (process true now (attempts made) id s).1 in
            subst (IsSettled attempts (suc (suc left)) made id s)
              (sym (attempt_again true attempts now id (suc left) made s thrown))
              (fault_before attempts now id (suc left) made s mid
                (run_attempts true (suc left) attempts (made + 1) now id mid)
                (wrong attempts now id made error) out
                (attempts_settle left (made + 1) mid row open_again spent (omega (arith, budget))
                  answered))
      ]

  unsent_ends :
      (left : ℕ) (s : Post) {m : Mail}
      → mail_of id s ≡ some m
      → m.status ≡ pending
      → m.attempts ≡ 0
      → AllAnswered attempts (suc left) 0
      → HasEnded false attempts id s (run_attempts false (suc left) attempts 0 now id s)
  unsent_ends left s {m} here waiting fresh (up, noting, answered) =
      let (quiet, row, out) = unsent now (attempts 0) id s here waiting up noting in
      subst (HasEnded false attempts id s) (sym (attempt_ends false attempts now id left 0 s quiet))
        (
          failed_row failed "SMTP not configured" (claimed_row m),
          row,
          unfold failed_row in refl,
          unfold failed_row claimed_row in omega (arith, fresh),
          out,
        )

-- A new mail, with the queue at work and a database that answers the claims and the records of failures.
-- If SMTP is configured, the attempts of its job end with the mail sent by the first attempt that is
-- accepted and whose sending is recorded, or with the mail failed after five attempts none of which is
-- both. One copy is out for each attempt that the transport accepted, so more than one only if a sending
-- could not be recorded. If SMTP is not configured, the mail has failed after one attempt and no copy is
-- out. It does not stay pending or in processing.
pub job_settles :
    (configured : Bool) (attempts : ℕ → Attempt) (now : ℕ) (id : String) (s : Post) {m : Mail}
    → mail_of id s ≡ some m
    → m.status ≡ pending
    → m.attempts ≡ 0
    → AllAnswered attempts max_email_outbox_attempts 0
    → HasEnded configured attempts id s (run_job configured attempts now id s)
unfolding run_job
job_settles true attempts now id s here waiting fresh answered =
    attempts_settle attempts now id 4 0 s here waiting fresh (omega arith) answered
job_settles false attempts now id s here waiting fresh answered =
    unsent_ends attempts now id 4 s here waiting fresh answered

settled_attempts :
    (configured : Bool) (attempts : ℕ → Attempt) (left made now : ℕ) (id : String) (s : Post)
    {m : Mail}
    → mail_of id s ≡ some m
    → m.status ≢ pending
    → run_attempts configured left attempts made now id s ≡ s
unfolding run_attempts
settled_attempts configured attempts zero made now id s here settled = refl
settled_attempts configured attempts (suc left) made now id s here settled = ground (
  arith,
  settled_untouched configured now (attempts made) id s here settled,
  settled_attempts configured attempts left (made + 1) now id s here settled,
)

ended :
    (configured : Bool) (attempts : ℕ → Attempt) (id : String) (before after : Post)
    → HasEnded configured attempts id before after
    → (m : Mail) × (mail_of id after ≡ some m) × (m.status ≢ pending)
ended false attempts id before after (m, row, done, counted, out) =
    (m, row, λ e. ground (arith, done, e))
ended true attempts id before after (inl (k, low, all, well, m, row, done, out)) =
    (m, row, λ e. ground (arith, done, e))
ended true attempts id before after (inr (all, m, row, done, counted, out)) =
    (m, row, λ e. ground (arith, done, e))

-- A second job for a mail, at whatever time and whatever the world is like, changes nothing after the
-- first one has run with a database that answers.
pub job_runs_once :
    (configured again : Bool) (attempts others : ℕ → Attempt) (now later : ℕ) (id : String)
    (s : Post) {m : Mail}
    → mail_of id s ≡ some m
    → m.status ≡ pending
    → m.attempts ≡ 0
    → AllAnswered attempts max_email_outbox_attempts 0
    → run_job again others later id (run_job configured attempts now id s)
      ≡ run_job configured attempts now id s
job_runs_once configured again attempts others now later id s here waiting fresh answered =
    let after = run_job configured attempts now id s in
    let (m, row, settled) =
      ended configured attempts id s after
        (job_settles configured attempts now id s here waiting fresh answered) in
    unfold run_job in settled_attempts again others 5 0 later id after row settled
