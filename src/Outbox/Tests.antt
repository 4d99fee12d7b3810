-- ===== src/Outbox/Tests.antt =====
-- The theorems on the outbox at a concrete mail.
use cursor_multi_agent.Prelude.{◌≡◌, true, ℕ, refl, none, some, [], ◌∷◌, if◌then◌else◌, eqb}
use cursor_multi_agent.Outbox.{
  Mail, Post, Attempt, pending, run_job, run_attempts, process, claim_pending, send, after_sending,
  mark_sent, catch_error, mark_failed, update_mail, claimed_row, failed_row, next_status, sent_row,
}
use cursor_multi_agent.Outbox.Attempts.{HasEnded}
use cursor_multi_agent.Outbox.Delivery.{job_settles}

abbrev mail : Mail
mail = record {
  id = "m1";
  to_email = "eve@x";
  status = pending;
  attempts = 0;
  sent_at = none;
  last_error = none;
}

abbrev post : Post
post = record { rows = mail ∷ []; deliveries = [] }

-- The first attempt is sent but not recorded, the second one is both.
abbrev one_outage : ℕ → Attempt
one_outage made = record {
  claims = true;
  refusal = none;
  unrecorded = if eqb made 0 then some "timeout" else none;
  notes = true;
}

model : Unit {0}
unfolding cursor_multi_agent.Store.Tables.find_by
model = tt

job_settles_example : HasEnded true one_outage "m1" post (run_job true one_outage 9 "m1" post)
unfolding model
job_settles_example =
    job_settles true one_outage 9 "m1" post refl refl refl
      ((refl, refl, (refl, refl, (refl, refl, (refl, refl, (refl, refl, tt))))))

run : Unit {0}
unfolding model run_job run_attempts process claim_pending send after_sending mark_sent catch_error
    mark_failed update_mail cursor_multi_agent.Store.Tables.update_by claimed_row failed_row
    next_status sent_row
run = tt

-- The mail is delivered twice.
delivered_twice : (run_job true one_outage 9 "m1" post).deliveries ≡ "m1" ∷ "m1" ∷ []
unfolding run
delivered_twice = refl
