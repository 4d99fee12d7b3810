-- ===== src/Outbox.antt =====
-- apps/api/src/notifications/outbox.service.ts, email-processor.service.ts and email-queue.service.ts:
-- the rows of the mail outbox, the delivery of one of them, and the queue's attempts at it. The SMTP
-- transport and the database are parameters: each attempt has their answers, and each of its writes may
-- fail. The texts of the mails are left out.
pub mod Laws
pub mod Attempts
pub mod Delivery
mod Tests
use cursor_multi_agent.Prelude.{
  zero, suc, ℕ, String, Bool, true, false, Option, none, some, List, [], ◌∷◌, ◌+◌, ltb,
  if◌then◌else◌, not, ◌⊎◌, inl, inr,
}
use cursor_multi_agent.Store.Tables.{find_by, update_by}

abbrev pub max_email_outbox_attempts : ℕ
max_email_outbox_attempts = 5

pub data OutboxStatus : Type 0 where
  pending processing sent failed : OutboxStatus

-- A row of `NotificationOutbox`.
pub record Mail : Type 0 where
  pub id : String
  pub to_email : String
  pub status : OutboxStatus
  pub attempts : ℕ
  pub sent_at : Option ℕ
  pub last_error : Option String

-- The table and what the transport has delivered, newest first.
pub record Post : Type 0 where
  pub rows : List Mail
  pub deliveries : List String

abbrev pub mail_key : Mail → String
mail_key m = m.id

unfoldable pub update_mail : String → (Mail → Mail) → Post → Post
update_mail id change s = record s { rows = update_by mail_key id change s.rows }

unfoldable pub create_email : String → String → Post → Post
create_email id to_email s = record s {
  rows =
      record {
        id = id;
        to_email = to_email;
        status = pending;
        attempts = 0;
        sent_at = none;
        last_error = none;
      }
      ∷ s.rows;
}

abbrev pub is_pending : OutboxStatus → Bool
is_pending pending = true
is_pending _ = false

unfoldable pub claimed_row : Mail → Mail
claimed_row m = record m { status = processing; attempts = m.attempts + 1 }

-- None if no pending row has the key.
unfoldable pub claim_pending : String → Post → Option Post
claim_pending id s = elim (find_by mail_key id s.rows) [
  | none ↦ none
  | some m ↦ if is_pending m.status then some (update_mail id claimed_row s) else none
]

unfoldable pub sent_row : ℕ → Mail → Mail
sent_row now m = record m { status = sent; sent_at = some now; last_error = none }

-- The error of the update, if there is one, or what it leaves.
unfoldable pub mark_sent : Option String → ℕ → String → Post → String ⊎ Post
mark_sent none now id s = inr (update_mail id (sent_row now) s)
mark_sent (some message) now id s = inl message

unfoldable pub failed_row : OutboxStatus → String → Mail → Mail
failed_row next message m = record m { status = next; last_error = some message }

-- `nextStatus`, from the row that `markFailed` reads.
unfoldable pub next_status : Bool → Option Mail → OutboxStatus
next_status false m = failed
next_status true none = failed
next_status true (some m) = if ltb m.attempts max_email_outbox_attempts then pending else failed

-- What the update leaves, which throws if the database does not answer.
unfoldable pub mark_failed : Bool → String → String → Bool → Post → Post
mark_failed answered id message retryable s =
    if answered
    then update_mail id (failed_row (next_status retryable (find_by mail_key id s.rows)) message) s
    else s

-- The world at one attempt: does the database answer the claim, the error of the transport, the error
-- of the update to SENT, and does the database answer the record of a failure?
pub record Attempt : Type 0 where
  pub claims : Bool
  pub refusal : Option String
  pub unrecorded : Option String
  pub notes : Bool

-- The `catch` block, which throws in any case.
unfoldable pub catch_error : Attempt → String → String → Post → Bool × Post
catch_error a id message s = (true, mark_failed a.notes id message true s)

-- After `sendEmail`.
unfoldable pub after_sending : Attempt → ℕ → String → Post → Bool × Post
after_sending a now id s = elim (mark_sent a.unrecorded now id s) [
  | inr after ↦ (false, after)
  | inl message ↦ catch_error a id message s
]

-- The `try` block and its `catch`.
unfoldable pub send : Attempt → ℕ → String → Post → Bool × Post
send a now id s = elim a.refusal [
  | none ↦ after_sending a now id (record s { deliveries = id ∷ s.deliveries })
  | some message ↦ catch_error a id message s
]

-- `process`: does it throw, and what it leaves; `configured` is `isConfigured()`.
unfoldable pub process : Bool → ℕ → Attempt → String → Post → Bool × Post
process configured now a id s = if not a.claims then (true, s) else elim (claim_pending id s) [
  | none ↦ (false, s)
  | some claimed ↦
      if configured
      then send a now id claimed
      else (not a.notes, mark_failed a.notes id "SMTP not configured" false claimed)
]

-- The queue's job: it tries again as long as an attempt throws and attempts are left; `attempts` gives
-- the world at each of them.
unfoldable pub run_attempts : Bool → ℕ → (ℕ → Attempt) → ℕ → ℕ → String → Post → Post
run_attempts configured zero attempts made now id s = s
run_attempts configured (suc left) attempts made now id s =
    let tried = process configured now (attempts made) id s in
    let rest = run_attempts configured left attempts (made + 1) now id tried.1 in
    if tried.0 then rest else tried.1

-- `enqueue` with the queue at work.
unfoldable pub run_job : Bool → (ℕ → Attempt) → ℕ → String → Post → Post
run_job configured attempts now id s =
    run_attempts configured max_email_outbox_attempts attempts 0 now id s

-- `enqueue` without it: one attempt, inline.
unfoldable pub run_inline : Bool → Attempt → ℕ → String → Post → Post
run_inline configured a now id s = (process configured now a id s).1
