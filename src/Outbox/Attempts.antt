-- ===== src/Outbox/Attempts.antt =====
-- email-processor.service.ts and email-queue.service.ts: what one attempt of a job means for the rest of them.
use cursor_multi_agent.Prelude.{
  ℕ, zero, suc, String, ◌≡◌, ◌≢◌, ◌⊎◌, refl, sym, arith, ◌+◌, ◌<◌, inl, inr, none, some, true,
  false, List, Bool, ◌∙◌, ap,
}
use mathlib.Core.Path.{subst}
use cursor_multi_agent.Outbox.{
  run_attempts, Post, Mail, Attempt, sent, pending, max_email_outbox_attempts, failed, process,
  failed_row, next_status, sent_row, claimed_row,
}
use cursor_multi_agent.Outbox.Laws.{mail_of, fault, copy, sends}

-- So many attempts from this one on throw.
abbrev pub AllFault : (ℕ → Attempt) → ℕ → ℕ → Type 0
AllFault attempts zero made = Unit
AllFault attempts (suc n) made = (fault (attempts made) ≢ none) × AllFault attempts n (made + 1)

-- The database answers the claims and the records of failures.
abbrev pub AllAnswered : (ℕ → Attempt) → ℕ → ℕ → Type 0
AllAnswered attempts zero made = Unit
AllAnswered attempts (suc n) made =
    ((attempts made).claims ≡ true)
    × ((attempts made).notes ≡ true)
    × AllAnswered attempts n (made + 1)

-- The copies that are out after so many attempts: one of each that the transport accepted.
abbrev pub copies : (ℕ → Attempt) → ℕ → ℕ → String → List String → List String
copies attempts zero made id out = out
copies attempts (suc n) made id out = copies attempts n (made + 1) id (copy (attempts made) id out)

-- The mail is sent by the first attempt without an error; or every attempt had one, and it has failed
-- for good. The copies are those of the attempts that were made.
abbrev pub IsSettled : (ℕ → Attempt) → ℕ → ℕ → String → Post → Post → Type 0
IsSettled attempts left made id before after =
    ((k : ℕ) × (k < left)
      × AllFault attempts k made
      × (fault (attempts (made + k)) ≡ none)
      × (m : Mail) × (mail_of id after ≡ some m)
      × (m.status ≡ sent)
      × (after.deliveries ≡ copies attempts (suc k) made id before.deliveries))
    ⊎ (AllFault attempts left made
        × (m : Mail) × (mail_of id after ≡ some m)
        × (m.status ≡ failed)
        × (m.attempts ≡ made + left)
        × (after.deliveries ≡ copies attempts left made id before.deliveries))

-- Without a transport it has failed for good after one attempt, and no copy is out.
abbrev pub HasEnded : Bool → (ℕ → Attempt) → String → Post → Post → Type 0
HasEnded true attempts id before after =
    IsSettled attempts max_email_outbox_attempts 0 id before after
HasEnded false attempts id before after =
    (m : Mail) × (mail_of id after ≡ some m)
    × (m.status ≡ failed)
    × (m.attempts ≡ 1)
    × (after.deliveries ≡ before.deliveries)

module _ (configured : Bool) (attempts : ℕ → Attempt) (now : ℕ) (id : String) where
  pub attempt_ends :
      (left made : ℕ) (s : Post)
      → (process configured now (attempts made) id s).0 ≡ false
      → run_attempts configured (suc left) attempts made now id s
        ≡ (process configured now (attempts made) id s).1
  unfolding run_attempts
  attempt_ends left made s done = rw done

  pub attempt_again :
      (left made : ℕ) (s : Post)
      → (process configured now (attempts made) id s).0 ≡ true
      → run_attempts configured (suc left) attempts made now id s
        ≡ run_attempts configured left attempts
            (made + 1)
            now
            id
            (process configured now (attempts made) id s).1
  unfolding run_attempts
  attempt_again left made s thrown = rw thrown

pub last_failed :
    (made : ℕ) (message : String) (m : Mail)
    → m.attempts ≡ made
    → made + 1 ≡ max_email_outbox_attempts
    → let row = failed_row (next_status true (some (claimed_row m))) message (claimed_row m) in
      (row.status ≡ failed) × (row.attempts ≡ made + 1)
unfolding failed_row next_status claimed_row
last_failed made message m counted budget = ground arith

pub back_to_pending :
    (left made : ℕ) (message : String) (m : Mail)
    → m.attempts ≡ made
    → made + suc (suc left) ≡ max_email_outbox_attempts
    → let row = failed_row (next_status true (some (claimed_row m))) message (claimed_row m) in
      (row.status ≡ pending) × (row.attempts ≡ made + 1)
unfolding failed_row next_status claimed_row
back_to_pending left made message m counted budget = ground arith

module _ (attempts : ℕ → Attempt) (now : ℕ) (id : String) where
  pub accepted_settles :
      (left made : ℕ) (s : Post) {m : Mail}
      → mail_of id s ≡ some m
      → m.status ≡ pending
      → (attempts made).claims ≡ true
      → fault (attempts made) ≡ none
      → IsSettled attempts
          (suc left)
          made
          id
          s
          (run_attempts true (suc left) attempts made now id s)
  accepted_settles left made s {m} here waiting up well =
      let (quiet, row, delivered) = sends now (attempts made) id s here waiting up well in
      let first : made + 0 ≡ made = omega arith in
      subst (IsSettled attempts (suc left) made id s)
        (sym (attempt_ends true attempts now id left made s quiet))
        (inl (
          0,
          omega arith,
          tt,
          rw first well,
          sent_row now (claimed_row m),
          row,
          unfold sent_row in refl,
          delivered,
        ))

  pub wrong :
      (made : ℕ) {message : String}
      → fault (attempts made) ≡ some message
      → fault (attempts made) ≢ none
  wrong made {message} e none_of = cc

  -- One more attempt with an error before a settled rest.
  pub fault_before :
      (left made : ℕ) (s mid after : Post)
      → fault (attempts made) ≢ none
      → mid.deliveries ≡ copy (attempts made) id s.deliveries
      → IsSettled attempts left (made + 1) id mid after
      → IsSettled attempts (suc left) made id s after
  fault_before left made s mid after error same (inl (k, low, all, well, m, row, done, out)) =
      let next : made + suc k ≡ made + 1 + k = omega arith in
      inl (
        suc k,
        omega (arith, low),
        (error, all),
        rw next well,
        m,
        row,
        done,
        out ∙ ap (copies attempts (suc k) (made + 1) id) same,
      )
  fault_before left made s mid after error same (inr (all, m, row, done, counted, out)) = inr (
    (error, all),
    m,
    row,
    done,
    omega (arith, counted),
    out ∙ ap (copies attempts left (made + 1) id) same,
  )
