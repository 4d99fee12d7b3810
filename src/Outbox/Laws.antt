-- ===== src/Outbox/Laws.antt =====
-- What one attempt does to the row of the mail.
use mathlib.Core.Path.{subst}
use mathlib.Core.Option.{some-injective}
use cursor_multi_agent.Prelude.{
  ℕ, String, ◌≡◌, refl, ◌∙◌, arith, Option, Bool, some, ◌≢◌, false, true, none, List, ◌∷◌,
  or_option,
}
use cursor_multi_agent.Store.Tables.{find_by-update_self, find_by}
use cursor_multi_agent.Outbox.{
  Post, Mail, Attempt, update_mail, claim_pending, process, send, after_sending, catch_error,
  mark_sent, mark_failed, mail_key, pending, failed, claimed_row, failed_row, sent_row, next_status,
}

-- The stored row of a mail.
abbrev pub mail_of : String → Post → Option Mail
mail_of id s = find_by mail_key id s.rows

pub update-mail_of :
    (id : String) (change : Mail → Mail) (s : Post) {m : Mail}
    → ((r : Mail) → mail_key (change r) ≡ mail_key r)
    → mail_of id s ≡ some m
    → mail_of id (update_mail id change s) ≡ some (change m)
unfolding update_mail
update-mail_of id change s keeps here =
    find_by-update_self mail_key change keeps id s.rows ∙ rw here

claimed :
    (id : String) (s : Post) {m : Mail}
    → mail_of id s ≡ some m
    → m.status ≡ pending
    → claim_pending id s ≡ some (update_mail id claimed_row s)
unfolding claim_pending
claimed id s here waiting = ground arith

-- A mail that is not pending is left alone, so neither a second job nor a repeated one delivers it.
pub settled_untouched :
    (configured : Bool) (now : ℕ) (a : Attempt) (id : String) (s : Post) {m : Mail}
    → mail_of id s ≡ some m
    → m.status ≢ pending
    → (process configured now a id s).1 ≡ s
unfolding process claim_pending
settled_untouched configured now a id s here settled = ground arith

-- The error that an attempt at a configured transport throws, if it throws one.
abbrev pub fault : Attempt → Option String
fault a = or_option a.refusal a.unrecorded

-- The copies that are out after an attempt.
abbrev pub copy : Attempt → String → List String → List String
copy a id out = elim a.refusal [ none ↦ id ∷ out | some message ↦ out ]

taken :
    (id : String) (s : Post) {m : Mail}
    → mail_of id s ≡ some m
    → mail_of id (update_mail id claimed_row s) ≡ some (claimed_row m)
taken id s here = update-mail_of id claimed_row s (λ r. unfold claimed_row in refl) here

abbrev pub Sends : ℕ → Attempt → String → Post → Mail → Type 0
Sends now a id s m =
    let after = process true now a id s in
    (after.0 ≡ false)
    × (mail_of id after.1 ≡ some (sent_row now (claimed_row m)))
    × (after.1.deliveries ≡ copy a id s.deliveries)

process-Sends :
    (now : ℕ) (claims notes : Bool) (refusal unrecorded : Option String) (id : String) (s : Post)
    {m : Mail}
    → mail_of id s ≡ some m
    → m.status ≡ pending
    → claims ≡ true
    → or_option refusal unrecorded ≡ none
    → Sends now
        (record { claims = claims; refusal = refusal; unrecorded = unrecorded; notes = notes })
        id
        s
        m
unfolding process send after_sending mark_sent update_mail
process-Sends now false notes refusal unrecorded id s here waiting up well = absurd (cc up)
process-Sends now true notes (some message) unrecorded id s here waiting up well = absurd (cc well)
process-Sends now true notes none (some message) id s here waiting up well = absurd (cc well)
process-Sends now true notes none none id s {m} here waiting up well =
    rw (claimed id s here waiting, process)
      (
        refl,
        update-mail_of id (sent_row now)
            (record (update_mail id claimed_row s) { deliveries = id ∷ s.deliveries })
            (λ r. unfold sent_row in refl) (taken id s here),
        refl,
      )

-- An attempt with no error sends the mail.
pub sends :
    (now : ℕ) (a : Attempt) (id : String) (s : Post) {m : Mail}
    → mail_of id s ≡ some m
    → m.status ≡ pending
    → a.claims ≡ true
    → fault a ≡ none
    → Sends now a id s m
sends now a id s here waiting up well =
    process-Sends now a.claims a.notes a.refusal a.unrecorded id s here waiting up well

noted :
    (id message : String) (retryable : Bool) (s : Post) {m : Mail}
    → mail_of id s ≡ some m
    → mail_of id (mark_failed true id message retryable s)
      ≡ some (failed_row (next_status retryable (some m)) message m)
unfolding mark_failed
noted id message retryable s {m} here =
    update-mail_of id (failed_row (next_status retryable (find_by mail_key id s.rows)) message) s
      (λ r. unfold failed_row in refl) here
    ∙ rw here

abbrev pub Faults : ℕ → Attempt → String → Post → Mail → String → Type 0
Faults now a id s m message =
    let after = process true now a id s in
    (after.0 ≡ true)
    × (mail_of id after.1
        ≡ some (failed_row (next_status true (some (claimed_row m))) message (claimed_row m)))
    × (after.1.deliveries ≡ copy a id s.deliveries)

process-Faults :
    (now : ℕ) (claims notes : Bool) (refusal unrecorded : Option String) (id : String) (s : Post)
    {m : Mail} {message : String}
    → mail_of id s ≡ some m
    → m.status ≡ pending
    → claims ≡ true
    → notes ≡ true
    → or_option refusal unrecorded ≡ some message
    → Faults now
        (record { claims = claims; refusal = refusal; unrecorded = unrecorded; notes = notes })
        id
        s
        m
        message
unfolding process send after_sending mark_sent catch_error update_mail
process-Faults now false notes refusal unrecorded id s here waiting up noting wrong = absurd (cc up)
process-Faults now true false refusal unrecorded id s here waiting up noting wrong =
    absurd (cc noting)
process-Faults now true true none none id s here waiting up noting wrong = absurd (cc wrong)
process-Faults now true true (some refused) unrecorded id s {m} {message} here waiting up noting
      wrong =
    subst
      (λ x.
        Faults now
          (record { claims = true; refusal = some refused; unrecorded = unrecorded; notes = true })
          id s m x)
      (some-injective refused message wrong)
      (rw (claimed id s here waiting, process)
        (
          refl,
          noted id refused true (update_mail id claimed_row s) (taken id s here),
          unfold mark_failed update_mail in refl,
        ))
process-Faults now true true none (some lost) id s {m} {message} here waiting up noting wrong =
    subst
      (λ x.
        Faults now (record { claims = true; refusal = none; unrecorded = some lost; notes = true })
          id s m x)
      (some-injective lost message wrong)
      (rw (claimed id s here waiting, process)
        (
          refl,
          noted id lost true
              (record (update_mail id claimed_row s) { deliveries = id ∷ s.deliveries })
              (taken id s here),
          unfold mark_failed update_mail in refl,
        ))

-- An attempt with an error throws, and its failure is noted.
pub faults :
    (now : ℕ) (a : Attempt) (id : String) (s : Post) {m : Mail} {message : String}
    → mail_of id s ≡ some m
    → m.status ≡ pending
    → a.claims ≡ true
    → a.notes ≡ true
    → fault a ≡ some message
    → Faults now a id s m message
faults now a id s here waiting up noting wrong =
    process-Faults now a.claims a.notes a.refusal a.unrecorded id s here waiting up noting wrong

abbrev pub Unsent : ℕ → Attempt → String → Post → Mail → Type 0
Unsent now a id s m =
    let after = process false now a id s in
    (after.0 ≡ false)
    × (mail_of id after.1 ≡ some (failed_row failed "SMTP not configured" (claimed_row m)))
    × (after.1.deliveries ≡ s.deliveries)

process-Unsent :
    (now : ℕ) (claims notes : Bool) (refusal unrecorded : Option String) (id : String) (s : Post)
    {m : Mail}
    → mail_of id s ≡ some m
    → m.status ≡ pending
    → claims ≡ true
    → notes ≡ true
    → Unsent now
        (record { claims = claims; refusal = refusal; unrecorded = unrecorded; notes = notes })
        id
        s
        m
unfolding process
process-Unsent now false notes refusal unrecorded id s here waiting up noting = absurd (cc up)
process-Unsent now true false refusal unrecorded id s here waiting up noting = absurd (cc noting)
process-Unsent now true true refusal unrecorded id s here waiting up noting =
    rw (claimed id s here waiting, process)
      (
        refl,
        unfold next_status in
            (noted id "SMTP not configured" false (update_mail id claimed_row s) (taken id s here)),
        unfold mark_failed update_mail in refl,
      )

-- Without a transport an attempt fails for good.
pub unsent :
    (now : ℕ) (a : Attempt) (id : String) (s : Post) {m : Mail}
    → mail_of id s ≡ some m
    → m.status ≡ pending
    → a.claims ≡ true
    → a.notes ≡ true
    → Unsent now a id s m
unsent now a id s here waiting up noting =
    process-Unsent now a.claims a.notes a.refusal a.unrecorded id s here waiting up noting
