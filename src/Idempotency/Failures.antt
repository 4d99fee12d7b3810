-- ===== src/Idempotency/Failures.antt =====
-- idempotency.interceptor.ts: a request whose handler fails, or whose success is not recorded.
use cursor_multi_agent.Prelude.{
  eq_refl, ℕ, String, ◌≡◌, refl, ◌∙◌, arith, Bool, none, ◌≤◌, true, false, ◌+◌, ap, conflict, ◌&&◌,
  is_ok,
}
use cursor_multi_agent.Idempotency.{
  Answers, IdempotencyRequest, resolve_existing, intercept, finish, proceed, new_row, Bool,
  mark_completed, IdempotencyScope, Result, release, Response, delete_row, Ledger, ok, find_row,
  cleanup_expired, err, none, true, false, conflict,
}
use cursor_multi_agent.Idempotency.Laws.{
  reserved_ledger, begin-absent, eqb_refl, absent_cleaned, front_found, begin-existing,
}

resolve_reserved :
    (r : IdempotencyRequest) (hash : String)
    → r.request_hash ≡ hash
    → r.completed ≡ false
    → resolve_existing r hash
      ≡ err (conflict "A request with this Idempotency-Key is still processing")
unfolding resolve_existing
resolve_reserved r hash e going = ground (arith, eq_refl hash)

module _ {W : Type 0} where
  finish_world :
      (answers : Answers) (id : ℕ) (outcome : Result Response × W) (s : Ledger)
      → (finish answers id outcome s).2 ≡ outcome.1
  unfolding finish
  finish_world answers id (ok (status, body), after) s = ground arith
  finish_world answers id (err e, after) s = refl

  unrecorded_end :
      (completes : Bool) (now ttl : ℕ) (scope : IdempotencyScope) (hash : String)
      (outcome : Result Response × W) (clean : Ledger)
      → (completes && is_ok outcome.0) ≡ false
      → find_row scope clean.rows ≡ none
      → let end_state =
          finish
            (record { completes = completes; releases = true })
            clean.next_id
            outcome
            (reserved_ledger now scope hash ttl clean) in
        (end_state.2 ≡ outcome.1) × (find_row scope end_state.1.rows ≡ none)
  unfolding finish mark_completed release delete_row new_row
  unrecorded_end false now ttl scope hash (ok (status, body), after) clean lost absent =
      (refl, rw (eqb_refl clean.next_id) absent)
  unrecorded_end true now ttl scope hash (ok (status, body), after) clean lost absent =
      ground (arith, lost)
  unrecorded_end completes now ttl scope hash (err e, after) clean lost absent =
      (refl, rw (eqb_refl clean.next_id) absent)

  -- A run whose outcome is not recorded leaves the table without the scope.
  unrecorded :
      (completes : Bool) (now ttl : ℕ) (scope : IdempotencyScope) (hash : String)
      (handler : W → Result Response × W) (s : Ledger) (w : W)
      → (completes && is_ok (handler w).0) ≡ false
      → find_row scope (cleanup_expired now s).rows ≡ none
      → let first =
          intercept
            (record { completes = completes; releases = true })
            now
            ttl
            scope
            hash
            handler
            s
            w in
        (first.2 ≡ (handler w).1) × (find_row scope first.1.rows ≡ none)
  unfolding intercept proceed
  unrecorded completes now ttl scope hash handler s w lost absent =
      rw (begin-absent now ttl scope hash s absent) (
        unrecorded_end completes now ttl scope hash (handler w) (cleanup_expired now s) lost absent)

  stuck_end :
      (completes : Bool) (id : ℕ) (outcome : Result Response × W) (s : Ledger)
      → (completes && is_ok outcome.0) ≡ false
      → let end_state = finish (record { completes = completes; releases = false }) id outcome s in
        (end_state.1 ≡ s) × (end_state.2 ≡ outcome.1)
  unfolding finish mark_completed release
  stuck_end false id (ok (status, body), after) s lost = (refl, refl)
  stuck_end true id (ok (status, body), after) s lost = (ground (arith, lost), ground (arith, lost))
  stuck_end completes id (err e, after) s lost = (refl, refl)

  -- A run whose outcome is neither recorded nor given up leaves its reservation.
  stuck :
      (completes : Bool) (now ttl : ℕ) (scope : IdempotencyScope) (hash : String)
      (handler : W → Result Response × W) (s : Ledger) (w : W)
      → (completes && is_ok (handler w).0) ≡ false
      → find_row scope (cleanup_expired now s).rows ≡ none
      → let first =
          intercept
            (record { completes = completes; releases = false })
            now
            ttl
            scope
            hash
            handler
            s
            w in
        (first.1 ≡ reserved_ledger now scope hash ttl (cleanup_expired now s))
        × (first.2 ≡ (handler w).1)
  unfolding intercept proceed
  stuck completes now ttl scope hash handler s w lost absent =
      rw (begin-absent now ttl scope hash s absent) (
        stuck_end completes (cleanup_expired now s).next_id (handler w)
          (reserved_ledger now scope hash ttl (cleanup_expired now s)) lost)

  -- While a reservation stands, a request of its scope and payload is refused.
  refused_while_reserved :
      (answers : Answers) (now later ttl : ℕ) (scope : IdempotencyScope) (hash : String)
      (again : W → Result Response × W) (clean : Ledger) (w : W)
      → later ≤ now + ttl
      → let second =
          intercept answers later ttl scope hash again
            (reserved_ledger now scope hash ttl clean)
            w in
        (second.0 ≡ err (conflict "A request with this Idempotency-Key is still processing"))
        × (second.2 ≡ w)
  unfolding intercept proceed new_row
  refused_while_reserved answers now later ttl scope hash again clean w fresh =
      let row = new_row clean.next_id scope hash (now + ttl) in
      let ledger = reserved_ledger now scope hash ttl clean in
      let found = front_found later scope row clean.rows ledger refl refl fresh in
      rw
        (
          begin-existing later ttl scope hash ledger found,
          resolve_reserved row hash refl refl,
          proceed,
        )
        (refl, refl)

  again_given_up :
      (completes : Bool) (now later ttl : ℕ) (answers : Answers) (scope : IdempotencyScope)
      (hash : String) (handler again : W → Result Response × W) (s : Ledger) (w : W)
      → find_row scope (cleanup_expired now s).rows ≡ none
      → (completes && is_ok (handler w).0) ≡ false
      → let first =
          intercept
            (record { completes = completes; releases = true })
            now
            ttl
            scope
            hash
            handler
            s
            w in
        let second = intercept answers later ttl scope hash again first.1 first.2 in
        second.2 ≡ (again ((handler w).1)).1
  unfolding intercept proceed
  again_given_up completes now later ttl answers scope hash handler again s w absent lost =
      let first =
        intercept (record { completes = completes; releases = true }) now ttl scope hash handler s
          w in
      let (effect, gone) = unrecorded completes now ttl scope hash handler s w lost absent in
      rw (begin-absent later ttl scope hash first.1 (absent_cleaned later scope first.1 gone)) (
        finish_world answers (cleanup_expired later first.1).next_id (again first.2)
          (reserved_ledger later scope hash ttl (cleanup_expired later first.1))
        ∙ ap (λ x. (again x).1) effect)

  -- The handler of a request that nothing is recorded of fails, or its success cannot be recorded, and
  -- the request is sent again before its reservation would expire. If the database has deleted the
  -- reservation, it is carried out again, on what the first run has left. If it has not, it is refused
  -- as still in progress, with no effect.
  pub failure_releases :
      (completes : Bool) (now later ttl : ℕ) (answers : Answers) (scope : IdempotencyScope)
      (hash : String) (handler again : W → Result Response × W) (s : Ledger) (w : W)
      → find_row scope (cleanup_expired now s).rows ≡ none
      → (completes && is_ok (handler w).0) ≡ false
      → later ≤ now + ttl
      → let given_up =
          intercept
            (record { completes = completes; releases = true })
            now
            ttl
            scope
            hash
            handler
            s
            w in
        let left =
          intercept
            (record { completes = completes; releases = false })
            now
            ttl
            scope
            hash
            handler
            s
            w in
        let after_release = intercept answers later ttl scope hash again given_up.1 given_up.2 in
        let after_outage = intercept answers later ttl scope hash again left.1 left.2 in
        (after_release.2 ≡ (again ((handler w).1)).1)
        × (after_outage.0
            ≡ err (conflict "A request with this Idempotency-Key is still processing"))
        × (after_outage.2 ≡ (handler w).1)
  failure_releases completes now later ttl answers scope hash handler again s w absent lost fresh =
      let (kept, effect) = stuck completes now ttl scope hash handler s w lost absent in
      let (refusal, quiet) =
        refused_while_reserved answers now later ttl scope hash again (cleanup_expired now s)
          ((handler w).1) fresh in
      let run : Ledger → W → Result Response × Ledger × W =
        λ l x. intercept answers later ttl scope hash again l x in
      let first =
        intercept (record { completes = completes; releases = false }) now ttl scope hash handler s
          w in
      let same : run first.1 first.2
          ≡ run (reserved_ledger now scope hash ttl (cleanup_expired now s)) (handler w).1 =
        ap (λ l. run l first.2) kept
        ∙ ap (run (reserved_ledger now scope hash ttl (cleanup_expired now s))) effect in
      (
        again_given_up completes now later ttl answers scope hash handler again s w absent lost,
        ap (λ r. r.0) same ∙ refusal,
        ap (λ r. r.2) same ∙ quiet,
      )
