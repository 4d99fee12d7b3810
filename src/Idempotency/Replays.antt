-- ===== src/Idempotency/Replays.antt =====
-- idempotency.interceptor.ts: a request whose success is recorded, sent again.
use cursor_multi_agent.Prelude.{
  ℕ, String, ◌≡◌, refl, Bool, Option, none, ◌≤◌, true, ◌+◌, ◌≢◌, ap, ◌∷◌, conflict, some,
}
use cursor_multi_agent.Idempotency.{
  Answers, intercept, finish, proceed, new_row, Bool, mark_completed, has_row, IdempotencyScope,
  Result, update_row, Response, Ledger, Option, ok, find_row, cleanup_expired, err, none, true,
  conflict, some, intercept_request, Request, request_scope,
}
use cursor_multi_agent.Idempotency.Laws.{
  reserved_ledger, begin-absent, completed_row, eqb_refl, front_found, begin-existing,
  resolve_completed, resolve_other, normal,
}

-- The completion of the first request is recorded.
abbrev pub recorded : Bool → Answers
recorded swept = record { completes = true; releases = swept }

module _ {W : Type 0} where
  -- A request that nothing is recorded of, and whose handler succeeds, is answered by the handler; the
  -- table then has a completed row of the response in front.
  first_run :
      (swept : Bool) (now ttl : ℕ) (scope : IdempotencyScope) (hash : String)
      (handler : W → Result Response × W) (s : Ledger) (w after : W) (status : ℕ)
      (body : Option String)
      → find_row scope (cleanup_expired now s).rows ≡ none
      → handler w ≡ (ok (status, body), after)
      → let clean = cleanup_expired now s in
        intercept (recorded swept) now ttl scope hash handler s w ≡ (
          ok (status, body),
          record (reserved_ledger now scope hash ttl clean) {
            rows = completed_row now scope hash ttl clean status body ∷ clean.rows;
          },
          after,
        )
  unfolding intercept proceed finish mark_completed has_row update_row new_row
  first_run swept now ttl scope hash handler s w after status body absent done = rw (
    begin-absent now ttl scope hash s absent,
    done,
    finish,
    mark_completed,
    eqb_refl (cleanup_expired now s).next_id,
  )

  -- The same for a scope.
  replays_once :
      (swept : Bool) (now later ttl : ℕ) (answers : Answers) (scope : IdempotencyScope)
      (hash : String) (handler again : W → Result Response × W) (s : Ledger) (w after : W)
      (status : ℕ) (body : Option String)
      → find_row scope (cleanup_expired now s).rows ≡ none
      → handler w ≡ (ok (status, body), after)
      → 100 ≤ status
      → later ≤ now + ttl
      → let first = intercept (recorded swept) now ttl scope hash handler s w in
        let second = intercept answers later ttl scope hash again first.1 first.2 in
        (first.0 ≡ ok (status, body))
        × (first.2 ≡ after)
        × (second.0 ≡ ok (status, body))
        × (second.2 ≡ after)
  unfolding intercept new_row proceed
  replays_once swept now later ttl answers scope hash handler again s w after status body absent
        done valid fresh =
      let clean = cleanup_expired now s in
      let row = completed_row now scope hash ttl clean status body in
      let ledger : Ledger = record (reserved_ledger now scope hash ttl clean) {
        rows = row ∷ clean.rows;
      } in
      let found = front_found later scope row clean.rows ledger refl refl fresh in
      let second = begin-existing later ttl scope hash ledger found in
      let replayed =
        resolve_completed row hash status body refl refl (ap some (normal status valid)) refl
          valid in
      rw
        (
          first_run swept now ttl scope hash handler s w after status body absent done,
          second,
          replayed,
          proceed,
        )
        (refl, refl, refl, refl)

  keyed_lem :
      (to_upper_case trim : String → String) (now ttl : ℕ) (answers : Answers) (request : Request)
      (handler : W → Result Response × W) (s : Ledger) (w : W) {scope : IdempotencyScope}
      → request_scope to_upper_case trim request ≡ ok (some scope)
      → intercept_request to_upper_case trim answers now ttl request handler s w
        ≡ intercept answers now ttl scope request.request_hash handler s w
  unfolding intercept_request
  keyed_lem to_upper_case trim now ttl answers request handler s w keyed =
      rw (keyed, intercept_request)

  -- A request with a valid key that nothing is recorded of, whose handler succeeds and whose completion
  -- is recorded, is answered by the handler. Sent again before the record expires, whatever the handler
  -- would do, it is answered by the same response and has no effect.
  pub keyed_request-replays :
      (to_upper_case trim : String → String) (swept : Bool) (now later ttl : ℕ) (answers : Answers)
      (request : Request) (handler again : W → Result Response × W) (s : Ledger) (w after : W)
      (status : ℕ) (body : Option String) {scope : IdempotencyScope}
      → request_scope to_upper_case trim request ≡ ok (some scope)
      → find_row scope (cleanup_expired now s).rows ≡ none
      → handler w ≡ (ok (status, body), after)
      → 100 ≤ status
      → later ≤ now + ttl
      → let first =
          intercept_request to_upper_case trim (recorded swept) now ttl request handler s w in
        let second =
          intercept_request to_upper_case trim answers later ttl request again first.1 first.2 in
        (first.0 ≡ ok (status, body))
        × (first.2 ≡ after)
        × (second.0 ≡ ok (status, body))
        × (second.2 ≡ after)
  keyed_request-replays to_upper_case trim swept now later ttl answers request handler again s w
        after status body {scope} keyed absent done valid fresh =
      let first = intercept (recorded swept) now ttl scope request.request_hash handler s w in
      rw
        (
          keyed_lem to_upper_case trim now ttl (recorded swept) request handler s w keyed,
          keyed_lem to_upper_case trim later ttl answers request again first.1 first.2 keyed,
        )
        (replays_once swept now later ttl answers scope request.request_hash handler again s w after
          status body absent done valid fresh)

  -- While the record of an executed request has not expired, a request of the same scope with another
  -- payload is refused, with no effect.
  pub other_payload_refused :
      (swept : Bool) (now later ttl : ℕ) (answers : Answers) (scope : IdempotencyScope)
      (hash other : String) (handler again : W → Result Response × W) (s : Ledger) (w after : W)
      (status : ℕ) (body : Option String)
      → find_row scope (cleanup_expired now s).rows ≡ none
      → handler w ≡ (ok (status, body), after)
      → later ≤ now + ttl
      → hash ≢ other
      → let first = intercept (recorded swept) now ttl scope hash handler s w in
        let second = intercept answers later ttl scope other again first.1 first.2 in
        (second.0
          ≡ err (conflict "Idempotency-Key was already used with a different request payload"))
        × (second.2 ≡ after)
  unfolding intercept new_row proceed
  other_payload_refused swept now later ttl answers scope hash other handler again s w after status
        body absent done fresh differ =
      let clean = cleanup_expired now s in
      let row = completed_row now scope hash ttl clean status body in
      let ledger : Ledger = record (reserved_ledger now scope hash ttl clean) {
        rows = row ∷ clean.rows;
      } in
      let found = front_found later scope row clean.rows ledger refl refl fresh in
      let second = begin-existing later ttl scope other ledger found in
      rw
        (
          first_run swept now ttl scope hash handler s w after status body absent done,
          second,
          resolve_other row other differ,
          proceed,
        )
        (refl, refl)
