-- ===== src/Idempotency/Tests.antt =====
-- The theorems on idempotency at concrete requests, with a counter for the world.
use cursor_multi_agent.Prelude.{
  Bool, err, conflict, ℕ, ◌≡◌, refl, true, false, some, [], ok, Result, arith, ◌+◌, String,
}
use cursor_multi_agent.Idempotency.{
  Answers, Ledger, IdempotencyScope, Response, find_row, intercept, cleanup_expired, new_row,
  request_scope, String, Request, intercept_request, read_idempotency_key,
}
use cursor_multi_agent.Idempotency.Replays.{recorded, keyed_request-replays}
use cursor_multi_agent.Idempotency.Failures.{failure_releases}

abbrev empty_ledger : Ledger
empty_ledger = record { rows = []; next_id = 1; last_cleanup_at = 0 }

abbrev scope : IdempotencyScope
scope = record { key = "k1"; method = "POST"; route = "/api/tickets"; actor_id = "eve" }

-- Creates something: counts and answers 201.
abbrev create_one : ℕ → Result Response × ℕ
create_one n = (ok (201, some "{}"), n + 1)

model : Unit {0}
unfolding find_row cleanup_expired new_row request_scope read_idempotency_key
model = tt

abbrev same : String → String
same s = s

abbrev creation : Request
creation = record {
  idempotency_key = some "k1";
  method = "POST";
  route = "/api/tickets";
  actor_id = "eve";
  request_hash = "h";
}

keyed_request-replays_example :
    let first =
      intercept_request same same (recorded true) 10 1_000 creation create_one empty_ledger 5 in
    let second =
      intercept_request same same (recorded true) 20 1_000 creation create_one first.1 first.2 in
    (first.0 ≡ ok (201, some "{}"))
    × (first.2 ≡ 6)
    × (second.0 ≡ ok (201, some "{}"))
    × (second.2 ≡ 6)
unfolding model
keyed_request-replays_example =
    keyed_request-replays same same true 10 20 1_000 (recorded true) creation create_one create_one
      empty_ledger 5 6 201 (some "{}") {scope = scope} refl refl refl (omega arith) (omega arith)

abbrev outage : Bool → Answers
outage releases = record { completes = false; releases = releases }

failure_releases_example :
    let given_up = intercept (outage true) 10 1_000 scope "h" create_one empty_ledger 5 in
    let left = intercept (outage false) 10 1_000 scope "h" create_one empty_ledger 5 in
    let after_release =
      intercept (recorded true) 20 1_000 scope "h" create_one given_up.1 given_up.2 in
    let after_outage = intercept (recorded true) 20 1_000 scope "h" create_one left.1 left.2 in
    (after_release.2 ≡ 7)
    × (after_outage.0 ≡ err (conflict "A request with this Idempotency-Key is still processing"))
    × (after_outage.2 ≡ 6)
unfolding model
failure_releases_example =
    failure_releases false 10 20 1_000 (recorded true) scope "h" create_one create_one empty_ledger
      5 refl refl (omega arith)
