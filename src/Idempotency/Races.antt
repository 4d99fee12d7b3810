-- ===== src/Idempotency/Races.antt =====
-- Requests of one scope that overlap.
use cursor_multi_agent.Prelude.{
  ℕ, String, ◌≡◌, refl, arith, false, is_ok, none, some, ◌≤◌, ok, ◌+◌, true,
}
use cursor_multi_agent.Idempotency.{
  begin_found, resolve_existing, new_row, reserve, IdempotencyRequest, IdempotencyScope, Ledger,
  false, find_row, cleanup_expired, none, some, ok, execute, true,
}
use cursor_multi_agent.Idempotency.Laws.{reserved_ledger, front_found}

reserve_first :
    (now ttl : ℕ) (scope : IdempotencyScope) (hash : String) (s : Ledger)
    → find_row scope (cleanup_expired now s).rows ≡ none
    → begin_found none now scope hash ttl s ≡ (
      ok (execute (cleanup_expired now s).next_id),
      reserved_ledger now scope hash ttl (cleanup_expired now s),
    )
unfolding begin_found reserve
reserve_first now ttl scope hash s absent = rw (begin_found, reserve, absent)

reserve_second :
    (later ttl : ℕ) (scope : IdempotencyScope) (hash : String) (s : Ledger) {r : IdempotencyRequest}
    → find_row scope (cleanup_expired later s).rows ≡ some r
    → begin_found none later scope hash ttl s ≡ (resolve_existing r hash, cleanup_expired later s)
unfolding begin_found reserve
reserve_second later ttl scope hash s found = rw (begin_found, reserve, found, found)

resolve_in_progress :
    (r : IdempotencyRequest) (hash : String)
    → r.completed ≡ false
    → is_ok (resolve_existing r hash) ≡ false
unfolding resolve_existing
resolve_in_progress r hash going = ground arith

-- Two requests of one scope that both find no record do not both go on: whoever reserves second is
-- refused, if the first reservation has not expired.
pub one_reservation :
    (now later ttl : ℕ) (scope : IdempotencyScope) (hash other : String) (s : Ledger)
    → find_row scope (cleanup_expired now s).rows ≡ none
    → later ≤ now + ttl
    → let first = begin_found none now scope hash ttl s in
      let second = begin_found none later scope other ttl first.1 in
      (is_ok first.0 ≡ true) × (is_ok second.0 ≡ false)
unfolding new_row
one_reservation now later ttl scope hash other s absent fresh =
    let clean = cleanup_expired now s in
    let row = new_row clean.next_id scope hash (now + ttl) in
    let ledger = reserved_ledger now scope hash ttl clean in
    let found = front_found later scope row clean.rows ledger refl refl fresh in
    rw
      (reserve_first now ttl scope hash s absent, reserve_second later ttl scope other ledger found)
      (refl, resolve_in_progress row other refl)
