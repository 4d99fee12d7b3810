-- ===== src/Idempotency/Laws.antt =====
-- The table of requests: what a cleanup keeps, and the outcomes of `begin`.
use cursor_multi_agent.Prelude.{
  [], ℕ, String, ◌≡◌, arith, true, Option, none, some, List, ◌∷◌, ◌+◌, ◌≤◌, eq_refl, ok, err, eqb,
  ◌≢◌, conflict, eq_iff, filter, refl, not, ltb,
}
use cursor_multi_agent.Idempotency.{
  IdempotencyScope, cleanup_expired, same_scope, find_row, begin, IdempotencyRequest, begin_found,
  Ledger, reserve, new_row, complete_row, normalize_status_code, execute, resolve_existing, replay,
  conflict, filter, not, ltb,
}

pub same_scope_refl : (a : IdempotencyScope) → same_scope a a ≡ true
same_scope_refl a =
    ground (arith, eq_refl a.key, eq_refl a.method, eq_refl a.route, eq_refl a.actor_id)

pub eqb_refl : (n : ℕ) → eqb n n ≡ true
eqb_refl n = ground arith

-- A row of the scope at the front, not expired at the instant, is found after the cleanup.
pub front_found :
    (later : ℕ) (scope : IdempotencyScope) (r : IdempotencyRequest) (rows : List IdempotencyRequest)
    (s : Ledger)
    → s.rows ≡ (r ∷ rows)
    → r.scope ≡ scope
    → later ≤ r.expires_at
    → find_row scope (cleanup_expired later s).rows ≡ some r
unfolding cleanup_expired find_row
front_found later scope r rows s front same fresh = ground (arith, same_scope_refl scope)

pub cleanup_twice :
    (now : ℕ) (s : Ledger) → cleanup_expired now (cleanup_expired now s) ≡ cleanup_expired now s
unfolding cleanup_expired
cleanup_twice now s = ground arith

-- The table after the reservation of a scope.
abbrev pub reserved_ledger : ℕ → IdempotencyScope → String → ℕ → Ledger → Ledger
reserved_ledger now scope hash ttl clean = record clean {
  rows = new_row clean.next_id scope hash (now + ttl) ∷ clean.rows;
  next_id = clean.next_id + 1;
}

pub begin-absent :
    (now ttl : ℕ) (scope : IdempotencyScope) (hash : String) (s : Ledger)
    → find_row scope (cleanup_expired now s).rows ≡ none
    → begin now scope hash ttl s ≡ (
      ok (execute (cleanup_expired now s).next_id),
      reserved_ledger now scope hash ttl (cleanup_expired now s),
    )
unfolding begin begin_found reserve
begin-absent now ttl scope hash s absent =
    rw (absent, begin_found, reserve, cleanup_twice now s, absent, cleanup_twice now s)

-- The row of an executed request, when its handler has answered.
abbrev pub completed_row :
    ℕ → IdempotencyScope → String → ℕ → Ledger → ℕ → Option String → IdempotencyRequest
completed_row now scope hash ttl clean status body =
    complete_row (normalize_status_code (some status)) body
      (new_row clean.next_id scope hash (now + ttl))

pub absent_filtered :
    (later : ℕ) (scope : IdempotencyScope) (rows : List IdempotencyRequest)
    → find_row scope rows ≡ none
    → find_row scope (filter (λ r. not (ltb r.expires_at later)) rows) ≡ none
unfolding find_row
absent_filtered later scope [] absent = refl
absent_filtered later scope (r ∷ rows) absent = ground (arith, absent_filtered later scope rows)

pub resolve_other :
    (r : IdempotencyRequest) (other : String)
    → r.request_hash ≢ other
    → resolve_existing r other
      ≡ err (conflict "Idempotency-Key was already used with a different request payload")
unfolding resolve_existing
resolve_other r other differ = ground (arith, eq_iff r.request_hash other)

pub resolve_completed :
    (r : IdempotencyRequest) (hash : String) (status : ℕ) (body : Option String)
    → r.request_hash ≡ hash
    → r.completed ≡ true
    → r.status_code ≡ some status
    → r.response_body ≡ body
    → 100 ≤ status
    → resolve_existing r hash ≡ ok (replay status body)
unfolding resolve_existing normalize_status_code
resolve_completed r hash status body e done coded bodied valid = ground (arith, eq_refl hash)

pub begin-existing :
    (now ttl : ℕ) (scope : IdempotencyScope) (hash : String) (s : Ledger) {r : IdempotencyRequest}
    → find_row scope (cleanup_expired now s).rows ≡ some r
    → begin now scope hash ttl s ≡ (resolve_existing r hash, cleanup_expired now s)
unfolding begin begin_found
begin-existing now ttl scope hash s found = rw (found, begin_found)

pub normal : (status : ℕ) → 100 ≤ status → normalize_status_code (some status) ≡ status
unfolding normalize_status_code
normal status valid = ground arith

pub absent_cleaned :
    (later : ℕ) (scope : IdempotencyScope) (s : Ledger)
    → find_row scope s.rows ≡ none
    → find_row scope (cleanup_expired later s).rows ≡ none
unfolding cleanup_expired
absent_cleaned later scope s absent = ground (arith, absent_filtered later scope s.rows absent)
