-- ===== src/Idempotency.antt =====
-- apps/api/src/common/idempotency.service.ts and idempotency.interceptor.ts: requests with an
-- Idempotency-Key, their reservations and the replay of their responses. Hashes of bodies and the
-- digests in the scope of an anonymous caller are texts here; JSON bodies are their text. The case
-- mapping and the trimming of texts are parameters. The length of a key is counted in characters.
pub mod Laws
pub mod Replays
pub mod Failures
pub mod Races
mod Tests
use Prim.Native.String.{count}
use cursor_multi_agent.Prelude.{
  ℕ, String, Bool, true, false, not, ◌&&◌, ◌||◌, Option, none, some, List, [], ◌∷◌, ◌-◌, ◌+◌, ◌==◌,
  ltb, if◌then◌else◌, filter, find, includes, Result, ok, err, bad_request, conflict, plain_error,
  eqb, ◌>>=◌,
}
use cursor_multi_agent.Store.Tables.{find_by, update_by}

pub record IdempotencyScope : Type 0 where
  pub key : String
  pub method : String
  pub route : String
  pub actor_id : String

-- A row of `IdempotencyRequest`; `completed` is the state COMPLETED, else IN_PROGRESS.
pub record IdempotencyRequest : Type 0 where
  pub id : ℕ
  pub scope : IdempotencyScope
  pub request_hash : String
  pub completed : Bool
  pub status_code : Option ℕ
  pub response_body : Option String
  pub expires_at : ℕ

-- The table, the next key that it gives, and `lastCleanupAtMs`.
pub record Ledger : Type 0 where
  pub rows : List IdempotencyRequest
  pub next_id : ℕ
  pub last_cleanup_at : ℕ

abbrev pub same_scope : IdempotencyScope → IdempotencyScope → Bool
same_scope a b =
    a.key == b.key && a.method == b.method && a.route == b.route && a.actor_id == b.actor_id

abbrev pub cleanup_interval_ms : ℕ
cleanup_interval_ms = 60_000

unfoldable pub cleanup_expired : ℕ → Ledger → Ledger
cleanup_expired now s =
    if ltb (now - s.last_cleanup_at) cleanup_interval_ms
    then s
    else record s { last_cleanup_at = now; rows = filter (λ r. not (ltb r.expires_at now)) s.rows }

unfoldable pub find_row : IdempotencyScope → List IdempotencyRequest → Option IdempotencyRequest
find_row scope [] = none
find_row scope (r ∷ rows) = if same_scope r.scope scope then some r else find_row scope rows

unfoldable pub new_row : ℕ → IdempotencyScope → String → ℕ → IdempotencyRequest
new_row id scope request_hash expires_at = record {
  id = id;
  scope = scope;
  request_hash = request_hash;
  completed = false;
  status_code = none;
  response_body = none;
  expires_at = expires_at;
}

-- The row's key and the table; none is the violation of the unique index on the scope.
unfoldable pub reserve : ℕ → IdempotencyScope → String → ℕ → Ledger → Option (ℕ × Ledger)
reserve now scope request_hash ttl_ms before =
    let s = cleanup_expired now before in
    elim (find_row scope s.rows) [
      | some _ ↦ none
      | none ↦ some (
        s.next_id,
        record s {
          rows = new_row s.next_id scope request_hash (now + ttl_ms) ∷ s.rows;
          next_id = s.next_id + 1;
        },
      )
    ]

abbrev pub complete_row : ℕ → Option String → IdempotencyRequest → IdempotencyRequest
complete_row status body r = record r {
  completed = true;
  status_code = some status;
  response_body = body;
}

unfoldable pub update_row :
    ℕ
    → (IdempotencyRequest → IdempotencyRequest)
    → List IdempotencyRequest
    → List IdempotencyRequest
update_row id change [] = []
update_row id change (r ∷ rows) =
    if eqb r.id id then change r ∷ rows else r ∷ update_row id change rows

unfoldable pub has_row : ℕ → List IdempotencyRequest → Bool
has_row id [] = false
has_row id (r ∷ rows) = if eqb r.id id then true else has_row id rows

-- The update throws if the row is gone, or if the database does not answer (`available`).
unfoldable pub mark_completed : Bool → ℕ → ℕ → Option String → Ledger → Option Ledger
mark_completed available id status body s =
    if available && has_row id s.rows
    then some (record s { rows = update_row id (complete_row status body) s.rows })
    else none

unfoldable pub delete_row : ℕ → List IdempotencyRequest → List IdempotencyRequest
delete_row id [] = []
delete_row id (r ∷ rows) = if eqb r.id id then rows else r ∷ delete_row id rows

-- What the database does with the writes after the handler: does it answer the completion, and the
-- deletion?
pub record Answers : Type 0 where
  pub completes : Bool
  pub releases : Bool

-- A deletion that fails is swallowed.
unfoldable pub release : Bool → ℕ → Ledger → Ledger
release available id s = if available then record s { rows = delete_row id s.rows } else s

pub data BeginResult : Type 0 where
  execute : ℕ → BeginResult
  replay : ℕ → Option String → BeginResult

unfoldable pub normalize_status_code : Option ℕ → ℕ
normalize_status_code none = 200
normalize_status_code (some status) = if ltb status 100 then 200 else status

unfoldable pub resolve_existing : IdempotencyRequest → String → Result BeginResult
resolve_existing existing request_hash =
    if not (existing.request_hash == request_hash)
    then err (conflict "Idempotency-Key was already used with a different request payload")
    else if not existing.completed
    then err (conflict "A request with this Idempotency-Key is still processing")
    else ok (replay (normalize_status_code existing.status_code) existing.response_body)

-- `begin` after its first `find`, whose result is the first argument.
unfoldable pub begin_found :
    Option IdempotencyRequest
    → ℕ
    → IdempotencyScope
    → String
    → ℕ
    → Ledger
    → Result BeginResult × Ledger
begin_found (some existing) now scope request_hash ttl_ms s =
    (resolve_existing existing request_hash, s)
begin_found none now scope request_hash ttl_ms s = elim (reserve now scope request_hash ttl_ms s) [
  | some (id, after) ↦ (ok (execute id), after)
  | none ↦
      let after = cleanup_expired now s in
      elim (find_row scope after.rows) [
        | none ↦ (err (plain_error "Unique constraint failed"), after)
        | some raced ↦ (resolve_existing raced request_hash, after)
      ]
]

unfoldable pub begin : ℕ → IdempotencyScope → String → ℕ → Ledger → Result BeginResult × Ledger
begin now scope request_hash ttl_ms before =
    let s = cleanup_expired now before in
    begin_found (find_row scope s.rows) now scope request_hash ttl_ms s

-- The fields of a request that the interceptor reads: the header (the first of several), the method,
-- the route key, the scope of the actor and the hash of the body.
pub record Request : Type 0 where
  pub idempotency_key : Option String
  pub method : String
  pub route : String
  pub actor_id : String
  pub request_hash : String

abbrev pub idempotent_methods : List String
idempotent_methods = "POST" ∷ "PUT" ∷ "PATCH" ∷ "DELETE" ∷ []

module _ (to_upper_case trim : String → String) where
  unfoldable pub read_idempotency_key : Option String → Result (Option String)
  read_idempotency_key none = ok none
  read_idempotency_key (some value) =
      if trim value == ""
      then err (bad_request "Idempotency-Key header cannot be empty")
      else ok (some (trim value))

  -- The scope of a request, if it is subject to idempotency.
  unfoldable pub request_scope : Request → Result (Option IdempotencyScope)
  request_scope request =
      if not (includes idempotent_methods (to_upper_case request.method))
      then ok none
      else read_idempotency_key request.idempotency_key >>= λ header. elim header [
        | none ↦ ok none
        | some key ↦
            if ltb 128 (count key)
            then err (bad_request "Idempotency-Key must be 128 characters or fewer")
            else ok (
                some (record {
                  key = key;
                  method = to_upper_case request.method;
                  route = request.route;
                  actor_id = request.actor_id;
                }))
      ]

-- A response: the status code and the body.
abbrev pub Response : Type 0
Response = ℕ × Option String

module _ {W : Type 0} where
  -- After the handler: completion, or the release of the reservation, on every error of the pipe.
  unfoldable pub finish : Answers → ℕ → Result Response × W → Ledger → Result Response × Ledger × W
  finish answers id (err e, w) s = (err e, release answers.releases id s, w)
  finish answers id (ok (status, body), w) s =
      elim (mark_completed answers.completes id (normalize_status_code (some status)) body s) [
        | some after ↦ (ok (status, body), after, w)
        | none ↦ (err (plain_error "Record to update not found"), release answers.releases id s, w)
      ]

  unfoldable pub proceed :
      Answers
      → (W → Result Response × W)
      → Result BeginResult
      → Ledger
      → W
      → Result Response × Ledger × W
  proceed answers handler (err e) s w = (err e, s, w)
  proceed answers handler (ok (replay status body)) s w = (ok (status, body), s, w)
  proceed answers handler (ok (execute id)) s w = finish answers id (handler w) s

  -- The interceptor on a request of a scope: `handler` is the rest of the pipeline, with its effect on
  -- the rest of the world.
  unfoldable pub intercept :
      Answers
      → ℕ
      → ℕ
      → IdempotencyScope
      → String
      → (W → Result Response × W)
      → Ledger
      → W
      → Result Response × Ledger × W
  intercept answers now ttl_ms scope request_hash handler s w =
      let begun = begin now scope request_hash ttl_ms s in proceed answers handler begun.0 begun.1 w

-- The whole interceptor on an HTTP request.
unfoldable pub intercept_request :
    {W : Type 0}
    → (String → String)
    → (String → String)
    → Answers
    → ℕ
    → ℕ
    → Request
    → (W → Result Response × W)
    → Ledger
    → W
    → Result Response × Ledger × W
intercept_request to_upper_case trim answers now ttl_ms request handler s w =
    elim (request_scope to_upper_case trim request) [
      | err e ↦ (err e, s, w)
      | ok none ↦ ((handler w).0, s, (handler w).1)
      | ok (some scope) ↦ intercept answers now ttl_ms scope request.request_hash handler s w
    ]
