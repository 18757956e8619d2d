-- ===== src/Idempotency/Store.antt =====
-- The idempotency store, idempotency/store.py and the row of idempotency/models.py. Each
-- transaction is one step on the table; the UNIQUE (scope, key) is the lock. Times are numbers of
-- microseconds.
pub mod Exclusive
pub mod Replay
use python_backend_manager.Prelude.Base.{
  ℕ, ◌+◌, ◌*◌, Bool, true, false, not, ◌&&◌, Option, none, some, List, [], ◌∷◌, map, ◌==◌, leb,
  length, keep, find_first, update_where, any, if◌then◌else◌,
}
use python_backend_manager.Prelude.Bytes.{
  Bytes, CodePoints, codes, bytes_eq, lower, decode_latin1, encode_latin1,
}

-- `_IN_PROGRESS` and `_COMPLETED`
pub data KeyStatus : Type 0 where
  in_progress completed : KeyStatus

pub record IdempotencyKey : Type 0 where
  pub scope : CodePoints
  pub key : CodePoints
  pub request_hash : CodePoints
  pub status : KeyStatus
  pub response_status : Option ℕ
  pub response_headers : Option (List (CodePoints × CodePoints))
  pub response_body : Option Bytes
  pub expires_at : ℕ

abbrev pub Rows : Type 0
Rows = List IdempotencyKey

pub record CachedResponse : Type 0 where
  pub status : ℕ
  pub headers : List (Bytes × Bytes)
  pub body : Bytes

pub data Outcome : Type 0 where
  owned replay busy mismatch : Outcome

pub record ClaimResult : Type 0 where
  pub outcome : Outcome
  pub cached : Option CachedResponse

abbrev pub just : Outcome → ClaimResult
just outcome = record { outcome = outcome; cached = none }

abbrev excluded_headers : List Bytes
excluded_headers =
    codes "set-cookie"
    ∷ codes "connection"
    ∷ codes "keep-alive"
    ∷ codes "transfer-encoding"
    ∷ codes "upgrade"
    ∷ codes "te"
    ∷ codes "trailers"
    ∷ codes "proxy-authenticate"
    ∷ codes "proxy-authorization"
    ∷ []

unfoldable pub is_excluded : Bytes → Bool
unfolding bytes_eq
is_excluded name = any (bytes_eq name) excluded_headers

abbrev pub matches : CodePoints → CodePoints → IdempotencyKey → Bool
matches scope key row = bytes_eq row.scope scope && bytes_eq row.key key

unfoldable pub find_row : CodePoints → CodePoints → Rows → Option IdempotencyKey
find_row scope key rows = find_first (matches scope key) rows

abbrev pub fresh_row : CodePoints → CodePoints → CodePoints → ℕ → IdempotencyKey
fresh_row scope key hash expires_at = record {
  scope = scope;
  key = key;
  request_hash = hash;
  status = in_progress;
  response_status = none;
  response_headers = none;
  response_body = none;
  expires_at = expires_at;
}

-- The INSERT of `claim`; `none` is the `IntegrityError`.
unfoldable pub claim_insert : CodePoints → CodePoints → CodePoints → ℕ → Rows → Option Rows
claim_insert key scope hash expires_at rows =
    if any (matches scope key) rows then none else some (fresh_row scope key hash expires_at ∷ rows)

-- `or []`, `or b""` and the default status of a replay.
or_default : {A : Type 0} → Option A → A → A
or_default none d = d
or_default (some a) d = a

abbrev encode_pair : CodePoints × CodePoints → Bytes × Bytes
encode_pair (name, value) = (encode_latin1 name, encode_latin1 value)

unfoldable pub cached_response : IdempotencyKey → CachedResponse
unfolding or_default
cached_response row = record {
  status = or_default row.response_status 200;
  headers = map encode_pair (or_default row.response_headers []);
  body = or_default row.response_body [];
}

abbrev pub reclaimed : CodePoints → ℕ → IdempotencyKey → IdempotencyKey
reclaimed hash expires_at row = record row {
  request_hash = hash;
  status = in_progress;
  response_status = none;
  response_headers = none;
  response_body = none;
  expires_at = expires_at;
}

-- The answer to the same request again, by how far the first one is.
answer : IdempotencyKey → KeyStatus → ClaimResult
answer row completed = record { outcome = replay; cached = some (cached_response row) }
answer row in_progress = just busy

-- A row that has not expired, seen by a request with the hash.
unfoldable pub live_result : CodePoints → IdempotencyKey → ClaimResult
unfolding answer
live_result hash row =
    if not (bytes_eq row.request_hash hash) then just mismatch else answer row row.status

-- The second transaction of `claim`, on the row that made the INSERT fail.
unfoldable pub claim_inspect :
    CodePoints → CodePoints → CodePoints → ℕ → ℕ → Rows → ClaimResult × Rows
claim_inspect key scope hash expires_at now rows = elim (find_row scope key rows) [
  | none ↦ (just busy, rows)
  | some row ↦
      if leb row.expires_at now
      then (just owned, update_where (matches scope key) (reclaimed hash expires_at) rows)
      else (live_result hash row, rows)
]

-- `timedelta(seconds=n)`
abbrev pub seconds : ℕ → ℕ
seconds n = n * 1000000

-- `claim`, with what other requests do to the table between its two transactions.
unfoldable pub claim :
    CodePoints → CodePoints → CodePoints → ℕ → ℕ → (Rows → Rows) → Rows → ClaimResult × Rows
claim key scope hash ttl_seconds now between rows =
    elim (claim_insert key scope hash (now + seconds ttl_seconds) rows) [
      | some rows' ↦ (just owned, rows')
      | none ↦ claim_inspect key scope hash (now + seconds ttl_seconds) now (between rows)
    ]

abbrev decode_pair : Bytes × Bytes → CodePoints × CodePoints
decode_pair (name, value) = (decode_latin1 name, decode_latin1 value)

abbrev pub is_kept : Bytes × Bytes → Bool
is_kept (name, value) = not (is_excluded (lower name))

unfoldable pub stored_headers : List (Bytes × Bytes) → List (CodePoints × CodePoints)
stored_headers headers = map decode_pair (keep is_kept headers)

abbrev pub finished : ℕ → List (Bytes × Bytes) → Bytes → IdempotencyKey → IdempotencyKey
finished status headers body row = record row {
  status = completed;
  response_status = some status;
  response_headers = some (stored_headers headers);
  response_body = some body;
}

unfoldable pub complete : CodePoints → CodePoints → ℕ → List (Bytes × Bytes) → Bytes → Rows → Rows
complete key scope status headers body rows =
    update_where (matches scope key) (finished status headers body) rows

is_in_progress : KeyStatus → Bool
is_in_progress in_progress = true
is_in_progress completed = false

-- The row that `release` deletes, if the key has one and it is still in progress.
unfoldable pub release : CodePoints → CodePoints → Rows → Rows
unfolding is_in_progress
release key scope rows = keep (λ row. not (matches scope key row && is_in_progress row.status)) rows

unfoldable pub purge_expired : ℕ → Rows → ℕ × Rows
purge_expired now rows = (
  length (keep (λ row. leb row.expires_at now) rows),
  keep (λ row. not (leb row.expires_at now)) rows,
)
