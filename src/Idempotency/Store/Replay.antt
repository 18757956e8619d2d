-- ===== src/Idempotency/Store/Replay.antt =====
-- What a repeated request is told: the cached response, a mismatch, or a fresh start.
use python_backend_manager.Prelude.Base.{
  ℕ, ◌+◌, ◌≤◌, ◌<◌, ◌≡◌, refl, ◌∙◌, ap, ◌≢◌, false, some, List, [], ◌∷◌, map, length, keep,
  update_where, any, arith, any-found, All,
}
use python_backend_manager.Prelude.Bytes.{
  Bytes, CodePoints, bytes_eq_iff, bytes_eq_refl, encode_latin1, decode_latin1,
}
use python_backend_manager.Idempotency.Store.{
  IdempotencyKey, Rows, CachedResponse, ClaimResult, owned, replay, mismatch, just, matches,
  find_row, reclaimed, finished, claim_insert, cached_response, live_result, claim_inspect, seconds,
  claim, is_kept, stored_headers, complete, release, purge_expired,
}

-- No other request touches the table between the two transactions of a claim.
abbrev pub undisturbed : Rows → Rows
undisturbed rows = rows

-- The response that a replay gives of an answer: its status, its body, and its headers but those
-- that are never cached.
abbrev pub replayed : ℕ → List (Bytes × Bytes) → Bytes → CachedResponse
replayed status headers body = record {
  status = status;
  headers = keep is_kept headers;
  body = body;
}

-- Latin-1 round trip of a list of headers.
map-latin1 :
    (headers : List (Bytes × Bytes))
    → map
        (λ (p : CodePoints × CodePoints). (encode_latin1 p.0, encode_latin1 p.1))
        (map (λ (p : Bytes × Bytes). (decode_latin1 p.0, decode_latin1 p.1)) headers)
      ≡ headers
map-latin1 [] = refl
map-latin1 (h ∷ hs) = ap (λ t. h ∷ t) (map-latin1 hs)

cached_response-finished :
    (status : ℕ) (headers : List (Bytes × Bytes)) (body : Bytes) (row : IdempotencyKey)
    → cached_response (finished status headers body row) ≡ replayed status headers body
unfolding cached_response stored_headers
cached_response-finished status headers body row =
    ap (λ hs. record { status = status; headers = hs; body = body })
      (map-latin1 (keep is_kept headers))

find_row-update :
    (scope key : CodePoints) (f : IdempotencyKey → IdempotencyKey) (rows : Rows)
    {row : IdempotencyKey}
    → find_row scope key rows ≡ some row
    → ((r : IdempotencyKey) → (f r).scope ≡ r.scope)
    → ((r : IdempotencyKey) → (f r).key ≡ r.key)
    → find_row scope key (update_where (matches scope key) f rows) ≡ some (f row)
unfolding find_row
find_row-update scope key f [] e fs fk = cc
find_row-update scope key f (r ∷ rows) {row} e fs fk =
    ground (arith, fs r, fk r, find_row-update scope key f rows {row = row})

-- A claim of a key whose row has not expired changes nothing and gets the answer of the row.
pub claim-live :
    (key scope hash : CodePoints) (ttl now : ℕ) (rows : Rows) {row : IdempotencyKey}
    → find_row scope key rows ≡ some row
    → now < row.expires_at
    → claim key scope hash ttl now undisturbed rows ≡ (live_result hash row, rows)
unfolding claim claim_insert claim_inspect find_row
claim-live key scope hash ttl now rows {row} found live =
    ground (arith, any-found (matches scope key) rows {x = row} found)

live_result-finished :
    (hash : CodePoints) (status : ℕ) (headers : List (Bytes × Bytes)) (body : Bytes)
    (row : IdempotencyKey)
    → row.request_hash ≡ hash
    → live_result hash (finished status headers body row)
      ≡ record { outcome = replay; cached = some (replayed status headers body) }
unfolding live_result
live_result-finished hash status headers body row same =
    ground
      (arith, bytes_eq_iff row.request_hash hash, cached_response-finished status headers body row)

live_result-mismatch :
    (hash : CodePoints) (row : IdempotencyKey)
    → row.request_hash ≢ hash
    → live_result hash row ≡ just mismatch
unfolding live_result
live_result-mismatch hash row differs = ground (arith, bytes_eq_iff row.request_hash hash)

find_row-complete :
    (key scope : CodePoints) (status : ℕ) (headers : List (Bytes × Bytes)) (body : Bytes)
    (rows : Rows) {row : IdempotencyKey}
    → find_row scope key rows ≡ some row
    → find_row scope key (complete key scope status headers body rows)
      ≡ some (finished status headers body row)
unfolding complete
find_row-complete key scope status headers body rows found =
    find_row-update scope key (finished status headers body) rows found (λ r. refl) (λ r. refl)

-- A completed answer is replayed: after `complete`, a claim of the same request before the key
-- expires gets the recorded status and body and the recorded headers but the excluded ones, and the
-- table stays as it is.
pub claim-complete :
    (key scope hash : CodePoints) (ttl now : ℕ) (status : ℕ) (headers : List (Bytes × Bytes))
    (body : Bytes) (rows : Rows) {row : IdempotencyKey}
    → find_row scope key rows ≡ some row
    → row.request_hash ≡ hash
    → now < row.expires_at
    → let rows' = complete key scope status headers body rows in
      claim key scope hash ttl now undisturbed rows'
      ≡ (record { outcome = replay; cached = some (replayed status headers body) }, rows')
claim-complete key scope hash ttl now status headers body rows {row} found same live =
    let rows' : Rows = complete key scope status headers body rows in
    claim-live key scope hash ttl now rows'
      (find_row-complete key scope status headers body rows found) live
    ∙ ap (λ r. (r, rows')) (live_result-finished hash status headers body row same)

-- A key that was used for another request is refused while it lives, completed or not, and the
-- table stays as it is.
pub claim-mismatch :
    (key scope hash : CodePoints) (ttl now : ℕ) (rows : Rows) {row : IdempotencyKey}
    → find_row scope key rows ≡ some row
    → row.request_hash ≢ hash
    → now < row.expires_at
    → claim key scope hash ttl now undisturbed rows ≡ (just mismatch, rows)
claim-mismatch key scope hash ttl now rows {row} found differs live =
    claim-live key scope hash ttl now rows found live
    ∙ ap (λ r. (r, rows)) (live_result-mismatch hash row differs)

keep_unmatched :
    (scope key : CodePoints) (rows : Rows)
    → any (matches scope key) rows ≡ false
    → release key scope rows ≡ rows
unfolding release
keep_unmatched scope key [] h = refl
keep_unmatched scope key (r ∷ rows) h = ground (arith, keep_unmatched scope key rows)

-- A new claim that is released leaves no trace: the table is what it was before the claim.
pub release-claim :
    (key scope hash : CodePoints) (ttl now : ℕ) (between : Rows → Rows) (rows : Rows)
    → any (matches scope key) rows ≡ false
    → let (r, rows') = claim key scope hash ttl now between rows in
      (r ≡ just owned) × (release key scope rows' ≡ rows)
unfolding claim claim_insert release
release-claim key scope hash ttl now between rows new =
    ground (arith, keep_unmatched scope key rows new, bytes_eq_refl scope, bytes_eq_refl key)

-- After a purge no row that is left has expired, and the count is the number of rows that went.
pub purge_expired_lem :
    (now : ℕ) (rows : Rows)
    → let (count, rows') = purge_expired now rows in
      (count + length rows' ≡ length rows) × All (λ r. now < r.expires_at) rows'
unfolding purge_expired
purge_expired_lem now [] = ground arith
purge_expired_lem now (r ∷ rows) = ground (arith, purge_expired_lem now rows)

-- An expired row is handed to the next request.
pub claim-expired :
    (key scope hash : CodePoints) (ttl now : ℕ) (rows : Rows) {row : IdempotencyKey}
    → find_row scope key rows ≡ some row
    → row.expires_at ≤ now
    → claim key scope hash ttl now undisturbed rows
      ≡ (just owned, update_where (matches scope key) (reclaimed hash (now + seconds ttl)) rows)
unfolding claim claim_insert claim_inspect find_row
claim-expired key scope hash ttl now rows {row} found late =
    ground (arith, any-found (matches scope key) rows {x = row} found)

-- A late `complete` of an owner whose claim had expired overwrites the claim of its successor: a
-- retry of the successor's request, with the successor's hash, is answered with the response of the
-- first owner's request.
pub complete-after_reclaim :
    (key scope hash : CodePoints) (ttl now later : ℕ) (status : ℕ) (headers : List (Bytes × Bytes))
    (body : Bytes) (rows : Rows) {row : IdempotencyKey}
    → find_row scope key rows ≡ some row
    → row.expires_at ≤ now
    → later < now + seconds ttl
    → let (granted, taken) = claim key scope hash ttl now undisturbed rows in
      let rows' = complete key scope status headers body taken in
      (granted ≡ just owned)
      × ((claim key scope hash ttl later undisturbed rows').0
          ≡ record { outcome = replay; cached = some (replayed status headers body) })
complete-after_reclaim key scope hash ttl now later status headers body rows {row} found late
      early =
    let claimed = claim-expired key scope hash ttl now rows found late in
    rw claimed (
      refl,
      ap (λ (p : ClaimResult × Rows). p.0)
          (claim-complete key scope hash ttl later status headers body
            (update_where (matches scope key) (reclaimed hash (now + seconds ttl)) rows)
            (find_row-update scope key (reclaimed hash (now + seconds ttl)) rows found (λ r. refl)
              (λ r. refl))
            refl early),
    )
