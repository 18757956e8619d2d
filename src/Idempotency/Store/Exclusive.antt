-- ===== src/Idempotency/Store/Exclusive.antt =====
-- One owner at a time: while a claim stands, no step of any other request is granted the key.
use python_backend_manager.Prelude.Base.{
  ℕ, ◌<◌, ◌≡◌, refl, Bool, true, false, ◌&&◌, Option, none, some, List, [], ◌∷◌, keep, update_where,
  arith, any-found, find_first-passes, All, ◌∙◌, Bool-cases, inl, inr,
}
use python_backend_manager.Prelude.Bytes.{Bytes, CodePoints, bytes_eq, bytes_eq_iff, bytes_eq_refl}
use python_backend_manager.Idempotency.Store.{
  IdempotencyKey, Rows, Outcome, owned, matches, find_row, reclaimed, finished, claim_insert,
  live_result, claim_inspect, complete, release, purge_expired,
}

-- One transaction on the table, of any request.
pub data Transaction : Type 0 where
  insert : CodePoints → CodePoints → CodePoints → ℕ → Transaction
  inspect : CodePoints → CodePoints → CodePoints → ℕ → ℕ → Transaction
  completes : CodePoints → CodePoints → ℕ → List (Bytes × Bytes) → Bytes → Transaction
  releases : CodePoints → CodePoints → Transaction
  purges : ℕ → Transaction

abbrev inserted : Option Rows → Rows → Rows
inserted none rows = rows
inserted (some rows') rows = rows'

unfoldable pub perform : Transaction → Rows → Rows
perform (insert key scope hash expires_at) rows =
    inserted (claim_insert key scope hash expires_at rows) rows
perform (inspect key scope hash expires_at now) rows =
    (claim_inspect key scope hash expires_at now rows).1
perform (completes key scope status headers body) rows = complete key scope status headers body rows
perform (releases key scope) rows = release key scope rows
perform (purges now) rows = (purge_expired now rows).1

abbrev is_some : {A : Type 0} → Option A → Bool
is_some none = false
is_some (some a) = true

abbrev is_owned : Outcome → Bool
is_owned owned = true
is_owned _ = false

-- Is the transaction one that grants the key of the scope to its request?
unfoldable pub grants : CodePoints → CodePoints → Transaction → Rows → Bool
grants scope key (insert k s hash expires_at) rows =
    (bytes_eq s scope && bytes_eq k key) && is_some (claim_insert k s hash expires_at rows)
grants scope key (inspect k s hash expires_at now) rows =
    (bytes_eq s scope && bytes_eq k key)
    && is_owned (claim_inspect k s hash expires_at now rows).0.outcome
grants scope key (completes k s status headers body) rows = false
grants scope key (releases k s) rows = false
grants scope key (purges now) rows = false

-- What another request may do while the claim stands: anything before the claim expires, but no
-- `complete` or `release` of the key, which only the owner calls.
abbrev pub IsForeign : CodePoints → CodePoints → ℕ → Transaction → Type 0
IsForeign scope key deadline (insert k s hash expires_at) = Unit
IsForeign scope key deadline (inspect k s hash expires_at now) = now < deadline
IsForeign scope key deadline (completes k s status headers body) =
    bytes_eq s scope && bytes_eq k key ≡ false
IsForeign scope key deadline (releases k s) = bytes_eq s scope && bytes_eq k key ≡ false
IsForeign scope key deadline (purges now) = now < deadline

-- The row of the key, as the owner left it, with its deadline.
abbrev pub Holds : CodePoints → CodePoints → IdempotencyKey → Rows → Type 0
Holds scope key row rows = find_row scope key rows ≡ some row

-- Which transactions of a list grant the key, one after another.
unfoldable pub grants_of : CodePoints → CodePoints → List Transaction → Rows → List Bool
grants_of scope key [] rows = []
grants_of scope key (step ∷ steps) rows =
    grants scope key step rows ∷ grants_of scope key steps (perform step rows)

unfoldable pub perform_all : List Transaction → Rows → Rows
perform_all [] rows = rows
perform_all (step ∷ steps) rows = perform_all steps (perform step rows)

-- Rows of other keys are left alone by an UPDATE of one key.
find_row-update_ne :
    (scope key s k : CodePoints) (f : IdempotencyKey → IdempotencyKey) (rows : Rows)
    → bytes_eq s scope && bytes_eq k key ≡ false
    → ((r : IdempotencyKey) → (f r).scope ≡ r.scope)
    → ((r : IdempotencyKey) → (f r).key ≡ r.key)
    → find_row scope key (update_where (matches s k) f rows) ≡ find_row scope key rows
unfolding find_row
find_row-update_ne scope key s k f [] ne fs fk = refl
find_row-update_ne scope key s k f (r ∷ rows) ne fs fk = ground (
  arith,
  find_row-update_ne scope key s k f rows ne fs fk,
  fs r,
  fk r,
  bytes_eq_iff r.scope s,
  bytes_eq_iff r.key k,
  bytes_eq_iff r.scope scope,
  bytes_eq_iff r.key key,
  bytes_eq_iff s scope,
  bytes_eq_iff k key,
)

-- A row that a DELETE spares is still found.
find_row-keep :
    (scope key : CodePoints) (p : IdempotencyKey → Bool) (rows : Rows) {row : IdempotencyKey}
    → find_row scope key rows ≡ some row
    → p row ≡ true
    → find_row scope key (keep p rows) ≡ some row
unfolding find_row
find_row-keep scope key p [] e h = cc
find_row-keep scope key p (r ∷ rows) {row} e h =
    ground (arith, find_row-keep scope key p rows {row = row})

same_key :
    (s scope k key : CodePoints)
    → bytes_eq s scope && bytes_eq k key ≡ true
    → (s ≡ scope) × (k ≡ key)
same_key s scope k key h = ground (arith, bytes_eq_iff s scope, bytes_eq_iff k key)

live_result-refuses :
    (hash : CodePoints) (row : IdempotencyKey) → is_owned (live_result hash row).outcome ≡ false
unfolding live_result
live_result-refuses hash row = ground arith

-- A search for the key gives a row of the key.
found_matches :
    (scope key : CodePoints) (rows : Rows) {row : IdempotencyKey}
    → find_row scope key rows ≡ some row
    → matches scope key row ≡ true
unfolding find_row
found_matches scope key rows e = find_first-passes (matches scope key) rows e

module _ (scope key : CodePoints) (row : IdempotencyKey) (rows : Rows)
    (held : Holds scope key row rows) where
  -- An INSERT of the key loses, and one of another key leaves the row in place.
  insert-Holds :
      (k s hash : CodePoints) (expires_at : ℕ)
      → (grants scope key (insert k s hash expires_at) rows ≡ false)
        × Holds scope key row (perform (insert k s hash expires_at) rows)
  unfolding grants perform claim_insert find_row
  insert-Holds k s hash expires_at = ground (
    arith,
    held,
    any-found (matches scope key) rows {x = row} held,
    bytes_eq_iff s scope,
    bytes_eq_iff k key,
    bytes_eq_refl scope,
    bytes_eq_refl key,
  )

  -- The request of the key finds a row that has not expired.
  inspect-Holds :
      (k s hash : CodePoints) (expires_at now : ℕ)
      → now < row.expires_at
      → (grants scope key (inspect k s hash expires_at now) rows ≡ false)
        × Holds scope key row (perform (inspect k s hash expires_at now) rows)
  unfolding grants perform claim_inspect
  inspect-Holds k s hash expires_at now early =
      elim (Bool-cases (bytes_eq s scope && bytes_eq k key)) [
        | inl same ↦
            let (es, ek) = same_key s scope k key same in
            let here : find_row s k rows ≡ some row = rw (es, ek) held in
            ground (arith, here, live_result-refuses hash row)
        | inr other ↦ ground (
          arith,
          find_row-update_ne scope key s k (reclaimed hash expires_at) rows other (λ r. refl)
              (λ r. refl),
        )
      ]

  step-Holds :
      (step : Transaction)
      → IsForeign scope key row.expires_at step
      → (grants scope key step rows ≡ false) × Holds scope key row (perform step rows)
  unfolding grants perform complete release purge_expired
  step-Holds (insert k s hash expires_at) foreign = insert-Holds k s hash expires_at
  step-Holds (inspect k s hash expires_at now) foreign =
      inspect-Holds k s hash expires_at now foreign
  step-Holds (completes k s status headers body) other = (
    refl,
    find_row-update_ne scope key s k (finished status headers body) rows other (λ r. refl)
          (λ r. refl)
        ∙ held,
  )
  step-Holds (releases k s) other = (
    refl,
    find_row-keep scope key _ rows held (
        ground (
          arith,
          found_matches scope key rows held,
          bytes_eq_iff row.scope scope,
          bytes_eq_iff row.key key,
          bytes_eq_iff row.scope s,
          bytes_eq_iff row.key k,
          bytes_eq_iff s scope,
          bytes_eq_iff k key,
        )),
  )
  step-Holds (purges now) early = (refl, find_row-keep scope key _ rows held (ground arith))

-- Mutual exclusion: from a claim on, whatever other requests do before it expires (claims of the
-- same or other keys, in any number and order, completions and releases of other keys, purges), no
-- transaction of theirs is granted the key, and the claim's row stays as it is.
pub perform_all-exclusive :
    (scope key : CodePoints) (row : IdempotencyKey) (steps : List Transaction) (rows : Rows)
    → Holds scope key row rows
    → All (IsForeign scope key row.expires_at) steps
    → All (λ g. g ≡ false) (grants_of scope key steps rows)
      × Holds scope key row (perform_all steps rows)
unfolding grants_of perform_all
perform_all-exclusive scope key row [] rows held foreign = (tt, held)
perform_all-exclusive scope key row (step ∷ steps) rows held foreign =
    let (refused, held') = step-Holds scope key row rows held step foreign.0 in
    let (all_refused, kept) =
      perform_all-exclusive scope key row steps (perform step rows) held' foreign.1 in
    ((refused, all_refused), kept)
