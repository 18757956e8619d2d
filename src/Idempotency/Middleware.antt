-- ===== src/Idempotency/Middleware.antt =====
-- The idempotency middleware, idempotency/middleware.py. A `receive` is the stream of the messages
-- that it gives, by number; the application is an argument, and what other requests do to the table
-- while it runs is one too.
pub mod Messages
pub mod Requests
pub mod Retry
pub mod Buffering
use Prim.Native.Nat.{compare, Ordering}
use python_backend_manager.Prelude.Base.{
  ℕ, zero, suc, ◌+◌, ◌-◌, Bool, true, false, not, ◌&&◌, ◌||◌, Option, none, some, List, [], ◌∷◌,
  ◌++◌, map, ◌==◌, ltb, leb, length, any, if◌then◌else◌,
}
use python_backend_manager.Prelude.Bytes.{Bytes, CodePoints, codes, bytes_eq, decode_latin1}
use python_backend_manager.Idempotency.Store.{
  Rows, CachedResponse, ClaimResult, Outcome, owned, replay, busy, mismatch, claim, complete,
  release,
}
use Requests.{header_name, header, buffer_body, replayer, chain_replayer, caller_scope, fingerprint}
use Messages.{
  Message, request, disconnect, Sent, start, part, Scope, Receive, Run, App, Settings, nth_or,
}

-- `_ResponseCapture`: what it has recorded of the answer.
pub record Capture : Type 0 where
  pub status : ℕ
  pub headers : List (Bytes × Bytes)
  pub body : Bytes
  pub too_big : Bool

abbrev pub empty_capture : Capture
empty_capture = record { status = 500; headers = []; body = []; too_big = false }

-- `_ResponseCapture.send`, which passes every message on.
unfoldable pub record_sent : ℕ → Sent → Capture → Capture
record_sent max_bytes (start status headers) c = record c { status = status; headers = headers }
record_sent max_bytes (part chunk) c =
    if not c.too_big
    then record c { body = c.body ++ chunk; too_big = ltb max_bytes (length (c.body ++ chunk)) }
    else c

unfoldable pub capture : ℕ → List Sent → Capture → Capture
unfolding record_sent
capture max_bytes [] c = c
capture max_bytes (message ∷ messages) c =
    capture max_bytes messages (record_sent max_bytes message c)

-- What a request leads to: the messages sent to the client, how often the application ran, whether
-- an exception goes on to the server, and the table.
pub record Handled : Type 0 where
  pub sent : List Sent
  pub runs : ℕ
  pub raised : Bool
  pub rows : Rows

-- `_send_response`
abbrev pub send_response : CachedResponse → List Sent
send_response cached =
    start cached.status (cached.headers ++ (codes "idempotent-replayed", codes "true") ∷ [])
    ∷ part cached.body
    ∷ []

-- `_send_json`
abbrev send_json : ℕ → Bytes → List Sent
send_json status body =
    start status ((codes "content-type", codes "application/json") ∷ []) ∷ part body ∷ []

abbrev pub conflict : List Sent
conflict =
    send_json 409
      (codes "{\"detail\": \"A request with this Idempotency-Key is already in progress\"}")

abbrev pub unprocessable : List Sent
unprocessable =
    send_json 422 (codes "{\"detail\": \"Idempotency-Key was reused with a different request\"}")

-- The application runs on its own, and the table is not touched.
unfoldable pub pass_through : App → Scope → Receive → Rows → Handled
pass_through app scope receive rows =
    let run = app scope receive in
    record { sent = run.sent; runs = 1; raised = run.raised; rows = rows }

-- The end of a run under a claim, by what was captured.
unfoldable pub settle : CodePoints → CodePoints → Run → Capture → Rows → Rows
settle key scope run captured rows =
    if run.raised || (captured.too_big || leb 500 captured.status)
    then release key scope rows
    else complete key scope captured.status captured.headers captured.body rows

unfoldable pub run_owned :
    Settings → App → Scope → CodePoints → CodePoints → List Message → (Rows → Rows) → Rows → Handled
run_owned settings app scope key caller messages during rows =
    let run = app scope (replayer messages) in
    let captured = capture settings.max_body_bytes run.sent empty_capture in
    record {
      sent = run.sent;
      runs = 1;
      raised = run.raised;
      rows = settle key caller run captured (during rows);
    }

-- What is done with the claim. A `replay` with nothing cached would run the handler, as in the
-- source; the store never gives one.
unfoldable pub answer_claim :
    Settings
    → App
    → Scope
    → CodePoints
    → CodePoints
    → List Message
    → (Rows → Rows)
    → Rows
    → Outcome
    → Option CachedResponse
    → Handled
answer_claim settings app scope key caller messages during rows replay (some cached) = record {
  sent = send_response cached;
  runs = 0;
  raised = false;
  rows = rows;
}
answer_claim settings app scope key caller messages during rows replay none =
    run_owned settings app scope key caller messages during rows
answer_claim settings app scope key caller messages during rows busy cached = record {
  sent = conflict;
  runs = 0;
  raised = false;
  rows = rows;
}
answer_claim settings app scope key caller messages during rows mismatch cached = record {
  sent = unprocessable;
  runs = 0;
  raised = false;
  rows = rows;
}
answer_claim settings app scope key caller messages during rows owned cached =
    run_owned settings app scope key caller messages during rows

abbrev mutating : List Bytes
mutating = codes "POST" ∷ codes "PUT" ∷ codes "PATCH" ∷ codes "DELETE" ∷ []

is_mutating : Bytes → Bool
unfolding bytes_eq
is_mutating method = any (bytes_eq method) mutating

module _ (sha256_hex : Bytes → CodePoints) (utf8 : CodePoints → Bytes) (settings : Settings)
    (app : App) where
  -- The request under its key, once its body is buffered.
  unfoldable pub handle_buffered :
      Scope
      → Receive
      → CodePoints
      → ℕ
      → (Rows → Rows)
      → (Rows → Rows)
      → Bytes × List Message × Bool
      → Rows
      → Handled
  handle_buffered scope receive key now between during (body, messages, over) rows =
      let caller = caller_scope sha256_hex utf8 scope in
      let (result, rows') =
        claim key caller (fingerprint sha256_hex utf8 scope body) settings.ttl_seconds now between
          rows in
      if over
      then pass_through app scope (chain_replayer messages receive) rows
      else answer_claim settings app scope key caller messages during rows' result.outcome
          result.cached

  -- `__call__`: `none` means that the fuel of the buffering ran out. `now` is the time of the claim,
  -- `between` and `during` what other requests do to the table between the two transactions of the
  -- claim and while the application runs.
  unfoldable pub call :
      ℕ → Scope → Receive → ℕ → (Rows → Rows) → (Rows → Rows) → Rows → Option Handled
  unfolding is_mutating
  call fuel scope receive now between during rows =
      if not scope.is_http || not (is_mutating scope.method)
      then some (pass_through app scope receive rows)
      else elim (header header_name scope.headers) [
        | none ↦ some (pass_through app scope receive rows)
        | some key ↦ elim (buffer_body fuel receive settings.max_body_bytes) [
          | none ↦ none
          | some buffered ↦
              some (handle_buffered scope receive key now between during buffered rows)
        ]
      ]
