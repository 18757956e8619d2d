-- ===== src/Idempotency/Middleware/Retry.antt =====
-- What a repeated request sees, and that the handler runs once.
use python_backend_manager.Prelude.Base.{
  ℕ, ◌+◌, ◌<◌, ◌≡◌, false, some, List, ◌∷◌, any, arith, if◌then◌else◌,
}
use python_backend_manager.Prelude.Bytes.{Bytes, CodePoints, bytes_eq}
use python_backend_manager.Idempotency.Store.{
  Rows, IdempotencyKey, in_progress, matches, find_row, fresh_row, seconds, claim, claim_insert,
  live_result, complete,
}
use python_backend_manager.Idempotency.Store.Replay.{undisturbed, claim-live, release-claim}
use python_backend_manager.Idempotency.Middleware.Messages.{
  Message, Scope, Receive, Run, App, Settings,
}
use python_backend_manager.Idempotency.Middleware.Requests.{replayer, caller_scope, fingerprint}
use python_backend_manager.Idempotency.Middleware.{
  empty_capture, capture, conflict, unprocessable, settle, run_owned, answer_claim, handle_buffered,
}

-- The answer of a run is final: no exception, not over the cap, and a status below 500.
abbrev pub IsFinal : Settings → Run → Type 0
IsFinal settings run =
    let c = capture settings.max_body_bytes run.sent empty_capture in
    (run.raised ≡ false) × (c.too_big ≡ false) × (c.status < 500)

module _ (sha256_hex : Bytes → CodePoints) (utf8 : CodePoints → Bytes) (settings : Settings)
    (app : App) where
  -- The claim is the key's: the row that the first request leaves while the handler runs.
  abbrev pub claimed_row : Scope → CodePoints → Bytes → ℕ → IdempotencyKey
  claimed_row scope key body now =
      fresh_row (caller_scope sha256_hex utf8 scope) key (fingerprint sha256_hex utf8 scope body)
        (now + seconds settings.ttl_seconds)

  -- The first request under a new key runs the handler once, on the buffered messages, passes its
  -- answer on, and records a final answer.
  pub first_request :
      (scope : Scope) (receive : Receive) (key : CodePoints) (now : ℕ) (during : Rows → Rows)
      (body : Bytes) (messages : List Message) (rows : Rows)
      → any (matches (caller_scope sha256_hex utf8 scope) key) rows ≡ false
      → IsFinal settings (app scope (replayer messages))
      → let run = app scope (replayer messages) in
        let c = capture settings.max_body_bytes run.sent empty_capture in
        handle_buffered sha256_hex utf8 settings app scope receive key now undisturbed during
          (body, messages, false)
          rows
        ≡ record {
          sent = run.sent;
          runs = 1;
          raised = false;
          rows =
              complete key
                (caller_scope sha256_hex utf8 scope)
                c.status
                c.headers
                c.body
                (during (claimed_row scope key body now ∷ rows));
        }
  unfolding handle_buffered answer_claim run_owned settle claim claim_insert
  first_request scope receive key now during body messages rows new final = ground (arith, final)

  -- A run without a final answer leaves no trace: after an exception, an answer over the cap or a
  -- status of 500 or more the table is what it was, so that the next request under the key starts
  -- afresh. The handler ran once, and its answer or exception is passed on.
  pub failed_request :
      (scope : Scope) (receive : Receive) (key : CodePoints) (now : ℕ) (body : Bytes)
      (messages : List Message) (rows : Rows)
      → any (matches (caller_scope sha256_hex utf8 scope) key) rows ≡ false
      → ¬ (IsFinal settings (app scope (replayer messages)))
      → let run = app scope (replayer messages) in
        handle_buffered sha256_hex utf8 settings app scope receive key now undisturbed undisturbed
          (body, messages, false)
          rows
        ≡ record { sent = run.sent; runs = 1; raised = run.raised; rows = rows }
  unfolding handle_buffered answer_claim run_owned settle
  failed_request scope receive key now body messages rows new failed = ground (
    arith,
    failed,
    release-claim key (caller_scope sha256_hex utf8 scope) (fingerprint sha256_hex utf8 scope body)
        settings.ttl_seconds now undisturbed rows new,
  )

  -- A second request while the first one is still in progress is a 409, and one under the key of
  -- another request is a 422: the handler does not run, and the table stays as it is.
  pub live_key-refused :
      (scope : Scope) (receive : Receive) (key : CodePoints) (now : ℕ) (during : Rows → Rows)
      (body : Bytes) (messages : List Message) (rows : Rows) {row : IdempotencyKey}
      → find_row (caller_scope sha256_hex utf8 scope) key rows ≡ some row
      → now < row.expires_at
      → row.status ≡ in_progress
      → let same = bytes_eq row.request_hash (fingerprint sha256_hex utf8 scope body) in
        handle_buffered sha256_hex utf8 settings app scope receive key now undisturbed during
          (body, messages, false)
          rows
        ≡ record {
          sent = if same then conflict else unprocessable;
          runs = 0;
          raised = false;
          rows = rows;
        }
  unfolding handle_buffered answer_claim live_result
  live_key-refused scope receive key now during body messages rows {row} found live running =
      ground (
        arith,
        claim-live key (caller_scope sha256_hex utf8 scope) (fingerprint sha256_hex utf8 scope body)
            settings.ttl_seconds now rows found live,
      )
