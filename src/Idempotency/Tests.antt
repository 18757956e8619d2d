-- ===== src/Idempotency/Tests.antt =====
-- The theorems on the idempotency store and middleware at concrete requests.
use python_backend_manager.Prelude.Base.{
  ◌≡◌, refl, ◌≢◌, true, false, none, List, [], ◌∷◌, All, arith,
}
use python_backend_manager.Prelude.Bytes.{Bytes, CodePoints, codes, bytes_eq}
use python_backend_manager.Idempotency.Store.{IdempotencyKey, Rows, fresh_row, find_row}
use python_backend_manager.Idempotency.Store.Exclusive.{
  Transaction, insert, inspect, releases, purges, perform_all, grants_of, Holds,
  perform_all-exclusive,
}
use python_backend_manager.Idempotency.Store.Replay.{undisturbed}
use python_backend_manager.Idempotency.Middleware.Messages.{
  Message, request, disconnect, start, part, Scope, Receive, App, Settings, nth_or,
}
use python_backend_manager.Idempotency.Middleware.Requests.{header_name, buffer_body}
use python_backend_manager.Idempotency.Middleware.{handle_buffered}
use python_backend_manager.Idempotency.Middleware.Retry.{claimed_row}
use python_backend_manager.Idempotency.Middleware.Buffering.{buffer_body-ne-none}

-- Functions in place of the hash and of the encoding.
abbrev plain_hash : Bytes → CodePoints
plain_hash bytes = bytes

abbrev ascii : CodePoints → Bytes
ascii points = points

abbrev settings : Settings
settings = record { ttl_seconds = 10; max_body_bytes = 4 }

-- An application that answers a 201, and one that answers a 500.
abbrev created : App
created scope receive = record { sent = start 201 [] ∷ part (codes "ok") ∷ []; raised = false }

abbrev broken : App
broken scope receive = record { sent = start 500 [] ∷ []; raised = false }

abbrev post : Scope
post = record {
  is_http = true;
  method = codes "POST";
  path = codes "/top-ups";
  headers = (codes "authorization", codes "t") ∷ (header_name, codes "k") ∷ [];
  client = none;
}

abbrev key : CodePoints
key = codes "k"

abbrev caller : CodePoints
caller = codes "t"

abbrev body : Bytes
body = codes "x"

abbrev messages : List Message
messages = request body false ∷ []

abbrev silent : Receive
silent n = disconnect

abbrev first_row : IdempotencyKey
first_row = claimed_row plain_hash ascii settings created post key body 5

abbrev answered : Rows
answered =
    (handle_buffered plain_hash ascii settings created post silent key 5 undisturbed undisturbed
      (body, messages, false) []).rows

abbrev claim_row : IdempotencyKey
claim_row = fresh_row caller key body 100

abbrev steps : List Transaction
steps =
    insert key caller body 150
    ∷ inspect key caller body 150 50
    ∷ releases (codes "other") caller
    ∷ purges 60
    ∷ []

perform_all-exclusive_example :
    All (λ g. g ≡ false) (grants_of caller key steps (claim_row ∷ []))
    × Holds caller key claim_row (perform_all steps (claim_row ∷ []))
unfolding find_row bytes_eq
perform_all-exclusive_example =
    perform_all-exclusive caller key claim_row steps (claim_row ∷ []) refl
      (tt, (omega arith, (refl, (omega arith, tt))))

-- A body of six bytes in two parts, over the cap of four.
abbrev parts : List Message
parts = request (codes "abc") true ∷ request (codes "def") false ∷ []

abbrev upload : Receive
upload n = nth_or parts n disconnect

buffer_body-ne-none_example : buffer_body 2 upload 4 ≢ none
buffer_body-ne-none_example = buffer_body-ne-none 2 upload 4 1 (omega arith) refl
