-- ===== src/Idempotency/Middleware/Requests.antt =====
-- Reading a request, idempotency/middleware.py: the headers, the buffered body, the scope of the
-- caller and the fingerprint. A `receive` is the stream of the messages that it gives, by number.
use python_backend_manager.Prelude.Base.{
  ℕ, zero, suc, ◌+◌, Bool, true, false, not, Option, none, some, List, [], ◌∷◌, ◌++◌, ltb, length,
  if◌then◌else◌,
}
use python_backend_manager.Prelude.Bytes.{Bytes, CodePoints, codes, bytes_eq, decode_latin1}
use python_backend_manager.Idempotency.Middleware.Messages.{
  Message, request, disconnect, Scope, Receive, nth_or,
}

abbrev pub header_name : Bytes
header_name = codes "idempotency-key"

-- `_header`: the first header of the name.
unfoldable pub header : Bytes → List (Bytes × Bytes) → Option CodePoints
header name [] = none
header name ((raw_name, raw_value) ∷ headers) =
    if bytes_eq raw_name name then some (decode_latin1 raw_value) else header name headers

-- `_buffer_body` from the message with the given number on; `none` means that the fuel ran out.
unfoldable pub buffer_from :
    ℕ → Receive → ℕ → ℕ → Bytes → List Message → Option (Bytes × List Message × Bool)
buffer_from zero receive max_bytes n body messages = none
buffer_from (suc fuel) receive max_bytes n body messages = elim (receive n) [
  | request chunk more_body ↦
      let rest =
        buffer_from fuel receive max_bytes (n + 1) (body ++ chunk)
          (messages ++ request chunk more_body ∷ []) in
      if ltb max_bytes (length (body ++ chunk))
      then some (body ++ chunk, messages ++ request chunk more_body ∷ [], true)
      else if not more_body
      then some (body ++ chunk, messages ++ request chunk more_body ∷ [], false)
      else rest
  | disconnect ↦ some (body, messages ++ disconnect ∷ [], false)
]

unfoldable pub buffer_body : ℕ → Receive → ℕ → Option (Bytes × List Message × Bool)
unfolding buffer_from
buffer_body fuel receive max_bytes = buffer_from fuel receive max_bytes 0 [] []

-- `_replayer`: the buffered messages, then empty bodies.
unfoldable pub replayer : List Message → Receive
replayer messages n = nth_or messages n (request [] false)

-- `_chain_replayer`: the buffered messages, then what the server gives next. The buffering has taken
-- as many messages from the server as it holds.
unfoldable pub chain_replayer : List Message → Receive → Receive
chain_replayer messages receive n =
    if ltb n (length messages) then nth_or messages n (request [] false) else receive n

-- `x or y` of two optional texts: `None` and the empty text are false.
first_of_texts : Option CodePoints → Option CodePoints → Option CodePoints
first_of_texts none y = y
first_of_texts (some []) y = y
first_of_texts (some (c ∷ cs)) y = some (c ∷ cs)

client_credential : Option CodePoints → CodePoints
client_credential none = codes "anonymous"
client_credential (some host) = codes "ip:" ++ host

-- The hex SHA-256 of a byte string and UTF-8 encoding are arguments.
module _ (sha256_hex : Bytes → CodePoints) (utf8 : CodePoints → Bytes) where
  unfoldable pub caller_scope : Scope → CodePoints
  unfolding header first_of_texts client_credential
  caller_scope scope = sha256_hex (
      utf8
        (elim (first_of_texts (header (codes "authorization") scope.headers)
          (header (codes "x-api-key") scope.headers)) [
            | some credential ↦ credential
            | none ↦ client_credential scope.client
          ]))

  unfoldable pub fingerprint : Scope → Bytes → CodePoints
  fingerprint scope body =
      sha256_hex (scope.method ++ codes " " ++ utf8 scope.path ++ codes "\n" ++ body)
