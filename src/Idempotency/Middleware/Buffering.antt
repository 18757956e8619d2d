-- ===== src/Idempotency/Middleware/Buffering.antt =====
-- The buffered body: nothing of the request is lost, and the buffering ends.
use python_backend_manager.Prelude.Base.{
  ℕ, zero, suc, ◌+◌, ◌<◌, ◌≡◌, ◌≢◌, refl, ◌∙◌, sym, ap, Bool, true, false, not, Option, none, some,
  List, [], ◌∷◌, ◌++◌, ltb, ltb→lt, ◌⊎◌, length, length-append, arith, if◌then◌else◌, Bool-cases,
  inl, inr,
}
use native.Mathlib.Nat.{add-zero, zero-add}
use mathlib.Core.Path.{subst}
use mathlib.Core.Option.{some-injective}
use mathlib.Core.List.{append-nil, append_assoc}
use python_backend_manager.Prelude.Bytes.{Bytes}
use python_backend_manager.Idempotency.Middleware.Messages.{
  Message, request, disconnect, Receive, nth_or,
}
use python_backend_manager.Idempotency.Middleware.Requests.{
  buffer_from, buffer_body, chain_replayer,
}

abbrev pub empty : Message
empty = request [] false

-- The messages are the first ones of the stream.
abbrev pub IsPrefix : List Message → Receive → Type 0
IsPrefix messages receive = (k : ℕ) → k < length messages → nth_or messages k empty ≡ receive k

abbrev chunk_of : Message → Bytes
chunk_of (request chunk more_body) = chunk
chunk_of disconnect = []

-- The body that the messages carry.
abbrev pub body_of : List Message → Bytes
body_of [] = []
body_of (m ∷ ms) = chunk_of m ++ body_of ms

body_of-append :
    (ms : List Message) (m : Message) → body_of (ms ++ m ∷ []) ≡ body_of ms ++ chunk_of m
body_of-append [] m = append-nil (chunk_of m)
body_of-append (n ∷ ms) m =
    rw (body_of-append ms m) (sym (append_assoc (chunk_of n) (body_of ms) (chunk_of m)))

nth_or-append :
    (ms : List Message) (m : Message) (k : ℕ)
    → k < length (ms ++ m ∷ [])
    → nth_or (ms ++ m ∷ []) k empty ≡ (if ltb k (length ms) then nth_or ms k empty else m)
nth_or-append [] m zero h = ground arith
nth_or-append [] m (suc k) h = absurd (omega arith)
nth_or-append (n ∷ ms) m zero h = ground arith
nth_or-append (n ∷ ms) m (suc k) h = ground (arith, nth_or-append ms m k)

IsPrefix-append :
    (ms : List Message) (receive : Receive)
    → IsPrefix ms receive
    → IsPrefix (ms ++ receive (length ms) ∷ []) receive
IsPrefix-append ms receive h k lt =
    nth_or-append ms (receive (length ms)) k lt ∙ (elim (Bool-cases (ltb k (length ms))) [
      | inl old ↦ rw old (h k (ltb→lt k (length ms) old))
      | inr last ↦
          rw last (ap receive (ground (arith, length-append ms (receive (length ms) ∷ []))))
    ])

-- What the buffering has found: a prefix of the stream, the body that it carries, and a size that
-- passes the cap exactly if it says so.
abbrev pub Buffered : Receive → ℕ → Bytes × List Message × Bool → Type 0
Buffered receive max_bytes (body, messages, over) =
    IsPrefix messages receive × (body_of messages ≡ body) × (over ≡ ltb max_bytes (length body))

Message-cases :
    (m : Message) → ((chunk : Bytes) × (more : Bool) × (m ≡ request chunk more)) ⊎ (m ≡ disconnect)
Message-cases (request chunk more) = inl (chunk, more, refl)
Message-cases disconnect = inr refl

-- One more message of the stream.
extend :
    (receive : Receive) (n : ℕ) (messages : List Message) {m : Message}
    → n ≡ length messages
    → receive n ≡ m
    → IsPrefix messages receive
    → IsPrefix (messages ++ m ∷ []) receive
extend receive n messages same is h = rw (sym is, same) (IsPrefix-append messages receive h)

length-extend :
    (messages : List Message) (m : Message) → length messages + 1 ≡ length (messages ++ m ∷ [])
length-extend messages m = omega (arith, length-append {0} messages (m ∷ []))

-- One chunk: the cap is passed, the body is whole, or the buffering goes on.
chunk_step :
    (receive : Receive) (max_bytes : ℕ) (body : Bytes) (messages : List Message) (more : Bool)
    (rest : Option (Bytes × List Message × Bool)) {result : Bytes × List Message × Bool}
    → (if ltb max_bytes (length body)
        then some (body, messages, true)
        else if not more
        then some (body, messages, false)
        else rest)
      ≡ some result
    → IsPrefix messages receive
    → body_of messages ≡ body
    → (ltb max_bytes (length body) ≡ false → rest ≡ some result → Buffered receive max_bytes result)
    → Buffered receive max_bytes result
chunk_step receive max_bytes body messages more rest {result} e prefix carried go =
    elim (Bool-cases (ltb max_bytes (length body))) [
      | inl over ↦
          subst (Buffered receive max_bytes) (some-injective _ _ (rw over at e))
            (prefix, carried, sym over)
      | inr fits ↦ last fits more (rw fits at e)
    ]
  where
    last :
        ltb max_bytes (length body) ≡ false
        → (m : Bool) → (if not m then some (body, messages, false) else rest) ≡ some result
        → Buffered receive max_bytes result
    last fits true r = go fits r
    last fits false r =
        subst (Buffered receive max_bytes) (some-injective _ _ r) (prefix, carried, sym fits)

pub buffer_from-Buffered :
    (fuel : ℕ) (receive : Receive) (max_bytes n : ℕ) (body : Bytes) (messages : List Message)
    {result : Bytes × List Message × Bool}
    → buffer_from fuel receive max_bytes n body messages ≡ some result
    → n ≡ length messages
    → Buffered receive max_bytes (body, messages, false)
    → Buffered receive max_bytes result
unfolding buffer_from
buffer_from-Buffered zero receive max_bytes n body messages e same h = cc
buffer_from-Buffered (suc fuel) receive max_bytes n body messages {result} e same h =
    elim (Message-cases (receive n)) [
      | inr is ↦
          let done : some (body, messages ++ disconnect ∷ [], false) ≡ some result =
            rw (is, buffer_from) at e in
          subst (Buffered receive max_bytes) (some-injective _ _ done) (
            extend receive n messages same is h.0,
            body_of-append messages disconnect ∙ append-nil (body_of messages) ∙ h.1,
            h.2,
          )
      | inl (chunk, more, is) ↦
          let longer = messages ++ request chunk more ∷ [] in
          let prefix = extend receive n messages same is h.0 in
          let carried : body_of longer ≡ body ++ chunk =
            body_of-append messages (request chunk more) ∙ ap (λ (b : Bytes). b ++ chunk) h.1 in
          chunk_step receive max_bytes (body ++ chunk) longer more
            (buffer_from fuel receive max_bytes (n + 1) (body ++ chunk) longer)
            (rw (is, buffer_from) at e) prefix carried
            (λ fits rest.
              buffer_from-Buffered fuel receive max_bytes (n + 1) (body ++ chunk) longer rest
                (ap (λ k. k + 1) same ∙ length-extend messages (request chunk more))
                (prefix, carried, sym fits))
    ]

-- A request whose body is over the cap reaches the application whole: the messages that were
-- buffered, followed by what the server gives next, are the server's own stream. And whatever was
-- buffered is a prefix of the stream that carries the buffered body, which is over the cap exactly
-- if the buffering says so.
pub buffer_body-lossless :
    (fuel : ℕ) (receive : Receive) (max_bytes : ℕ) {body : Bytes} {messages : List Message}
    {over : Bool}
    → buffer_body fuel receive max_bytes ≡ some (body, messages, over)
    → Buffered receive max_bytes (body, messages, over)
      × ((n : ℕ) → chain_replayer messages receive n ≡ receive n)
unfolding buffer_body chain_replayer
buffer_body-lossless fuel receive max_bytes {messages = messages} e =
    let found =
      buffer_from-Buffered fuel receive max_bytes 0 [] [] e refl
        ((λ k lt. absurd (omega arith)), refl, ground arith) in
    (
      found,
      λ n. elim (Bool-cases (ltb n (length messages))) [
        | inl early ↦ rw early (found.0 n (ltb→lt n (length messages) early))
        | inr late ↦ rw late
      ],
    )

-- The last message of a request: a part with no more to come, or a disconnect.
abbrev pub ends : Message → Bool
ends (request chunk more_body) = not more_body
ends disconnect = true

buffer_from-ne-none :
    (fuel : ℕ) (receive : Receive) (max_bytes n : ℕ) (body : Bytes) (messages : List Message)
    (j : ℕ)
    → j < fuel
    → ends (receive (n + j)) ≡ true
    → buffer_from fuel receive max_bytes n body messages ≢ none
unfolding buffer_from
buffer_from-ne-none zero receive max_bytes n body messages j lt last e = elim lt [ ]
buffer_from-ne-none (suc fuel) receive max_bytes n body messages zero lt last e =
    let here : ends (receive n) ≡ true = rw add-zero at last in
    elim (Message-cases (receive n)) [
      | inr is ↦ cc (rw (is, buffer_from) at e)
      | inl (chunk, more, is) ↦ ground (arith, is)
    ]
buffer_from-ne-none (suc fuel) receive max_bytes n body messages (suc j) lt last e =
    let later : ends (receive (n + 1 + j)) ≡ true =
      ap (λ k. ends (receive k)) (omega arith) ∙ last in
    elim (Message-cases (receive n)) [
      | inr is ↦ ground (arith, is)
      | inl (chunk, more, is) ↦ ground (
        arith,
        is,
        buffer_from-ne-none fuel receive max_bytes (n + 1) (body ++ chunk)
            (messages ++ request chunk more ∷ []) j (omega arith) later,
      )
    ]

-- The buffering ends: fuel for one message more than come before the last one is enough.
pub buffer_body-ne-none :
    (fuel : ℕ) (receive : Receive) (max_bytes last : ℕ)
    → last < fuel
    → ends (receive last) ≡ true
    → buffer_body fuel receive max_bytes ≢ none
unfolding buffer_body
buffer_body-ne-none fuel receive max_bytes last lt is_last =
    buffer_from-ne-none fuel receive max_bytes 0 [] [] last lt (rw zero-add is_last)
