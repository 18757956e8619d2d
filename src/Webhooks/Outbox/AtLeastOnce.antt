-- ===== src/Webhooks/Outbox/AtLeastOnce.antt =====
-- A published event has reached every endpoint that is subscribed to it.
use python_backend_manager.Prelude.Base.{
  ℕ, ◌+◌, ◌≡◌, refl, ◌≢◌, Bool, true, ◌&&◌, Option, none, some, List, [], ◌∷◌, ◌==◌, arith, All,
  All-map, any, keep, update_where, Bool-cases, inl, inr,
}
use python_backend_manager.Prelude.Bytes.{bytes_eq, bytes_eq_refl}
use python_backend_manager.Prelude.Uuid.{Uuid}
use python_backend_manager.Webhooks.Outbox.{
  WebhookEndpoint, OutboxEvent, Queue, webhook_source, is_target, delivery, Accepts, fan_to,
  fan_out, deferred, settled, publish_all, is_pending, by_age, first, drain_outbox,
}
use python_backend_manager.Webhooks.Outbox.Claimed.{All-claimed}

-- Did the queue take a delivery of the event's payload for the endpoint?
abbrev pub was_sent : OutboxEvent → WebhookEndpoint → Queue → Bool
was_sent event endpoint queue =
    any (λ d. d.endpoint_id == endpoint.id && bytes_eq d.payload.id event.payload.id) queue.queued

-- Every endpoint that the event goes to was sent it.
abbrev pub HasReached : List WebhookEndpoint → Queue → OutboxEvent → Type 0
HasReached endpoints queue event =
    All (λ endpoint. is_target event endpoint ≡ true → was_sent event endpoint queue ≡ true)
      endpoints

-- A webhook event that is marked as published has reached its endpoints.
abbrev pub IsDelivered : List WebhookEndpoint → Queue → OutboxEvent → Type 0
IsDelivered endpoints queue event =
    event.published_at ≢ none
    → bytes_eq event.source webhook_source ≡ true
    → HasReached endpoints queue event

-- The queue has kept what it had.
abbrev Grows : Queue → Queue → Type 0
Grows queue queue' =
    (event : OutboxEvent) (endpoint : WebhookEndpoint)
    → was_sent event endpoint queue ≡ true
    → was_sent event endpoint queue' ≡ true

fan_to-Grows :
    (accepts : Accepts) (event : OutboxEvent) (endpoints : List WebhookEndpoint) (queue : Queue)
    → Grows queue (fan_to accepts event endpoints queue).1
unfolding fan_to
fan_to-Grows accepts event [] queue other endpoint sent = sent
fan_to-Grows accepts event (e ∷ es) queue other endpoint sent =
    let d = delivery event e in
    let queue' : Queue = record { calls = queue.calls + 1; queued = d ∷ queue.queued } in
    ground (
      arith,
      fan_to-Grows accepts event es queue other endpoint,
      fan_to-Grows accepts event es queue' other endpoint,
    )

fan_to-HasReached :
    (accepts : Accepts) (event : OutboxEvent) (endpoints : List WebhookEndpoint) (queue : Queue)
    → (fan_to accepts event endpoints queue).0 ≡ none
    → HasReached endpoints (fan_to accepts event endpoints queue).1 event
unfolding fan_to
fan_to-HasReached accepts event [] queue done = tt
fan_to-HasReached accepts event (e ∷ es) queue done =
    let d = delivery event e in
    let queue' : Queue = record { calls = queue.calls + 1; queued = d ∷ queue.queued } in
    ground (
      arith,
      fan_to-HasReached accepts event es queue,
      fan_to-HasReached accepts event es queue',
      fan_to-Grows accepts event es queue' event e,
      bytes_eq_refl event.payload.id,
    )

HasReached-Grows :
    (endpoints : List WebhookEndpoint) (queue queue' : Queue) (event : OutboxEvent)
    → Grows queue queue'
    → HasReached endpoints queue event
    → HasReached endpoints queue' event
HasReached-Grows [] queue queue' event grows h = tt
HasReached-Grows (e ∷ es) queue queue' event grows h =
    ((λ target. grows event e (h.0 target)), HasReached-Grows es queue queue' event grows h.1)

fan_out-Grows :
    (accepts : Accepts) (event : OutboxEvent) (endpoints : List WebhookEndpoint) (queue : Queue)
    → Grows queue (fan_out accepts event endpoints queue).1
unfolding fan_out
fan_out-Grows accepts event endpoints queue other endpoint sent =
    ground (arith, fan_to-Grows accepts event endpoints queue other endpoint sent)

fan_out-HasReached :
    (accepts : Accepts) (event : OutboxEvent) (endpoints : List WebhookEndpoint) (queue : Queue)
    → (fan_out accepts event endpoints queue).0 ≡ none
    → bytes_eq event.source webhook_source ≡ true
    → HasReached endpoints (fan_out accepts event endpoints queue).1 event
unfolding fan_out
fan_out-HasReached accepts event endpoints queue done source =
    rw source (fan_to-HasReached accepts event endpoints queue (rw source at done))

-- The event as the relay leaves it.
settled-IsDelivered :
    (max_attempts now : ℕ) (endpoints : List WebhookEndpoint) (queue : Queue) (event : OutboxEvent)
    (failed : Option Uuid)
    → event.published_at ≡ none
    → (failed ≡ none
        → bytes_eq event.source webhook_source ≡ true
        → HasReached endpoints queue event)
    → IsDelivered endpoints queue (settled max_attempts now failed event)
unfolding deferred
settled-IsDelivered max_attempts now endpoints queue event none new h published source =
    h refl source
settled-IsDelivered max_attempts now endpoints queue event (some e) new h published source =
    absurd (published new)

update-IsDelivered :
    (endpoints : List WebhookEndpoint) (queue queue' : Queue) (id : Uuid) (event : OutboxEvent)
    (events : List OutboxEvent)
    → Grows queue queue'
    → IsDelivered endpoints queue' event
    → All (IsDelivered endpoints queue) events
    → All (IsDelivered endpoints queue') (update_where (λ e. e.id == id) (λ e. event) events)
update-IsDelivered endpoints queue queue' id event [] grows new h = tt
update-IsDelivered endpoints queue queue' id event (e ∷ es) grows new h =
    elim (Bool-cases (e.id == id)) [
      | inl hit ↦ rw hit (new, update-IsDelivered endpoints queue queue' id event es grows new h.1)
      | inr miss ↦ rw miss (
        (λ published source.
            HasReached-Grows endpoints queue queue' e grows (h.0 published source)),
        update-IsDelivered endpoints queue queue' id event es grows new h.1,
      )
    ]

abbrev IsUnpublished : OutboxEvent → Type 0
IsUnpublished e = e.published_at ≡ none

publish_all-IsDelivered :
    (accepts : Accepts) (max_attempts now : ℕ) (endpoints : List WebhookEndpoint)
    (claimed events : List OutboxEvent) (queue : Queue)
    → All IsUnpublished claimed
    → All (IsDelivered endpoints queue) events
    → let (published, events', queue') =
        publish_all accepts max_attempts now endpoints claimed events queue in
      All (IsDelivered endpoints queue') events'
unfolding publish_all
publish_all-IsDelivered accepts max_attempts now endpoints [] events queue new h = h
publish_all-IsDelivered accepts max_attempts now endpoints (event ∷ claimed) events queue new h =
    let (failed, queue') = fan_out accepts event endpoints queue in
    publish_all-IsDelivered accepts max_attempts now endpoints claimed _ queue' new.1 (
      update-IsDelivered endpoints queue queue' event.id (settled max_attempts now failed event)
        events (fan_out-Grows accepts event endpoints queue)
        (settled-IsDelivered max_attempts now endpoints queue' event failed new.0
          (fan_out-HasReached accepts event endpoints queue))
        h)

-- At least once: if every published webhook event has reached the active endpoints that are
-- subscribed to it, the same holds after a run of the relay, whatever the queue accepts or rejects:
-- an event is marked as published only if the queue took a delivery for each of its endpoints.
pub drain_outbox-IsDelivered :
    (accepts : Accepts) (limit max_attempts now : ℕ) (locked : Uuid → Bool)
    (endpoints : List WebhookEndpoint) (events : List OutboxEvent) (queue : Queue)
    → All (IsDelivered endpoints queue) events
    → let (published, events', queue') =
        drain_outbox accepts limit max_attempts now locked endpoints events queue in
      All (IsDelivered endpoints queue') events'
unfolding drain_outbox
drain_outbox-IsDelivered accepts limit max_attempts now locked endpoints events queue h =
    publish_all-IsDelivered accepts max_attempts now endpoints _ events queue
      (All-map (λ e both. both.1.0) (first limit (by_age (keep (is_pending locked) events)))
        (All-claimed (IsDelivered endpoints queue) limit locked events h))
      h
