-- ===== src/Webhooks/Outbox/Attempts.antt =====
-- A failing event is tried a bounded number of times, and then left as a dead letter.
use python_backend_manager.Prelude.Base.{
  ℕ, ◌<◌, ◌≤◌, ◌≡◌, Bool, Option, none, some, List, [], ◌∷◌, ◌==◌, arith, All, update_where,
  Bool-cases, inl, inr,
}
use python_backend_manager.Prelude.Uuid.{Uuid}
use python_backend_manager.Webhooks.Outbox.{
  WebhookEndpoint, OutboxEvent, Queue, Accepts, fan_out, deferred, settled, publish_all,
  drain_outbox,
}
use python_backend_manager.Webhooks.Outbox.Claimed.{IsPending, All-claimed}

-- No more attempts than the maximum, and fewer where the event is not a dead letter.
abbrev pub IsBounded : ℕ → OutboxEvent → Type 0
IsBounded max_attempts e =
    (e.attempts ≤ max_attempts) × (e.failed_at ≡ none → e.attempts < max_attempts)

settled-IsBounded :
    (max_attempts now : ℕ) (failed : Option Uuid) (event : OutboxEvent)
    → IsBounded max_attempts event × IsPending event
    → IsBounded max_attempts (settled max_attempts now failed event)
unfolding deferred
settled-IsBounded max_attempts now none event h = h.0
settled-IsBounded max_attempts now (some e) event h = ground (arith, h.0.1 h.1.1)

update-IsBounded :
    (max_attempts : ℕ) (id : Uuid) (event : OutboxEvent) (events : List OutboxEvent)
    → IsBounded max_attempts event
    → All (IsBounded max_attempts) events
    → All (IsBounded max_attempts) (update_where (λ e. e.id == id) (λ e. event) events)
update-IsBounded max_attempts id event [] new h = tt
update-IsBounded max_attempts id event (e ∷ es) new h = elim (Bool-cases (e.id == id)) [
  | inl hit ↦ rw hit (new, update-IsBounded max_attempts id event es new h.1)
  | inr miss ↦ rw miss (h.0, update-IsBounded max_attempts id event es new h.1)
]

publish_all-IsBounded :
    (accepts : Accepts) (max_attempts now : ℕ) (endpoints : List WebhookEndpoint)
    (claimed events : List OutboxEvent) (queue : Queue)
    → All (λ e. IsBounded max_attempts e × IsPending e) claimed
    → All (IsBounded max_attempts) events
    → let (published, events', queue') =
        publish_all accepts max_attempts now endpoints claimed events queue in
      All (IsBounded max_attempts) events'
unfolding publish_all
publish_all-IsBounded accepts max_attempts now endpoints [] events queue c h = h
publish_all-IsBounded accepts max_attempts now endpoints (event ∷ claimed) events queue c h =
    let (failed, queue') = fan_out accepts event endpoints queue in
    publish_all-IsBounded accepts max_attempts now endpoints claimed _ queue' c.1 (
      update-IsBounded max_attempts event.id (settled max_attempts now failed event) events
        (settled-IsBounded max_attempts now failed event c.0) h)

-- No event is tried more than `max_attempts` times, and one that has failed that often is a dead
-- letter: a run of the relay keeps this of all rows.
pub drain_outbox-IsBounded :
    (accepts : Accepts) (limit max_attempts now : ℕ) (locked : Uuid → Bool)
    (endpoints : List WebhookEndpoint) (events : List OutboxEvent) (queue : Queue)
    → All (IsBounded max_attempts) events
    → let (published, events', queue') =
        drain_outbox accepts limit max_attempts now locked endpoints events queue in
      All (IsBounded max_attempts) events'
unfolding drain_outbox
drain_outbox-IsBounded accepts limit max_attempts now locked endpoints events queue h =
    publish_all-IsBounded accepts max_attempts now endpoints _ events queue
      (All-claimed (IsBounded max_attempts) limit locked events h) h
