-- ===== src/Webhooks/Outbox.antt =====
-- The transactional outbox: webhooks/dispatch.py, webhooks/outbox.py and the rows of
-- webhooks/models.py. The queue is an argument: the answer that it gives to the n-th call. The data
-- of an event is its JSON text, and an identifier that the payload carries as text is kept as it is.
pub mod Claimed
pub mod AtLeastOnce
pub mod Attempts
pub mod Tried
pub mod Settled
pub use python_backend_manager.Webhooks.Models.{WebhookEndpoint, Payload, OutboxEvent, Delivery}
use Prim.Native.String.{◌++◌ as append}
use python_backend_manager.Prelude.Base.{
  ℕ, ◌+◌, String, Bool, true, false, not, ◌&&◌, ◌||◌, Option, none, some, List, [], ◌∷◌, ◌++◌, ◌==◌,
  leb, keep, update_where, any, if◌then◌else◌, zero, suc,
}
use python_backend_manager.Prelude.Bytes.{CodePoints, codes, bytes_eq}
use python_backend_manager.Prelude.Words.{split_words}
use python_backend_manager.Prelude.Uuid.{Uuid, uuid_text}

-- The queue: the calls so far, and the deliveries that it took, newest first.
pub record Queue : Type 0 where
  pub calls : ℕ
  pub queued : List Delivery

abbrev pub webhook_source : CodePoints
webhook_source = codes "webhook"

abbrev pub default_max_attempts : ℕ
default_max_attempts = 5

-- `dispatch`: `id` is the key of the row, `eid` is `event_id or str(uuid.uuid4())`, `now` the
-- server's time; `none` is the `IntegrityError` of the UNIQUE (source, event_id).
unfoldable pub dispatch :
    CodePoints
    → Uuid
    → String
    → CodePoints
    → Uuid
    → ℕ
    → List OutboxEvent
    → Option (List OutboxEvent)
dispatch event_type org data_text eid id now events =
    if any (λ e. bytes_eq e.source webhook_source && bytes_eq e.event_id eid) events
    then none
    else some (
        record {
          id = id;
          source = webhook_source;
          event_id = eid;
          event_type = event_type;
          organization_id = some org;
          payload = record {
            id = eid;
            event_type = event_type;
            organization_id = some org;
            data_text = data_text;
          };
          attempts = 0;
          last_error = none;
          published_at = none;
          failed_at = none;
          created_at = now;
        }
        ∷ events)

-- `event_type in event_types.split()`
unfoldable pub subscribes : CodePoints → CodePoints → Bool
subscribes event_type event_types = any (bytes_eq event_type) (split_words event_types)

abbrev is_org : Option Uuid → Uuid → Bool
is_org none org = false
is_org (some o) org = o == org

-- The endpoints that an event goes to: the WHERE and the test of the loop.
abbrev pub is_target : OutboxEvent → WebhookEndpoint → Bool
is_target event endpoint =
    is_org event.organization_id endpoint.organization_id
    && endpoint.active
    && subscribes event.event_type endpoint.event_types

abbrev pub delivery : OutboxEvent → WebhookEndpoint → Delivery
delivery event endpoint = record {
  endpoint_id = endpoint.id;
  event_type = event.event_type;
  payload = event.payload;
}

-- The answer of the queue to its n-th call.
abbrev pub Accepts : Type 0
Accepts = ℕ → Delivery → Bool

-- The loop of `_fan_out`: `some` is the endpoint at which an `OutboxPublishError` was raised.
unfoldable pub fan_to : Accepts → OutboxEvent → List WebhookEndpoint → Queue → Option Uuid × Queue
fan_to accepts event [] queue = (none, queue)
fan_to accepts event (endpoint ∷ endpoints) queue =
    let d = delivery event endpoint in
    let skipped = fan_to accepts event endpoints queue in
    let rest =
      fan_to accepts event endpoints
        (record { calls = queue.calls + 1; queued = d ∷ queue.queued }) in
    if is_target event endpoint
    then (if accepts queue.calls d
        then rest
        else (some endpoint.id, record { calls = queue.calls + 1; queued = queue.queued }))
    else skipped

unfoldable pub fan_out : Accepts → OutboxEvent → List WebhookEndpoint → Queue → Option Uuid × Queue
fan_out accepts event endpoints queue =
    if bytes_eq event.source webhook_source
    then fan_to accepts event endpoints queue
    else (none, queue)

-- What the relay writes, in at most 1024 characters, of an event whose fan-out failed at the endpoint, or did not.
unfoldable pub deferred : ℕ → ℕ → Uuid → OutboxEvent → OutboxEvent
deferred max_attempts now endpoint event = record event {
  attempts = event.attempts + 1;
  last_error = some (append "queue unavailable (endpoint " (append (uuid_text endpoint) ")"));
  failed_at = if leb max_attempts (event.attempts + 1) then some now else event.failed_at;
}

abbrev pub settled : ℕ → ℕ → Option Uuid → OutboxEvent → OutboxEvent
settled max_attempts now none event = record event { published_at = some now }
settled max_attempts now (some endpoint) event = deferred max_attempts now endpoint event

abbrev pub counted_run : Option Uuid → ℕ
counted_run none = 1
counted_run (some endpoint) = 0

-- The loop of `drain_outbox` over the events that it claimed.
unfoldable pub publish_all :
    Accepts
    → ℕ
    → ℕ
    → List WebhookEndpoint
    → List OutboxEvent
    → List OutboxEvent
    → Queue
    → ℕ × List OutboxEvent × Queue
publish_all accepts max_attempts now endpoints [] events queue = (0, events, queue)
publish_all accepts max_attempts now endpoints (event ∷ claimed) events queue =
    let (failed, queue') = fan_out accepts event endpoints queue in
    let event' = settled max_attempts now failed event in
    let (published, events', queue'') =
      publish_all accepts max_attempts now endpoints claimed
        (update_where (λ e. e.id == event.id) (λ e. event') events) queue' in
    (counted_run failed + published, events', queue'')

abbrev pub is_null : Option ℕ → Bool
is_null none = true
is_null (some at) = false

-- The WHERE of the relay; `locked` are the rows that another run of it holds.
abbrev pub is_pending : (Uuid → Bool) → OutboxEvent → Bool
is_pending locked e = is_null e.published_at && is_null e.failed_at && not (locked e.id)

pub insert_by_age : OutboxEvent → List OutboxEvent → List OutboxEvent
insert_by_age e [] = e ∷ []
insert_by_age e (f ∷ fs) =
    if leb e.created_at f.created_at then e ∷ f ∷ fs else f ∷ insert_by_age e fs

-- `ORDER BY created_at`
unfoldable pub by_age : List OutboxEvent → List OutboxEvent
unfolding insert_by_age
by_age [] = []
by_age (e ∷ es) = insert_by_age e (by_age es)

abbrev pub first : ℕ → List OutboxEvent → List OutboxEvent
first zero es = []
first (suc n) [] = []
first (suc n) (e ∷ es) = e ∷ first n es

unfoldable pub drain_outbox :
    Accepts
    → ℕ
    → ℕ
    → ℕ
    → (Uuid → Bool)
    → List WebhookEndpoint
    → List OutboxEvent
    → Queue
    → ℕ × List OutboxEvent × Queue
drain_outbox accepts limit max_attempts now locked endpoints events queue =
    publish_all accepts max_attempts now endpoints
      (first limit (by_age (keep (is_pending locked) events))) events queue
