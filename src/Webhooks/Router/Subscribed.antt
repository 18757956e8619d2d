-- ===== src/Webhooks/Router/Subscribed.antt =====
-- What a new endpoint is subscribed to: the route of webhooks/router.py.jinja that creates it, and
-- the test of the relay in webhooks/outbox.py.
use python_backend_manager.Prelude.Base.{
  String, ◌≡◌, ◌≢◌, refl, ◌&&◌, Option, none, some, List, ◌∷◌, arith, any, All, Option-cases, inl,
  inr,
}
use python_backend_manager.Prelude.Uuid.{Uuid}
use python_backend_manager.Prelude.Bytes.{CodePoints, bytes_eq}
use python_backend_manager.Prelude.Words.{join_words, IsWord, split_words-join_words}
use python_backend_manager.Tenancy.Models.{Membership}
use python_backend_manager.Tenancy.Router.{get_current_membership}
use python_backend_manager.Webhooks.Models.{WebhookEndpoint, OutboxEvent}
use python_backend_manager.Webhooks.Outbox.{is_target, subscribes}
use python_backend_manager.Webhooks.Router.{
  WebhookEndpointCreate, WebhookEndpointRead, Endpoints, done, to_read, get_endpoint, new_endpoint,
  stored, created, as_admin, create_webhook_endpoint, get_webhook_endpoint,
}

subscribes-join_words :
    (event_type : CodePoints) (types : List CodePoints)
    → All IsWord types
    → subscribes event_type (join_words types) ≡ any (bytes_eq event_type) types
unfolding subscribes
subscribes-join_words event_type types h = rw (split_words-join_words types h) refl

-- What a successful creation is made of.
created-done :
    (org_id : Uuid) (membership : Option Membership) (payload : WebhookEndpointCreate) (id : Uuid)
    (generated : String) (endpoints endpoints' : Endpoints) (r : WebhookEndpointRead)
    → as_admin membership (created org_id payload id generated endpoints) endpoints
      ≡ (done r, endpoints')
    → (r ≡ to_read (new_endpoint org_id payload id generated))
      × (endpoints' ≡ new_endpoint org_id payload id generated ∷ endpoints)
      × (membership ≢ none)
unfolding as_admin created stored
created-done org_id none payload id generated endpoints endpoints' r h = ground arith
created-done org_id (some m) payload id generated endpoints endpoints' r h = ground arith

first_found :
    (org_id id : Uuid) (e : WebhookEndpoint) (endpoints : Endpoints)
    → e.id ≡ id
    → e.organization_id ≡ org_id
    → get_endpoint org_id id (e ∷ endpoints) ≡ some e
unfolding get_endpoint
first_found org_id id e endpoints p q = ground (arith, p, q)

read_member :
    (org_id caller id : Uuid) (memberships : List Membership) (endpoints : Endpoints)
    (r : WebhookEndpointRead) (e : WebhookEndpoint)
    → get_current_membership org_id caller memberships ≢ none
    → get_endpoint org_id id endpoints ≡ some e
    → r ≡ to_read e
    → get_webhook_endpoint org_id caller id memberships endpoints ≡ done r
unfolding get_webhook_endpoint
read_member org_id caller id memberships endpoints r e member found read =
    elim (Option-cases (get_current_membership org_id caller memberships)) [
      | inl stranger ↦ absurd (member stranger)
      | inr (m, is) ↦ rw (is, found, read) refl
    ]

target :
    (payload : WebhookEndpointCreate) (e : WebhookEndpoint) (event : OutboxEvent) (org_id : Uuid)
    → All IsWord payload.event_types
    → event.organization_id ≡ some org_id
    → e.organization_id ≡ org_id
    → e.active ≡ payload.active
    → e.event_types ≡ join_words payload.event_types
    → is_target event e ≡ (payload.active && any (bytes_eq event.event_type) payload.event_types)
target payload e event org_id words of_org org active types =
    rw
      (of_org, org, active, types, subscribes-join_words event.event_type payload.event_types words)
      (ground arith)

-- An administrator who creates an endpoint for event types that are nonempty and have no space
-- (none of the characters at which `split()` cuts) reads back just these types, and an event of the
-- organization goes to the endpoint exactly when the endpoint is active and the type of the event is
-- one of them.
pub create_webhook_endpoint-subscribes :
    (org_id caller : Uuid) (payload : WebhookEndpointCreate) (id : Uuid) (generated : String)
    (memberships : List Membership) (endpoints endpoints' : Endpoints) (r : WebhookEndpointRead)
    → All IsWord payload.event_types
    → create_webhook_endpoint org_id caller payload id generated memberships endpoints
      ≡ (done r, endpoints')
    → (get_webhook_endpoint org_id caller id memberships endpoints' ≡ done r)
      × (r.event_types ≡ payload.event_types)
      × (e : WebhookEndpoint) × (get_endpoint org_id id endpoints' ≡ some e)
      × ((event : OutboxEvent)
          → event.organization_id ≡ some org_id
          → is_target event e
            ≡ (payload.active && any (bytes_eq event.event_type) payload.event_types))
unfolding create_webhook_endpoint
create_webhook_endpoint-subscribes org_id caller payload id generated memberships endpoints
      endpoints' r words h =
    let (read, rows, member) =
      created-done org_id (get_current_membership org_id caller memberships) payload id generated
        endpoints endpoints' r h in
    let e = new_endpoint org_id payload id generated in
    let found : get_endpoint org_id id endpoints' ≡ some e =
      rw rows (first_found org_id id e endpoints refl refl) in
    (
      read_member org_id caller id memberships endpoints' r e member found read,
      rw read (unfold to_read in split_words-join_words payload.event_types words),
      e,
      found,
      λ event of_org. target payload e event org_id words of_org refl refl refl,
    )
