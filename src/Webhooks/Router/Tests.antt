-- ===== src/Webhooks/Router/Tests.antt =====
-- The theorems on the routes of the endpoints at a concrete table.
use python_backend_manager.Prelude.Base.{◌≡◌, ◌≢◌, refl, true, ◌&&◌, none, some, List, [], ◌∷◌, any}
use python_backend_manager.Prelude.Uuid.{Uuid}
use python_backend_manager.Prelude.Bytes.{codes, bytes_eq}
use python_backend_manager.Prelude.Dict.{get_or}
use python_backend_manager.Prelude.Words.{split_words, join_words}
use python_backend_manager.Tenancy.Models.{Membership}
use python_backend_manager.Tenancy.Router.{get_current_membership}
use python_backend_manager.Rbac.Permissions.{require_role, has_role}
use python_backend_manager.Webhooks.Models.{WebhookEndpoint, OutboxEvent, Delivery}
use python_backend_manager.Webhooks.Outbox.{is_target}
use python_backend_manager.Webhooks.Delivery.{World, deliver_webhook}
use python_backend_manager.Webhooks.Router.{
  WebhookEndpointCreate, done, to_read, get_endpoint, new_endpoint, is_valid_create, created,
  stored, as_admin, create_webhook_endpoint, get_webhook_endpoint, delete_webhook_endpoint,
  delete_found,
}
use python_backend_manager.Webhooks.Router.Subscribed.{create_webhook_endpoint-subscribes}
use python_backend_manager.Webhooks.Router.Silenced.{delete_webhook_endpoint-silences}
use python_backend_manager.Webhooks.Router.Isolated.{
  delete, write_endpoints, rows_of, write_endpoints-authorized,
}

abbrev admins : List Membership
admins = record { organization_id = 1; user_id = 7; role = "admin" } ∷ []

abbrev payload : WebhookEndpointCreate
payload = record {
  url = "https://x.io/h";
  event_types = codes "a.b" ∷ codes "c.d" ∷ [];
  secret = none;
  active = true;
}

abbrev row : WebhookEndpoint
row = new_endpoint 1 payload 11 "generated"

abbrev others : WebhookEndpoint
others = record row { id = 12; organization_id = 2 }

-- An event type with a space is stored as two.
two_types : split_words (join_words (codes "a b" ∷ [])) ≡ codes "a" ∷ codes "b" ∷ []
unfolding split_words join_words
two_types = refl

abbrev event : OutboxEvent
event = record {
  id = 5;
  source = codes "webhook";
  event_id = codes "e";
  event_type = codes "c.d";
  organization_id = some 1;
  payload = record {
    id = codes "e";
    event_type = codes "c.d";
    organization_id = some 1;
    data_text = "{}";
  };
  attempts = 0;
  last_error = none;
  published_at = none;
  failed_at = none;
  created_at = 10;
}

create_webhook_endpoint-subscribes_example :
    (get_webhook_endpoint 1 7 11 admins (row ∷ []) ≡ done (to_read row))
    × ((to_read row).event_types ≡ payload.event_types)
    × (e : WebhookEndpoint) × (get_endpoint 1 11 (row ∷ []) ≡ some e)
    × ((event : OutboxEvent)
        → event.organization_id ≡ some 1
        → is_target event e ≡ (true && any (bytes_eq event.event_type) payload.event_types))
unfolding create_webhook_endpoint created stored as_admin get_current_membership is_valid_create
    has_role to_read join_words get_or
create_webhook_endpoint-subscribes_example =
    create_webhook_endpoint-subscribes 1 7 payload 11 "generated" admins [] (row ∷ []) (to_read row)
      (refl, (refl, tt)) refl

abbrev nowhere : World
nowhere = record {
  resolver = record { getaddrinfo = λ h p. none; ip_address = λ t. none; urlsplit = λ u. none };
  hexdigest = λ s b. "";
  dumps = λ p. [];
  post = λ r. some 200;
}

abbrev late : Delivery
late = record { endpoint_id = 11; event_type = codes "c.d"; payload = event.payload }

delete_webhook_endpoint-silences_example :
    (deliver_webhook nowhere 2 late (others ∷ [])).requests ≡ []
unfolding delete_webhook_endpoint delete_found as_admin get_current_membership get_endpoint has_role
    get_or
delete_webhook_endpoint-silences_example =
    delete_webhook_endpoint-silences nowhere 1 7 11 admins (row ∷ others ∷ []) (others ∷ []) 2 late
      refl refl

-- An administrator of one organization names the endpoint of another one.
write_endpoints-authorized_example :
    let endpoints = row ∷ others ∷ [] in
    let endpoints' = write_endpoints 1 7 admins (delete 12) endpoints in
    ((other : Uuid) → other ≢ 1 → rows_of other endpoints' ≡ rows_of other endpoints)
    × (endpoints' ≢ endpoints
        → (m : Membership) × (get_current_membership 1 7 admins ≡ some m)
          × (require_role "admin" m.role ≡ true))
write_endpoints-authorized_example =
    write_endpoints-authorized 1 7 admins (delete 12) (row ∷ others ∷ []) (refl, (refl, tt))
