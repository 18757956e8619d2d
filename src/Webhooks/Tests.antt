-- ===== src/Webhooks/Tests.antt =====
-- The theorems on the outbox at a concrete event, with a queue that rejects its second call, and on
-- the delivery at a concrete resolver.
use python_backend_manager.Prelude.Base.{
  ◌≡◌, refl, Bool, true, false, none, some, List, [], ◌∷◌, arith, All, ltb, String,
}
use python_backend_manager.Prelude.Bytes.{codes, bytes_eq}
use python_backend_manager.Prelude.Words.{split_words}
use python_backend_manager.Prelude.Dict.{Dict, get, get_or}
use python_backend_manager.Webhooks.Addresses.{Ip, v4, is_public, is_public_v4, is_special_v4}
use python_backend_manager.Webhooks.Egress.{
  SplitResult, before_percent, has_colon, after_at, urlunsplit, pinned, pin_first, check_addresses,
  check_infos, resolve_public_ips, resolve_host, resolve_parts, resolve_pinned_target,
}
use python_backend_manager.Webhooks.Delivery.{
  World, retry, delivery_failed, request_of, answered, send_to, deliver_to, deliver_webhook,
}
use python_backend_manager.Webhooks.Models.{WebhookEndpoint, Delivery}
use python_backend_manager.Prelude.Uuid.{Uuid}
use python_backend_manager.Webhooks.Outbox.{
  WebhookEndpoint, OutboxEvent, Queue, Accepts, webhook_source, default_max_attempts, drain_outbox,
  fan_out, fan_to, publish_all, subscribes, by_age, deferred,
}
use python_backend_manager.Webhooks.Outbox.Claimed.{IsPending}
use python_backend_manager.Webhooks.Outbox.Settled.{Round, drain_all, drain_all-settles}
use python_backend_manager.Webhooks.Outbox.AtLeastOnce.{IsDelivered, drain_outbox-IsDelivered}

abbrev endpoint : Uuid → WebhookEndpoint
endpoint id = record {
  id = id;
  organization_id = 1;
  url = "https://example.com/hook";
  event_types = codes "a.b c.d";
  secret = "s";
  active = true;
}

abbrev event : OutboxEvent
event = record {
  id = 5;
  source = webhook_source;
  event_id = codes "e";
  event_type = codes "c.d";
  organization_id = some 1;
  payload = record {
    id = codes "e";
    event_type = codes "c.d";
    organization_id = some 1;
    data_text = "{}";
  };
  attempts = 4;
  last_error = none;
  published_at = none;
  failed_at = none;
  created_at = 10;
}

abbrev endpoints : List WebhookEndpoint
endpoints = endpoint 11 ∷ endpoint 12 ∷ []

abbrev once : Accepts
once n d = ltb n 1

abbrev empty : Queue
empty = record { calls = 0; queued = [] }

abbrev unlocked : Uuid → Bool
unlocked id = false

drain_outbox-IsDelivered_example :
    let (published, events', queue') =
      drain_outbox once 100 default_max_attempts 20 unlocked endpoints (event ∷ []) empty in
    All (IsDelivered endpoints queue') events'
drain_outbox-IsDelivered_example =
    drain_outbox-IsDelivered once 100 default_max_attempts 20 unlocked endpoints (event ∷ []) empty
      ((λ published. absurd (published refl)), tt)

-- The second endpoint is rejected, and the run publishes nothing.
drain_outbox_rejected :
    (drain_outbox once 100 default_max_attempts 20 unlocked endpoints (event ∷ []) empty).0 ≡ 0
unfolding drain_outbox fan_out fan_to publish_all subscribes by_age deferred bytes_eq split_words
drain_outbox_rejected = refl

-- A resolver that knows two hosts, and the texts of three addresses.
abbrev answers : Dict (List String)
answers =
    ("example.com", "93.184.216.34" ∷ []) ∷ ("rebind.test", "93.184.216.34" ∷ "10.0.0.1" ∷ []) ∷ []

abbrev addresses : Dict Ip
addresses = ("93.184.216.34", v4 0x5db8d822) ∷ ("10.0.0.1", v4 0x0a000001) ∷ []

abbrev split_example_com : SplitResult
split_example_com = record {
  scheme = "https";
  netloc = "user@example.com";
  path = "/hook";
  query = "";
  fragment = "";
  hostname = some "example.com";
  has_valid_port = true;
  port = none;
}

abbrev world : World
world = record {
  resolver = record {
    getaddrinfo = λ host port. get answers host;
    ip_address = get addresses;
    urlsplit = λ url. some split_example_com;
  };
  hexdigest = λ secret payload. secret;
  dumps = λ payload. [];
  post = λ request. some 302;
}

abbrev task : Delivery
task = record {
  endpoint_id = 1;
  event_type = codes "a.b";
  payload = record {
    id = codes "1";
    event_type = codes "a.b";
    organization_id = some 1;
    data_text = "{}";
  };
}

deliver_webhook_redirect : deliver_webhook world 2 task (endpoint 1 ∷ []) ≡ record {
  outcome = retry 10;
  requests =
      record {
        url = "https://93.184.216.34/hook";
        host = "example.com";
        sni_hostname = "example.com";
        signature = "sha256=s";
        event = codes "a.b";
        content = [];
      }
      ∷ [];
  audit = delivery_failed ∷ [];
}
unfolding deliver_webhook deliver_to send_to answered request_of resolve_pinned_target resolve_parts
    resolve_host resolve_public_ips check_infos check_addresses get get_or before_percent has_colon
    after_at urlunsplit pinned pin_first is_public is_public_v4 is_special_v4
deliver_webhook_redirect = refl

-- A run in which the queue rejects everything.
abbrev outage : Round
outage = record { accepts = λ n d. false; now = 20; endpoints = endpoints }

drain_all-settles_example :
    All
      (λ e. ¬ IsPending e)
      (drain_all 100 5
        (outage ∷ outage ∷ outage ∷ outage ∷ outage ∷ [])
        (event ∷ [])
        (record { calls = 0; queued = [] }))
drain_all-settles_example =
    drain_all-settles 100 5 (outage ∷ outage ∷ outage ∷ outage ∷ outage ∷ []) (event ∷ [])
      (record { calls = 0; queued = [] }) (omega arith) ((omega arith, λ e. omega arith), tt)
      (omega arith)
