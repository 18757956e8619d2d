-- ===== src/Billing/Router/Webhook.antt =====
-- The route that the provider calls: `payments_webhook` of billing/router.py.jinja. A request is
-- one transaction.
use python_backend_manager.Prelude.Base.{ℕ, String, Bool, ◌&&◌, ◌∷◌, any, str_eq, if◌then◌else◌}
use python_backend_manager.Prelude.Bytes.{Bytes}
use python_backend_manager.Prelude.Dict.{Dict, get_or}
use python_backend_manager.Billing.Models.{ProcessedEvent, Tables}
use python_backend_manager.Billing.Ports.{
  Result, ok, webhook_verification_error, payment_error, failed, PaymentEvent, PaymentsPort,
  subscription_events,
}
use python_backend_manager.Billing.Entitlements.{contains}
use python_backend_manager.Billing.Router.{
  Reply, reply, bad_request, internal_server_error, sync_subscription,
}

abbrev pub is_processed : String → String → ProcessedEvent → Bool
is_processed provider event_id p = str_eq p.provider provider && str_eq p.event_id event_id

abbrev pub mark_processed : String → PaymentEvent → Tables → Tables
mark_processed provider event t = record t {
  processed_events =
      record { provider = provider; event_id = event.event_id; type = event.event_type }
      ∷ t.processed_events;
}

-- The commit at the end of the request, or the rollback to `t`.
abbrev pub committed : Tables → Result Tables → Reply String × Tables
committed t (ok t') = (reply "ok", t')
committed t _ = (internal_server_error, t)

-- `if event.event_type in SUBSCRIPTION_EVENTS: await _sync_subscription(...)`
unfoldable pub synced : String → PaymentEvent → Tables → Result Tables
synced provider event t =
    if contains subscription_events event.event_type
    then sync_subscription provider event t
    else ok t

-- A verified event.
unfoldable pub apply_event : String → PaymentEvent → Tables → Reply String × Tables
apply_event provider event t =
    if any (is_processed provider event.event_id) t.processed_events
    then (reply "duplicate", t)
    else committed t (synced provider event (mark_processed provider event t))

unfoldable pub handle_verified : String → Result PaymentEvent → Tables → Reply String × Tables
handle_verified provider (ok event) t = apply_event provider event t
handle_verified provider webhook_verification_error t = (bad_request, t)
handle_verified provider payment_error t = (internal_server_error, t)
handle_verified provider failed t = (internal_server_error, t)

unfoldable pub payments_webhook :
    {World : Type 0} → PaymentsPort World → ℕ → Dict String → Bytes → Tables → Reply String × Tables
payments_webhook payments now headers raw_body t =
    handle_verified payments.name
      (payments.verify_webhook now raw_body (get_or headers payments.signature_header "")) t
