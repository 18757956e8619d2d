-- ===== src/Billing/Router/Replay.antt =====
-- A delivery of the payments webhook that comes again.
use python_backend_manager.Prelude.Base.{
  ℕ, String, Bool, ◌≡◌, true, false, refl, sym, ap, ◌∙◌, Option, none, some, List, [], ◌∷◌, any,
  keep, arith, eq_iff, eq_refl, if◌then◌else◌,
}
use python_backend_manager.Prelude.Bytes.{Bytes}
use python_backend_manager.Prelude.Dict.{Dict, get_or}
use python_backend_manager.Billing.Models.{Organization, ProcessedEvent, Tables}
use python_backend_manager.Billing.Ports.{
  Result, ok, webhook_verification_error, payment_error, failed, PaymentEvent, PaymentsPort,
}
use python_backend_manager.Billing.Router.{
  reply, sync_subscription, scalar_one_or_none, sync_org, sync_found, owns,
}
use python_backend_manager.Billing.Router.Webhook.{
  is_processed, mark_processed, committed, synced, apply_event, handle_verified, payments_webhook,
}

-- A request of the webhook, with the provider that the application has at that time.
pub record Delivery (World : Type 0) : Type 0 where
  pub payments : PaymentsPort World
  pub now : ℕ
  pub headers : Dict String
  pub raw_body : Bytes

unfoldable pub webhook_all : {World : Type 0} → List (Delivery World) → Tables → Tables
webhook_all [] t = t
webhook_all (d ∷ ds) t = webhook_all ds (payments_webhook d.payments d.now d.headers d.raw_body t).1

sync_org-processed :
    (provider : String) (event : PaymentEvent) (t : Tables) (org : Organization) {t' : Tables}
    → sync_org provider event t org ≡ ok t'
    → t'.processed_events ≡ t.processed_events
unfolding sync_org
sync_org-processed provider event t org {t'} h = grind arith

sync_found-processed :
    (provider : String) (event : PaymentEvent) (t : Tables) (found : Result (Option Organization))
    {t' : Tables}
    → sync_found provider event t found ≡ ok t'
    → t'.processed_events ≡ t.processed_events
unfolding sync_found
sync_found-processed provider event t (ok none) h = cc
sync_found-processed provider event t (ok (some org)) h = sync_org-processed provider event t org h
sync_found-processed provider event t webhook_verification_error h = cc
sync_found-processed provider event t payment_error h = cc
sync_found-processed provider event t failed h = cc

pub synced-processed :
    (provider : String) (event : PaymentEvent) (t : Tables) {t' : Tables}
    → synced provider event t ≡ ok t'
    → t'.processed_events ≡ t.processed_events
unfolding synced sync_subscription
synced-processed provider event t {t'} h = ground (
  arith,
  sync_found-processed provider event t
      (scalar_one_or_none (keep (owns event.customer_ref) t.organizations)) {t' = t'},
)

-- A reply "ok" is the commit of a new event.
pub apply_event-ok :
    (provider : String) (event : PaymentEvent) (t : Tables)
    → (apply_event provider event t).0 ≡ reply "ok"
    → (t' : Tables) × (synced provider event (mark_processed provider event t) ≡ ok t')
      × (apply_event provider event t ≡ (reply "ok", t'))
unfolding apply_event
apply_event-ok provider event t h =
    go (any (is_processed provider event.event_id) t.processed_events)
      (synced provider event (mark_processed provider event t)) h
  where
    go :
        (b : Bool) (r : Result Tables)
        → (if b then (reply "duplicate", t) else committed t r).0 ≡ reply "ok"
        → (t' : Tables) × (r ≡ ok t')
          × ((if b then (reply "duplicate", t) else committed t r) ≡ (reply "ok", t'))
    go true r e = absurd (ground (arith, eq_iff "duplicate" "ok", e))
    go false (ok t') e = (t', refl, refl)
    go false webhook_verification_error e = absurd (ground (arith, e))
    go false payment_error e = absurd (ground (arith, e))
    go false failed e = absurd (ground (arith, e))

apply_event-processed :
    (provider : String) (event : PaymentEvent) (t : Tables)
    → (apply_event provider event t).0 ≡ reply "ok"
    → any (is_processed provider event.event_id) (apply_event provider event t).1.processed_events
      ≡ true
apply_event-processed provider event t h =
    let (t', s, e) = apply_event-ok provider event t h in
    ap (λ r. any (is_processed provider event.event_id) r.1.processed_events) e
    ∙ ap (any (is_processed provider event.event_id)) (synced-processed provider event _ s)
    ∙ ground (arith, eq_refl provider, eq_refl event.event_id)

apply_event-keeps :
    (provider : String) (event : PaymentEvent) (p : ProcessedEvent → Bool) (t : Tables)
    → any p t.processed_events ≡ true
    → any p (apply_event provider event t).1.processed_events ≡ true
unfolding apply_event
apply_event-keeps provider event p t h =
    go (any (is_processed provider event.event_id) t.processed_events)
      (synced provider event (mark_processed provider event t)) refl
  where
    go :
        (b : Bool) (r : Result Tables)
        → synced provider event (mark_processed provider event t) ≡ r
        → any p (if b then (reply "duplicate", t) else committed t r).1.processed_events ≡ true
    go true r e = h
    go false (ok t') e =
        ap (any p) (synced-processed provider event (mark_processed provider event t) e)
        ∙ ground (arith, h)
    go false webhook_verification_error e = h
    go false payment_error e = h
    go false failed e = h

handle_verified-keeps :
    (provider : String) (r : Result PaymentEvent) (p : ProcessedEvent → Bool) (t : Tables)
    → any p t.processed_events ≡ true
    → any p (handle_verified provider r t).1.processed_events ≡ true
unfolding handle_verified
handle_verified-keeps provider (ok event) p t h = apply_event-keeps provider event p t h
handle_verified-keeps provider webhook_verification_error p t h = h
handle_verified-keeps provider payment_error p t h = h
handle_verified-keeps provider failed p t h = h

webhook_all-keeps :
    {World : Type 0} (ds : List (Delivery World)) (p : ProcessedEvent → Bool) (t : Tables)
    → any p t.processed_events ≡ true
    → any p (webhook_all ds t).processed_events ≡ true
unfolding webhook_all payments_webhook
webhook_all-keeps [] p t h = h
webhook_all-keeps (d ∷ ds) p t h =
    webhook_all-keeps ds p _ (handle_verified-keeps d.payments.name _ p t h)

apply_event-duplicate :
    (provider : String) (event : PaymentEvent) (t : Tables)
    → any (is_processed provider event.event_id) t.processed_events ≡ true
    → apply_event provider event t ≡ (reply "duplicate", t)
unfolding apply_event
apply_event-duplicate provider event t h = ground (arith, h)

-- A webhook that was answered "ok" is answered "duplicate" whenever the provider delivers its event
-- again, and changes nothing then: at any later time, in any body, with any headers, and so with
-- a new signature, that the provider verifies then as an event of the same id, and whatever other
-- deliveries came in between.
pub payments_webhook-replay :
    {World : Type 0} (payments payments' : PaymentsPort World) (now now' : ℕ)
    (headers headers' : Dict String) (raw_body raw_body' : Bytes) (later : List (Delivery World))
    (t : Tables) {event event' : PaymentEvent}
    → (payments_webhook payments now headers raw_body t).0 ≡ reply "ok"
    → payments.verify_webhook now raw_body (get_or headers payments.signature_header "") ≡ ok event
    → payments'.verify_webhook now' raw_body' (get_or headers' payments'.signature_header "")
      ≡ ok event'
    → payments'.name ≡ payments.name
    → event'.event_id ≡ event.event_id
    → let t' = webhook_all later (payments_webhook payments now headers raw_body t).1 in
      payments_webhook payments' now' headers' raw_body' t' ≡ (reply "duplicate", t')
unfolding payments_webhook handle_verified
payments_webhook-replay payments payments' now now' headers headers' raw_body raw_body' later t
      {event} {event'} h first again name id =
    let r = payments.verify_webhook now raw_body (get_or headers payments.signature_header "") in
    let t' = webhook_all later (handle_verified payments.name r t).1 in
    let answered = sym (ap (λ x. (handle_verified payments.name x t).0) first) ∙ h in
    let left = ap (λ x. (handle_verified payments.name x t).1) first in
    let kept = webhook_all-keeps later _ _ (
      ap (λ x. any (is_processed payments.name event.event_id) x.processed_events) left
      ∙ apply_event-processed payments.name event t answered) in
    ap (λ x. handle_verified payments'.name x t') again
    ∙ apply_event-duplicate payments'.name event' t' (
        ap (λ n. any (is_processed n event'.event_id) t'.processed_events) name
        ∙ ap (λ i. any (is_processed payments.name i) t'.processed_events) id
        ∙ kept)
