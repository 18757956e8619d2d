-- ===== src/Billing/Adapters/Webhooks.antt =====
-- The webhook route with each of the two adapters.
use python_backend_manager.Prelude.Base.{
  ℕ, String, ◌≡◌, ◌≢◌, refl, sym, ap, ◌∙◌, Option, none, some, [], ◌∷◌, keep, arith, eq_iff,
}
use python_backend_manager.Prelude.Bytes.{Bytes}
use python_backend_manager.Prelude.Text.{lower_text}
use python_backend_manager.Prelude.Dict.{Dict, get_or}
use python_backend_manager.Billing.Models.{Organization, Tables}
use python_backend_manager.Billing.Ports.{
  Result, ok, webhook_verification_error, payment_error, failed, PaymentEvent, Settings, or_text,
  subscription_events, event_ignored,
}
use python_backend_manager.Billing.Entitlements.{contains, plan_has_feature, require_feature}
use python_backend_manager.Billing.Adapters.Stripe as stripe
use python_backend_manager.Billing.Adapters.Razorpay as razorpay
use python_backend_manager.Billing.Router.{reply, owns}
use python_backend_manager.Billing.Router.Webhook.{handle_verified, payments_webhook}
use python_backend_manager.Billing.Router.Entitled.{apply_event-revokes}

-- A webhook changes the tables only where the signature of the body was verified.
handle_verified-rejected :
    (provider : String) (r : Result PaymentEvent) (t : Tables)
    → (handle_verified provider r t).1 ≢ t
    → (event : PaymentEvent) × (r ≡ ok event)
unfolding handle_verified
handle_verified-rejected provider (ok event) t h = (event, refl)
handle_verified-rejected provider webhook_verification_error t h = absurd (h refl)
handle_verified-rejected provider payment_error t h = absurd (h refl)
handle_verified-rejected provider failed t h = absurd (h refl)

cancelled_kind :
    (settings : Settings) (event : razorpay.Event)
    → event.event ≡ some "subscription.cancelled"
    → (razorpay.to_payment_event settings event).event_type ≡ "subscription.deleted"
unfolding razorpay.to_payment_event get_or
cancelled_kind settings event ev =
    ap (λ e. get_or razorpay.event_map (razorpay.name_of e) event_ignored) ev

cancelled_status :
    (settings : Settings) (event : razorpay.Event) (entity : razorpay.Entity)
    → event.entity ≡ some entity
    → entity.status ≡ some "cancelled"
    → (razorpay.to_payment_event settings event).status ≡ some "canceled"
unfolding razorpay.to_payment_event razorpay.normalize_status lower_text
cancelled_status settings event entity en st =
    ap (λ e. razorpay.normalize_status (razorpay.entity_of e).status) en
    ∙ ap razorpay.normalize_status st

entity_customer :
    (settings : Settings) (event : razorpay.Event) (entity : razorpay.Entity)
    → event.entity ≡ some entity
    → (razorpay.to_payment_event settings event).customer_ref ≡ entity.customer_id
unfolding razorpay.to_payment_event
entity_customer settings event entity en = ap (λ e. (razorpay.entity_of e).customer_id) en

module _ {World : Type 0} (settings : Settings) (now : ℕ) (headers : Dict String) (raw_body : Bytes)
    (t : Tables) where
  -- With Stripe a webhook changes the tables only where the SDK has verified the signature of the
  -- raw body, by the header "stripe-signature" and the secret of the settings.
  pub stripe_webhook_signed :
      (sdk : stripe.Sdk World)
      → (payments_webhook (stripe.adapter sdk settings) now headers raw_body t).1 ≢ t
      → (event : stripe.Event) × (sdk.construct_event now raw_body
            (get_or headers "stripe-signature" "")
            (or_text settings.stripe_webhook_secret "")
          ≡ ok event)
  unfolding payments_webhook stripe.adapter stripe.verify_webhook
  stripe_webhook_signed sdk h =
      let (event, e) = handle_verified-rejected "stripe" _ t h in
      signed
        (sdk.construct_event now raw_body (get_or headers "stripe-signature" "")
          (or_text settings.stripe_webhook_secret ""))
        e
    where
      signed :
          (r : Result stripe.Event)
          → {event : PaymentEvent} → stripe.verified settings r ≡ ok event
          → (e : stripe.Event) × (r ≡ ok e)
      signed (ok e) h = (e, refl)
      signed webhook_verification_error h = cc
      signed payment_error h = cc
      signed failed h = cc

  -- With Razorpay a webhook changes the tables only where the client has verified the signature
  -- of the text of the raw body, by the header "x-razorpay-signature" and the secret of the
  -- settings.
  pub razorpay_webhook_signed :
      (client : razorpay.Client World)
      → (payments_webhook (razorpay.adapter client settings) now headers raw_body t).1 ≢ t
      → (body : String) × (client.decode raw_body ≡ some body)
        × (client.verify_webhook_signature body
              (get_or headers "x-razorpay-signature" "")
              (or_text settings.razorpay_webhook_secret "")
            ≡ ok tt)
  unfolding payments_webhook razorpay.adapter razorpay.verify_webhook razorpay.decoded
      razorpay.parsed
  razorpay_webhook_signed client h =
      let (event, e) = handle_verified-rejected "razorpay" _ t h in
      decoded (client.decode raw_body) e
    where
      signed :
          (r : Result (Unit {0}))
          → {event : PaymentEvent} → razorpay.parsed client settings raw_body r ≡ ok event
          → r ≡ ok tt
      signed (ok e) h = refl
      signed webhook_verification_error h = cc
      signed payment_error h = cc
      signed failed h = cc

      decoded :
          (o : Option String)
          → {event : PaymentEvent}
          → razorpay.decoded client settings raw_body (get_or headers "x-razorpay-signature" "") o
            ≡ ok event
          → (body : String) × (o ≡ some body)
            × (client.verify_webhook_signature body
                  (get_or headers "x-razorpay-signature" "")
                  (or_text settings.razorpay_webhook_secret "")
                ≡ ok tt)
      decoded none h = cc
      decoded (some body) h = (body, refl, signed _ h)

  verify_webhook-parsed :
      (client : razorpay.Client World) (signature : String) (body : String) (event : razorpay.Event)
      → client.decode raw_body ≡ some body
      → client.verify_webhook_signature body signature (or_text settings.razorpay_webhook_secret "")
        ≡ ok tt
      → client.loads raw_body ≡ some event
      → razorpay.verify_webhook client settings now raw_body signature
        ≡ ok (razorpay.to_payment_event settings event)
  unfolding razorpay.verify_webhook razorpay.decoded razorpay.parsed razorpay.loaded
  verify_webhook-parsed client signature body event d v l =
      ap (razorpay.decoded client settings raw_body signature) d
      ∙ ap (razorpay.parsed client settings raw_body) v
      ∙ ap (razorpay.loaded client settings) l

  -- The verified webhook of a cancelled Razorpay subscription, answered "ok", leaves the
  -- organization of its customer with the features of the free plan, whatever the row said before.
  pub razorpay_webhook_cancelled :
      (client : razorpay.Client World) (body : String) (event : razorpay.Event)
      (entity : razorpay.Entity) (org : Organization) (feature : String)
      → client.decode raw_body ≡ some body
      → client.verify_webhook_signature body
          (get_or headers "x-razorpay-signature" "")
          (or_text settings.razorpay_webhook_secret "")
        ≡ ok tt
      → client.loads raw_body ≡ some event
      → event.event ≡ some "subscription.cancelled"
      → event.entity ≡ some entity
      → entity.status ≡ some "cancelled"
      → keep (owns entity.customer_id) t.organizations ≡ org ∷ []
      → (payments_webhook (razorpay.adapter client settings) now headers raw_body t).0 ≡ reply "ok"
      → require_feature feature org.id
          (payments_webhook
            (razorpay.adapter client settings)
            now
            headers
            raw_body
            t).1.subscriptions
        ≡ plan_has_feature (some "free") feature
  unfolding payments_webhook razorpay.adapter handle_verified
  razorpay_webhook_cancelled client body event entity org feature d v l ev en st one answered =
      let e = verify_webhook-parsed client _ body event d v l in
      ap (λ r. require_feature feature org.id (handle_verified "razorpay" r t).1.subscriptions) e
      ∙ apply_event-revokes "razorpay" (razorpay.to_payment_event settings event) t org "canceled"
          feature
          (ap (λ c. keep (owns c) t.organizations) (entity_customer settings event entity en) ∙ one)
          (ap (contains subscription_events) (cancelled_kind settings event ev))
          (cancelled_status settings event entity en st)
          (λ e. ground (arith, eq_iff "canceled" "", e)) (ground arith)
          (sym (ap (λ r. (handle_verified "razorpay" r t).0) e) ∙ answered)
