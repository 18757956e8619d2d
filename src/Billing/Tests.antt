-- ===== src/Billing/Tests.antt =====
-- The theorems on the webhook at a concrete provider and concrete tables.
use python_backend_manager.Prelude.Base.{
  ℕ, String, ◌≡◌, refl, Option, none, some, [], ◌∷◌, arith, eq_iff, str_eq, if◌then◌else◌,
}
use python_backend_manager.Prelude.Text.{lower_text}
use python_backend_manager.Prelude.Dict.{Dict, get_or}
use python_backend_manager.Billing.Models.{Organization, Subscription, Tables}
use python_backend_manager.Billing.Ports.{ok, webhook_verification_error, PaymentEvent, Settings}
use python_backend_manager.Billing.Entitlements.{plan_has_feature, require_feature}
use python_backend_manager.Billing.Adapters.{price_to_plan}
use python_backend_manager.Billing.Adapters.Razorpay as razorpay
use python_backend_manager.Billing.Router.{
  reply, sync_subscription, sync_found, sync_org, upsert, clashes,
}
use python_backend_manager.Billing.Router.Webhook.{
  apply_event, synced, handle_verified, payments_webhook,
}
use python_backend_manager.Billing.Router.Replay.{webhook_all, payments_webhook-replay}
use python_backend_manager.Billing.Router.Entitled.{apply_event-entitles}

abbrev settings : Settings
settings = record {
  payments_provider = "razorpay";
  payments_default_plan = "pro";
  payments_success_url = "https://app/success";
  payments_cancel_url = "https://app/cancel";
  payments_portal_return_url = "https://app";
  stripe_secret_key = none;
  stripe_webhook_secret = none;
  stripe_plan_to_price = [];
  razorpay_key_id = none;
  razorpay_key_secret = none;
  razorpay_webhook_secret = some "s";
  razorpay_plan_to_plan_id = ("pro", "plan_1") ∷ ("enterprise", "plan_2") ∷ [];
  razorpay_total_count = 12;
  razorpay_portal_url = "https://app";
}

abbrev cancelled : razorpay.Entity
cancelled = record {
  id = some "sub_1";
  status = some "cancelled";
  plan_id = some "plan_1";
  current_end = some 1700000000;
  customer_id = some "cust_1";
}

abbrev cancelled_event : razorpay.Event
cancelled_event = record {
  event = some "subscription.cancelled";
  created_at = some 5;
  entity = some cancelled;
}

abbrev client : razorpay.Client (Unit {0})
client = record {
  customer_create = λ name id w. (some "cust_2", w);
  subscription_create = λ plan customer count id w. (none, w);
  verify_webhook_signature = λ body signature secret.
      if str_eq signature "good" then ok tt else webhook_verification_error;
  subscription_all = λ customer w. (some [], w);
  subscription_cancel = λ subscription w. (some tt, w);
  decode = λ raw_body. some "{}";
  loads = λ raw_body. some cancelled_event;
}

abbrev organization : ℕ → Option String → Organization
organization id customer = record {
  id = id;
  name = "org";
  slug = "org";
  payments_customer_id = customer;
}

abbrev active_row : Subscription
active_row = record {
  organization_id = 1;
  provider = "razorpay";
  provider_subscription_id = "sub_1";
  status = "active";
  plan = "pro";
  current_period_end = none;
}

abbrev tables : Tables
tables = record {
  organizations = organization 1 (some "cust_1") ∷ organization 2 none ∷ [];
  subscriptions = active_row ∷ [];
  processed_events = [];
}

abbrev signed : Dict String
signed = ("x-razorpay-signature", "good") ∷ []

abbrev re_signed : Dict String
re_signed = ("content-length", "1") ∷ ("x-razorpay-signature", "good") ∷ []

abbrev cancelled_tables : Tables
cancelled_tables = (payments_webhook (razorpay.adapter client settings) 0 signed [] tables).1

-- The provider sends the event again later, in another request.

payments_webhook-replay_example :
    payments_webhook (razorpay.adapter client settings) 9 re_signed (b'x' ∷ []) cancelled_tables
    ≡ (reply "duplicate", cancelled_tables)
unfolding payments_webhook razorpay.adapter razorpay.verify_webhook razorpay.decoded razorpay.parsed
    razorpay.loaded razorpay.to_payment_event handle_verified apply_event synced get_or
    razorpay.normalize_status lower_text price_to_plan sync_subscription sync_found sync_org upsert
    clashes webhook_all
payments_webhook-replay_example =
    payments_webhook-replay (razorpay.adapter client settings) (razorpay.adapter client settings) 0
      9 signed re_signed [] (b'x' ∷ []) [] tables
      {event = razorpay.to_payment_event settings cancelled_event}
      {event' = razorpay.to_payment_event settings cancelled_event} refl refl refl refl refl

abbrev paid_event : PaymentEvent
paid_event = record {
  event_id = "evt_1";
  event_type = "subscription.updated";
  subscription_id = some "sub_2";
  status = some "active";
  plan = some "enterprise";
  period_end = none;
  customer_ref = some "cust_1";
}

-- The event of a subscription that has no customer is taken for that of the only organization
-- without one.
abbrev orphan_event : PaymentEvent
orphan_event = record paid_event { customer_ref = none }

apply_event-entitles_example :
    require_feature "sso" 2 (apply_event "razorpay" orphan_event tables).1.subscriptions
    ≡ plan_has_feature (some "enterprise") "sso"
unfolding apply_event synced sync_subscription sync_found sync_org upsert clashes
apply_event-entitles_example =
    apply_event-entitles "razorpay" orphan_event tables (organization 2 none) "active" "enterprise"
      "sso" refl refl refl refl (λ e. ground (arith, eq_iff "active" "", e))
      (λ e. ground (arith, eq_iff "enterprise" "", e)) refl
