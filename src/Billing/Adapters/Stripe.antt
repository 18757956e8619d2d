-- ===== src/Billing/Adapters/Stripe.antt =====
-- The Stripe adapter: billing/adapters/stripe.py. The SDK is a parameter; each of its calls takes
-- the API key that `_configure` sets just before it, and returns nothing where it raises.
use python_backend_manager.Prelude.Base.{ℕ, String, Option, none, some, List, [], ◌∷◌}
use python_backend_manager.Prelude.Uuid.{Uuid}
use python_backend_manager.Prelude.Bytes.{Bytes}
use python_backend_manager.Prelude.Dict.{Dict, get_or}
use python_backend_manager.Billing.Models.{Organization}
use python_backend_manager.Billing.Ports.{
  Result, ok, webhook_verification_error, payment_error, failed, PaymentEvent, SubscriptionState,
  PaymentsPort, Settings, Call, SdkCall, pure, lift, raise_or, ◌>>=◌, or_text,
  event_subscription_created, event_subscription_updated, event_subscription_deleted, event_ignored,
}
use python_backend_manager.Billing.Adapters.{plan_to_price, price_to_plan, ensure_customer}

abbrev pub event_map : Dict String
event_map =
    ("customer.subscription.created", event_subscription_created)
    ∷ ("customer.subscription.updated", event_subscription_updated)
    ∷ ("customer.subscription.deleted", event_subscription_deleted)
    ∷ []

-- The object of an event, by the keys that `_to_payment_event` gets: a missing key is `none`, and
-- `items` are the ids of the prices of its items.
pub record EventObject : Type 0 where
  pub id : Option String
  pub status : Option String
  pub items : List String
  pub current_period_end : Option ℕ
  pub customer : Option String

pub record Event : Type 0 where
  pub id : String
  pub type : String
  pub object : Option EventObject

-- A subscription of `Subscription.list`: `id` and `status` are required keys there.
pub record ListedSubscription : Type 0 where
  pub id : String
  pub status : String
  pub items : List String
  pub current_period_end : Option ℕ

-- The calls of the SDK that the adapter makes. `construct_event` is made at a time, by which it
-- refuses a signature that is too old.
pub record Sdk (World : Type 0) : Type 0 where
  pub customer_create : Option String → String → Uuid → SdkCall World String
  pub checkout_create : Option String → String → String → String → String → SdkCall World String
  pub portal_create : Option String → String → String → SdkCall World String
  pub construct_event : ℕ → Bytes → String → String → Result Event
  pub subscription_list : Option String → String → SdkCall World (List ListedSubscription)
  pub subscription_cancel : Option String → String → SdkCall World (Unit {0})

abbrev pub empty_object : EventObject
empty_object = record {
  id = none;
  status = none;
  items = [];
  current_period_end = none;
  customer = none;
}

-- `event.get("data", {}).get("object", {})`
abbrev pub object_of : Option EventObject → EventObject
object_of none = empty_object
object_of (some object) = object

-- `items[0]["price"]["id"] if items else None`
abbrev pub first_price : List String → Option String
first_price [] = none
first_price (price ∷ items) = some price

unfoldable pub to_payment_event : Settings → Event → PaymentEvent
to_payment_event settings event =
    let obj = object_of event.object in
    record {
      event_id = event.id;
      event_type = get_or event_map event.type event_ignored;
      subscription_id = obj.id;
      status = obj.status;
      plan = some (price_to_plan settings.stripe_plan_to_price (first_price obj.items));
      period_end = obj.current_period_end;
      customer_ref = obj.customer;
    }

-- `construct_event` raises a `ValueError` or a `SignatureVerificationError`, which the adapter
-- turns into a `WebhookVerificationError`, or another exception, which passes.
abbrev pub verified : Settings → Result Event → Result PaymentEvent
verified settings (ok event) = ok (to_payment_event settings event)
verified settings webhook_verification_error = webhook_verification_error
verified settings payment_error = failed
verified settings failed = failed

module _ {World : Type 0} (sdk : Sdk World) (settings : Settings) where
  unfoldable pub start_checkout : Organization → String → Call World (String × Organization)
  start_checkout account plan = do
    price_id ← raise_or (plan_to_price settings.stripe_plan_to_price plan)
    (customer_id, account') ←
        ensure_customer (sdk.customer_create settings.stripe_secret_key) account
    url ← lift (
        sdk.checkout_create settings.stripe_secret_key customer_id price_id
          settings.payments_success_url settings.payments_cancel_url)
    pure (url, account')

  unfoldable pub open_customer_portal : Organization → Call World (String × Organization)
  open_customer_portal account = do
    (customer_id, account') ←
        ensure_customer (sdk.customer_create settings.stripe_secret_key) account
    url ← lift (
        sdk.portal_create settings.stripe_secret_key customer_id
          settings.payments_portal_return_url)
    pure (url, account')

  unfoldable pub verify_webhook : ℕ → Bytes → String → Result PaymentEvent
  verify_webhook now raw_body signature =
      verified settings
        (sdk.construct_event now raw_body signature (or_text settings.stripe_webhook_secret ""))

  unfoldable pub listed_state : List ListedSubscription → Option SubscriptionState
  listed_state [] = none
  listed_state (sub ∷ rest) = some (record {
    subscription_id = sub.id;
    status = sub.status;
    plan = price_to_plan settings.stripe_plan_to_price (first_price sub.items);
    period_end = sub.current_period_end;
  })

  unfoldable pub get_subscription : Organization → Call World (Option SubscriptionState)
  get_subscription account = elim account.payments_customer_id [
    | none ↦ pure none
    | some customer ↦ do
      subs ← lift (sdk.subscription_list settings.stripe_secret_key customer)
      pure (listed_state subs)
  ]

  cancel_state : Option SubscriptionState → Call World (Unit {0})
  cancel_state none = pure tt
  cancel_state (some state) =
      lift (sdk.subscription_cancel settings.stripe_secret_key state.subscription_id)

  unfoldable pub cancel : Organization → Call World (Unit {0})
  unfolding cancel_state
  cancel account = do state ← get_subscription account; cancel_state state

  unfoldable pub adapter : PaymentsPort World
  adapter = record {
    name = "stripe";
    signature_header = "stripe-signature";
    start_checkout = start_checkout;
    open_customer_portal = open_customer_portal;
    verify_webhook = verify_webhook;
    get_subscription = get_subscription;
    cancel = cancel;
  }
