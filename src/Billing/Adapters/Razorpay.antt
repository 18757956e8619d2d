-- ===== src/Billing/Adapters/Razorpay.antt =====
-- The Razorpay adapter: billing/adapters/razorpay.py. The client of the SDK is a parameter, and so
-- are the two steps from the raw body to its text and to its JSON object.
use Prim.Native.String.{◌++◌ as append}
use python_backend_manager.Prelude.Base.{
  ℕ, String, Option, none, some, List, [], ◌∷◌, str_eq, if◌then◌else◌,
}
use python_backend_manager.Prelude.Uuid.{Uuid}
use python_backend_manager.Prelude.Bytes.{Bytes}
use python_backend_manager.Prelude.Dict.{Dict, get_or}
use python_backend_manager.Prelude.Text.{decimal, lower_text}
use python_backend_manager.Billing.Models.{Organization}
use python_backend_manager.Billing.Ports.{
  Result, ok, webhook_verification_error, payment_error, failed, PaymentEvent, SubscriptionState,
  PaymentsPort, Settings, Call, SdkCall, pure, lift, raise_or, ◌>>=◌, or_text,
  event_subscription_created, event_subscription_updated, event_subscription_deleted, event_ignored,
}
use python_backend_manager.Billing.Adapters.{plan_to_price, price_to_plan, ensure_customer}

abbrev pub event_map : Dict String
event_map =
    ("subscription.activated", event_subscription_created)
    ∷ ("subscription.authenticated", event_subscription_updated)
    ∷ ("subscription.charged", event_subscription_updated)
    ∷ ("subscription.updated", event_subscription_updated)
    ∷ ("subscription.pending", event_subscription_updated)
    ∷ ("subscription.halted", event_subscription_updated)
    ∷ ("subscription.paused", event_subscription_updated)
    ∷ ("subscription.resumed", event_subscription_updated)
    ∷ ("subscription.cancelled", event_subscription_deleted)
    ∷ ("subscription.completed", event_subscription_deleted)
    ∷ ("subscription.expired", event_subscription_deleted)
    ∷ []

abbrev american : String → String
american s = if str_eq s "cancelled" then "canceled" else s

unfoldable pub normalize_status : Option String → Option String
normalize_status none = none
normalize_status (some status) = some (american (lower_text status))

-- The entity of a subscription, by the keys that the adapter gets: a missing key is `none`.
pub record Entity : Type 0 where
  pub id : Option String
  pub status : Option String
  pub plan_id : Option String
  pub current_end : Option ℕ
  pub customer_id : Option String

pub record Event : Type 0 where
  pub event : Option String
  pub created_at : Option ℕ
  pub entity : Option Entity

-- A subscription of `subscription.all`: `id` is a required key there.
pub record ListedSubscription : Type 0 where
  pub id : String
  pub status : Option String
  pub plan_id : Option String
  pub current_end : Option ℕ

-- The calls that the adapter makes, and `raw_body.decode("utf-8")` and `json.loads(raw_body)`.
pub record Client (World : Type 0) : Type 0 where
  pub customer_create : String → Uuid → SdkCall World String
  pub subscription_create : String → String → ℕ → Uuid → SdkCall World String
  pub verify_webhook_signature : String → String → String → Result (Unit {0})
  pub subscription_all : String → SdkCall World (List ListedSubscription)
  pub subscription_cancel : String → SdkCall World (Unit {0})
  pub decode : Bytes → Option String
  pub loads : Bytes → Option Event

abbrev pub empty_entity : Entity
empty_entity = record {
  id = none;
  status = none;
  plan_id = none;
  current_end = none;
  customer_id = none;
}

-- `event.get("payload", {}).get("subscription", {}).get("entity", {})`
abbrev pub entity_of : Option Entity → Entity
entity_of none = empty_entity
entity_of (some entity) = entity

-- `event.get("event", "")`
abbrev pub name_of : Option String → String
name_of none = ""
name_of (some name) = name

-- The text of an optional value in an f-string.
abbrev pub text_or_none : Option String → String
text_or_none none = "None"
text_or_none (some t) = t

abbrev pub decimal_or_none : Option ℕ → String
decimal_or_none none = "None"
decimal_or_none (some n) = decimal n

-- `f"{name}:{subscription_id}:{created_at}"`
unfoldable pub event_key : String → Option String → Option ℕ → String
event_key name subscription_id created_at =
    append name
      (append ":" (append (text_or_none subscription_id) (append ":" (decimal_or_none created_at))))

-- `_plan_to_plan_id`, `_plan_id_to_plan` and `_ensure_customer`: as in the other adapter.
abbrev pub plan_to_plan_id : Settings → String → Result String
plan_to_plan_id settings plan = plan_to_price settings.razorpay_plan_to_plan_id plan

abbrev pub plan_id_to_plan : Settings → Option String → String
plan_id_to_plan settings plan_id = price_to_plan settings.razorpay_plan_to_plan_id plan_id

abbrev pub customer_of :
    {World : Type 0} → Client World → Organization → Call World (String × Organization)
customer_of client account = ensure_customer client.customer_create account

unfoldable pub to_payment_event : Settings → Event → PaymentEvent
to_payment_event settings event =
    let name = name_of event.event in
    let entity = entity_of event.entity in
    record {
      event_id = event_key name entity.id event.created_at;
      event_type = get_or event_map name event_ignored;
      subscription_id = entity.id;
      status = normalize_status entity.status;
      plan = some (plan_id_to_plan settings entity.plan_id);
      period_end = entity.current_end;
      customer_ref = entity.customer_id;
    }

module _ {World : Type 0} (client : Client World) (settings : Settings) where
  unfoldable pub start_checkout : Organization → String → Call World (String × Organization)
  start_checkout account plan = do
    plan_id ← raise_or (plan_to_plan_id settings plan)
    (customer_id, account') ← customer_of client account
    url ←
        lift
          (client.subscription_create plan_id customer_id settings.razorpay_total_count account'.id)
    pure (url, account')

  unfoldable pub open_customer_portal : Organization → Call World (String × Organization)
  open_customer_portal account = pure (settings.razorpay_portal_url, account)

  -- `_to_payment_event(json.loads(raw_body))`, once the signature is verified.
  unfoldable pub loaded : Option Event → Result PaymentEvent
  loaded none = failed
  loaded (some event) = ok (to_payment_event settings event)

  unfoldable pub parsed : Bytes → Result (Unit {0}) → Result PaymentEvent
  parsed raw_body (ok _) = loaded (client.loads raw_body)
  parsed raw_body webhook_verification_error = webhook_verification_error
  parsed raw_body payment_error = failed
  parsed raw_body failed = failed

  unfoldable pub decoded : Bytes → String → Option String → Result PaymentEvent
  decoded raw_body signature none = failed
  decoded raw_body signature (some body) =
      parsed raw_body (
        client.verify_webhook_signature body signature
          (or_text settings.razorpay_webhook_secret ""))

  unfoldable pub verify_webhook : ℕ → Bytes → String → Result PaymentEvent
  verify_webhook now raw_body signature = decoded raw_body signature (client.decode raw_body)

  unfoldable pub listed_state : List ListedSubscription → Option SubscriptionState
  listed_state [] = none
  listed_state (sub ∷ rest) = some (record {
    subscription_id = sub.id;
    status = or_text (normalize_status sub.status) "unknown";
    plan = plan_id_to_plan settings sub.plan_id;
    period_end = sub.current_end;
  })

  unfoldable pub get_subscription : Organization → Call World (Option SubscriptionState)
  get_subscription account = elim account.payments_customer_id [
    | none ↦ pure none
    | some customer ↦ do subs ← lift (client.subscription_all customer); pure (listed_state subs)
  ]

  unfoldable pub cancel_state : Option SubscriptionState → Call World (Unit {0})
  cancel_state none = pure tt
  cancel_state (some state) = lift (client.subscription_cancel state.subscription_id)

  unfoldable pub cancel : Organization → Call World (Unit {0})
  cancel account = do state ← get_subscription account; cancel_state state

  unfoldable pub adapter : PaymentsPort World
  adapter = record {
    name = "razorpay";
    signature_header = "x-razorpay-signature";
    start_checkout = start_checkout;
    open_customer_portal = open_customer_portal;
    verify_webhook = verify_webhook;
    get_subscription = get_subscription;
    cancel = cancel;
  }
