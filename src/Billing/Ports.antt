-- ===== src/Billing/Ports.antt =====
-- What the application asks of a payments provider: billing/ports.py. A call of a provider takes
-- the provider's own state, a parameter, and returns it changed; an exception is a result. The
-- account that a call may write is returned with its value, and the first argument of
-- `verify_webhook` is the time of the call, which a check of a signature may read.
use python_backend_manager.Prelude.Base.{
  ℕ, String, Bool, true, false, Option, none, some, List, [], ◌∷◌, str_eq, if◌then◌else◌,
}
use python_backend_manager.Prelude.Bytes.{Bytes}
use python_backend_manager.Prelude.Dict.{Dict}
use python_backend_manager.Billing.Models.{Organization}

-- `failed` is every other exception: an error of the SDK, or one of decoding the body.
pub data Result {ℓ} (A : Type ℓ) : Type ℓ where
  ok : A → Result A
  webhook_verification_error payment_error failed : Result A

-- A call of a provider, and a call of its SDK: `none` is an exception of the SDK.
abbrev pub Call {ℓ κ} : Type ℓ → Type κ → Type (ℓ ⊔ κ)
Call World A = World → Result A × World

abbrev pub SdkCall {ℓ κ} : Type ℓ → Type κ → Type (ℓ ⊔ κ)
SdkCall World A = World → Option A × World

module _ {ℓ κ} {World : Type ℓ} {A : Type κ} where
  abbrev pub pure : A → Call World A
  pure a w = (ok a, w)

  abbrev pub raise_or : Result A → Call World A
  raise_or result w = (result, w)

  abbrev pub lifted : Option A × World → Result A × World
  lifted (some a, w) = (ok a, w)
  lifted (none, w) = (failed, w)

  abbrev pub lift : SdkCall World A → Call World A
  lift call w = lifted (call w)

module _ {ℓ κ ι} {World : Type ℓ} {A : Type κ} {B : Type ι} where
  abbrev pub continue : (A → Call World B) → Result A × World → Result B × World
  continue f (ok a, w) = f a w
  continue f (webhook_verification_error, w) = (webhook_verification_error, w)
  continue f (payment_error, w) = (payment_error, w)
  continue f (failed, w) = (failed, w)

  infixl 5 ◌>>=◌
  abbrev pub ◌>>=◌ : Call World A → (A → Call World B) → Call World B
  ◌>>=◌ call f w = continue f (call w)

abbrev pub event_subscription_created : String
event_subscription_created = "subscription.created"

abbrev pub event_subscription_updated : String
event_subscription_updated = "subscription.updated"

abbrev pub event_subscription_deleted : String
event_subscription_deleted = "subscription.deleted"

abbrev pub event_ignored : String
event_ignored = "ignored"

abbrev pub subscription_events : List String
subscription_events =
    event_subscription_created ∷ event_subscription_updated ∷ event_subscription_deleted ∷ []

pub record PaymentEvent : Type 0 where
  pub event_id : String
  pub event_type : String
  pub subscription_id : Option String
  pub status : Option String
  pub plan : Option String
  pub period_end : Option ℕ
  pub customer_ref : Option String

pub record SubscriptionState : Type 0 where
  pub subscription_id : String
  pub status : String
  pub plan : String
  pub period_end : Option ℕ

pub record PaymentsPort (World : Type 0) : Type 0 where
  pub name : String
  pub signature_header : String
  pub start_checkout : Organization → String → Call World (String × Organization)
  pub open_customer_portal : Organization → Call World (String × Organization)
  pub verify_webhook : ℕ → Bytes → String → Result PaymentEvent
  pub get_subscription : Organization → Call World (Option SubscriptionState)
  pub cancel : Organization → Call World (Unit {0})

-- The settings of core/config.py that the adapters and the routes read.
pub record Settings : Type 0 where
  pub payments_provider : String
  pub payments_default_plan : String
  pub payments_success_url : String
  pub payments_cancel_url : String
  pub payments_portal_return_url : String
  pub stripe_secret_key : Option String
  pub stripe_webhook_secret : Option String
  pub stripe_plan_to_price : Dict String
  pub razorpay_key_id : Option String
  pub razorpay_key_secret : Option String
  pub razorpay_webhook_secret : Option String
  pub razorpay_plan_to_plan_id : Dict String
  pub razorpay_total_count : ℕ
  pub razorpay_portal_url : String

-- `value or default`: `None` and the empty text are false.
abbrev pub or_text : Option String → String → String
or_text none default = default
or_text (some t) default = if str_eq t "" then default else t

abbrev pub is_set : Option String → Bool
is_set none = false
is_set (some t) = if str_eq t "" then false else true
