-- ===== src/Billing/Adapters.antt =====
-- What the two payment adapters share: the lookups between internal plans and the plans of the
-- provider, and the customer that is created at its first use. Both files of billing/adapters
-- write them out in the same words.
pub mod Stripe
pub mod Razorpay
pub mod Plans
pub mod Webhooks
use python_backend_manager.Prelude.Base.{
  String, Option, none, some, List, [], ◌∷◌, str_eq, if◌then◌else◌,
}
use python_backend_manager.Prelude.Uuid.{Uuid}
use python_backend_manager.Prelude.Dict.{Dict, get}
use python_backend_manager.Billing.Models.{Organization}
use python_backend_manager.Billing.Ports.{
  Result, ok, payment_error, Call, SdkCall, pure, lift, ◌>>=◌,
}
use python_backend_manager.Billing.Entitlements.{free_plan}

-- `price_id = prices.get(plan)`, and a `PaymentError` `if not price_id`
abbrev configured : Option String → Result String
configured none = payment_error
configured (some price) = if str_eq price "" then payment_error else ok price

unfoldable pub plan_to_price : Dict String → String → Result String
plan_to_price prices plan = configured (get prices plan)

-- The loop over `prices.items()`.
unfoldable pub first_plan : Dict String → String → String
first_plan [] price = free_plan
first_plan ((plan, p) ∷ prices) price = if str_eq p price then plan else first_plan prices price

unfoldable pub price_to_plan : Dict String → Option String → String
price_to_plan prices none = free_plan
price_to_plan prices (some price) = if str_eq price "" then free_plan else first_plan prices price

-- `_ensure_customer`: `create` is the call of the SDK, on the name and the id of the account.
unfoldable pub ensure_customer {ℓ} :
    {World : Type ℓ}
    → (String → Uuid → SdkCall World String)
    → Organization
    → Call World (String × Organization)
ensure_customer create account = elim account.payments_customer_id [
  | some existing ↦ pure (existing, account)
  | none ↦ do
    customer_id ← lift (create account.name account.id)
    pure (customer_id, record account { payments_customer_id = some customer_id })
]
