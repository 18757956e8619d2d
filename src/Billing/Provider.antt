-- ===== src/Billing/Provider.antt =====
-- The choice of the payments provider: billing/provider.py. The factories get the SDKs, which are
-- parameters.
use python_backend_manager.Prelude.Base.{Option, [], ◌∷◌}
use python_backend_manager.Prelude.Dict.{Dict, get}
use python_backend_manager.Billing.Ports.{PaymentsPort, Settings}
use python_backend_manager.Billing.Adapters.Stripe.{Sdk, adapter as stripe_adapter}
use python_backend_manager.Billing.Adapters.Razorpay.{Client, adapter as razorpay_adapter}

module _ {World : Type 0} (sdk : Sdk World) (client : Client World) (settings : Settings) where
  abbrev providers : Dict (PaymentsPort World)
  providers =
      ("stripe", stripe_adapter sdk settings) ∷ ("razorpay", razorpay_adapter client settings) ∷ []

  -- An unknown provider is a `RuntimeError`, here `none`.
  unfoldable pub get_payments_provider : Option (PaymentsPort World)
  get_payments_provider = get providers settings.payments_provider
