-- ===== src/Billing/Router/Customers.antt =====
-- The routes of the checkout and of the portal, and the customer that they create at the provider.
use python_backend_manager.Prelude.Base.{
  String, inl, inr, Bool-cases, ◌≡◌, ◌≢◌, refl, Option, none, some, any, arith,
}
use python_backend_manager.Prelude.Uuid.{Uuid}
use python_backend_manager.Billing.Models.{Organization, Tables}
use python_backend_manager.Billing.Ports.{
  Result, ok, webhook_verification_error, payment_error, failed, PaymentsPort, Settings, or_text,
}
use python_backend_manager.Billing.Router.{reply}
use python_backend_manager.Billing.Router.Checkout.{
  get_org, shares_customer, CheckoutSessionRead, commit_org, checkout_reply, checkout_found,
  create_checkout_session,
}

commit_org-rollback :
    (answer : CheckoutSessionRead) (org : Organization) (t : Tables)
    → ((a : CheckoutSessionRead) → (commit_org answer org t).0 ≢ reply a)
    → (commit_org answer org t).1 ≡ t
unfolding commit_org
commit_org-rollback answer org t refused =
    elim (Bool-cases (any (shares_customer org) t.organizations)) [
      | inl e ↦ ground (arith, e)
      | inr e ↦ absurd (refused answer (ground (arith, e)))
    ]

-- Whatever the provider does, a checkout that is not answered with a URL leaves the tables as they
-- were, a customer id that the provider has created included.
pub create_checkout_session-rollback :
    {World : Type 0} (settings : Settings) (payments : PaymentsPort World) (org_id : Uuid)
    (plan : Option String) (t : Tables) (w : World)
    → ((answer : CheckoutSessionRead)
        → (create_checkout_session settings payments org_id plan t w).0 ≢ reply answer)
    → (create_checkout_session settings payments org_id plan t w).1 ≡ t
unfolding create_checkout_session checkout_found
create_checkout_session-rollback {World} settings payments org_id plan t w refused =
    found (get_org org_id t) refused
  where
    called :
        (r : Result (String × Organization) × World)
        → ((answer : CheckoutSessionRead) → (checkout_reply payments.name t r).0 ≢ reply answer)
        → (checkout_reply payments.name t r).1 ≡ t
    called (ok (url, org), w') h = commit_org-rollback _ org t h
    called (payment_error, w') h = refl
    called (webhook_verification_error, w') h = refl
    called (failed, w') h = refl

    found :
        (o : Option Organization)
        → ((answer : CheckoutSessionRead)
            → (checkout_found settings payments plan t w o).0 ≢ reply answer)
        → (checkout_found settings payments plan t w o).1 ≡ t
    found none h = refl
    found (some org) h =
        called (payments.start_checkout org (or_text plan settings.payments_default_plan) w) h
