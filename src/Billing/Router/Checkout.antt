-- ===== src/Billing/Router/Checkout.antt =====
-- The routes of an organization: the checkout, the customer portal, and its subscription, of
-- billing/router.py.jinja.
use python_backend_manager.Prelude.Base.{
  ℕ, String, Bool, true, false, not, ◌&&◌, Option, none, some, ◌==◌, any, find_first, update_where,
  if◌then◌else◌,
}
use python_backend_manager.Prelude.Uuid.{Uuid}
use python_backend_manager.Billing.Models.{Organization, Subscription, Tables}
use python_backend_manager.Billing.Ports.{
  Result, ok, webhook_verification_error, payment_error, failed, SubscriptionState, PaymentsPort,
  Settings, or_text,
}
use python_backend_manager.Billing.Router.{
  Reply, reply, bad_request, not_found, internal_server_error, of_org, owns,
}

-- `session.get(Organization, org_id)`, the row that `_get_org` returns or a 404.
unfoldable pub get_org : Uuid → Tables → Option Organization
get_org org_id t = find_first (λ o. o.id == org_id) t.organizations

-- The flush of the customer id that an adapter wrote.
abbrev pub save_org : Organization → Tables → Tables
save_org org t = record t {
  organizations =
      update_where (λ o. o.id == org.id)
        (λ o. record o { payments_customer_id = org.payments_customer_id }) t.organizations;
}

abbrev pub has_customer : Option String → Bool
has_customer none = false
has_customer (some id) = true

-- UNIQUE (payments_customer_id): another organization has the customer id of `org`.
abbrev pub shares_customer : Organization → Organization → Bool
shares_customer org o =
    has_customer org.payments_customer_id && owns org.payments_customer_id o && not (o.id == org.id)

-- `CheckoutSessionRead`, `PortalSessionRead` and `SubscriptionRead` of billing/schemas.py.
pub record CheckoutSessionRead : Type 0 where
  pub url : String
  pub provider : String

pub record PortalSessionRead : Type 0 where
  pub url : String

pub record SubscriptionRead : Type 0 where
  pub organization_id : Uuid
  pub provider : String
  pub provider_subscription_id : String
  pub status : String
  pub plan : String
  pub current_period_end : Option ℕ

abbrev pub of_row : Subscription → SubscriptionRead
of_row s = record {
  organization_id = s.organization_id;
  provider = s.provider;
  provider_subscription_id = s.provider_subscription_id;
  status = s.status;
  plan = s.plan;
  current_period_end = s.current_period_end;
}

-- The commit of a route that has called the provider with `org`.
unfoldable pub commit_org {ℓ} : {A : Type ℓ} → A → Organization → Tables → Reply A × Tables
commit_org answer org t =
    if any (shares_customer org) t.organizations
    then (internal_server_error, t)
    else (reply answer, save_org org t)

module _ {World : Type 0} where
  abbrev pub checkout_reply :
      String
      → Tables
      → Result (String × Organization) × World
      → Reply CheckoutSessionRead × Tables × World
  checkout_reply provider t (ok (url, org), w) =
      let (r, t') = commit_org (record { url = url; provider = provider }) org t in (r, t', w)
  checkout_reply provider t (payment_error, w) = (bad_request, t, w)
  checkout_reply provider t (webhook_verification_error, w) = (internal_server_error, t, w)
  checkout_reply provider t (failed, w) = (internal_server_error, t, w)

  unfoldable pub checkout_found :
      Settings
      → PaymentsPort World
      → Option String
      → Tables
      → World
      → Option Organization
      → Reply CheckoutSessionRead × Tables × World
  checkout_found settings payments plan t w none = (not_found, t, w)
  checkout_found settings payments plan t w (some org) =
      checkout_reply payments.name t
        (payments.start_checkout org (or_text plan settings.payments_default_plan) w)

  unfoldable pub create_checkout_session :
      Settings
      → PaymentsPort World
      → Uuid
      → Option String
      → Tables
      → World
      → Reply CheckoutSessionRead × Tables × World
  create_checkout_session settings payments org_id plan t w =
      checkout_found settings payments plan t w (get_org org_id t)

  abbrev pub portal_reply :
      Tables → Result (String × Organization) × World → Reply PortalSessionRead × Tables × World
  portal_reply t (ok (url, org), w) =
      let (r, t') = commit_org (record { url = url }) org t in (r, t', w)
  portal_reply t (webhook_verification_error, w) = (internal_server_error, t, w)
  portal_reply t (payment_error, w) = (internal_server_error, t, w)
  portal_reply t (failed, w) = (internal_server_error, t, w)

  unfoldable pub create_portal_session :
      PaymentsPort World → Uuid → Tables → World → Reply PortalSessionRead × Tables × World
  create_portal_session payments org_id t w = elim (get_org org_id t) [
    | none ↦ (not_found, t, w)
    | some org ↦ portal_reply t (payments.open_customer_portal org w)
  ]

  abbrev pub live_reply :
      String → Uuid → Result (Option SubscriptionState) × World → Reply SubscriptionRead × World
  live_reply provider org_id (ok (some state), w) = (
    reply (record {
      organization_id = org_id;
      provider = provider;
      provider_subscription_id = state.subscription_id;
      status = state.status;
      plan = state.plan;
      current_period_end = state.period_end;
    }),
    w,
  )
  live_reply provider org_id (ok none, w) = (not_found, w)
  live_reply provider org_id (webhook_verification_error, w) = (internal_server_error, w)
  live_reply provider org_id (payment_error, w) = (internal_server_error, w)
  live_reply provider org_id (failed, w) = (internal_server_error, w)

  -- The row that a webhook has synced, or the state that the provider reports.
  unfoldable pub get_subscription :
      PaymentsPort World → Uuid → Tables → World → Reply SubscriptionRead × World
  get_subscription payments org_id t w = elim (find_first (of_org org_id) t.subscriptions) [
    | some s ↦ (reply (of_row s), w)
    | none ↦ elim (get_org org_id t) [
      | none ↦ (not_found, w)
      | some org ↦ live_reply payments.name org_id (payments.get_subscription org w)
    ]
  ]

  abbrev pub cancel_reply : Result (Unit {0}) × World → Reply String × World
  cancel_reply (ok _, w) = (reply "canceled", w)
  cancel_reply (webhook_verification_error, w) = (internal_server_error, w)
  cancel_reply (payment_error, w) = (internal_server_error, w)
  cancel_reply (failed, w) = (internal_server_error, w)

  unfoldable pub cancel_subscription :
      PaymentsPort World → Uuid → Tables → World → Reply String × World
  cancel_subscription payments org_id t w = elim (get_org org_id t) [
    | none ↦ (not_found, w)
    | some org ↦ cancel_reply (payments.cancel org w)
  ]
