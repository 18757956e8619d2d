-- ===== src/Billing/Router.antt =====
-- The billing routes: billing/router.py.jinja. The guard on the membership of the caller has passed.
-- A route returns the tables that it commits; where it raises, the session is rolled back.
pub mod Webhook
pub mod Checkout
pub mod Replay
pub mod Entitled
pub mod Isolated
pub mod Rows
pub mod Unique
pub mod Customers
use python_backend_manager.Prelude.Base.{
  ℕ, String, Bool, true, false, not, ◌&&◌, Option, none, some, List, [], ◌∷◌, ◌==◌, any, keep,
  find_first, update_where, str_eq, if◌then◌else◌,
}
use python_backend_manager.Prelude.Uuid.{Uuid}
use python_backend_manager.Prelude.Bytes.{Bytes}
use python_backend_manager.Billing.Models.{Organization, Subscription, ProcessedEvent, Tables}
use python_backend_manager.Billing.Ports.{
  Result, ok, webhook_verification_error, payment_error, failed, PaymentEvent, SubscriptionState,
  PaymentsPort, Settings, subscription_events, or_text,
}
use python_backend_manager.Billing.Entitlements.{free_plan, contains}

-- `internal_server_error` is an exception that the route does not catch.
pub data Reply {ℓ} (A : Type ℓ) : Type ℓ where
  reply : A → Reply A
  bad_request not_found internal_server_error : Reply A

-- `column == value` in a query: SQLAlchemy writes `IS NULL` for a `None`.
abbrev pub column_eq : Option String → Option String → Bool
column_eq none none = true
column_eq (some a) (some b) = str_eq a b
column_eq _ _ = false

-- `result.scalar_one_or_none()`, which raises where there are several rows.
abbrev pub scalar_one_or_none {ℓ} : {A : Type ℓ} → List A → Result (Option A)
scalar_one_or_none [] = ok none
scalar_one_or_none (x ∷ []) = ok (some x)
scalar_one_or_none (x ∷ y ∷ xs) = failed

abbrev pub owns : Option String → Organization → Bool
owns customer_ref o = column_eq o.payments_customer_id customer_ref

abbrev pub of_org : Uuid → Subscription → Bool
of_org org s = s.organization_id == org

abbrev pub new_subscription : String → PaymentEvent → Uuid → Subscription
new_subscription provider event org = record {
  organization_id = org;
  provider = provider;
  provider_subscription_id = or_text event.subscription_id "";
  status = or_text event.status "";
  plan = or_text event.plan free_plan;
  current_period_end = event.period_end;
}

abbrev pub updated : String → PaymentEvent → Subscription → Subscription
updated provider event s = record s {
  provider = provider;
  provider_subscription_id = or_text event.subscription_id s.provider_subscription_id;
  status = or_text event.status s.status;
  plan = or_text event.plan s.plan;
  current_period_end = event.period_end;
}

-- The subscriptions with the row of `org` inserted or updated.
unfoldable pub upsert : String → PaymentEvent → Uuid → List Subscription → List Subscription
upsert provider event org rows = elim (find_first (of_org org) rows) [
  | none ↦ new_subscription provider event org ∷ rows
  | some s ↦ update_where (of_org org) (updated provider event) rows
]

-- The row of `org` after the upsert would share its provider's id with the row of another
-- organization: the commit violates UNIQUE (provider_subscription_id).
abbrev pub same_subscription : Subscription → Subscription → Bool
same_subscription s r =
    str_eq r.provider_subscription_id s.provider_subscription_id
    && not (r.organization_id == s.organization_id)

unfoldable pub clashes : Option Subscription → List Subscription → Bool
clashes none rows = false
clashes (some s) rows = any (same_subscription s) rows

-- The event of a known organization.
unfoldable pub sync_org : String → PaymentEvent → Tables → Organization → Result Tables
sync_org provider event t org =
    let rows = upsert provider event org.id t.subscriptions in
    if clashes (find_first (of_org org.id) rows) rows
    then failed
    else ok (record t { subscriptions = rows })

unfoldable pub sync_found :
    String → PaymentEvent → Tables → Result (Option Organization) → Result Tables
sync_found provider event t (ok none) = ok t
sync_found provider event t (ok (some org)) = sync_org provider event t org
sync_found provider event t webhook_verification_error = failed
sync_found provider event t payment_error = failed
sync_found provider event t failed = failed

unfoldable pub sync_subscription : String → PaymentEvent → Tables → Result Tables
sync_subscription provider event t =
    sync_found provider event t
      (scalar_one_or_none (keep (owns event.customer_ref) t.organizations))
