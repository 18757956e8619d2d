-- ===== src/Metering/Router/Api.antt =====
-- The routes of metering/router.py.jinja with the schemas of metering/schemas.py, for a service with
-- billing and roles. `caller` is the id of the user who is logged in. A call that raises an
-- `IntegrityError` is a server error.
pub mod Money
pub mod Summary
use python_backend_manager.Prelude.Base.{
  ℕ, String, Bool, true, false, ◌&&◌, Option, none, some, List, ◌==◌, leb, keep, length, map,
  if◌then◌else◌,
}
use python_backend_manager.Prelude.Int.{ℤ, pos, negsuc, ltb_ℤ}
use python_backend_manager.Prelude.Dict.{Dict}
use python_backend_manager.Prelude.Bytes.{codes}
use python_backend_manager.Prelude.Uuid.{Uuid}
use python_backend_manager.Tenancy.Models.{Membership}
use python_backend_manager.Tenancy.Router.{get_current_membership}
use python_backend_manager.Rbac.Permissions.{require_role}
use python_backend_manager.Billing.Models.{Subscription}
use python_backend_manager.Metering.RateCards.{default_currency}
use python_backend_manager.Metering.Models.{
  InvoiceStatus, open_invoice, paid, uncollectible, Json, Invoice, CustomerWallet, Tables, Result,
  ok, integrity_error,
}
use python_backend_manager.Metering.Usage.{record_usage, usage_for_period}
use python_backend_manager.Metering.Wallet.{get_wallet, top_up}
use python_backend_manager.Metering.Router.{period_start, close_invoice}

pub record UsageRecord : Type 0 where
  pub meter : String
  pub quantity : ℤ
  pub idempotency_key : String

pub record UsageSummary : Type 0 where
  pub period_start : ℕ
  pub period_end : ℕ
  pub usage : Dict ℕ

pub record WalletTopUp : Type 0 where
  pub amount_cents : ℤ
  pub idempotency_key : String

pub record WalletRead : Type 0 where
  pub balance_cents : ℤ
  pub currency : String

pub record InvoiceRead : Type 0 where
  pub id : Uuid
  pub period_start : ℕ
  pub period_end : ℕ
  pub status : String
  pub currency : String
  pub total_cents : ℕ
  pub plan : String
  pub lines : List (Dict Json)

-- The answers, by their status.
pub data Reply {ℓ} (A : Type ℓ) : Type ℓ where
  done : A → Reply A
  forbidden not_found unprocessable server_error : Reply A

abbrev pub status_text : InvoiceStatus → String
status_text open_invoice = "open"
status_text paid = "paid"
status_text uncollectible = "uncollectible"

abbrev pub invoice_read : Invoice → InvoiceRead
invoice_read i = record {
  id = i.id;
  period_start = i.period_start;
  period_end = i.period_end;
  status = status_text i.status;
  currency = i.currency;
  total_cents = i.total_cents;
  plan = i.plan;
  lines = i.lines;
}

abbrev pub wallet_read : Option CustomerWallet → WalletRead
wallet_read none = record { balance_cents = pos 0; currency = default_currency }
wallet_read (some w) = record { balance_cents = w.balance_cents; currency = w.currency }

abbrev pub fits : ℕ → String → Bool
fits bound text = leb (length (codes text)) bound

-- The answer of a call of the service.
abbrev pub answered : {A B : Type 0} → (A → B) → Result A × Tables → Reply B × Tables
answered f (ok a, t) = (done (f a), t)
answered f (integrity_error, t) = (server_error, t)

-- `Depends(get_current_membership)` and `Depends(require_role(ADMIN))`.
module _ {A : Type 0} (t : Tables) where
  unfoldable pub for_member : Option Membership → Reply A × Tables → Reply A × Tables
  for_member none run = (not_found, t)
  for_member (some m) run = run

  unfoldable pub for_admin : Option Membership → Reply A × Tables → Reply A × Tables
  for_admin none run = (not_found, t)
  for_admin (some m) run = if require_role "admin" m.role then run else (forbidden, t)

-- `quantity: int = Field(ge=0)`: the quantity is a natural number from here on.
unfoldable pub recorded : Uuid → String → ℤ → String → ℕ → Tables → Reply Bool × Tables
recorded org meter (negsuc n) key now t = (unprocessable, t)
recorded org meter (pos quantity) key now t =
    if fits 64 meter && fits 255 key
    then answered (λ b. b) (record_usage org meter quantity key now t)
    else (unprocessable, t)

-- POST usage
unfoldable pub record_usage_route :
    Uuid → Uuid → UsageRecord → ℕ → List Membership → Tables → Reply Bool × Tables
record_usage_route org caller payload now memberships t =
    for_member t (get_current_membership org caller memberships)
      (recorded org payload.meter payload.quantity payload.idempotency_key now t)

-- GET usage; `now` is the time of the request.
unfoldable pub usage_summary : Uuid → ℕ → Tables → UsageSummary
usage_summary org now t = record {
  period_start = period_start org t;
  period_end = now;
  usage = usage_for_period org (period_start org t) now t;
}

abbrev pub read_as {ℓ} : {A : Type ℓ} → Option Membership → A → Reply A
read_as none answer = not_found
read_as (some m) answer = done answer

unfoldable pub usage_summary_route : Uuid → Uuid → ℕ → List Membership → Tables → Reply UsageSummary
usage_summary_route org caller now memberships t =
    read_as (get_current_membership org caller memberships) (usage_summary org now t)

-- POST wallet/top-up
unfoldable pub topped_up :
    Uuid → WalletTopUp → Uuid → Uuid → Tables → Tables → Reply WalletRead × Tables
topped_up org payload id id' seen t =
    if ltb_ℤ (pos 0) payload.amount_cents && fits 255 payload.idempotency_key
    then answered (λ w. wallet_read (some w))
        (top_up org payload.amount_cents payload.idempotency_key default_currency id id' seen t)
    else (unprocessable, t)

unfoldable pub top_up_wallet :
    Uuid
    → Uuid
    → WalletTopUp
    → Uuid
    → Uuid
    → List Membership
    → Tables
    → Tables
    → Reply WalletRead × Tables
top_up_wallet org caller payload id id' memberships seen t =
    for_admin t (get_current_membership org caller memberships)
      (topped_up org payload id id' seen t)

-- GET wallet
unfoldable pub get_wallet_route : Uuid → Uuid → List Membership → Tables → Reply WalletRead
get_wallet_route org caller memberships t =
    read_as (get_current_membership org caller memberships) (wallet_read (get_wallet org t))

-- POST invoices
unfoldable pub close_invoice_route :
    Uuid
    → Uuid
    → List Subscription
    → Uuid
    → ℕ
    → ℕ
    → ℕ
    → List Membership
    → Tables
    → Reply InvoiceRead × Tables
close_invoice_route org caller subscriptions id now inserted later memberships t =
    for_admin t (get_current_membership org caller memberships)
      (answered invoice_read (close_invoice org subscriptions id now inserted later t))

-- GET invoices: the rows stand newest first.
unfoldable pub list_invoices : Uuid → Uuid → List Membership → Tables → Reply (List InvoiceRead)
list_invoices org caller memberships t =
    read_as (get_current_membership org caller memberships)
      (map invoice_read (keep (λ i. i.organization_id == org) t.invoices))
