-- ===== src/Metering/Models.antt =====
-- The metering tables, metering/models.py: the rows, and the constraints that an INSERT meets. A
-- table is the list of its rows, newest first. A datetime is the number of microseconds since
-- 1970-01-01. An id of a row that no code reads is left out.
use python_backend_manager.Prelude.Base.{
  ℕ, String, Bool, not, ◌&&◌, ◌||◌, Option, none, some, List, ◌∷◌, ◌==◌, any, str_eq, if◌then◌else◌,
}
use python_backend_manager.Prelude.Int.{ℤ}
use python_backend_manager.Prelude.Dict.{Dict}
use python_backend_manager.Prelude.Uuid.{Uuid}

pub record UsageEvent : Type 0 where
  pub organization_id : Uuid
  pub meter : String
  pub quantity : ℕ
  pub idempotency_key : String
  pub created_at : ℕ

-- `_OPEN`, `_PAID` and `_UNCOLLECTIBLE` of metering/service.py, the values of `Invoice.status`.
pub data InvoiceStatus : Type 0 where
  open_invoice paid uncollectible : InvoiceStatus

-- A value of the JSON column `lines`.
pub data Json : Type 0 where
  null : Json
  number : ℕ → Json
  text : String → Json

pub record Invoice : Type 0 where
  pub id : Uuid
  pub organization_id : Uuid
  pub period_start : ℕ
  pub period_end : ℕ
  pub status : InvoiceStatus
  pub currency : String
  pub total_cents : ℕ
  pub plan : String
  pub lines : List (Dict Json)
  pub created_at : ℕ
  pub charged_at : Option ℕ

pub record CustomerWallet : Type 0 where
  pub id : Uuid
  pub organization_id : Uuid
  pub balance_cents : ℤ
  pub currency : String

pub record WalletTransaction : Type 0 where
  pub wallet_id : Uuid
  pub organization_id : Uuid
  pub delta_cents : ℤ
  pub reason : String
  pub idempotency_key : String
  pub invoice_id : Option Uuid

pub record Tables : Type 0 where
  pub organizations : List Uuid
  pub usage_events : List UsageEvent
  pub invoices : List Invoice
  pub customer_wallets : List CustomerWallet
  pub wallet_transactions : List WalletTransaction

abbrev pub has_organization : Uuid → Tables → Bool
has_organization org t = any (λ o. o == org) t.organizations

abbrev pub has_event : Uuid → String → List UsageEvent → Bool
has_event org key events =
    any (λ e. e.organization_id == org && str_eq e.idempotency_key key) events

abbrev pub has_invoice : Uuid → ℕ → List Invoice → Bool
has_invoice org start invoices =
    any (λ i. i.organization_id == org && i.period_start == start) invoices

abbrev pub has_wallet : Uuid → Uuid → List CustomerWallet → Bool
has_wallet id org wallets = any (λ w. w.id == id || w.organization_id == org) wallets

abbrev pub has_key : String → List WalletTransaction → Bool
has_key key txns = any (λ x. str_eq x.idempotency_key key) txns

-- INSERTs: `none` is an `IntegrityError`.

-- FK organization; UNIQUE (organization_id, idempotency_key).
unfoldable pub insert_event : UsageEvent → Tables → Option Tables
insert_event e t =
    if has_organization e.organization_id t
      && not (has_event e.organization_id e.idempotency_key t.usage_events)
    then some (record t { usage_events = e ∷ t.usage_events })
    else none

-- FK organization; primary key; UNIQUE (organization_id, period_start).
unfoldable pub insert_invoice : Invoice → Tables → Option Tables
insert_invoice i t =
    if has_organization i.organization_id t
      && not (any (λ j. j.id == i.id) t.invoices)
      && not (has_invoice i.organization_id i.period_start t.invoices)
    then some (record t { invoices = i ∷ t.invoices })
    else none

-- FK organization; primary key; UNIQUE organization_id.
unfoldable pub insert_wallet : CustomerWallet → Tables → Option Tables
insert_wallet w t =
    if has_organization w.organization_id t
      && not (has_wallet w.id w.organization_id t.customer_wallets)
    then some (record t { customer_wallets = w ∷ t.customer_wallets })
    else none

-- FK organization and wallet; UNIQUE idempotency_key, over all organizations.
unfoldable pub insert_transaction : WalletTransaction → Tables → Option Tables
insert_transaction x t =
    if has_organization x.organization_id t
      && any (λ w. w.id == x.wallet_id) t.customer_wallets
      && not (has_key x.idempotency_key t.wallet_transactions)
    then some (record t { wallet_transactions = x ∷ t.wallet_transactions })
    else none

-- A call returns, or raises an `IntegrityError` again.
pub data Result (A : Type 0) : Type 0 where
  ok : A → Result A
  integrity_error : Result A
