-- ===== src/Metering/Charge.antt =====
-- Charging an invoice: `charge_invoice` of metering/service.py. The invoice that the request holds
-- is an argument of its own: another request may have changed the row since it was read.
pub mod Outcome
pub mod Kept
use Prim.Native.String.{◌++◌ as append}
use python_backend_manager.Prelude.Base.{
  ℕ, String, Bool, ◌&&◌, Option, none, some, ◌==◌, find_first, update_where, if◌then◌else◌,
}
use python_backend_manager.Prelude.Int.{ℤ, pos, ◌-ℤ◌, leb_ℤ}
use python_backend_manager.Prelude.Uuid.{Uuid, uuid_text}
use python_backend_manager.Metering.Models.{
  InvoiceStatus, open_invoice, paid, uncollectible, Invoice, CustomerWallet, WalletTransaction,
  Tables, insert_transaction,
}

-- `UPDATE invoices SET status, charged_at WHERE id`, the flush of an invoice that is paid.
unfoldable pub save_invoice : Invoice → Tables → Tables
save_invoice invoice t = record t {
  invoices =
      update_where (λ i. i.id == invoice.id)
        (λ i. record i { status = invoice.status; charged_at = invoice.charged_at }) t.invoices;
}

-- `UPDATE invoices SET status WHERE id`, the flush of an invoice of which the status alone changed.
unfoldable pub save_status : Invoice → Tables → Tables
save_status invoice t = record t {
  invoices =
      update_where (λ i. i.id == invoice.id) (λ i. record i { status = invoice.status }) t.invoices;
}

-- The WHERE of the debit: the wallet of the organization, if its balance covers the total.
abbrev pub covers : Invoice → CustomerWallet → Bool
covers invoice w =
    w.organization_id == invoice.organization_id && leb_ℤ (pos invoice.total_cents) w.balance_cents

abbrev pub debit : ℤ → CustomerWallet → CustomerWallet
debit amount w = record w { balance_cents = w.balance_cents -ℤ amount }

abbrev pub invoice_key : Invoice → String
invoice_key invoice = append "invoice:" (uuid_text invoice.id)

abbrev pub charge_transaction : Invoice → Uuid → WalletTransaction
charge_transaction invoice wallet_id = record {
  wallet_id = wallet_id;
  organization_id = invoice.organization_id;
  delta_cents = pos 0 -ℤ pos invoice.total_cents;
  reason = "invoice";
  idempotency_key = invoice_key invoice;
  invoice_id = some invoice.id;
}

abbrev pub with_status : InvoiceStatus → Option ℕ → Invoice → Invoice
with_status status charged_at invoice = record invoice { status = status; charged_at = charged_at }

-- The end of a charge whose debit matched the wallet `wallet_id`: `debited` holds the debit, which
-- a duplicate key rolls back to `t`.
unfoldable pub settle_charge : Invoice → ℕ → Uuid → Tables → Tables → Invoice × Tables
settle_charge invoice now wallet_id debited t =
    let charged = with_status paid (some now) invoice in
    elim (insert_transaction (charge_transaction invoice wallet_id) debited) [
      | some t' ↦ (charged, save_invoice charged t')
      | none ↦ elim (find_first (λ i. i.id == invoice.id) t.invoices) [
        | some reloaded ↦ (reloaded, t)
        | none ↦ (invoice, t)
      ]
    ]

-- The debit of an open invoice with a positive total.
unfoldable pub debit_wallet : Invoice → ℕ → Tables → Invoice × Tables
debit_wallet invoice now t = elim (find_first (covers invoice) t.customer_wallets) [
  | none ↦
      let refused = with_status uncollectible invoice.charged_at invoice in
      (refused, save_status refused t)
  | some w ↦
      settle_charge invoice now w.id
        (record t {
          customer_wallets =
              update_where (covers invoice) (debit (pos invoice.total_cents)) t.customer_wallets;
        })
        t
]

-- `invoice` is the object that the request holds: what it read, perhaps before another request
-- changed the row.
unfoldable pub charge_open : InvoiceStatus → Invoice → ℕ → Tables → Invoice × Tables
charge_open open_invoice invoice now t =
    if invoice.total_cents == 0
    then (with_status paid (some now) invoice, save_invoice (with_status paid (some now) invoice) t)
    else debit_wallet invoice now t
charge_open paid invoice now t = (invoice, t)
charge_open uncollectible invoice now t = (invoice, t)

unfoldable pub charge_invoice : Invoice → ℕ → Tables → Invoice × Tables
charge_invoice invoice now t = charge_open invoice.status invoice now t
