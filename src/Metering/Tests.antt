-- ===== src/Metering/Tests.antt =====
-- The theorems on usage, wallets and charges at concrete tables, and runs of the code.
mod Periods
mod Routes
use python_backend_manager.Prelude.Base.{
  ℕ, ◌+◌, ◌≤◌, String, ◌≡◌, refl, ◌≢◌, Bool, true, false, Option, none, some, List, [], ◌∷◌, arith,
  All, eq_iff, update_where, ◌==◌,
}
use python_backend_manager.Prelude.Int.{ℤ, pos, negsuc, ◌+ℤ◌, ◌-ℤ◌, int_laws}
use python_backend_manager.Prelude.Uuid.{Uuid, uuid_text}
use python_backend_manager.Prelude.Dict.{Dict, get, get_or, put}
use python_backend_manager.Metering.RateCards.{MeterRate, RateCard, default_rate_cards}
use python_backend_manager.Metering.Rating.{rate, resolve_card, total_cents}
use python_backend_manager.Metering.Rating.Totals.{
  charge, total_cents-rate, rate-default_free, total_cents-rate_mono,
}
use python_backend_manager.Metering.Rating.Order.{IsOrdered, rate-IsOrdered}
use python_backend_manager.Metering.Models.{
  UsageEvent, Invoice, InvoiceStatus, open_invoice, paid, uncollectible, CustomerWallet,
  WalletTransaction, Tables, Result, ok, integrity_error, has_key, has_event, insert_event,
  insert_transaction,
}
use python_backend_manager.Metering.Usage.{record_usage, usage_for_period, group_sum}
use python_backend_manager.Metering.Usage.Counts.{
  metered, usage_for_period_split, metered-record_usage, record_usage_retry,
}
use python_backend_manager.Metering.Invoices.{invoice_period}
use python_backend_manager.Metering.Charge.{
  invoice_key, charge_transaction, with_status, charge_invoice, debit, covers, charge_open,
  debit_wallet, settle_charge, save_invoice,
}
use python_backend_manager.Metering.Charge.Outcome.{
  SameWallets, charge_invoice-paid, charge_invoice_once, charge_invoice_twice, charge_all,
  charge_invoice-uncollectible, stale_charge-overwrites, row_of,
}
use python_backend_manager.Metering.Wallet.{get_wallet, topup_transaction, top_up}
use python_backend_manager.Metering.Wallet.Outcome.{credited, top_up-credits, top_up-used_key_reply}
use python_backend_manager.Metering.Ledger.{IsSound, ledger}
use python_backend_manager.Metering.Ledger.Kept.{charge_invoice-IsSound}
use python_backend_manager.Metering.Ledger.TopUp.{top_up-IsSound}

abbrev pub acme : Uuid
acme = 1

abbrev pub globex : Uuid
globex = 2

abbrev wallet : CustomerWallet
wallet = record { id = 11; organization_id = acme; balance_cents = pos 150; currency = "usd" }

abbrev other_wallet : CustomerWallet
other_wallet = record {
  id = 12;
  organization_id = globex;
  balance_cents = pos 40;
  currency = "usd";
}

abbrev topup : WalletTransaction
topup = topup_transaction wallet acme (pos 150) "k1"

abbrev other_topup : WalletTransaction
other_topup = topup_transaction other_wallet globex (pos 40) "k2"

abbrev pub invoice : Invoice
invoice = record {
  id = 21;
  organization_id = acme;
  period_start = 0;
  period_end = 100;
  status = open_invoice;
  currency = "usd";
  total_cents = 100;
  plan = "pro";
  lines = [];
  created_at = 100;
  charged_at = none;
}

abbrev pub event : String → ℕ → String → ℕ → UsageEvent
event meter quantity key at = record {
  organization_id = acme;
  meter = meter;
  quantity = quantity;
  idempotency_key = key;
  created_at = at;
}

abbrev pub tables : Tables
tables = record {
  organizations = acme ∷ globex ∷ [];
  usage_events = event "api_calls" 5 "e2" 70 ∷ event "api_calls" 7 "e1" 20 ∷ [];
  invoices = invoice ∷ [];
  customer_wallets = wallet ∷ other_wallet ∷ [];
  wallet_transactions = topup ∷ other_topup ∷ [];
}

tables-IsSound : IsSound tables
unfolding ledger ◌+ℤ◌
tables-IsSound = record {
  balanced = ((refl, omega arith), ((refl, omega arith), tt));
  unique = ((((λ e. ground arith), (λ e. ground arith)), tt), (tt, tt));
  keys = (refl, (refl, tt));
  owned = (refl, (refl, tt));
}

charge_invoice-IsSound_example : IsSound (charge_invoice invoice 200 tables).1
charge_invoice-IsSound_example = charge_invoice-IsSound invoice 200 tables tables-IsSound

top_up-IsSound_example : IsSound (top_up globex (pos 60) "k3" "usd" 31 32 tables tables).1
top_up-IsSound_example =
    top_up-IsSound globex (pos 60) "k3" "usd" 31 32 tables tables (omega arith) tables-IsSound

abbrev paid_tables : Tables
paid_tables = (charge_invoice invoice 200 tables).1

charge_invoice-wrote : paid_tables.wallet_transactions ≢ tables.wallet_transactions
unfolding charge_invoice charge_open debit_wallet settle_charge insert_transaction save_invoice
    uuid_text
charge_invoice-wrote e = ground (arith, e)

abbrev dear : Invoice
dear = record invoice { total_cents = 500 }

-- The wallet of 150 pays the invoice of 100, and a request with the open copy fails on its key.
abbrev again_tables : Tables
again_tables = charge_all ((invoice, 250) ∷ []) paid_tables

charge_invoice_twice_example : SameWallets again_tables (charge_invoice invoice 300 again_tables).1
unfolding charge_all
charge_invoice_twice_example =
    charge_invoice_twice invoice invoice 200 300 ((invoice, 250) ∷ []) tables refl
      charge_invoice-wrote

-- The wallet of 150 pays the invoice of 100; a second request still holds the open copy.
stale_charge-overwrites_example :
    row_of invoice (charge_invoice invoice 300 paid_tables).1
    ≡ some (with_status uncollectible (some 200) invoice)
unfolding charge_invoice charge_open debit_wallet settle_charge insert_transaction save_invoice
    uuid_text ◌-ℤ◌
stale_charge-overwrites_example =
    stale_charge-overwrites invoice 300 paid_tables {row = with_status paid (some 200) invoice} refl
      (ground arith) refl refl

usage_for_period_run : get_or (usage_for_period acme 50 100 tables) "api_calls" 0 ≡ 5
unfolding usage_for_period group_sum get_or put
usage_for_period_run = refl

record_usage_new : (record_usage acme "tokens" 9 "e3" 80 tables).0 ≡ ok true
unfolding record_usage insert_event
record_usage_new = refl
