-- ===== src/Metering/Tests/Periods.antt =====
-- The theorems on rating, invoices and billing periods at concrete tables.
use python_backend_manager.Prelude.Base.{ℕ, ◌≡◌, refl, none, some, List, [], ◌∷◌}
use python_backend_manager.Prelude.Dict.{Dict, get, get_or}
use python_backend_manager.Metering.RateCards.{default_rate_cards}
use python_backend_manager.Metering.Rating.{rate, resolve_card, total_cents}
use python_backend_manager.Metering.Rating.Totals.{charge, total_cents-rate}
use python_backend_manager.Metering.Models.{Tables, ok, paid, Invoice, insert_invoice}
use python_backend_manager.Metering.Usage.{usage_for_period}
use python_backend_manager.Metering.Invoices.{invoice_period, draft_invoice}
use python_backend_manager.Metering.Router.{period_start, last_end}
use python_backend_manager.Metering.Router.Billed.{Act, used, closed, act_all}
use python_backend_manager.Billing.Models.{Subscription}
use python_backend_manager.Metering.Tests.{acme, invoice, tables}

abbrev use_of : Dict ℕ
use_of = ("tokens", 3) ∷ ("api_calls", 100150) ∷ []

total_cents-rate_example :
    total_cents (rate "pro" use_of (some default_rate_cards))
    ≡ charge use_of (resolve_card default_rate_cards "pro")
total_cents-rate_example = total_cents-rate "pro" use_of default_rate_cards

charge_run : charge use_of (resolve_card default_rate_cards "pro") ≡ 5050
unfolding resolve_card get get_or
charge_run = refl

abbrev old_invoice : Invoice
old_invoice = record invoice { id = 20; period_start = 0; period_end = 60; status = paid }

abbrev new_invoice : Invoice
new_invoice = record invoice { id = 22; period_start = 60; period_end = 100; status = paid }

abbrev invoices : List Invoice
invoices = new_invoice ∷ old_invoice ∷ []

abbrev closed_tables : Tables
closed_tables = record tables { invoices = invoices }

period_start-closed : period_start acme closed_tables ≡ 100
unfolding period_start last_end
period_start-closed = refl

abbrev subscriptions : List Subscription
subscriptions =
    record {
      organization_id = acme;
      provider = "stripe";
      provider_subscription_id = "sub_1";
      status = "active";
      plan = "pro";
      current_period_end = none;
    }
    ∷ []

abbrev written : Invoice
written = draft_invoice acme "pro" 100 150 23 151 (usage_for_period acme 100 150 closed_tables)

invoice_period-written : (invoice_period acme "pro" 100 150 23 151 closed_tables).0 ≡ ok written
unfolding invoice_period insert_invoice
invoice_period-written = refl

-- Usage at the very time of a close belongs to the next period.
abbrev acts : List Act
acts =
    used acme "api_calls" 7 "e7" 100
    ∷ closed acme subscriptions 23 150 151 152
    ∷ used acme "api_calls" 9 "e8" 150
    ∷ closed acme subscriptions 24 200 201 202
    ∷ []

abbrev history : Tables
history = act_all acts (record tables { invoices = [] })
