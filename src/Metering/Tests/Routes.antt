-- ===== src/Metering/Tests/Routes.antt =====
-- The theorems on the routes of metering at concrete tables.
use python_backend_manager.Prelude.Base.{◌≡◌, refl, ◌⊎◌, none, some, List, [], ◌∷◌}
use python_backend_manager.Prelude.Int.{pos}
use python_backend_manager.Prelude.Dict.{get, get_or, put}
use python_backend_manager.Tenancy.Models.{Membership}
use python_backend_manager.Tenancy.Router.{get_current_membership}
use python_backend_manager.Rbac.Permissions.{has_role}
use python_backend_manager.Billing.Entitlements.{find_subscription, active_plan}
use python_backend_manager.Metering.RateCards.{default_plan}
use python_backend_manager.Metering.Rating.{rate, resolve_card, total_cents}
use python_backend_manager.Metering.Models.{Tables, insert_invoice, paid}
use python_backend_manager.Metering.Usage.{usage_for_period}
use python_backend_manager.Metering.Invoices.{invoice_period, draft_invoice}
use python_backend_manager.Metering.Charge.{charge_invoice, charge_open}
use python_backend_manager.Metering.Router.{period_start, last_end, charge_result, close_invoice}
use python_backend_manager.Metering.Router.Api.{
  UsageSummary, InvoiceRead, done, invoice_read, for_admin, usage_summary_route,
  close_invoice_route, WalletTopUp,
}
use python_backend_manager.Metering.Router.Api.Money.{
  topup, handle, SameMoney, IsAdmin, handle-SameMoney,
}
use python_backend_manager.Metering.Router.Api.Summary.{close_invoice_route-summary}
use python_backend_manager.Metering.Tests.{acme, tables}

abbrev staff : List Membership
staff =
    record { organization_id = acme; user_id = 7; role = "admin" }
    ∷ record { organization_id = acme; user_id = 8; role = "member" }
    ∷ []

abbrev credits : WalletTopUp
credits = record { amount_cents = pos 100; idempotency_key = "k" }

handle-SameMoney_example :
    SameMoney tables (handle acme 8 staff (topup credits 31 32 tables) tables)
    ⊎ IsAdmin (get_current_membership acme 8 staff)
handle-SameMoney_example = handle-SameMoney acme 8 staff (topup credits 31 32 tables) tables

abbrev fresh : Tables
fresh = record tables { invoices = [] }

-- The invoice of a period without a plan: nothing to pay.
abbrev bill : InvoiceRead
bill =
    invoice_read
      (record (draft_invoice acme "free" 0 150 23 151 (usage_for_period acme 0 150 fresh)) {
        status = paid;
        charged_at = some 160;
      })

close_invoice_route-summary_example :
    (s : UsageSummary) × (usage_summary_route acme 7 150 staff fresh ≡ done s)
    × (bill.period_start ≡ s.period_start)
    × (bill.period_end ≡ s.period_end)
    × (bill.plan ≡ active_plan default_plan (find_subscription acme []))
    × (bill.total_cents ≡ total_cents (rate bill.plan s.usage none))
unfolding close_invoice_route for_admin get_current_membership has_role get_or close_invoice
    charge_result invoice_period insert_invoice charge_invoice charge_open period_start last_end
    active_plan find_subscription rate total_cents usage_for_period resolve_card get put
close_invoice_route-summary_example =
    close_invoice_route-summary acme 7 [] 23 150 151 160 staff fresh bill refl refl
