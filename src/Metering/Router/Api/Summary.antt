-- ===== src/Metering/Router/Api/Summary.antt =====
-- The summary of the use and the bill: two routes of metering/router.py.jinja compared.
use python_backend_manager.Prelude.Base.{
  ℕ, String, ◌≡◌, refl, ◌&&◌, false, Option, none, some, List, ◌==◌, arith, find_first,
  find_first-any,
}
use python_backend_manager.Prelude.Uuid.{Uuid}
use python_backend_manager.Tenancy.Models.{Membership}
use python_backend_manager.Tenancy.Router.{get_current_membership}
use python_backend_manager.Billing.Models.{Subscription}
use python_backend_manager.Billing.Entitlements.{find_subscription, active_plan}
use python_backend_manager.Metering.RateCards.{default_plan}
use python_backend_manager.Metering.Rating.{rate, total_cents}
use python_backend_manager.Metering.Models.{
  Invoice, Tables, Result, ok, integrity_error, has_invoice, insert_invoice, insert_transaction,
}
use python_backend_manager.Metering.Invoices.{draft_invoice, find_invoice, invoice_period}
use python_backend_manager.Metering.Charge.{
  charge_invoice, charge_open, debit_wallet, settle_charge,
}
use python_backend_manager.Metering.Router.{period_start, charge_result, close_invoice}
use python_backend_manager.Metering.Usage.{usage_for_period}
use python_backend_manager.Metering.Router.Api.{
  UsageSummary, InvoiceRead, Reply, done, answered, invoice_read, for_admin, usage_summary,
  usage_summary_route, close_invoice_route,
}

-- The row that a new invoice has in the table.
drafted :
    (org : Uuid) (plan : String) (start end : ℕ) (id : Uuid) (now : ℕ) (t t' : Tables) (i : Invoice)
    → has_invoice org start t.invoices ≡ false
    → invoice_period org plan start end id now t ≡ (ok i, t')
    → (i ≡ draft_invoice org plan start end id now (usage_for_period org start end t))
      × (find_first (λ j. j.id == i.id) t'.invoices ≡ some i)
unfolding invoice_period insert_invoice find_invoice
drafted org plan start end id now t t' i fresh h = ground (
  arith,
  find_first-any (λ (j : Invoice). j.organization_id == org && j.period_start == start) t.invoices
      fresh,
)

-- A charge leaves the total, the plan and the period of an invoice that is in the table.
charge_invoice-total :
    (i : Invoice) (now : ℕ) (t : Tables)
    → find_first (λ j. j.id == i.id) t.invoices ≡ some i
    → let charged = (charge_invoice i now t).0 in
      (charged.total_cents ≡ i.total_cents)
      × (charged.plan ≡ i.plan)
      × (charged.period_start ≡ i.period_start)
      × (charged.period_end ≡ i.period_end)
unfolding charge_invoice charge_open debit_wallet settle_charge insert_transaction
charge_invoice-total i now t h = ground (arith, h)

answered-done :
    {A B : Type 0} (f : A → B) (p : Result A × Tables) (r : B)
    → (answered f p).0 ≡ done r
    → (a : A) × (p.0 ≡ ok a) × (r ≡ f a)
answered-done f (ok a, t) r h = (a, refl, ground arith)
answered-done f (integrity_error, t) r h = absurd (ground arith)

for_admin-done :
    {A : Type 0} (t : Tables) (membership : Option Membership) (run : Reply A × Tables) (r : A)
    → (for_admin t membership run).0 ≡ done r
    → (m : Membership) × (membership ≡ some m) × (run.0 ≡ done r)
unfolding for_admin
for_admin-done t none run r h = absurd (ground arith)
for_admin-done t (some m) run r h = (m, refl, ground (arith, h))

-- The invoice that a first close of a period gives, against the summary of the same time.
closed :
    (org : Uuid) (plan : String) (now inserted later : ℕ) (id : Uuid) (t : Tables)
    (p : Result Invoice × Tables) (charged : Invoice)
    → has_invoice org (period_start org t) t.invoices ≡ false
    → invoice_period org plan (period_start org t) now id inserted t ≡ p
    → (charge_result p later).0 ≡ ok charged
    → let s = usage_summary org now t in
      (charged.period_start ≡ s.period_start)
      × (charged.period_end ≡ s.period_end)
      × (charged.plan ≡ plan)
      × (charged.total_cents ≡ total_cents (rate plan s.usage none))
unfolding charge_result usage_summary
closed org plan now inserted later id t (integrity_error, t') charged fresh is h =
    absurd (ground arith)
closed org plan now inserted later id t (ok i, t') charged fresh is h =
    let (built, found) = drafted org plan (period_start org t) now id inserted t t' i fresh is in
    let kept = charge_invoice-total i later t' found in ground (arith, h, kept, built)

-- The bill is for the use that the summary shows: where an administrator closes a period that has
-- no invoice yet, a summary asked for at the same time has the period of the invoice, and the total
-- of the invoice is the price of the summary's use under the invoice's plan; the plan is that of
-- the active subscription, or the default one.
pub close_invoice_route-summary :
    (org caller : Uuid) (subscriptions : List Subscription) (id : Uuid) (now inserted later : ℕ)
    (memberships : List Membership) (t : Tables) (r : InvoiceRead)
    → has_invoice org (period_start org t) t.invoices ≡ false
    → (close_invoice_route org caller subscriptions id now inserted later memberships t).0 ≡ done r
    → (s : UsageSummary) × (usage_summary_route org caller now memberships t ≡ done s)
      × (r.period_start ≡ s.period_start)
      × (r.period_end ≡ s.period_end)
      × (r.plan ≡ active_plan default_plan (find_subscription org subscriptions))
      × (r.total_cents ≡ total_cents (rate r.plan s.usage none))
unfolding close_invoice_route close_invoice usage_summary_route
close_invoice_route-summary org caller subscriptions id now inserted later memberships t r fresh h =
    let plan = active_plan default_plan (find_subscription org subscriptions) in
    let (m, member, answer) =
      for_admin-done t (get_current_membership org caller memberships) _ r h in
    let (charged, result, shown) = answered-done invoice_read _ r answer in
    let (start, end, planned, total) =
      closed org plan now inserted later id t _ charged fresh refl result in
    (
      usage_summary org now t,
      rw member refl,
      ground (arith, shown, start),
      ground (arith, shown, end),
      ground (arith, shown, planned),
      rw (shown, planned) total,
    )
