-- ===== src/Metering/Router.antt =====
-- The close of a period in metering/router.py.jinja. The guard in front of it is in Router/Api;
-- here the organization is known, and the request's time and UUIDs are arguments.
pub mod Periods
pub mod Billed
pub mod Api
use python_backend_manager.Prelude.Base.{
  ℕ, String, Bool, Option, none, some, List, [], ◌∷◌, ◌==◌, ltb, if◌then◌else◌,
}
use python_backend_manager.Prelude.Uuid.{Uuid}
use python_backend_manager.Metering.RateCards.{default_plan}
use python_backend_manager.Metering.Models.{Invoice, Tables, Result, ok, integrity_error}
use python_backend_manager.Metering.Invoices.{invoice_period}
use python_backend_manager.Metering.Charge.{charge_invoice}
use python_backend_manager.Billing.Models.{Subscription}
use python_backend_manager.Billing.Entitlements.{find_subscription, active_plan}

-- `max(period_end)` of the organization's invoices; SQL's `max` of no row is NULL.
unfoldable pub last_end : Uuid → List Invoice → Option ℕ
last_end org [] = none
last_end org (i ∷ invoices) =
    let rest = last_end org invoices in
    if i.organization_id == org
    then some (elim rest [
      | none ↦ i.period_end
      | some end ↦ if ltb end i.period_end then i.period_end else end
    ])
    else rest

-- `last_end or _EPOCH`; a datetime is never false, and the epoch is 1970-01-01.
unfoldable pub period_start : Uuid → Tables → ℕ
period_start org t = elim (last_end org t.invoices) [ none ↦ 0 | some end ↦ end ]

unfoldable pub charge_result : Result Invoice × Tables → ℕ → Result Invoice × Tables
charge_result (ok invoice, t) now =
    let (charged, t') = charge_invoice invoice now t in (ok charged, t')
charge_result (integrity_error, t) now = (integrity_error, t)

-- `now` is the end of the period, `inserted` the server's time of the row, `later` the time of
-- the charge.
unfoldable pub close_invoice :
    Uuid → List Subscription → Uuid → ℕ → ℕ → ℕ → Tables → Result Invoice × Tables
close_invoice org subscriptions id now inserted later t =
    let plan = active_plan default_plan (find_subscription org subscriptions) in
    charge_result (invoice_period org plan (period_start org t) now id inserted t) later
