-- ===== src/Metering/Router/Periods.antt =====
-- The periods of an organization's invoices follow one another without a gap or an overlap.
use python_backend_manager.Prelude.Base.{
  ℕ, ◌≤◌, String, ◌≡◌, ◌≢◌, Option, none, some, List, [], ◌∷◌, arith,
}
use python_backend_manager.Prelude.Uuid.{Uuid}
use python_backend_manager.Metering.Models.{Invoice, Tables, insert_invoice}
use python_backend_manager.Metering.Invoices.{invoice_period}
use python_backend_manager.Metering.Router.{last_end, period_start}

-- The end of the last period, or the epoch.
abbrev start_after : Option ℕ → ℕ
start_after none = 0
start_after (some end) = end

abbrev pub next_start : Uuid → List Invoice → ℕ
next_start org invoices = start_after (last_end org invoices)

-- Each invoice of the organization began where the ones before it ended.
abbrev pub IsTiled : Uuid → List Invoice → Type 0
IsTiled org [] = Unit
IsTiled org (i ∷ invoices) =
    (i.organization_id ≡ org
      → (i.period_start ≡ next_start org invoices) × (i.period_start ≤ i.period_end))
    × IsTiled org invoices

-- A change of an invoice that leaves its organization and its period.
abbrev KeepsPeriod : (Invoice → Invoice) → Type 0
KeepsPeriod f =
    (i : Invoice)
    → ((f i).organization_id ≡ i.organization_id)
      × ((f i).period_start ≡ i.period_start)
      × ((f i).period_end ≡ i.period_end)

-- The next period begins where a new invoice ended.
pub invoice_period-next_start :
    (org : Uuid) (plan : String) (id : Uuid) (now inserted : ℕ) (t : Tables)
    → period_start org t ≤ now
    → (invoice_period org plan (period_start org t) now id inserted t).1.invoices ≢ t.invoices
    → period_start org (invoice_period org plan (period_start org t) now id inserted t).1 ≡ now
unfolding invoice_period insert_invoice period_start last_end
invoice_period-next_start org plan id now inserted t after wrote = ground arith
