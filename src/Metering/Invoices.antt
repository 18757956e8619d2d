-- ===== src/Metering/Invoices.antt =====
-- Invoices: `invoice_period` and `_line_dict` of metering/service.py.
pub mod Once
use python_backend_manager.Prelude.Base.{
  ℕ, String, ◌&&◌, Option, none, some, [], ◌∷◌, map, ◌==◌, find_first,
}
use python_backend_manager.Prelude.Dict.{Dict}
use python_backend_manager.Prelude.Uuid.{Uuid}
use python_backend_manager.Metering.RateCards.{default_currency}
use python_backend_manager.Metering.Rating.{RatedLine, rate, total_cents}
use python_backend_manager.Metering.Models.{
  Result, ok, integrity_error, open_invoice, Json, null, number, text, Invoice, Tables,
  insert_invoice,
}
use python_backend_manager.Metering.Usage.{usage_for_period}

optional_text : Option String → Json
optional_text none = null
optional_text (some s) = text s

unfoldable pub line_dict : RatedLine → Dict Json
unfolding optional_text
line_dict line =
    ("kind", text line.kind)
    ∷ ("meter", optional_text line.meter)
    ∷ ("quantity", number line.quantity)
    ∷ ("unit_cents", number line.unit_cents)
    ∷ ("amount_cents", number line.amount_cents)
    ∷ ("description", text line.description)
    ∷ []

unfoldable pub find_invoice : Uuid → ℕ → Tables → Option Invoice
find_invoice org start t =
    find_first (λ i. i.organization_id == org && i.period_start == start) t.invoices

-- The invoice that `invoice_period` builds for the usage that it read.
abbrev pub draft_invoice : Uuid → String → ℕ → ℕ → Uuid → ℕ → Dict ℕ → Invoice
draft_invoice org plan start end id now usage =
    let lines = rate plan usage none in
    record {
      id = id;
      organization_id = org;
      period_start = start;
      period_end = end;
      status = open_invoice;
      currency = default_currency;
      total_cents = total_cents lines;
      plan = plan;
      lines = map line_dict lines;
      created_at = now;
      charged_at = none;
    }

-- `id` is the fresh UUID of the row, `now` the server's time of the INSERT.
unfoldable pub invoice_period : Uuid → String → ℕ → ℕ → Uuid → ℕ → Tables → Result Invoice × Tables
invoice_period org plan start end id now t =
    let invoice = draft_invoice org plan start end id now (usage_for_period org start end t) in
    elim (insert_invoice invoice t) [
      | some t' ↦ (ok invoice, t')
      | none ↦ elim (find_invoice org start t) [
        | some existing ↦ (ok existing, t)
        | none ↦ (integrity_error, t)
      ]
    ]
