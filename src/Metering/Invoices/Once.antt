-- ===== src/Metering/Invoices/Once.antt =====
-- An invoice charges the metered usage of its period, and a period has one invoice.
use python_backend_manager.Prelude.Base.{
  ℕ, ◌+◌, ◌-◌, ◌*◌, String, ◌≡◌, refl, ap, false, Option, none, some, List, [], ◌∷◌, ◌==◌, arith,
  sum_by, find_first-any, any-found, ◌&&◌,
}
use python_backend_manager.Prelude.Uuid.{Uuid}
use python_backend_manager.Metering.RateCards.{MeterRate, RateCard, default_rate_cards}
use python_backend_manager.Metering.Rating.{resolve_card}
use python_backend_manager.Metering.Rating.Totals.{charge, overage, total_cents-rate_default}
use python_backend_manager.Metering.Models.{Invoice, Tables, ok, insert_invoice, has_invoice}
use python_backend_manager.Metering.Usage.{usage_for_period}
use python_backend_manager.Metering.Usage.Counts.{metered, usage_for_period-eq-metered}
use python_backend_manager.Metering.Invoices.{find_invoice, invoice_period}

-- The price of a period on a card, for the metered use of each meter.
abbrev pub metered_charge : (String → ℕ) → Option RateCard → ℕ
metered_charge use_of none = 0
metered_charge use_of (some card) =
    card.base_cents + sum_by (λ x. (use_of x.0 - x.1.included) * x.1.overage_cents) card.meters

charge-metered :
    (org : Uuid) (start end : ℕ) (t : Tables) (card : Option RateCard)
    → charge (usage_for_period org start end t) card
      ≡ metered_charge (λ meter. metered org meter start end t.usage_events) card
charge-metered org start end t none = refl
charge-metered org start end t (some card) = ap (λ n. card.base_cents + n) (go card.meters)
  where
    go :
        (items : List (String × MeterRate))
        → sum_by (overage (usage_for_period org start end t)) items
          ≡ sum_by
              (λ x. (metered org x.0 start end t.usage_events - x.1.included) * x.1.overage_cents)
              items
    go [] = refl
    go (x ∷ xs) = rw (usage_for_period-eq-metered org x.0 start end t) (omega (arith, go xs))

-- The invoice that `invoice_period` writes charges the flat price of the plan's card plus, for each
-- meter, the overage on what was metered in the period.
pub invoice_period-total :
    (org : Uuid) (plan : String) (start end : ℕ) (id : Uuid) (now : ℕ) (t : Tables) {i : Invoice}
    → has_invoice org start t.invoices ≡ false
    → (invoice_period org plan start end id now t).0 ≡ ok i
    → i.total_cents
      ≡ metered_charge
          (λ meter. metered org meter start end t.usage_events)
          (resolve_card default_rate_cards plan)
unfolding invoice_period insert_invoice find_invoice
invoice_period-total org plan start end id now t {i} fresh done = ground (
  arith,
  find_first-any (λ (j : Invoice). j.organization_id == org && j.period_start == start) t.invoices
      fresh,
  total_cents-rate_default plan (usage_for_period org start end t),
  charge-metered org start end t (resolve_card default_rate_cards plan),
)

-- A period that has an invoice keeps it: a second close of a period with the same start returns
-- the first invoice and changes no table, whatever plan and end it names.
pub invoice_period_retry :
    (org : Uuid) (plan plan' : String) (start end end' : ℕ) (id id' : Uuid) (now now' : ℕ)
    (t : Tables) {i : Invoice}
    → (invoice_period org plan start end id now t).0 ≡ ok i
    → let t' = (invoice_period org plan start end id now t).1 in
      invoice_period org plan' start end' id' now' t' ≡ (ok i, t')
unfolding invoice_period insert_invoice find_invoice
invoice_period_retry org plan plan' start end end' id id' now now' t {i} done = ground (
  arith,
  any-found (λ (j : Invoice). j.organization_id == org && j.period_start == start) t.invoices
      {x = i},
)
