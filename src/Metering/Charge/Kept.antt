-- ===== src/Metering/Charge/Kept.antt =====
-- What a charge keeps: the events, and every field of an invoice but its status and the time of the
-- charge.
use python_backend_manager.Prelude.Base.{
  ℕ, Bool, ◌≡◌, true, false, some, List, [], ◌∷◌, ◌==◌, arith, All, update_where, if◌then◌else◌,
}
use python_backend_manager.Metering.Models.{
  Invoice, Tables, paid, uncollectible, insert_transaction,
}
use python_backend_manager.Metering.Charge.{
  save_invoice, save_status, settle_charge, debit_wallet, charge_open, charge_invoice,
}

All-update {ℓ κ} :
    {A : Type ℓ} {P : A → Type κ} (p : A → Bool) (f : A → A)
    → ((x : A) → P x → P (f x))
    → (xs : List A) → All P xs
    → All P (update_where p f xs)
All-update p f keeps [] h = tt
All-update {P = P} p f keeps (x ∷ xs) h = (pick (p x), All-update p f keeps xs h.1)
  where
    pick : (b : Bool) → P (if b then f x else x)
    pick true = keeps x h.0
    pick false = h.0

-- A charge changes no event, and of an invoice only its status and the time of the charge.
pub charge_invoice-events :
    (i : Invoice) (now : ℕ) (t : Tables) → (charge_invoice i now t).1.usage_events ≡ t.usage_events
unfolding charge_invoice charge_open debit_wallet settle_charge insert_transaction save_invoice
    save_status
charge_invoice-events i now t = ground arith

pub charge_invoice-All :
    (P : Invoice → Type 0) (i : Invoice) (now : ℕ) (t : Tables)
    → ((j : Invoice) → P j → P (record j { status = paid; charged_at = some now }))
    → ((j : Invoice) → P j → P (record j { status = uncollectible }))
    → All P t.invoices
    → All P (charge_invoice i now t).1.invoices
unfolding charge_invoice charge_open debit_wallet settle_charge insert_transaction save_invoice
    save_status
charge_invoice-All P i now t pays fails h = ground (
  arith,
  All-update (λ j. j.id == i.id) (λ j. record j { status = paid; charged_at = some now }) pays
      t.invoices h,
  All-update (λ j. j.id == i.id) (λ j. record j { status = uncollectible }) fails t.invoices h,
)
