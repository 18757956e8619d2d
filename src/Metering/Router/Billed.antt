-- ===== src/Metering/Router/Billed.antt =====
-- What the invoices charge for, over the life of the service: `record_usage` of metering/service.py
-- and the close of a period in metering/router.py.jinja, in the order of their times.
pub mod Once
use python_backend_manager.Prelude.Base.{
  ℕ, ◌≤◌, String, ◌≡◌, refl, sym, ap, ◌∙◌, Option, none, some, List, [], ◌∷◌, arith, All, All-map,
  map,
}
use mathlib.Core.Path.{subst}
use python_backend_manager.Prelude.Uuid.{Uuid}
use python_backend_manager.Billing.Models.{Subscription}
use python_backend_manager.Billing.Entitlements.{find_subscription, active_plan}
use python_backend_manager.Metering.Models.{
  Invoice, Tables, Result, ok, integrity_error, insert_event, insert_invoice,
}
use python_backend_manager.Metering.RateCards.{default_plan, default_rate_cards}
use python_backend_manager.Metering.Rating.{resolve_card, rate}
use python_backend_manager.Metering.Rating.Totals.{charge, total_cents-rate_default}
use python_backend_manager.Metering.Usage.{record_usage, usage_for_period}
use python_backend_manager.Metering.Invoices.{
  line_dict, draft_invoice, find_invoice, invoice_period,
}
use python_backend_manager.Metering.Charge.{charge_invoice}
use python_backend_manager.Metering.Charge.Kept.{charge_invoice-events, charge_invoice-All}
use python_backend_manager.Metering.Router.{period_start, charge_result, close_invoice}

-- A transaction: usage that is recorded, or a period that is closed.
pub data Act : Type 0 where
  used : Uuid → String → ℕ → String → ℕ → Act
  closed : Uuid → List Subscription → Uuid → ℕ → ℕ → ℕ → Act

unfoldable pub act : Act → Tables → Tables
act (used org meter quantity key now) t = (record_usage org meter quantity key now t).1
act (closed org subscriptions id now inserted later) t =
    (close_invoice org subscriptions id now inserted later t).1

unfoldable pub act_all : List Act → Tables → Tables
act_all [] t = t
act_all (a ∷ acts) t = act_all acts (act a t)

-- The time of the event, or the end of the period.
abbrev pub time : Act → ℕ
time (used org meter quantity key now) = now
time (closed org subscriptions id now inserted later) = now

-- The acts come in the order of their times, none before `clock`: no event is committed after a
-- close that reads a later time.
abbrev pub InOrder : ℕ → List Act → Type 0
InOrder clock [] = Unit
InOrder clock (a ∷ acts) = (clock ≤ time a) × InOrder (time a) acts

-- The lines and the total of an invoice are those of the usage that is recorded in its period.
abbrev pub IsBilled : Tables → Invoice → Type 0
IsBilled t i =
    let usage = usage_for_period i.organization_id i.period_start i.period_end t in
    (i.lines ≡ map line_dict (rate i.plan usage none))
    × (i.total_cents ≡ charge usage (resolve_card default_rate_cards i.plan))

abbrev pub EndsBy : ℕ → Invoice → Type 0
EndsBy clock i = i.period_end ≤ clock

-- What is kept of the invoices as of `clock`.
abbrev pub Good : ℕ → Tables → Type 0
Good clock t = All (IsBilled t) t.invoices × All (EndsBy clock) t.invoices

usage_for_period-events :
    (org : Uuid) (start end : ℕ) (t t' : Tables)
    → t'.usage_events ≡ t.usage_events
    → usage_for_period org start end t' ≡ usage_for_period org start end t
unfolding usage_for_period
usage_for_period-events org start end t t' e = ground (arith, e)

-- Usage that is recorded at the end of a period or after it is not in the period.
usage_for_period-later :
    (org : Uuid) (start end : ℕ) (o : Uuid) (meter : String) (quantity : ℕ) (key : String) (now : ℕ)
    (t : Tables)
    → end ≤ now
    → usage_for_period org start end (record_usage o meter quantity key now t).1
      ≡ usage_for_period org start end t
unfolding usage_for_period record_usage insert_event
usage_for_period-later org start end o meter quantity key now t h = ground arith

pub record_usage-invoices :
    (org : Uuid) (meter : String) (quantity : ℕ) (key : String) (now : ℕ) (t : Tables)
    → (record_usage org meter quantity key now t).1.invoices ≡ t.invoices
unfolding record_usage insert_event
record_usage-invoices org meter quantity key now t = ground arith

used-IsBilled :
    (o : Uuid) (meter : String) (quantity : ℕ) (key : String) (now : ℕ) (t : Tables)
    (rows : List Invoice)
    → All (IsBilled t) rows
    → All (EndsBy now) rows
    → All (IsBilled (record_usage o meter quantity key now t).1) rows
used-IsBilled o meter quantity key now t [] h ends = tt
used-IsBilled o meter quantity key now t (i ∷ rows) h ends =
    let same =
      usage_for_period-later i.organization_id i.period_start i.period_end o meter quantity key now
        t ends.0 in
    (
      (
        h.0.0 ∙ ap (λ u. map line_dict (rate i.plan u none)) (sym same),
        h.0.1 ∙ ap (λ u. charge u (resolve_card default_rate_cards i.plan)) (sym same),
      ),
      used-IsBilled o meter quantity key now t rows h.1 ends.1,
    )

IsBilled-events :
    (t t' : Tables) (i : Invoice) → t'.usage_events ≡ t.usage_events → IsBilled t i → IsBilled t' i
IsBilled-events t t' i e h =
    let same = usage_for_period-events i.organization_id i.period_start i.period_end t t' e in
    (
      h.0 ∙ ap (λ u. map line_dict (rate i.plan u none)) (sym same),
      h.1 ∙ ap (λ u. charge u (resolve_card default_rate_cards i.plan)) (sym same),
    )

charge_invoice-Good :
    (clock : ℕ) (i : Invoice) (now : ℕ) (t : Tables)
    → Good clock t
    → Good clock (charge_invoice i now t).1
charge_invoice-Good clock i now t (billed, ends) = (
  charge_invoice-All (IsBilled (charge_invoice i now t).1) i now t (λ j h. h) (λ j h. h)
      (All-map (λ j. IsBilled-events t _ j (charge_invoice-events i now t)) t.invoices billed),
  charge_invoice-All (EndsBy clock) i now t (λ j h. h) (λ j h. h) ends,
)

charge_result-Good :
    (clock : ℕ) (r : Result Invoice) (t : Tables) (now : ℕ)
    → Good clock t
    → Good clock (charge_result (r, t) now).1
unfolding charge_result
charge_result-Good clock (ok i) t now h = charge_invoice-Good clock i now t h
charge_result-Good clock integrity_error t now h = h

-- The invoice that is written is that of the usage of its period.
draft_invoice-IsBilled :
    (org : Uuid) (plan : String) (start end : ℕ) (id : Uuid) (inserted : ℕ) (t : Tables)
    → IsBilled t (draft_invoice org plan start end id inserted (usage_for_period org start end t))
draft_invoice-IsBilled org plan start end id inserted t =
    (refl, total_cents-rate_default plan (usage_for_period org start end t))

insert_invoice-Good :
    (clock : ℕ) (i : Invoice) (t : Tables) {t' : Tables}
    → insert_invoice i t ≡ some t'
    → IsBilled t i
    → i.period_end ≤ clock
    → Good clock t
    → Good clock t'
unfolding insert_invoice
insert_invoice-Good clock i t {t'} e billed end h =
    let t'' : Tables = record t { invoices = i ∷ t.invoices } in
    let same : t'' ≡ t' = ground (arith, e) in
    subst (Good clock) same
      (All-map (λ j. IsBilled-events t t'' j refl) (i ∷ t.invoices) (billed, h.0), (end, h.1))

invoice_period-Good :
    (org : Uuid) (plan : String) (start end : ℕ) (id : Uuid) (inserted : ℕ) (t : Tables)
    → Good end t
    → Good end (invoice_period org plan start end id inserted t).1
unfolding invoice_period
invoice_period-Good org plan start end id inserted t h = inserted_or (insert_invoice draft t) refl
  where
    draft : Invoice
    draft = draft_invoice org plan start end id inserted (usage_for_period org start end t)

    found :
        (o : Option Invoice)
        → Good end
            (elim o as (λ _. Result Invoice × Tables) [
              | some existing ↦ (ok existing, t)
              | none ↦ (integrity_error, t)
            ]).1
    found (some existing) = h
    found none = h

    inserted_or :
        (o : Option Tables)
        → insert_invoice draft t ≡ o
        → Good end
            (elim o as (λ _. Result Invoice × Tables) [
              | some t' ↦ (ok draft, t')
              | none ↦ elim (find_invoice org start t) as (λ _. Result Invoice × Tables) [
                | some existing ↦ (ok existing, t)
                | none ↦ (integrity_error, t)
              ]
            ]).1
    inserted_or (some t') e =
        insert_invoice-Good end draft t e (draft_invoice-IsBilled org plan start end id inserted t)
          (omega arith) h
    inserted_or none e = found (find_invoice org start t)

closed-Good :
    (org : Uuid) (subscriptions : List Subscription) (id : Uuid) (now inserted later : ℕ)
    (t : Tables)
    → Good now t
    → Good now (close_invoice org subscriptions id now inserted later t).1
unfolding close_invoice
closed-Good org subscriptions id now inserted later t h =
    let plan = active_plan default_plan (find_subscription org subscriptions) in
    let (r, t') = invoice_period org plan (period_start org t) now id inserted t in
    charge_result-Good now r t' later
      (invoice_period-Good org plan (period_start org t) now id inserted t h)

pub EndsBy-later :
    (clock later : ℕ) (rows : List Invoice)
    → clock ≤ later
    → All (EndsBy clock) rows
    → All (EndsBy later) rows
EndsBy-later clock later rows h ends = All-map (λ i e. omega arith) rows ends

pub act-Good : (a : Act) (t : Tables) → Good (time a) t → Good (time a) (act a t)
unfolding act
act-Good (used org meter quantity key now) t (billed, ends) =
    let same = record_usage-invoices org meter quantity key now t in
    let t' = (record_usage org meter quantity key now t).1 in
    (
      subst (All (IsBilled t')) (sym same)
          (used-IsBilled org meter quantity key now t t.invoices billed ends),
      subst (All (EndsBy now)) (sym same) ends,
    )
act-Good (closed org subscriptions id now inserted later) t h =
    closed-Good org subscriptions id now inserted later t h
