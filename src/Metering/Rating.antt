-- ===== src/Metering/Rating.antt =====
-- The rating engine, metering/rating.py: a plan and the usage of a period become invoice lines.
pub mod Totals
pub mod Order
use Prim.Native.String.{◌++◌ as append}
use python_backend_manager.Prelude.Base.{
  ℕ, ◌+◌, ◌-◌, ◌*◌, String, Bool, not, ◌&&◌, Option, none, some, List, [], ◌∷◌, ◌++◌, ◌==◌, sum_by,
  if◌then◌else◌,
}
use python_backend_manager.Prelude.Text.{text_leb, decimal}
use python_backend_manager.Prelude.Dict.{Dict, get, get_or}
use python_backend_manager.Metering.RateCards.{
  MeterRate, RateCard, default_plan, default_rate_cards,
}

pub record RatedLine : Type 0 where
  pub kind : String
  pub meter : Option String
  pub quantity : ℕ
  pub unit_cents : ℕ
  pub amount_cents : ℕ
  pub description : String

-- `sorted(card.meters.items())`: the keys of a dict differ, so that the keys alone decide.
insert_item : String × MeterRate → List (String × MeterRate) → List (String × MeterRate)
insert_item item [] = item ∷ []
insert_item item (x ∷ xs) = if text_leb item.0 x.0 then item ∷ x ∷ xs else x ∷ insert_item item xs

sorted_items : List (String × MeterRate) → List (String × MeterRate)
unfolding insert_item
sorted_items [] = []
sorted_items (item ∷ items) = insert_item item (sorted_items items)

-- A number is true in Python just where it is not 0.
abbrev pub truthy : ℕ → Bool
truthy n = not (n == 0)

base_lines : String → RateCard → List RatedLine
base_lines plan card =
    if truthy card.base_cents
    then record {
      kind = "base";
      meter = none;
      quantity = 1;
      unit_cents = card.base_cents;
      amount_cents = card.base_cents;
      description = append plan " plan";
    }
      ∷ []
    else []

overage_line : String → ℕ → MeterRate → RatedLine
overage_line meter over meter_rate = record {
  kind = "overage";
  meter = some meter;
  quantity = over;
  unit_cents = meter_rate.overage_cents;
  amount_cents = over * meter_rate.overage_cents;
  description = append meter (
      append " overage: "
        (append (decimal over) (append " x " (append (decimal meter_rate.overage_cents) "c"))));
}

-- `max(0, used - included)` is the subtraction of the natural numbers.
overage_lines : Dict ℕ → List (String × MeterRate) → List RatedLine
unfolding overage_line
overage_lines usage [] = []
overage_lines usage ((meter, meter_rate) ∷ items) =
    let over = get_or usage meter 0 - meter_rate.included in
    if truthy over && truthy meter_rate.overage_cents
    then overage_line meter over meter_rate ∷ overage_lines usage items
    else overage_lines usage items

-- `cards.get(plan) or cards.get(DEFAULT_PLAN)`
unfoldable pub resolve_card : Dict RateCard → String → Option RateCard
resolve_card cards plan = elim (get cards plan) [
  | some card ↦ some card
  | none ↦ get cards default_plan
]

-- The lines of a resolved card; without any card there are none.
card_lines : String → Dict ℕ → Option RateCard → List RatedLine
unfolding base_lines overage_lines sorted_items
card_lines plan usage none = []
card_lines plan usage (some card) =
    base_lines plan card ++ overage_lines usage (sorted_items card.meters)

unfoldable pub rate : String → Dict ℕ → Option (Dict RateCard) → List RatedLine
unfolding card_lines
rate plan usage none = card_lines plan usage (resolve_card default_rate_cards plan)
rate plan usage (some cards) = card_lines plan usage (resolve_card cards plan)

unfoldable pub total_cents : List RatedLine → ℕ
total_cents lines = sum_by (λ line. line.amount_cents) lines
