-- ===== src/Metering/Rating/Totals.antt =====
-- What a rated period costs, against a formula that knows of no lines and no order.
use python_backend_manager.Prelude.Base.{
  ℕ, ◌+◌, ◌-◌, ◌*◌, ◌≤◌, ◌<◌, String, ◌≡◌, refl, ◌≢◌, Option, none, some, List, [], ◌∷◌, ◌++◌,
  arith, All, All-append, sum_by, sum_by-append, eq_iff,
}
use python_backend_manager.Prelude.Dict.{Dict, get, get_or}
use python_backend_manager.Metering.RateCards.{MeterRate, RateCard, default_rate_cards}
use python_backend_manager.Metering.Rating.{
  RatedLine, insert_item, sorted_items, base_lines, overage_line, overage_lines, card_lines,
  resolve_card, rate, total_cents,
}

-- The price of the use beyond the quota of one meter.
abbrev pub overage : Dict ℕ → String × MeterRate → ℕ
overage usage (meter, r) = (get_or usage meter 0 - r.included) * r.overage_cents

-- What a card charges: the flat price and the sum of the overages, in the dict's own order.
abbrev pub charge : Dict ℕ → Option RateCard → ℕ
charge usage none = 0
charge usage (some card) = card.base_cents + sum_by (overage usage) card.meters

sum_by-insert_item :
    (f : String × MeterRate → ℕ) (x : String × MeterRate) (xs : List (String × MeterRate))
    → sum_by f (insert_item x xs) ≡ f x + sum_by f xs
unfolding insert_item
sum_by-insert_item f x [] = refl
sum_by-insert_item f x (y ∷ ys) = ground (arith, sum_by-insert_item f x ys)

sum_by-sorted_items :
    (f : String × MeterRate → ℕ) (xs : List (String × MeterRate))
    → sum_by f (sorted_items xs) ≡ sum_by f xs
unfolding sorted_items
sum_by-sorted_items f [] = refl
sum_by-sorted_items f (x ∷ xs) =
    omega (arith, sum_by-insert_item f x (sorted_items xs), sum_by-sorted_items f xs)

total_cents-base_lines :
    (plan : String) (card : RateCard) → total_cents (base_lines plan card) ≡ card.base_cents
unfolding total_cents base_lines
total_cents-base_lines plan card = ground arith

total_cents-overage_lines :
    (usage : Dict ℕ) (items : List (String × MeterRate))
    → total_cents (overage_lines usage items) ≡ sum_by (overage usage) items
unfolding total_cents overage_lines
total_cents-overage_lines usage [] = refl
total_cents-overage_lines usage (x ∷ xs) = grind (arith, total_cents-overage_lines usage xs)

total_cents-append :
    (xs ys : List RatedLine) → total_cents (xs ++ ys) ≡ total_cents xs + total_cents ys
unfolding total_cents
total_cents-append xs ys = sum_by-append (λ line. line.amount_cents) xs ys

total_cents-card_lines :
    (plan : String) (usage : Dict ℕ) (card : Option RateCard)
    → total_cents (card_lines plan usage card) ≡ charge usage card
unfolding card_lines
total_cents-card_lines plan usage none = unfold total_cents in refl
total_cents-card_lines plan usage (some card) = omega (
  arith,
  total_cents-append (base_lines plan card) (overage_lines usage (sorted_items card.meters)),
  total_cents-base_lines plan card,
  total_cents-overage_lines usage (sorted_items card.meters),
  sum_by-sorted_items (overage usage) card.meters,
)

-- The lines that `rate` emits for a dict of rate cards sum to the flat price of the resolved card
-- plus, for each of its meters, the units beyond the quota times the price of a unit; without a
-- card the sum is zero.
pub total_cents-rate :
    (plan : String) (usage : Dict ℕ) (cards : Dict RateCard)
    → total_cents (rate plan usage (some cards)) ≡ charge usage (resolve_card cards plan)
unfolding rate
total_cents-rate plan usage cards = total_cents-card_lines plan usage (resolve_card cards plan)

pub total_cents-rate_default :
    (plan : String) (usage : Dict ℕ)
    → total_cents (rate plan usage none) ≡ charge usage (resolve_card default_rate_cards plan)
unfolding rate
total_cents-rate_default plan usage =
    total_cents-card_lines plan usage (resolve_card default_rate_cards plan)

-- A meter's overage can only grow with its use.
overage_mono :
    (u v : Dict ℕ) (x : String × MeterRate)
    → get_or u x.0 0 ≤ get_or v x.0 0
    → overage u x ≤ overage v x
overage_mono u v x h = grind arith

sum_by-overage_mono :
    (u v : Dict ℕ) (items : List (String × MeterRate))
    → ((meter : String) → get_or u meter 0 ≤ get_or v meter 0)
    → sum_by (overage u) items ≤ sum_by (overage v) items
sum_by-overage_mono u v [] h = omega arith
sum_by-overage_mono u v (x ∷ xs) h =
    omega (arith, overage_mono u v x (h x.0), sum_by-overage_mono u v xs h)

-- More use of every meter never makes the invoice of a plan cheaper.
pub total_cents-rate_mono :
    (plan : String) (u v : Dict ℕ) (cards : Dict RateCard)
    → ((meter : String) → get_or u meter 0 ≤ get_or v meter 0)
    → total_cents (rate plan u (some cards)) ≤ total_cents (rate plan v (some cards))
total_cents-rate_mono plan u v cards h =
    rw (total_cents-rate plan u cards, total_cents-rate plan v cards)
      (charge_mono (resolve_card cards plan))
  where
    charge_mono : (card : Option RateCard) → charge u card ≤ charge v card
    charge_mono none = omega arith
    charge_mono (some card) = omega (arith, sum_by-overage_mono u v card.meters h)

-- A line is sound: its amount is the quantity times the unit price, and it is not zero.
abbrev pub IsPriced : RatedLine → Type 0
IsPriced line = (line.amount_cents ≡ line.quantity * line.unit_cents) × (0 < line.amount_cents)

base_lines-IsPriced : (plan : String) (card : RateCard) → All IsPriced (base_lines plan card)
unfolding base_lines
base_lines-IsPriced plan card = ground arith

overage_line-IsPriced :
    (meter : String) (over : ℕ) (r : MeterRate)
    → 0 < over
    → 0 < r.overage_cents
    → IsPriced (overage_line meter over r)
unfolding overage_line
overage_line-IsPriced meter over r h k = grind arith

overage_lines-IsPriced :
    (usage : Dict ℕ) (items : List (String × MeterRate)) → All IsPriced (overage_lines usage items)
unfolding overage_lines
overage_lines-IsPriced usage [] = tt
overage_lines-IsPriced usage (x ∷ xs) = ground (
  arith,
  overage_line-IsPriced x.0 (get_or usage x.0 0 - x.1.included) x.1,
  overage_lines-IsPriced usage xs,
)

card_lines-IsPriced :
    (plan : String) (usage : Dict ℕ) (card : Option RateCard)
    → All IsPriced (card_lines plan usage card)
unfolding card_lines
card_lines-IsPriced plan usage none = tt
card_lines-IsPriced plan usage (some card) =
    All-append IsPriced (base_lines plan card) (overage_lines usage (sorted_items card.meters))
      (base_lines-IsPriced plan card) (overage_lines-IsPriced usage (sorted_items card.meters))

-- Every line that `rate` emits charges the quantity times the unit price, and more than zero.
pub rate-IsPriced :
    (plan : String) (usage : Dict ℕ) (cards : Option (Dict RateCard))
    → All IsPriced (rate plan usage cards)
unfolding rate
rate-IsPriced plan usage none =
    card_lines-IsPriced plan usage (resolve_card default_rate_cards plan)
rate-IsPriced plan usage (some cards) = card_lines-IsPriced plan usage (resolve_card cards plan)

-- With the default cards a plan that is neither "pro" nor "enterprise" is rated as the free plan,
-- and is charged nothing whatever it uses.
pub rate-default_free :
    (plan : String) (usage : Dict ℕ)
    → plan ≢ "pro"
    → plan ≢ "enterprise"
    → rate plan usage none ≡ []
unfolding rate card_lines resolve_card base_lines overage_lines sorted_items insert_item get
rate-default_free plan usage h k =
    grind (arith, eq_iff "free" plan, eq_iff "pro" plan, eq_iff "enterprise" plan)
