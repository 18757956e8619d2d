-- ===== src/Metering/RateCards.antt =====
-- The per-plan rate cards, metering/rate_cards.py. Prices and quotas are non-negative integers, in
-- minor currency units; a dict is the list of its items, in insertion order.
use python_backend_manager.Prelude.Base.{ℕ, String, List, [], ◌∷◌}

abbrev pub default_currency : String
default_currency = "usd"

abbrev pub default_plan : String
default_plan = "free"

pub record MeterRate : Type 0 where
  pub included : ℕ
  pub overage_cents : ℕ

pub record RateCard : Type 0 where
  pub base_cents : ℕ
  pub currency : String
  pub meters : List (String × MeterRate)

abbrev meter_rate : ℕ → ℕ → MeterRate
meter_rate included overage_cents = record { included = included; overage_cents = overage_cents }

abbrev pub default_rate_cards : List (String × RateCard)
default_rate_cards =
    (
      "free",
      record {
        base_cents = 0;
        currency = default_currency;
        meters = ("api_calls", meter_rate 1000 0) ∷ [];
      },
    )
    ∷ (
      "pro",
      record {
        base_cents = 4900;
        currency = default_currency;
        meters = ("api_calls", meter_rate 100000 1) ∷ ("tokens", meter_rate 1000000 0) ∷ [];
      },
    )
    ∷ (
      "enterprise",
      record {
        base_cents = 49900;
        currency = default_currency;
        meters = ("api_calls", meter_rate 1000000 1) ∷ ("tokens", meter_rate 10000000 0) ∷ [];
      },
    )
    ∷ []
