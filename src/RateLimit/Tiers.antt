-- ===== src/RateLimit/Tiers.antt =====
-- The request budgets, ratelimit/tiers.py. The tiers of the settings are arguments.
use python_backend_manager.Prelude.Base.{ℕ, String, Option, none, some, [], ◌∷◌}
use python_backend_manager.Prelude.Dict.{Dict, get_or}

pub record RateTier : Type 0 where
  pub limit : ℕ
  pub window_seconds : ℕ

abbrev pub plan_tiers : Dict RateTier
plan_tiers =
    ("free", record { limit = 60; window_seconds = 60 })
    ∷ ("pro", record { limit = 600; window_seconds = 60 })
    ∷ ("enterprise", record { limit = 6000; window_seconds = 60 })
    ∷ []

abbrev pub tier_for_plan : RateTier → Option String → RateTier
tier_for_plan default_tier none = default_tier
tier_for_plan default_tier (some plan) = get_or plan_tiers plan default_tier
