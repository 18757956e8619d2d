-- ===== src/Billing/Adapters/Plans.antt =====
-- The plans of the application and those of a provider.
use python_backend_manager.Prelude.Base.{
  String, ◌≡◌, Bool, true, false, some, [], ◌∷◌, any, inl, inr, Option-cases, arith, str_eq, eq_iff,
  eq_refl,
}
use python_backend_manager.Prelude.Dict.{Dict, get}
use python_backend_manager.Billing.Ports.{ok}
use python_backend_manager.Billing.Adapters.{plan_to_price, first_plan, price_to_plan}

abbrev pub has_price : String → String × String → Bool
has_price price entry = str_eq entry.1 price

-- Two plans have never the same price.
abbrev pub HasDistinctPrices : Dict String → Type 0
HasDistinctPrices [] = Unit
HasDistinctPrices ((plan, price) ∷ prices) =
    (any (has_price price) prices ≡ false) × HasDistinctPrices prices

get-any :
    (prices : Dict String) (plan price : String)
    → get prices plan ≡ some price
    → any (has_price price) prices ≡ true
unfolding get
get-any [] plan price h = cc
get-any ((q, p) ∷ prices) plan price h = ground (arith, eq_refl price, get-any prices plan price)

first_plan-get :
    (prices : Dict String) (plan price : String)
    → HasDistinctPrices prices
    → get prices plan ≡ some price
    → first_plan prices price ≡ plan
unfolding get first_plan
first_plan-get [] plan price d h = cc
first_plan-get ((q, p) ∷ prices) plan price d h = grind (
  arith,
  eq_iff q plan,
  eq_iff p price,
  get-any prices plan price,
  first_plan-get prices plan price d.1,
)

-- The round trip of the plans: the price of a plan that a checkout uses is taken back to that plan
-- by the webhook, where the configuration gives no two plans the same price.
pub price_to_plan-plan_to_price :
    (prices : Dict String) (plan price : String)
    → HasDistinctPrices prices
    → plan_to_price prices plan ≡ ok price
    → price_to_plan prices (some price) ≡ plan
unfolding price_to_plan plan_to_price
price_to_plan-plan_to_price prices plan price d h = elim (Option-cases (get prices plan)) [
  | inl e ↦ absurd (grind arith)
  | inr (p, e) ↦ grind (arith, first_plan-get prices plan price d)
]
