-- ===== src/Billing/Entitlements/Guards.antt =====
-- Which subscriptions pass the feature guard.
use python_backend_manager.Prelude.Base.{
  String, ◌≡◌, ap, ◌∙◌, ◌≢◌, true, not, ◌||◌, Option, none, some, List, arith, eq_iff, str_eq,
}
use python_backend_manager.Prelude.Uuid.{Uuid}
use python_backend_manager.Billing.Models.{Subscription}
use python_backend_manager.Prelude.Dict.{get_or}
use python_backend_manager.Billing.Entitlements.{
  plan_has_feature, find_subscription, active_plan, require_feature,
}

active_plan-inactive :
    (fallback : String) (s : Subscription)
    → s.status ≢ "active"
    → s.status ≢ "trialing"
    → active_plan fallback (some s) ≡ fallback
unfolding active_plan
active_plan-inactive fallback s a b =
    ground (arith, eq_iff "active" s.status, eq_iff "trialing" s.status)

free_features : (feature : String) → plan_has_feature (some "free") feature ≡ str_eq "core" feature
unfolding plan_has_feature get_or
free_features feature = ground arith

-- Without an active subscription an organization has the features of the free plan and no others:
-- every feature but "core" is refused, whatever plan the inactive row names.
pub require_feature-inactive :
    (feature : String) (org : Uuid) (rows : List Subscription) {s : Subscription}
    → find_subscription org rows ≡ some s
    → s.status ≢ "active"
    → s.status ≢ "trialing"
    → require_feature feature org rows ≡ str_eq "core" feature
unfolding require_feature
require_feature-inactive feature org rows {s} found a b =
    ap (λ r. plan_has_feature (some (active_plan "free" r)) feature) found
    ∙ ap (λ plan. plan_has_feature (some plan) feature) (active_plan-inactive "free" s a b)
    ∙ free_features feature

-- The plans form a chain: what the free plan grants every plan grants, and what "pro" grants
-- "enterprise" grants.
pub plan_has_feature-chain :
    (plan : Option String) (feature : String)
    → (not (plan_has_feature (some "free") feature) || plan_has_feature plan feature ≡ true)
      × (not (plan_has_feature (some "pro") feature) || plan_has_feature (some "enterprise") feature
          ≡ true)
unfolding plan_has_feature get_or
plan_has_feature-chain none feature = ground arith
plan_has_feature-chain (some plan) feature = ground arith
