-- ===== src/Billing/Entitlements.antt =====
-- Plans and features: billing/entitlements.py, the guard of billing/dependencies.py. A frozenset is the list of its elements.
pub mod Guards
use python_backend_manager.Prelude.Base.{
  String, Bool, Option, none, some, List, [], ◌∷◌, ◌&&◌, ◌==◌, any, find_first, str_eq,
  if◌then◌else◌,
}
use python_backend_manager.Prelude.Uuid.{Uuid}
use python_backend_manager.Billing.Models.{Subscription}
use python_backend_manager.Prelude.Dict.{Dict, get_or}

abbrev pub free_plan : String
free_plan = "free"

abbrev pub active_statuses : List String
active_statuses = "active" ∷ "trialing" ∷ []

-- `x in xs`
abbrev pub contains : List String → String → Bool
contains xs x = any (λ y. str_eq y x) xs

abbrev core_features : List String
core_features = "core" ∷ []

abbrev features_by_plan : Dict (List String)
features_by_plan =
    ("free", core_features)
    ∷ ("pro", "core" ∷ "advanced_analytics" ∷ [])
    ∷ ("enterprise", "core" ∷ "advanced_analytics" ∷ "priority_support" ∷ "sso" ∷ [])
    ∷ []

-- `plan or FREE_PLAN`: `None` and the empty text are false.
plan_or_free : Option String → String
plan_or_free none = free_plan
plan_or_free (some plan) = if str_eq plan "" then free_plan else plan

unfoldable pub features_for_plan : Option String → List String
unfolding plan_or_free
features_for_plan plan = get_or features_by_plan (plan_or_free plan) core_features

unfoldable pub plan_has_feature : Option String → String → Bool
unfolding features_for_plan
plan_has_feature plan feature = contains (features_for_plan plan) feature

-- `select(Subscription).where(organization_id == org)`: the column is unique.
unfoldable pub find_subscription : Uuid → List Subscription → Option Subscription
find_subscription org rows = find_first (λ s. s.organization_id == org) rows

-- `subscription.plan if subscription is not None and subscription.status in ACTIVE_STATUSES`
unfoldable pub active_plan : String → Option Subscription → String
active_plan fallback none = fallback
active_plan fallback (some s) = if contains active_statuses s.status then s.plan else fallback

-- `require_feature(feature)`: the guard lets the request of a member of `org` pass, or it is a 403.
unfoldable pub require_feature : String → Uuid → List Subscription → Bool
require_feature feature org rows =
    plan_has_feature (some (active_plan free_plan (find_subscription org rows))) feature
