-- ===== src/RateLimit/Plans.antt =====
-- The plan of an organization as the rate limiter sees it: `_plan_for_org` of
-- ratelimit/dependencies.py.jinja, in a service with billing, and its cache. `parse` is
-- `uuid.UUID(…)`, `none` where it raises. A time is a number of microseconds of the monotonic clock.
pub mod Bounded
pub mod Recent
use python_backend_manager.Prelude.Base.{
  ℕ, ◌+◌, String, Bool, true, false, ◌&&◌, Option, none, some, List, [], ◌∷◌, leb, ltb, length,
  if◌then◌else◌,
}
use python_backend_manager.Prelude.Dict.{Dict, get, put}
use python_backend_manager.Prelude.Uuid.{Uuid}
use python_backend_manager.Billing.Models.{Subscription}
use python_backend_manager.Billing.Entitlements.{find_subscription, active_plan, free_plan}

-- `_PLAN_CACHE`: the plan of an organization, by the text of its id, and when the entry expires.
abbrev pub PlanCache : Type 0
PlanCache = Dict (String × ℕ)

abbrev pub plan_cache_max : ℕ
plan_cache_max = 10000

-- `cached is not None and cached[1] > now`
abbrev pub unexpired : Option (String × ℕ) → ℕ → Option String
unexpired none now = none
unexpired (some (plan, expiry)) now = if ltb now expiry then some plan else none

unfoldable pub cached_plan : ℕ → ℕ → String → PlanCache → Option String
cached_plan ttl now org cache = if ltb 0 ttl then unexpired (get cache org) now else none

unfoldable pub store_plan : ℕ → ℕ → String → String → PlanCache → PlanCache
store_plan ttl now org plan cache =
    if ltb 0 ttl
    then put (if leb plan_cache_max (length cache) then [] else cache) org (plan, now + ttl)
    else cache

-- A miss: `rows` are the subscriptions that the SELECT sees.
unfoldable pub read_plan :
    ℕ → ℕ → String → Option Uuid → List Subscription → PlanCache → Option String × PlanCache
read_plan ttl now org none rows cache = (none, cache)
read_plan ttl now org (some id) rows cache =
    let plan = active_plan free_plan (find_subscription id rows) in
    (some plan, store_plan ttl now org plan cache)

module _ (parse : String → Option Uuid) where
  unfoldable pub looked_up :
      Option String → ℕ → ℕ → String → List Subscription → PlanCache → Option String × PlanCache
  looked_up (some plan) ttl now org rows cache = (some plan, cache)
  looked_up none ttl now org rows cache = read_plan ttl now org (parse org) rows cache

  -- `_plan_for_org`
  unfoldable pub plan_for_org :
      ℕ → ℕ → String → List Subscription → PlanCache → Option String × PlanCache
  plan_for_org ttl now org rows cache =
      looked_up (cached_plan ttl now org cache) ttl now org rows cache
