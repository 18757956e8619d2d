-- ===== src/RateLimit/Plans/Bounded.antt =====
-- The size of the plan cache.
use python_backend_manager.Prelude.Base.{
  ℕ, ◌+◌, ◌≤◌, String, Option, none, some, List, [], ◌∷◌, leb, length, arith, ◌≡◌, refl, Bool-cases,
  inl, inr,
}
use python_backend_manager.Prelude.Dict.{Dict, put}
use python_backend_manager.Prelude.Uuid.{Uuid}
use python_backend_manager.Billing.Models.{Subscription}
use python_backend_manager.RateLimit.Plans.{
  PlanCache, plan_cache_max, cached_plan, store_plan, read_plan, looked_up, plan_for_org,
}

length-put : {V : Type 0} (d : Dict V) (k : String) (v : V) → length (put d k v) ≤ length d + 1
unfolding put
length-put [] k v = omega arith
length-put ((j, w) ∷ d) k v = ground (arith, length-put d k v)

store_plan-bounded :
    (ttl now : ℕ) (org plan : String) (cache : PlanCache)
    → length cache ≤ plan_cache_max
    → length (store_plan ttl now org plan cache) ≤ plan_cache_max
unfolding store_plan
store_plan-bounded ttl now org plan cache h =
    elim (Bool-cases (leb plan_cache_max (length cache))) [
      | inl full ↦ rw full (ground (arith, length-put {V = String × ℕ} [] org (plan, now + ttl)))
      | inr space ↦
          rw space (ground (arith, length-put {V = String × ℕ} cache org (plan, now + ttl)))
    ]

looked_up-bounded :
    (parse : String → Option Uuid) (found : Option String) (parsed : Option Uuid) (ttl now : ℕ)
    (org : String) (rows : List Subscription) (cache : PlanCache)
    → parse org ≡ parsed
    → length cache ≤ plan_cache_max
    → length (looked_up parse found ttl now org rows cache).1 ≤ plan_cache_max
unfolding looked_up read_plan
looked_up-bounded parse (some plan) parsed ttl now org rows cache e h = h
looked_up-bounded parse none none ttl now org rows cache e h = rw e h
looked_up-bounded parse none (some id) ttl now org rows cache e h =
    rw e (store_plan-bounded ttl now org _ cache h)

-- A flood of organization ids does not grow the cache: it never has more than 10,000 entries.
pub plan_for_org-bounded :
    (parse : String → Option Uuid) (ttl now : ℕ) (org : String) (rows : List Subscription)
    (cache : PlanCache)
    → length cache ≤ plan_cache_max
    → length (plan_for_org parse ttl now org rows cache).1 ≤ plan_cache_max
unfolding plan_for_org
plan_for_org-bounded parse ttl now org rows cache h =
    looked_up-bounded parse (cached_plan ttl now org cache) (parse org) ttl now org rows cache refl
      h
