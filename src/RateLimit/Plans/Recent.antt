-- ===== src/RateLimit/Plans/Recent.antt =====
-- How old the plan is that the rate limiter uses: `_plan_for_org` of
-- ratelimit/dependencies.py.jinja, over the subscriptions as they change in time.
use python_backend_manager.Prelude.Base.{
  ℕ, ◌+◌, ◌≤◌, ◌<◌, String, ◌≡◌, refl, ◌⊎◌, inl, inr, Option, none, some, List, [], ◌∷◌, arith, leb,
  ltb, length, All, eq_iff, str_eq, Bool-cases,
}
use python_backend_manager.Prelude.Dict.{get, put}
use python_backend_manager.Prelude.Uuid.{Uuid}
use python_backend_manager.Billing.Models.{Subscription}
use python_backend_manager.Billing.Entitlements.{find_subscription, active_plan, free_plan}
use python_backend_manager.RateLimit.Plans.{
  PlanCache, plan_cache_max, cached_plan, store_plan, read_plan, looked_up, plan_for_org,
}

-- `rows` are the subscriptions at a time.
module _ (parse : String → Option Uuid) (ttl : ℕ) (rows : ℕ → List Subscription) where
  -- The plan of the organization at the time `at`.
  abbrev pub WasPlan : String → String → ℕ → Type 0
  WasPlan org plan at =
      (id : Uuid) × (parse org ≡ some id)
      × (plan ≡ active_plan free_plan (find_subscription id (rows at)))

  -- An entry was read no later than `last`, and expires `ttl` after it was.
  abbrev pub IsRead : ℕ → String × (String × ℕ) → Type 0
  IsRead last (org, entry) = (at : ℕ) × (at ≤ last) × (entry.1 ≡ at + ttl) × WasPlan org entry.0 at

  found-IsRead :
      (last : ℕ) (org : String) (cache : PlanCache) (entry : String × ℕ)
      → All (IsRead last) cache
      → get cache org ≡ some entry
      → IsRead last (org, entry)
  unfolding get
  found-IsRead last org [] entry h e = cc
  found-IsRead last org ((org', stored) ∷ cache) entry h e =
      let (at, past, expires, was) = h.0 in
      let (id, parsed, same) = was in
      elim (Bool-cases (str_eq org' org)) [
        | inl here ↦
            let org_eq = (eq_iff org' org).0 here in
            let entry_eq : stored ≡ entry = ground (arith, rw here at e) in
            (at, past, ground arith, (id, ground arith, ground arith))
        | inr there ↦ found-IsRead last org cache entry h.1 (rw there at e)
      ]

  later :
      (last now : ℕ) (cache : PlanCache)
      → last ≤ now
      → All (IsRead last) cache
      → All (IsRead now) cache
  later last now [] le h = tt
  later last now ((org, entry) ∷ cache) le h =
      let (at, past, expires, was) = h.0 in
      ((at, omega arith, expires, was), later last now cache le h.1)

  put-IsRead :
      (now : ℕ) (org : String) (entry : String × ℕ) (cache : PlanCache)
      → IsRead now (org, entry)
      → All (IsRead now) cache
      → All (IsRead now) (put cache org entry)
  unfolding put
  put-IsRead now org entry [] is h = (is, tt)
  put-IsRead now org entry ((org', stored) ∷ cache) is h =
      let (at, past, expires, was) = is in
      let (id, parsed, same) = was in
      elim (Bool-cases (str_eq org' org)) [
        | inl here ↦
            let org_eq = (eq_iff org' org).0 here in
            rw here ((at, past, expires, (id, ground arith, same)), h.1)
        | inr there ↦ rw there (h.0, put-IsRead now org entry cache is h.1)
      ]

  -- The plan that a request at `now` uses, with how old it is.
  abbrev pub IsRecent : ℕ → String → String → Type 0
  IsRecent now org plan =
      (at : ℕ) × (at ≤ now) × ((now < at + ttl) ⊎ (at ≡ now)) × WasPlan org plan at

  cached_plan-IsRecent :
      (last now : ℕ) (org plan : String) (cache : PlanCache) (entry : Option (String × ℕ))
      → last ≤ now
      → All (IsRead last) cache
      → get cache org ≡ entry
      → cached_plan ttl now org cache ≡ some plan
      → IsRecent now org plan
  unfolding cached_plan
  cached_plan-IsRecent last now org plan cache none le h found e = ground (arith, found)
  cached_plan-IsRecent last now org plan cache (some (stored, expiry)) le h found e =
      let (at, past, expires, was) = found-IsRead last org cache (stored, expiry) h found in
      let (id, parsed, same) = was in
      (at, omega arith, inl (ground (arith, found)), (id, parsed, ground (arith, found)))

  store_plan-IsRead :
      (now : ℕ) (org plan : String) (cache : PlanCache)
      → WasPlan org plan now
      → All (IsRead now) cache
      → All (IsRead now) (store_plan ttl now org plan cache)
  unfolding store_plan
  store_plan-IsRead now org plan cache was h =
      let entry : IsRead now (org, (plan, now + ttl)) = (now, omega arith, refl, was) in
      elim (Bool-cases (ltb 0 ttl)) [
        | inr off ↦ rw off h
        | inl on ↦ rw on (elim (Bool-cases (leb plan_cache_max (length cache))) [
          | inl full ↦ rw full (put-IsRead now org (plan, now + ttl) [] entry tt)
          | inr space ↦ rw space (put-IsRead now org (plan, now + ttl) cache entry h)
        ])
      ]

  read_plan-IsRead :
      (now : ℕ) (org : String) (parsed : Option Uuid) (cache : PlanCache)
      → parse org ≡ parsed
      → All (IsRead now) cache
      → let (answer, cache') = read_plan ttl now org parsed (rows now) cache in
        All (IsRead now) cache' × ((plan : String) → answer ≡ some plan → IsRecent now org plan)
  unfolding read_plan
  read_plan-IsRead now org none cache e h = (h, λ plan answer. cc)
  read_plan-IsRead now org (some id) cache e h = (
    store_plan-IsRead now org _ cache (id, e, refl) h,
    λ plan answer. (now, omega arith, inr refl, (id, e, ground arith)),
  )

  looked_up-IsRead :
      (last now : ℕ) (org : String) (found : Option String) (cache : PlanCache)
      → last ≤ now
      → cached_plan ttl now org cache ≡ found
      → All (IsRead last) cache
      → let (answer, cache') = looked_up parse found ttl now org (rows now) cache in
        All (IsRead now) cache' × ((plan : String) → answer ≡ some plan → IsRecent now org plan)
  unfolding looked_up
  looked_up-IsRead last now org (some stored) cache le hit h = (
    later last now cache le h,
    λ plan answer. cached_plan-IsRecent last now org plan cache _ le h refl (cc),
  )
  looked_up-IsRead last now org none cache le hit h =
      read_plan-IsRead now org (parse org) cache refl (later last now cache le h)

  -- The cache after requests of organizations, each with its time.
  unfoldable pub serve_all : List (String × ℕ) → PlanCache → PlanCache
  serve_all [] cache = cache
  serve_all ((org, now) ∷ requests) cache =
      serve_all requests (plan_for_org parse ttl now org (rows now) cache).1

  -- Times that do not go back.
  abbrev pub AreRunning : ℕ → List (String × ℕ) → ℕ → Type 0
  AreRunning last [] now = last ≤ now
  AreRunning last ((org, next) ∷ requests) now = (last ≤ next) × AreRunning next requests now

  served-IsRecent :
      (last : ℕ) (requests : List (String × ℕ)) (cache : PlanCache) (org plan : String) (now : ℕ)
      → AreRunning last requests now
      → All (IsRead last) cache
      → (plan_for_org parse ttl now org (rows now) (serve_all requests cache)).0 ≡ some plan
      → IsRecent now org plan
  unfolding serve_all plan_for_org
  served-IsRecent last [] cache org plan now running h e =
      (looked_up-IsRead last now org _ cache running refl h).1 plan e
  served-IsRecent last ((other, next) ∷ requests) cache org plan now running h e =
      served-IsRecent next requests _ org plan now running.1
        (looked_up-IsRead last next other _ cache running.0 refl h).0 e

  -- Whatever requests of whatever organizations came before, at times that do not go back, the plan
  -- that the rate limiter uses for an organization is its active plan as the database had it at
  -- the request itself, or less than the lifetime of an entry before; an organization without an
  -- active subscription has the free plan.
  pub plan_for_org-IsRecent :
      (start : ℕ) (requests : List (String × ℕ)) (org plan : String) (now : ℕ)
      → AreRunning start requests now
      → (plan_for_org parse ttl now org (rows now) (serve_all requests [])).0 ≡ some plan
      → IsRecent now org plan
  plan_for_org-IsRecent start requests org plan now running e =
      served-IsRecent start requests [] org plan now running tt e
