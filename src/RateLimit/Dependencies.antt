-- ===== src/RateLimit/Dependencies.antt =====
-- The dependencies of a route in ratelimit/dependencies.py.jinja: the key of a request, the tier of
-- its caller, and the 429. Texts are lists of code points where the code cuts them up. `plan_of` is
-- the name of a plan for an organization, `_plan_for_org` of RateLimit/Plans.
pub mod Scopes
use python_backend_manager.Prelude.Base.{
  ℕ, zero, suc, ◌-◌, String, Bool, true, false, not, Option, none, some, List, [], ◌∷◌, ◌++◌, ◌==◌,
  leb, length, if◌then◌else◌,
}
use python_backend_manager.Prelude.Bytes.{CodePoints, codes, bytes_eq}
use python_backend_manager.RateLimit.Tiers.{RateTier, tier_for_plan}
use python_backend_manager.RateLimit.Limiter.Keys.{Buckets, hit_key}

-- What the dependencies read of a request: the peer, the path, and the parameters of the path.
pub record Request : Type 0 where
  pub client : Option CodePoints
  pub path : CodePoints
  pub path_params : List (CodePoints × CodePoints)

pub record RateSettings : Type 0 where
  pub ratelimit_enabled : Bool
  pub default_tier : RateTier
  pub auth_tier : RateTier

-- The dependency returns, or raises the 429 with its "Retry-After".
pub data Verdict : Type 0 where
  allowed : Verdict
  too_many : ℕ → Verdict

-- `_client_ip`
unfoldable pub client_ip : Option CodePoints → CodePoints
client_ip none = codes "anonymous"
client_ip (some host) = host

starts_with : CodePoints → CodePoints → Bool
starts_with [] text = true
starts_with (p ∷ ps) [] = false
starts_with (p ∷ ps) (c ∷ cs) = let rest = starts_with ps cs in if p == c then rest else false

-- `text.replace(old, new)` for an `old` that is not empty; `skip` characters belong to a match.
replace_from : CodePoints → CodePoints → ℕ → CodePoints → CodePoints
unfolding starts_with
replace_from old new skip [] = []
replace_from old new (suc skip) (c ∷ cs) = replace_from old new skip cs
replace_from old new zero (c ∷ cs) =
    let matched = new ++ replace_from old new (length old - 1) cs in
    let next = c ∷ replace_from old new 0 cs in if starts_with old (c ∷ cs) then matched else next

-- An empty `old` is found in front of each character and at the end.
interleave : CodePoints → CodePoints → CodePoints
interleave new [] = new
interleave new (c ∷ cs) = new ++ c ∷ interleave new cs

unfoldable pub replace : CodePoints → CodePoints → CodePoints → CodePoints
unfolding replace_from interleave
replace [] new text = interleave new text
replace (o ∷ old) new text = replace_from (o ∷ old) new 0 text

-- `sorted(…, key=len, reverse=True)`, which keeps the order of values of one length.
insert_param :
    CodePoints × CodePoints → List (CodePoints × CodePoints) → List (CodePoints × CodePoints)
insert_param p [] = p ∷ []
insert_param p (q ∷ params) =
    let rest = q ∷ insert_param p params in
    if leb (length q.1) (length p.1) then p ∷ q ∷ params else rest

unfoldable pub longest_first : List (CodePoints × CodePoints) → List (CodePoints × CodePoints)
unfolding insert_param
longest_first [] = []
longest_first (p ∷ params) = insert_param p (longest_first params)

unfoldable pub substituted : List (CodePoints × CodePoints) → CodePoints → CodePoints
unfolding replace
substituted [] path = path
substituted ((name, value) ∷ params) path =
    substituted params (replace value (codes "{" ++ (name ++ codes "}")) path)

-- `_route_key`
unfoldable pub route_key : Request → CodePoints
unfolding longest_first substituted
route_key r = substituted (longest_first r.path_params) r.path

-- `request.path_params.get("org_id")`, where an empty text counts as none.
unfoldable pub param : CodePoints → List (CodePoints × CodePoints) → Option CodePoints
param name [] = none
param name ((n, value) ∷ params) =
    let rest = param name params in if bytes_eq n name then some value else rest

abbrev pub nonempty_param : Option CodePoints → Option CodePoints
nonempty_param none = none
nonempty_param (some []) = none
nonempty_param (some (c ∷ cs)) = some (c ∷ cs)

unfoldable pub org_of : Request → Option CodePoints
unfolding param
org_of r = nonempty_param (param (codes "org_id") r.path_params)

abbrev pub scope_of : Option CodePoints → CodePoints → CodePoints
scope_of none ip = codes "ip:" ++ ip
scope_of (some org) ip = codes "org:" ++ org

unfoldable pub rate_key : Request → CodePoints
unfolding org_of route_key client_ip
rate_key r = scope_of (org_of r) (client_ip r.client) ++ (codes ":" ++ route_key r)

unfoldable pub auth_key : Request → CodePoints
unfolding route_key client_ip
auth_key r = codes "auth:ip:" ++ (client_ip r.client ++ (codes ":" ++ route_key r))

abbrev pub verdict : RateTier → Bool × Buckets → Verdict × Buckets
verdict tier (true, buckets) = (allowed, buckets)
verdict tier (false, buckets) = (too_many tier.window_seconds, buckets)

-- The tier of a request: the pinned one, or that of the plan.
unfoldable pub effective_tier :
    RateSettings → (CodePoints → Option String) → Option RateTier → Option CodePoints → RateTier
effective_tier s plan_of (some tier) org = tier
effective_tier s plan_of none none = tier_for_plan s.default_tier none
effective_tier s plan_of none (some org) = tier_for_plan s.default_tier (plan_of org)

-- The dependency that `rate_limit(tier)` builds.
unfoldable pub rate_limit :
    RateSettings
    → (CodePoints → Option String)
    → Option RateTier
    → Bool
    → Request
    → ℕ
    → Buckets
    → Verdict × Buckets
unfolding rate_key effective_tier
rate_limit s plan_of tier reachable r now buckets =
    if not s.ratelimit_enabled
    then (allowed, buckets)
    else let effective = effective_tier s plan_of tier (org_of r) in
      verdict effective (hit_key reachable (rate_key r) effective now buckets)

unfoldable pub enforce_auth_rate_limit :
    RateSettings → Bool → Request → ℕ → Buckets → Verdict × Buckets
unfolding auth_key
enforce_auth_rate_limit s reachable r now buckets =
    if not s.ratelimit_enabled
    then (allowed, buckets)
    else verdict s.auth_tier (hit_key reachable (auth_key r) s.auth_tier now buckets)
