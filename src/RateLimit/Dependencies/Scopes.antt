-- ===== src/RateLimit/Dependencies/Scopes.antt =====
-- The keys of ratelimit/dependencies.py.jinja keep the organizations apart.
use python_backend_manager.Prelude.Base.{
  ℕ, String, ◌≡◌, ◌≢◌, refl, sym, ◌∙◌, Bool, true, false, Option, some, List, [], ◌∷◌, ◌++◌, ◌==◌,
  arith, any, All, leb, length, Bool-cases, inl, inr,
}
use mathlib.Core.List.{append_assoc}
use python_backend_manager.Prelude.Bytes.{CodePoints, codes, bytes_eq, bytes_eq_sound}
use python_backend_manager.RateLimit.Tiers.{RateTier}
use python_backend_manager.RateLimit.Limiter.Keys.{Buckets, bucket_of, bucket_of-hit_key}
use python_backend_manager.RateLimit.Dependencies.{
  Request, RateSettings, starts_with, replace_from, replace, insert_param, longest_first,
  substituted, route_key, org_of, rate_key, verdict, rate_limit,
}

-- A text without a slash, and one that begins with a slash.
abbrev pub NoSlash : CodePoints → Type 0
NoSlash text = any (λ c. c == 47) text ≡ false

abbrev pub IsPath : CodePoints → Type 0
IsPath [] = ⊥
IsPath (c ∷ cs) = c ≡ 47

-- The value of a parameter of the path: neither empty nor with a slash in front.
abbrev pub IsSegment : CodePoints × CodePoints → Type 0
IsSegment (name, []) = ⊥
IsSegment (name, (c ∷ cs)) = c ≢ 47

replace-IsPath :
    (name value new path : CodePoints)
    → IsSegment (name, value)
    → IsPath path
    → IsPath (replace value new path)
unfolding replace replace_from starts_with
replace-IsPath name [] new path h p = absurd h
replace-IsPath name (v ∷ value) new [] h p = absurd p
replace-IsPath name (v ∷ value) new (c ∷ path) h p = elim (Bool-cases (v == c)) [
  | inl same ↦ absurd (h (ground (arith, same)))
  | inr other ↦ rw other p
]

substituted-IsPath :
    (params : List (CodePoints × CodePoints)) (path : CodePoints)
    → All IsSegment params
    → IsPath path
    → IsPath (substituted params path)
unfolding substituted
substituted-IsPath [] path h p = p
substituted-IsPath ((name, value) ∷ params) path h p =
    substituted-IsPath params _ h.1 (replace-IsPath name value _ path h.0 p)

insert_param-segments :
    (p : CodePoints × CodePoints) (params : List (CodePoints × CodePoints))
    → IsSegment p
    → All IsSegment params
    → All IsSegment (insert_param p params)
unfolding insert_param
insert_param-segments p [] hp h = (hp, tt)
insert_param-segments p (q ∷ params) hp h = elim (Bool-cases (leb (length q.1) (length p.1))) [
  | inl longer ↦ rw longer (hp, h)
  | inr shorter ↦ rw shorter (h.0, insert_param-segments p params hp h.1)
]

longest_first-segments :
    (params : List (CodePoints × CodePoints))
    → All IsSegment params
    → All IsSegment (longest_first params)
unfolding longest_first
longest_first-segments [] h = tt
longest_first-segments (p ∷ params) h =
    insert_param-segments p (longest_first params) h.0 (longest_first-segments params h.1)

-- A key of a route begins with a slash, like the path.
route_key-IsPath :
    (r : Request) → All IsSegment r.path_params → IsPath r.path → IsPath (route_key r)
unfolding route_key
route_key-IsPath r h p =
    substituted-IsPath (longest_first r.path_params) r.path (longest_first-segments r.path_params h)
      p

-- What stands in front of the first ":/" is the same in equal texts.
cut :
    (a b r s : CodePoints)
    → NoSlash a
    → NoSlash b
    → IsPath r
    → IsPath s
    → a ++ 58 ∷ r ≡ b ++ 58 ∷ s
    → a ≡ b
cut a b [] s ha hb pr ps e = absurd pr
cut a b (x ∷ r) [] ha hb pr ps e = absurd ps
cut [] [] (x ∷ r) (y ∷ s) ha hb pr ps e = refl
cut [] (d ∷ []) (x ∷ r) (y ∷ s) ha hb pr ps e = ground (arith, pr, ps, e)
cut [] (d ∷ d' ∷ b) (x ∷ r) (y ∷ s) ha hb pr ps e = ground (arith, pr, ps, e)
cut (c ∷ []) [] (x ∷ r) (y ∷ s) ha hb pr ps e = ground (arith, pr, ps, e)
cut (c ∷ c' ∷ a) [] (x ∷ r) (y ∷ s) ha hb pr ps e = ground (arith, pr, ps, e)
cut (c ∷ a) (d ∷ b) (x ∷ r) (y ∷ s) ha hb pr ps e = ground (arith, cut a b (x ∷ r) (y ∷ s), e)

rate_key-org :
    (r : Request) {org : CodePoints}
    → org_of r ≡ some org
    → rate_key r ≡ codes "org:" ++ (org ++ 58 ∷ route_key r)
unfolding rate_key
rate_key-org r {org} h = rw (h, append_assoc) refl

-- Two organizations never share a bucket.
rate_key_injective :
    (r q : Request) {a b : CodePoints}
    → org_of r ≡ some a
    → org_of q ≡ some b
    → NoSlash a
    → NoSlash b
    → IsPath (route_key r)
    → IsPath (route_key q)
    → rate_key r ≡ rate_key q
    → a ≡ b
rate_key_injective r q {a} {b} hr hq sa sb pr pq e =
    let e' = sym (rate_key-org r hr) ∙ e ∙ rate_key-org q hq in
    cut a b (route_key r) (route_key q) sa sb pr pq (ground (arith, e'))

verdict_buckets : (tier : RateTier) (h : Bool × Buckets) → (verdict tier h).1 ≡ h.1
verdict_buckets tier (true, buckets) = refl
verdict_buckets tier (false, buckets) = refl

-- A request of one organization, on any route, leaves the buckets of every other organization, on
-- any route, as they were, whatever the plans and with Redis or without: no organization spends
-- the budget of another. The ids of the path hold no slash, as the router matches them, the path
-- begins with one, and no value of a parameter is empty or does.
pub rate_limit-isolated :
    (s : RateSettings) (plan_of : CodePoints → Option String) (tier : Option RateTier)
    (reachable : Bool) (r q : Request) (now : ℕ) (buckets : Buckets) (a b : CodePoints)
    → org_of r ≡ some a
    → org_of q ≡ some b
    → a ≢ b
    → NoSlash a
    → NoSlash b
    → All IsSegment r.path_params
    → All IsSegment q.path_params
    → IsPath r.path
    → IsPath q.path
    → bucket_of (rate_key q) (rate_limit s plan_of tier reachable r now buckets).1
      ≡ bucket_of (rate_key q) buckets
unfolding rate_limit
rate_limit-isolated s plan_of tier reachable r q now buckets a b hr hq differ sa sb vr vq pr pq =
    elim (Bool-cases s.ratelimit_enabled) [
      | inr off ↦ rw off refl
      | inl on ↦ elim (Bool-cases (bytes_eq (rate_key r) (rate_key q))) [
        | inl same ↦ absurd (
            differ (
              rate_key_injective r q hr hq sa sb (route_key-IsPath r vr pr)
                (route_key-IsPath q vq pq) (bytes_eq_sound _ _ same)))
        | inr other ↦
            rw (on, verdict_buckets)
              (bucket_of-hit_key reachable (rate_key r) (rate_key q) _ now buckets other)
      ]
    ]
