-- ===== src/RateLimit/Limiter/Budget.antt =====
-- The budget: what a bucket lets through in any stretch of time.
use python_backend_manager.Prelude.Base.{
  ℕ, ◌+◌, ◌-◌, ◌*◌, ◌≤◌, ◌<◌, ◌≡◌, Bool, true, false, Option, none, some, List, [], ◌∷◌, arith, leb,
  Bool-cases, inl, inr,
}
use python_backend_manager.RateLimit.Tiers.{RateTier}
use python_backend_manager.RateLimit.Limiter.{
  Bucket, token, burst, min, live, refilled, level, bucket_script, hit,
}

abbrev pub one_if : Bool → ℕ
one_if true = 1
one_if false = 0

-- How many of the hits at the given times are allowed.
unfoldable pub allowed_count : RateTier → Option Bucket → List ℕ → ℕ
allowed_count tier bucket [] = 0
allowed_count tier bucket (now ∷ times) =
    let (allowed, bucket') = hit true tier bucket now in
    one_if allowed + allowed_count tier bucket' times

-- Times that do not go back.
abbrev pub IsRunning : ℕ → List ℕ → Type 0
IsRunning now [] = Unit
IsRunning now (next ∷ times) = (now ≤ next) × IsRunning next times

abbrev pub last_time : ℕ → List ℕ → ℕ
last_time now [] = now
last_time now (next ∷ times) = last_time next times

level-le : (tier : RateTier) (bucket : Option Bucket) (now : ℕ) → level tier bucket now ≤ burst tier
unfolding level refilled live min
level-le tier none now = omega arith
level-le tier (some b) now = elim (Bool-cases (leb b.expires_at now)) [
  | inl gone ↦ rw gone (omega arith)
  | inr kept ↦ rw kept (ground arith)
]

mul_mono : (a b c : ℕ) → a ≤ b → a * c ≤ b * c
mul_mono a b c h = grind arith

mul_diff : (a b c k : ℕ) → a ≤ b → b ≤ c → (b - a) * k + (c - b) * k ≡ (c - a) * k
mul_diff a b c k h j = grind arith

min-le : (a b : ℕ) → min a b ≤ b
unfolding min
min-le a b = ground arith

-- What a bucket written at `now` holds later: an expired one would be full again.
level-written :
    (tier : RateTier) (tokens now next : ℕ)
    → now ≤ next
    → level tier
        (some (record { tokens = tokens; ts = now; expires_at = now + 2 * token tier }))
        next
      ≤ tokens + (next - now) * tier.limit
unfolding level live refilled
level-written tier tokens now next h = elim (Bool-cases (leb (now + 2 * token tier) next)) [
  | inl gone ↦
      let long : now + 2 * token tier ≤ next = ground (arith, gone) in
      let enough : token tier * tier.limit ≤ (next - now) * tier.limit =
        mul_mono (token tier) (next - now) tier.limit (omega (arith, long)) in
      rw gone (omega (arith, enough))
  | inr kept ↦ rw kept (min-le (burst tier) (tokens + (next - now) * tier.limit))
]

-- After a hit the bucket fills no faster than `limit` units a microsecond, expired or not.
level-bucket_script :
    (tier : RateTier) (bucket : Option Bucket) (now next : ℕ)
    → now ≤ next
    → let (allowed, bucket') = bucket_script tier bucket now in
      level tier bucket' next + one_if allowed * token tier
      ≤ level tier bucket now + (next - now) * tier.limit
unfolding bucket_script
level-bucket_script tier bucket now next h =
    elim (Bool-cases (leb (token tier) (level tier bucket now))) [
      | inl enough ↦
          let fits : token tier ≤ level tier bucket now = ground (arith, enough) in
          rw enough (
            omega (arith, fits, level-written tier (level tier bucket now - token tier) now next h))
      | inr few ↦ rw few (omega (arith, level-written tier (level tier bucket now) now next h))
    ]

last_time-le : (now : ℕ) (times : List ℕ) → IsRunning now times → now ≤ last_time now times
last_time-le now [] h = omega arith
last_time-le now (next ∷ times) h = omega (arith, last_time-le next times h.1, h.0)

-- The tokens that are taken, against those at hand at the first hit and those that come in.
allowed_count-level :
    (tier : RateTier) (bucket : Option Bucket) (now : ℕ) (times : List ℕ)
    → IsRunning now times
    → allowed_count tier bucket (now ∷ times) * token tier
      ≤ level tier bucket now + (last_time now times - now) * tier.limit
unfolding allowed_count hit
allowed_count-level tier bucket now [] h =
    omega (arith, level-bucket_script tier bucket now now (omega arith))
allowed_count-level tier bucket now (next ∷ times) h = omega (
  arith,
  level-bucket_script tier bucket now next h.0,
  allowed_count-level tier (bucket_script tier bucket now).1 next times h.1,
  mul_diff now next (last_time next times) tier.limit h.0 (last_time-le next times h.1),
)

-- The budget: of any run of requests on a key, at times that do not go back, at most as many are
-- allowed as a full bucket holds and the elapsed time refills. Counted in units, of which a token
-- is `window_seconds * 1000000` and a microsecond brings `limit`, the allowed requests are at most
-- `burst + elapsed * limit`, whatever state the bucket is in, and though idle buckets expire.
pub allowed_count-le :
    (tier : RateTier) (bucket : Option Bucket) (now : ℕ) (times : List ℕ)
    → IsRunning now times
    → allowed_count tier bucket (now ∷ times) * token tier
      ≤ burst tier + (last_time now times - now) * tier.limit
allowed_count-le tier bucket now times h =
    omega (arith, allowed_count-level tier bucket now times h, level-le tier bucket now)

-- A full bucket is not refused: a first request on a key is allowed wherever the limit is not zero,
-- and so is any request after an idle window, whatever was left in the bucket.
pub hit_idle :
    (tier : RateTier) (bucket : Bucket) (now : ℕ)
    → 0 < tier.limit
    → bucket.ts + token tier ≤ now
    → ((hit true tier none now).0 ≡ true) × ((hit true tier (some bucket) now).0 ≡ true)
unfolding hit bucket_script level live refilled min
hit_idle tier bucket now positive idle =
    let full : token tier ≤ burst tier = mul_le_left tier.limit (token tier) positive in
    let grown : token tier * tier.limit ≤ (now - bucket.ts) * tier.limit =
      mul_mono (token tier) (now - bucket.ts) tier.limit (omega (arith, idle)) in
    ground (arith, full, grown)
  where
    mul_le_left : (k n : ℕ) → 0 < k → n ≤ k * n
    mul_le_left k n h = grind arith
