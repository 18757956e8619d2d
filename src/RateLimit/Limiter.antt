-- ===== src/RateLimit/Limiter.antt =====
-- The token bucket of ratelimit/limiter.py, for one key. A time is a number of microseconds of the
-- Redis clock. The script computes with floating-point numbers, the model exactly: a token is
-- counted as `window_seconds * 1000000` units, so that a microsecond brings `limit` of them.
pub mod Budget
pub mod Keys
use python_backend_manager.Prelude.Base.{
  ℕ, ◌+◌, ◌-◌, ◌*◌, Bool, true, false, Option, none, some, leb, if◌then◌else◌,
}
use python_backend_manager.RateLimit.Tiers.{RateTier}

-- The hash of a bucket, and when the key expires.
pub record Bucket : Type 0 where
  pub tokens : ℕ
  pub ts : ℕ
  pub expires_at : ℕ

abbrev pub token : RateTier → ℕ
token tier = tier.window_seconds * 1000000

abbrev pub burst : RateTier → ℕ
burst tier = tier.limit * token tier

unfoldable pub min : ℕ → ℕ → ℕ
min a b = if leb a b then a else b

-- The bucket that a key still has.
unfoldable pub live : Option Bucket → ℕ → Option Bucket
live none now = none
live (some b) now = if leb b.expires_at now then none else some b

-- `tokens` after the refill; `max(0, now - ts)` is the subtraction of the natural numbers.
unfoldable pub refilled : RateTier → Option Bucket → ℕ → ℕ
refilled tier none now = burst tier
refilled tier (some b) now = min (burst tier) (b.tokens + (now - b.ts) * tier.limit)

unfoldable pub level : RateTier → Option Bucket → ℕ → ℕ
level tier bucket now = refilled tier (live bucket now) now

-- `_BUCKET_LUA`
unfoldable pub bucket_script : RateTier → Option Bucket → ℕ → Bool × Option Bucket
bucket_script tier bucket now =
    let tokens = level tier bucket now in
    let allowed = leb (token tier) tokens in
    (
      allowed,
      some (record {
        tokens = if allowed then tokens - token tier else tokens;
        ts = now;
        expires_at = now + 2 * token tier;
      }),
    )

-- `hit`: without Redis, or on any error before the script has run, the request is allowed.
unfoldable pub hit : Bool → RateTier → Option Bucket → ℕ → Bool × Option Bucket
hit false tier bucket now = (true, bucket)
hit true tier bucket now = bucket_script tier bucket now
