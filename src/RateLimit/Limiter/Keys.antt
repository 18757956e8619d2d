-- ===== src/RateLimit/Limiter/Keys.antt =====
-- The limiter of ratelimit/limiter.py over all its keys: Redis holds a bucket for each key, and
-- `hit` runs the script on the one of its key.
use python_backend_manager.Prelude.Base.{
  ℕ, ◌+◌, ◌-◌, ◌*◌, ◌≤◌, ◌≡◌, ◌≢◌, refl, ap, Bool, true, false, Option, none, some, List, [], ◌∷◌,
  All, arith, Bool-cases, inl, inr, if◌then◌else◌,
}
use python_backend_manager.Prelude.Bytes.{
  CodePoints, bytes_eq, bytes_eq_iff, bytes_eq_refl, bytes_eq_sound,
}
use python_backend_manager.RateLimit.Tiers.{RateTier}
use python_backend_manager.RateLimit.Limiter.{Bucket, bucket_script, hit, token, burst}
use python_backend_manager.RateLimit.Limiter.Budget.{
  allowed_count, allowed_count-le, IsRunning, last_time, one_if,
}

-- The buckets, by their keys without the prefix "ratelimit:".
abbrev pub Buckets : Type 0
Buckets = List (CodePoints × Bucket)

unfoldable pub bucket_of : CodePoints → Buckets → Option Bucket
bucket_of key [] = none
bucket_of key ((k, b) ∷ buckets) = if bytes_eq k key then some b else bucket_of key buckets

unfoldable pub put_bucket : CodePoints → Bucket → Buckets → Buckets
put_bucket key b [] = (key, b) ∷ []
put_bucket key b ((k, old) ∷ buckets) =
    if bytes_eq k key then (k, b) ∷ buckets else (k, old) ∷ put_bucket key b buckets

abbrev pub write_bucket : CodePoints → Option Bucket → Buckets → Buckets
write_bucket key none buckets = buckets
write_bucket key (some b) buckets = put_bucket key b buckets

-- `hit`, with the key; `reachable` is false without Redis or on an error before the script has run.
unfoldable pub hit_key : Bool → CodePoints → RateTier → ℕ → Buckets → Bool × Buckets
hit_key false key tier now buckets = (true, buckets)
hit_key true key tier now buckets =
    let (allowed, b) = bucket_script tier (bucket_of key buckets) now in
    (allowed, write_bucket key b buckets)

pub bucket_of-put_bucket :
    (key other : CodePoints) (b : Bucket) (buckets : Buckets)
    → bucket_of other (put_bucket key b buckets)
      ≡ (if bytes_eq key other then some b else bucket_of other buckets)
unfolding bucket_of put_bucket
bucket_of-put_bucket key other b [] = refl
bucket_of-put_bucket key other b ((k, old) ∷ buckets) = ground (
  arith,
  bytes_eq_iff k key,
  bytes_eq_iff k other,
  bytes_eq_iff key other,
  bucket_of-put_bucket key other b buckets,
)

write_bucket_other :
    (key other : CodePoints) (b : Option Bucket) (buckets : Buckets)
    → bytes_eq key other ≡ false
    → bucket_of other (write_bucket key b buckets) ≡ bucket_of other buckets
write_bucket_other key other none buckets h = refl
write_bucket_other key other (some b) buckets h =
    ground (arith, bucket_of-put_bucket key other b buckets)

write_bucket_self :
    (key : CodePoints) (b : Option Bucket) (buckets : Buckets)
    → b ≢ none
    → bucket_of key (write_bucket key b buckets) ≡ b
write_bucket_self key none buckets h = absurd (h refl)
write_bucket_self key (some b) buckets h =
    ground (arith, bucket_of-put_bucket key key b buckets, bytes_eq_refl key)

-- A hit on another key leaves the bucket of a key as it is.
pub bucket_of-hit_key :
    (reachable : Bool) (key other : CodePoints) (tier : RateTier) (now : ℕ) (buckets : Buckets)
    → bytes_eq key other ≡ false
    → bucket_of other (hit_key reachable key tier now buckets).1 ≡ bucket_of other buckets
unfolding hit_key
bucket_of-hit_key false key other tier now buckets h = refl
bucket_of-hit_key true key other tier now buckets h = write_bucket_other key other _ buckets h

bucket_script-ne-none :
    (tier : RateTier) (b : Option Bucket) (now : ℕ) → (bucket_script tier b now).1 ≢ none
unfolding bucket_script
bucket_script-ne-none tier b now h = cc

-- A hit on a key leaves there what the script writes.
bucket_of-hit_key_self :
    (key : CodePoints) (tier : RateTier) (now : ℕ) (buckets : Buckets)
    → bucket_of key (hit_key true key tier now buckets).1
      ≡ (bucket_script tier (bucket_of key buckets) now).1
unfolding hit_key
bucket_of-hit_key_self key tier now buckets =
    write_bucket_self key _ buckets (bucket_script-ne-none tier (bucket_of key buckets) now)

-- A request on the limiter: the key, the tier and the time.
abbrev pub Hit : Type 0
Hit = CodePoints × RateTier × ℕ

-- How many of the hits on a key are allowed, of those on all keys.
unfoldable pub allowed_on : CodePoints → List Hit → Buckets → ℕ
allowed_on key [] buckets = 0
allowed_on key ((k, tier, now) ∷ hits) buckets =
    let (allowed, buckets') = hit_key true k tier now buckets in
    (if bytes_eq k key then one_if allowed else 0) + allowed_on key hits buckets'

-- The times of the hits on a key.
abbrev pub times_on : CodePoints → List Hit → List ℕ
times_on key [] = []
times_on key ((k, tier, now) ∷ hits) =
    if bytes_eq k key then now ∷ times_on key hits else times_on key hits

abbrev pub HasTier : CodePoints → RateTier → Hit → Type 0
HasTier key tier (k, t, now) = bytes_eq k key ≡ true → t ≡ tier

same_key :
    (k : CodePoints) (t : RateTier) (now : ℕ) (key : CodePoints) (tier : RateTier) (hits : List Hit)
    (buckets : Buckets)
    → k ≡ key
    → t ≡ tier
    → allowed_on key hits (hit_key true k t now buckets).1
      ≡ allowed_count tier (bucket_of key (hit_key true k t now buckets).1) (times_on key hits)
    → one_if (hit_key true k t now buckets).0 + allowed_on key hits (hit_key true k t now buckets).1
      ≡ allowed_count tier (bucket_of key buckets) (now ∷ times_on key hits)
unfolding allowed_count hit
same_key k t now key tier hits buckets same_k same_t rest =
    rw (rest, same_k, same_t, bucket_of-hit_key_self key tier now buckets) (unfold hit_key in refl)

allowed_on-allowed_count :
    (key : CodePoints) (tier : RateTier) (hits : List Hit) (buckets : Buckets)
    → All (HasTier key tier) hits
    → allowed_on key hits buckets ≡ allowed_count tier (bucket_of key buckets) (times_on key hits)
unfolding allowed_on allowed_count
allowed_on-allowed_count key tier [] buckets h = refl
allowed_on-allowed_count key tier ((k, t, now) ∷ hits) buckets h =
    let rest = allowed_on-allowed_count key tier hits (hit_key true k t now buckets).1 h.1 in
    elim (Bool-cases (bytes_eq k key)) [
      | inr other ↦
          let kept =
            ap (λ b. allowed_count tier b (times_on key hits))
              (bucket_of-hit_key true k key t now buckets other) in
          rw other (omega (arith, rest, kept))
      | inl same ↦
          rw same
            (same_key k t now key tier hits buckets (bytes_eq_sound k key same) (h.0 same) rest)
    ]

-- The budget of a key among all keys: however the requests on any keys interleave, of those on one
-- key, at times that do not go back and under one tier, at most as many are allowed as a full bucket
-- holds and the elapsed time refills, and the requests on other keys count for nothing. Counted in
-- units, of which a token is `window_seconds * 1000000` and a microsecond brings `limit`.
pub allowed_on-le :
    (key : CodePoints) (tier : RateTier) (hits : List Hit) (buckets : Buckets) (now : ℕ)
    (times : List ℕ)
    → All (HasTier key tier) hits
    → times_on key hits ≡ now ∷ times
    → IsRunning now times
    → allowed_on key hits buckets * token tier
      ≤ burst tier + (last_time now times - now) * tier.limit
allowed_on-le key tier hits buckets now times same at running =
    let counted = allowed_on-allowed_count key tier hits buckets same in
    let bound = allowed_count-le tier (bucket_of key buckets) now times running in
    rw (counted, at) bound
