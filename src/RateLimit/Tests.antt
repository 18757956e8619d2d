-- ===== src/RateLimit/Tests.antt =====
-- The theorems on rate limiting at concrete requests.
use python_backend_manager.Prelude.Base.{
  ℕ, ◌+◌, ◌-◌, ◌*◌, ◌≤◌, ◌≡◌, refl, true, false, none, List, [], ◌∷◌, arith,
}
use python_backend_manager.RateLimit.Tiers.{RateTier}
use python_backend_manager.RateLimit.Limiter.{
  Bucket, token, burst, hit, bucket_script, level, refilled, live, min,
}
use python_backend_manager.RateLimit.Limiter.Budget.{allowed_count}
use python_backend_manager.RateLimit.Lockout.{
  LockoutSettings, assert_not_locked_out, clear_login_failures,
}
use python_backend_manager.RateLimit.Lockout.Consecutive.{record_all, assert_not_locked_out_lem}
use python_backend_manager.Prelude.Base.{String, Option, some, ◌++◌}
use python_backend_manager.Prelude.Uuid.{Uuid}
use python_backend_manager.Prelude.Bytes.{CodePoints, codes, bytes_eq}
use python_backend_manager.Billing.Models.{Subscription}
use python_backend_manager.Billing.Entitlements.{find_subscription, active_plan}
use python_backend_manager.RateLimit.Plans.{
  plan_for_org, looked_up, cached_plan, read_plan, store_plan,
}
use python_backend_manager.RateLimit.Plans.Recent.{IsRecent, serve_all, plan_for_org-IsRecent}
use python_backend_manager.RateLimit.Limiter.Keys.{Hit, bucket_of, allowed_on, allowed_on-le}
use python_backend_manager.RateLimit.Dependencies.{
  Request, RateSettings, rate_key, org_of, rate_limit,
}
use python_backend_manager.RateLimit.Dependencies.Scopes.{rate_limit-isolated}
use python_backend_manager.Prelude.Dict.{get, put}

-- Two requests a second.
abbrev tier : RateTier
tier = record { limit = 2; window_seconds = 1 }

abbrev times : List ℕ
times = 0 ∷ 100 ∷ 600000 ∷ []

-- Two requests from the full bucket, and one after the refill.
allowed_count_run : allowed_count tier none (0 ∷ times) ≡ 3
unfolding allowed_count hit bucket_script level refilled live min
allowed_count_run = refl

abbrev drained : Bucket
drained = record { tokens = 0; ts = 5; expires_at = 2000005 }

abbrev settings : LockoutSettings
settings = record { ratelimit_enabled = true; lockout_threshold = 3; lockout_window_seconds = 10 }

assert_not_locked_out_lem_example :
    (assert_not_locked_out settings true (record_all settings none (5 ∷ 6 ∷ 7 ∷ [])) 8 ≡ false)
    × (assert_not_locked_out settings true
          (clear_login_failures settings true (record_all settings none (5 ∷ 6 ∷ 7 ∷ [])))
          8
        ≡ true)
assert_not_locked_out_lem_example =
    assert_not_locked_out_lem settings 5 (6 ∷ 7 ∷ []) 8 refl (omega arith)
      (omega arith, (omega arith, tt)) (omega arith)

abbrev parse_text : String → Option Uuid
parse_text text = some 1

abbrev subscribed : ℕ → List Subscription
subscribed at =
    record {
      organization_id = 1;
      provider = "stripe";
      provider_subscription_id = "s";
      status = "active";
      plan = "pro";
      current_period_end = none;
    }
    ∷ []

plan_for_org-IsRecent_example : IsRecent parse_text 60 subscribed 30 "o" "pro"
unfolding plan_for_org looked_up cached_plan read_plan store_plan serve_all get put
    find_subscription active_plan
plan_for_org-IsRecent_example =
    plan_for_org-IsRecent parse_text 60 subscribed 0 (("o", 5) ∷ []) "o" "pro" 30
      (omega arith, omega arith) refl

abbrev hits : List Hit
hits = (codes "a", tier, 0) ∷ (codes "b", tier, 1) ∷ (codes "a", tier, 100) ∷ []

allowed_on-le_example : allowed_on (codes "a") hits [] * token tier ≤ burst tier + (100 - 0) * 2
unfolding bytes_eq
allowed_on-le_example =
    allowed_on-le (codes "a") tier hits [] 0 (100 ∷ [])
      ((λ e. refl), ((λ e. refl), ((λ e. refl), tt))) refl (omega arith, tt)

abbrev usage_of : CodePoints → Request
usage_of org = record {
  client = none;
  path = codes "/orgs/" ++ (org ++ codes "/usage");
  path_params = (codes "org_id", org) ∷ [];
}

rate_key_of : rate_key (usage_of (codes "17")) ≡ codes "org:17:/orgs/{org_id}/usage"
unfolding rate_key bytes_eq
rate_key_of = refl

-- A value that stands elsewhere in the path, too, is replaced there: the key is another one.
rate_key_shadowed :
    rate_key (usage_of (codes "s")) ≡ codes "org:s:/org{org_id}/{org_id}/u{org_id}age"
unfolding rate_key bytes_eq
rate_key_shadowed = refl

abbrev rate_settings : RateSettings
rate_settings = record { ratelimit_enabled = true; default_tier = tier; auth_tier = tier }

rate_limit-isolated_example :
    bucket_of
      (rate_key (usage_of (codes "18")))
      (rate_limit rate_settings (λ org. some "pro") none true (usage_of (codes "17")) 5 []).1
    ≡ bucket_of (rate_key (usage_of (codes "18"))) []
unfolding org_of bytes_eq
rate_limit-isolated_example =
    rate_limit-isolated rate_settings (λ org. some "pro") none true (usage_of (codes "17"))
      (usage_of (codes "18")) 5 [] (codes "17") (codes "18") refl refl (λ e. ground arith) refl refl
      ((λ e. omega (arith, e)), tt) ((λ e. omega (arith, e)), tt) refl refl
