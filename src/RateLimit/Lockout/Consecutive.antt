-- ===== src/RateLimit/Lockout/Consecutive.antt =====
-- An identity is locked out by consecutive failures, and only by these.
use python_backend_manager.Prelude.Base.{
  ℕ, ◌+◌, ◌*◌, ◌<◌, ◌≡◌, true, Option, none, some, List, [], ◌∷◌, arith, ltb, length, All,
  if◌then◌else◌,
}
use python_backend_manager.RateLimit.Lockout.{
  Counter, LockoutSettings, live, incr_script, count_failure, failure_count, clear_failures,
  assert_not_locked_out, record_login_failure, clear_login_failures,
}

-- Failures at the given times.
unfoldable pub record_all : LockoutSettings → Option Counter → List ℕ → Option Counter
record_all settings counter [] = counter
record_all settings counter (now ∷ times) =
    record_all settings (record_login_failure settings true counter now) times

record_all-live :
    (settings : LockoutSettings) (c : Counter) (times : List ℕ)
    → settings.ratelimit_enabled ≡ true
    → All (λ now. now < c.expires_at) times
    → record_all settings (some c) times ≡ some (record c { count = c.count + length times })
unfolding record_all record_login_failure count_failure incr_script live
record_all-live settings c [] enabled early = ground arith
record_all-live settings c (now ∷ times) enabled early = ground (
  arith,
  enabled,
  early.0,
  record_all-live settings (record c { count = c.count + 1 }) times enabled early.1,
)

-- The lockout, while Redis is reachable: after a failed login at `first` on a clear counter and
-- further ones within the window that it starts, a login within that window goes on exactly if
-- there were fewer failures than the threshold. After the window, and after a successful login has
-- cleared the counter, it goes on.
pub assert_not_locked_out_lem :
    (settings : LockoutSettings) (first : ℕ) (times : List ℕ) (now : ℕ)
    → settings.ratelimit_enabled ≡ true
    → 0 < settings.lockout_threshold
    → All (λ time. time < first + settings.lockout_window_seconds * 1000000) times
    → 0 < settings.lockout_window_seconds
    → let counter = record_all settings none (first ∷ times) in
      (assert_not_locked_out settings true counter now ≡ (
        if ltb now (first + settings.lockout_window_seconds * 1000000)
        then ltb (1 + length times) settings.lockout_threshold
        else true))
      × (assert_not_locked_out settings true (clear_login_failures settings true counter) now
          ≡ true)
unfolding record_all record_login_failure count_failure incr_script live assert_not_locked_out
    failure_count clear_login_failures clear_failures
assert_not_locked_out_lem settings first times now enabled positive early window = ground (
  arith,
  enabled,
  record_all-live settings
      (record { count = 1; expires_at = first + settings.lockout_window_seconds * 1000000 }) times
      enabled early,
)
