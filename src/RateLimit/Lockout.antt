-- ===== src/RateLimit/Lockout.antt =====
-- The lockout after failed logins: the failure counter of ratelimit/limiter.py, for one identity,
-- and the checks of ratelimit/dependencies.py.jinja. A time is a number of microseconds.
pub mod Consecutive
use python_backend_manager.Prelude.Base.{
  ℕ, ◌+◌, ◌*◌, Bool, true, false, not, Option, none, some, leb, ltb, if◌then◌else◌,
}

pub record Counter : Type 0 where
  pub count : ℕ
  pub expires_at : ℕ

pub record LockoutSettings : Type 0 where
  pub ratelimit_enabled : Bool
  pub lockout_threshold : ℕ
  pub lockout_window_seconds : ℕ

-- The counter that a key still has.
unfoldable pub live : Option Counter → ℕ → Option Counter
live none now = none
live (some c) now = if leb c.expires_at now then none else some c

-- `_INCR_LUA`: the first failure starts the window.
unfoldable pub incr_script : ℕ → Option Counter → ℕ → Counter
incr_script window_seconds counter now = elim (live counter now) [
  | none ↦ record { count = 1; expires_at = now + window_seconds * 1000000 }
  | some c ↦ record c { count = c.count + 1 }
]

-- `count_failure` with `_incr_with_ttl`; `reachable` is false without Redis or on an error before
-- the script has run.
unfoldable pub count_failure : Bool → ℕ → Option Counter → ℕ → ℕ × Option Counter
count_failure false window_seconds counter now = (0, counter)
count_failure true window_seconds counter now =
    let c = incr_script window_seconds counter now in (c.count, some c)

abbrev pub count_of : Option Counter → ℕ
count_of none = 0
count_of (some c) = c.count

unfoldable pub failure_count : Bool → Option Counter → ℕ → ℕ
failure_count false counter now = 0
failure_count true counter now = count_of (live counter now)

unfoldable pub clear_failures : Bool → Option Counter → Option Counter
clear_failures false counter = counter
clear_failures true counter = none

-- Does the login go on? If not, it is a 429.
unfoldable pub assert_not_locked_out : LockoutSettings → Bool → Option Counter → ℕ → Bool
assert_not_locked_out settings reachable counter now =
    if not settings.ratelimit_enabled
    then true
    else not (leb settings.lockout_threshold (failure_count reachable counter now))

unfoldable pub record_login_failure : LockoutSettings → Bool → Option Counter → ℕ → Option Counter
record_login_failure settings reachable counter now =
    if not settings.ratelimit_enabled
    then counter
    else (count_failure reachable settings.lockout_window_seconds counter now).1

unfoldable pub clear_login_failures : LockoutSettings → Bool → Option Counter → Option Counter
clear_login_failures settings reachable counter =
    if not settings.ratelimit_enabled then counter else clear_failures reachable counter
