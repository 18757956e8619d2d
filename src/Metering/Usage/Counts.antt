-- ===== src/Metering/Usage/Counts.antt =====
-- Usage is counted once per idempotency key and once per period.
use python_backend_manager.Prelude.Base.{
  ℕ, ◌+◌, ◌≤◌, String, ◌≡◌, refl, true, false, not, ◌&&◌, List, [], ◌∷◌, ◌==◌, arith, keep, sum_by,
  str_eq, eq_iff, eq_refl, if◌then◌else◌, ltb, leb,
}
use python_backend_manager.Prelude.Dict.{get_or, get_or-put}
use python_backend_manager.Prelude.Uuid.{Uuid}
use python_backend_manager.Metering.Models.{UsageEvent, Tables, ok, has_organization, has_event}
use python_backend_manager.Metering.Usage.{record_usage, in_period, group_sum, usage_for_period}

-- The units that one event adds to a meter's total over a period.
abbrev pub counted : Uuid → String → ℕ → ℕ → UsageEvent → ℕ
counted org meter start end e =
    if in_period org start end e && str_eq e.meter meter then e.quantity else 0

-- A meter's use over a period: the sum over all the recorded events.
abbrev pub metered : Uuid → String → ℕ → ℕ → List UsageEvent → ℕ
metered org meter start end events = sum_by (counted org meter start end) events

get_or-group_sum :
    (org : Uuid) (meter : String) (start end : ℕ) (events : List UsageEvent)
    → get_or (group_sum (keep (in_period org start end) events)) meter 0
      ≡ metered org meter start end events
unfolding group_sum
get_or-group_sum org meter start end [] = unfold get_or in refl
get_or-group_sum org meter start end (e ∷ es) =
    grind (arith, get_or-group_sum org meter start end es, get_or-put, eq_iff e.meter meter)

-- `usage_for_period` gives each meter the sum of the quantities of the organization's events of
-- that meter with a creation time in the half-open period, and no entry counts for zero.
pub usage_for_period-eq-metered :
    (org : Uuid) (meter : String) (start end : ℕ) (t : Tables)
    → get_or (usage_for_period org start end t) meter 0 ≡ metered org meter start end t.usage_events
unfolding usage_for_period
usage_for_period-eq-metered org meter start end t =
    get_or-group_sum org meter start end t.usage_events

pub metered_split :
    (org : Uuid) (meter : String) (a b c : ℕ) (events : List UsageEvent)
    → a ≤ b
    → b ≤ c
    → metered org meter a c events ≡ metered org meter a b events + metered org meter b c events
metered_split org meter a b c [] h k = omega arith
metered_split org meter a b c (e ∷ es) h k = ground (arith, metered_split org meter a b c es h k)

-- Two adjacent periods count every event of the joint period exactly once.
pub usage_for_period_split :
    (org : Uuid) (meter : String) (a b c : ℕ) (t : Tables)
    → a ≤ b
    → b ≤ c
    → get_or (usage_for_period org a c t) meter 0
      ≡ get_or (usage_for_period org a b t) meter 0 + get_or (usage_for_period org b c t) meter 0
usage_for_period_split org meter a b c t h k = omega (
  arith,
  usage_for_period-eq-metered org meter a c t,
  usage_for_period-eq-metered org meter a b t,
  usage_for_period-eq-metered org meter b c t,
  metered_split org meter a b c t.usage_events h k,
)

-- Recording usage for a known organization returns whether the key is new. A new key adds its
-- quantity to its own meter in every period that holds the time and to nothing else, and a
-- duplicate leaves every total of the organization as it was.
pub metered-record_usage :
    (org : Uuid) (meter : String) (quantity : ℕ) (key : String) (now : ℕ) (t : Tables)
    → has_organization org t ≡ true
    → (org' : Uuid) (meter' : String) (start end : ℕ)
    → let (r, t') = record_usage org meter quantity key now t in
      let fresh = not (has_event org key t.usage_events) in
      (r ≡ ok fresh)
      × (metered org' meter' start end t'.usage_events
          ≡ metered org' meter' start end t.usage_events
            + (if fresh && (org == org' && leb start now && ltb now end && str_eq meter meter')
                then quantity
                else 0))
unfolding record_usage
metered-record_usage org meter quantity key now t known org' meter' start end = ground arith

has_event-record :
    (org : Uuid) (meter : String) (quantity : ℕ) (key : String) (now : ℕ) (t : Tables)
    → (record_usage org meter quantity key now t).0 ≡ ok true
    → has_event org key (record_usage org meter quantity key now t).1.usage_events ≡ true
unfolding record_usage
has_event-record org meter quantity key now t h = ground (arith, eq_refl key)

-- A retry of a recorded event is refused as a duplicate and changes no table, whatever it carries
-- beside the organization and the key, and whenever it comes.
pub record_usage_retry :
    (org : Uuid) (meter meter' : String) (quantity quantity' : ℕ) (key : String) (now now' : ℕ)
    (t : Tables)
    → (record_usage org meter quantity key now t).0 ≡ ok true
    → let t' = (record_usage org meter quantity key now t).1 in
      record_usage org meter' quantity' key now' t' ≡ (ok false, t')
unfolding record_usage
record_usage_retry org meter meter' quantity quantity' key now now' t h =
    ground (arith, eq_refl key)
