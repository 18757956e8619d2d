-- ===== src/Metering/Usage.antt =====
-- Recording and reading usage: `record_usage` and `usage_for_period` of metering/service.py. A call
-- takes the committed tables and returns the tables that are committed when it ends, beside its
-- result; one transaction is one step.
pub mod Counts
use python_backend_manager.Prelude.Base.{
  ℕ, ◌+◌, String, Bool, true, false, ◌&&◌, none, some, List, [], ◌∷◌, ◌==◌, ltb, leb, keep,
  if◌then◌else◌,
}
use python_backend_manager.Prelude.Dict.{Dict, get_or, put}
use python_backend_manager.Prelude.Uuid.{Uuid}
use python_backend_manager.Metering.Models.{
  Result, ok, integrity_error, UsageEvent, Tables, has_event, insert_event,
}

unfoldable pub record_usage : Uuid → String → ℕ → String → ℕ → Tables → Result Bool × Tables
unfolding insert_event
record_usage org meter quantity key now t =
    elim (insert_event
      (record {
        organization_id = org;
        meter = meter;
        quantity = quantity;
        idempotency_key = key;
        created_at = now;
      })
      t) [
        | some t' ↦ (ok true, t')
        | none ↦ if has_event org key t.usage_events then (ok false, t) else (integrity_error, t)
      ]

abbrev pub in_period : Uuid → ℕ → ℕ → UsageEvent → Bool
in_period org start end e =
    e.organization_id == org && leb start e.created_at && ltb e.created_at end

-- `GROUP BY meter` with the sum of the quantities.
unfoldable pub group_sum : List UsageEvent → Dict ℕ
group_sum [] = []
group_sum (e ∷ events) =
    let usage = group_sum events in put usage e.meter (get_or usage e.meter 0 + e.quantity)

unfoldable pub usage_for_period : Uuid → ℕ → ℕ → Tables → Dict ℕ
unfolding group_sum
usage_for_period org start end t = group_sum (keep (in_period org start end) t.usage_events)
