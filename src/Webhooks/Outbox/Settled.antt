-- ===== src/Webhooks/Outbox/Settled.antt =====
-- Every event is settled in the end: the runs of the relay in webhooks/outbox.py, one after another.
use python_backend_manager.Prelude.Base.{ℕ, suc, ◌+◌, ◌≤◌, List, [], ◌∷◌, arith, All, keep, length}
use mathlib.Core.Path.{subst}
use python_backend_manager.Webhooks.Outbox.{
  WebhookEndpoint, OutboxEvent, Queue, Accepts, is_pending, by_age, first, drain_outbox,
}
use python_backend_manager.Webhooks.Outbox.Claimed.{IsPending}
use python_backend_manager.Webhooks.Outbox.Attempts.{IsBounded, drain_outbox-IsBounded}
use python_backend_manager.Webhooks.Outbox.Tried.{
  IsTried, unlocked, drain_outbox-IsTried, length-publish_all,
}

-- A run of the relay: what the queue answers, the time, and the endpoints there are.
pub record Round : Type 0 where
  pub accepts : Accepts
  pub now : ℕ
  pub endpoints : List WebhookEndpoint

module _ (limit max_attempts : ℕ) where
  -- Runs one after another, over what the last one left.
  unfoldable pub drain_all : List Round → List OutboxEvent → Queue → List OutboxEvent
  drain_all [] events queue = events
  drain_all (r ∷ rounds) events queue =
      let (published, events', queue') =
        drain_outbox r.accepts limit max_attempts r.now unlocked r.endpoints events queue in
      drain_all rounds events' queue'

  drain_all-IsTried :
      (n : ℕ) (rounds : List Round) (events : List OutboxEvent) (queue : Queue)
      → length events ≤ limit
      → All (IsBounded max_attempts) events
      → All (IsTried n) events
      → All (IsBounded max_attempts) (drain_all rounds events queue)
        × All (IsTried (n + length rounds)) (drain_all rounds events queue)
  unfolding drain_all drain_outbox
  drain_all-IsTried n [] events queue room bounded h =
      (bounded, subst (λ (k : ℕ). All (IsTried k) events) {x = n} {y = n + 0} (omega arith) h)
  drain_all-IsTried n (r ∷ rounds) events queue room bounded h =
      let (published, events', queue') =
        drain_outbox r.accepts limit max_attempts r.now unlocked r.endpoints events queue in
      let same =
        length-publish_all r.accepts max_attempts r.now r.endpoints
          (first limit (by_age (keep (is_pending unlocked) events))) events queue in
      let (bounded', tried') =
        drain_all-IsTried (n + 1) rounds events' queue' (omega (arith, same, room))
          (drain_outbox-IsBounded r.accepts limit max_attempts r.now unlocked r.endpoints events
            queue bounded)
          (drain_outbox-IsTried n r.accepts limit max_attempts r.now r.endpoints events queue room
            h) in
      (
        bounded',
        subst (λ (k : ℕ). All (IsTried k) (drain_all rounds events' queue'))
            {x = n + 1 + length rounds} {y = n + suc (length rounds)} (omega arith) tried',
      )

none-IsPending :
    (max_attempts n : ℕ) (events : List OutboxEvent)
    → max_attempts ≤ n
    → All (IsBounded max_attempts) events
    → All (IsTried n) events
    → All (λ e. ¬ IsPending e) events
none-IsPending max_attempts n [] le bounded h = tt
none-IsPending max_attempts n (e ∷ es) le bounded h = (
  λ pending. omega (arith, le, bounded.0.1 pending.1, h.0 pending),
  none-IsPending max_attempts n es le bounded.1 h.1,
)

untried : (events : List OutboxEvent) → All (IsTried 0) events
untried [] = tt
untried (e ∷ es) = ((λ pending. omega arith), untried es)

-- No event waits for ever: after as many runs of the relay as an event may be attempted, each with
-- room for all the events and with no row locked by another run, every event is published or a dead
-- letter, whatever the queue accepts or rejects and however the endpoints change between the runs.
pub drain_all-settles :
    (limit max_attempts : ℕ) (rounds : List Round) (events : List OutboxEvent) (queue : Queue)
    → length events ≤ limit
    → All (IsBounded max_attempts) events
    → max_attempts ≤ length rounds
    → All (λ e. ¬ IsPending e) (drain_all limit max_attempts rounds events queue)
drain_all-settles limit max_attempts rounds events queue room bounded enough =
    let (bounded', tried') =
      drain_all-IsTried limit max_attempts 0 rounds events queue room bounded (untried events) in
    none-IsPending max_attempts (0 + length rounds) _ (omega (arith, enough)) bounded' tried'
