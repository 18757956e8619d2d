-- ===== src/Webhooks/Outbox/Tried.antt =====
-- A run of the relay in webhooks/outbox.py tries every pending event, or settles it.
use python_backend_manager.Prelude.Base.{
  ℕ, zero, suc, ◌+◌, ◌≤◌, ◌≡◌, refl, ◌∙◌, ◌⊎◌, inl, inr, Bool, true, false, Option, none, some,
  List, [], ◌∷◌, ◌==◌, arith, All, any, keep, length, update_where, Bool-cases,
}
use mathlib.Core.Path.{subst}
use python_backend_manager.Prelude.Uuid.{Uuid}
use python_backend_manager.Webhooks.Outbox.{
  WebhookEndpoint, OutboxEvent, Queue, Accepts, fan_out, deferred, settled, publish_all, is_pending,
  insert_by_age, by_age, first, drain_outbox,
}
use python_backend_manager.Webhooks.Outbox.Claimed.{IsPending, All-claimed}

-- A row that is still pending has been tried `n` times at least.
abbrev pub IsTried : ℕ → OutboxEvent → Type 0
IsTried n e = IsPending e → n ≤ e.attempts

-- Is the row among those that are claimed?
abbrev is_among : List OutboxEvent → OutboxEvent → Bool
is_among claimed e = any (λ c. c.id == e.id) claimed

-- In a run: tried once more, or among those to come.
abbrev WillBeTried : ℕ → List OutboxEvent → OutboxEvent → Type 0
WillBeTried n claimed e = IsPending e → (n + 1 ≤ e.attempts) ⊎ (is_among claimed e ≡ true)

settled-IsTried :
    (n max_attempts now : ℕ) (failed : Option Uuid) (event : OutboxEvent)
    → n ≤ event.attempts
    → IsTried (n + 1) (settled max_attempts now failed event)
unfolding deferred
settled-IsTried n max_attempts now none event h pending = absurd (ground (arith, pending))
settled-IsTried n max_attempts now (some e) event h pending = ground arith

update-WillBeTried :
    (n : ℕ) (event event' : OutboxEvent) (claimed events : List OutboxEvent)
    → IsTried (n + 1) event'
    → All (WillBeTried n (event ∷ claimed)) events
    → All (WillBeTried n claimed) (update_where (λ e. e.id == event.id) (λ e. event') events)
update-WillBeTried n event event' claimed [] new h = tt
update-WillBeTried n event event' claimed (e ∷ es) new h = elim (Bool-cases (e.id == event.id)) [
  | inl hit ↦
      rw hit ((λ pending. inl (new pending)), update-WillBeTried n event event' claimed es new h.1)
  | inr miss ↦ rw miss (
    (λ pending. ground (arith, h.0 pending)),
    update-WillBeTried n event event' claimed es new h.1,
  )
]

tried :
    (n : ℕ) (events : List OutboxEvent)
    → All (WillBeTried n []) events
    → All (IsTried (n + 1)) events
tried n [] h = tt
tried n (e ∷ es) h = ((λ pending. ground (arith, h.0 pending)), tried n es h.1)

publish_all-IsTried :
    (n : ℕ) (accepts : Accepts) (max_attempts now : ℕ) (endpoints : List WebhookEndpoint)
    (claimed events : List OutboxEvent) (queue : Queue)
    → All (λ e. n ≤ e.attempts) claimed
    → All (WillBeTried n claimed) events
    → let (published, events', queue') =
        publish_all accepts max_attempts now endpoints claimed events queue in
      All (IsTried (n + 1)) events'
unfolding publish_all
publish_all-IsTried n accepts max_attempts now endpoints [] events queue c h = tried n events h
publish_all-IsTried n accepts max_attempts now endpoints (event ∷ claimed) events queue c h =
    let (failed, queue') = fan_out accepts event endpoints queue in
    publish_all-IsTried n accepts max_attempts now endpoints claimed _ queue' c.1 (
      update-WillBeTried n event (settled max_attempts now failed event) claimed events
        (settled-IsTried n max_attempts now failed event c.0) h)

-- With room for all rows, and none locked, every pending row is claimed.
abbrev pub unlocked : Uuid → Bool
unlocked id = false

any-insert_by_age :
    (p : OutboxEvent → Bool) (e : OutboxEvent) (events : List OutboxEvent)
    → any p (insert_by_age e events) ≡ any p (e ∷ events)
unfolding insert_by_age
any-insert_by_age p e [] = refl
any-insert_by_age p e (f ∷ fs) = ground (arith, any-insert_by_age p e fs)

any-by_age :
    (p : OutboxEvent → Bool) (events : List OutboxEvent) → any p (by_age events) ≡ any p events
unfolding by_age
any-by_age p [] = refl
any-by_age p (e ∷ es) = ground (arith, any-insert_by_age p e (by_age es), any-by_age p es)

length-insert_by_age :
    (e : OutboxEvent) (events : List OutboxEvent)
    → length (insert_by_age e events) ≡ suc (length events)
unfolding insert_by_age
length-insert_by_age e [] = refl
length-insert_by_age e (f ∷ fs) = ground (arith, length-insert_by_age e fs)

length-by_age : (events : List OutboxEvent) → length (by_age events) ≡ length events
unfolding by_age
length-by_age [] = refl
length-by_age (e ∷ es) = omega (arith, length-insert_by_age e (by_age es), length-by_age es)

length-keep :
    (p : OutboxEvent → Bool) (events : List OutboxEvent) → length (keep p events) ≤ length events
length-keep p [] = omega arith
length-keep p (e ∷ es) = ground (arith, length-keep p es)

first_all : (n : ℕ) (events : List OutboxEvent) → length events ≤ n → first n events ≡ events
first_all zero [] h = refl
first_all zero (e ∷ es) h = absurd (omega arith)
first_all (suc n) [] h = refl
first_all (suc n) (e ∷ es) h = ground (arith, first_all n es)

abbrev IsAmong : List OutboxEvent → OutboxEvent → Type 0
IsAmong claimed e = IsPending e → is_among claimed e ≡ true

IsAmong-cons :
    (c : OutboxEvent) (claimed events : List OutboxEvent)
    → All (IsAmong claimed) events
    → All (IsAmong (c ∷ claimed)) events
IsAmong-cons c claimed [] h = tt
IsAmong-cons c claimed (e ∷ es) h =
    ((λ pending. ground (arith, h.0 pending)), IsAmong-cons c claimed es h.1)

pending-kept :
    (events : List OutboxEvent) → All (IsAmong (keep (is_pending unlocked) events)) events
pending-kept [] = tt
pending-kept (e ∷ es) = elim (Bool-cases (is_pending unlocked e)) [
  | inl waits ↦
      subst (λ (v : List OutboxEvent). All (IsAmong v) (e ∷ es))
        {x = e ∷ keep (is_pending unlocked) es} {y = keep (is_pending unlocked) (e ∷ es)}
        (rw waits refl)
        (
          (λ pending. ground arith),
          IsAmong-cons e (keep (is_pending unlocked) es) es (pending-kept es),
        )
  | inr rests ↦
      subst (λ (v : List OutboxEvent). All (IsAmong v) (e ∷ es)) {x = keep (is_pending unlocked) es}
        {y = keep (is_pending unlocked) (e ∷ es)} (rw rests refl)
        ((λ pending. absurd (ground (arith, rests, pending))), pending-kept es)
]

will_be_tried :
    (n : ℕ) (claimed claimed' events : List OutboxEvent)
    → ((p : OutboxEvent → Bool) → any p claimed' ≡ any p claimed)
    → All (IsAmong claimed) events
    → All (WillBeTried n claimed') events
will_be_tried n claimed claimed' [] same h = tt
will_be_tried n claimed claimed' (e ∷ es) same h = (
  (λ pending. inr (same (λ c. c.id == e.id) ∙ h.0 pending)),
  will_be_tried n claimed claimed' es same h.1,
)

claimed-tried :
    (n : ℕ) (claimed : List OutboxEvent)
    → All (λ e. IsTried n e × IsPending e) claimed
    → All (λ e. n ≤ e.attempts) claimed
claimed-tried n [] h = tt
claimed-tried n (e ∷ es) h = (h.0.0 h.0.1, claimed-tried n es h.1)

-- A run tries every pending event, or settles it.
pub drain_outbox-IsTried :
    (n : ℕ) (accepts : Accepts) (limit max_attempts now : ℕ) (endpoints : List WebhookEndpoint)
    (events : List OutboxEvent) (queue : Queue)
    → length events ≤ limit
    → All (IsTried n) events
    → let (published, events', queue') =
        drain_outbox accepts limit max_attempts now unlocked endpoints events queue in
      All (IsTried (n + 1)) events'
unfolding drain_outbox
drain_outbox-IsTried n accepts limit max_attempts now endpoints events queue room h =
    let pending = keep (is_pending unlocked) events in
    let fits : length (by_age pending) ≤ limit =
      omega (arith, length-by_age pending, length-keep (is_pending unlocked) events) in
    publish_all-IsTried n accepts max_attempts now endpoints (first limit (by_age pending)) events
      queue (claimed-tried n _ (All-claimed (IsTried n) limit unlocked events h))
      (will_be_tried n pending (first limit (by_age pending)) events
        (λ p. rw (first_all limit (by_age pending) fits) (any-by_age p pending))
        (pending-kept events))

pub length-publish_all :
    (accepts : Accepts) (max_attempts now : ℕ) (endpoints : List WebhookEndpoint)
    (claimed events : List OutboxEvent) (queue : Queue)
    → length (publish_all accepts max_attempts now endpoints claimed events queue).1 ≡ length events
unfolding publish_all
length-publish_all accepts max_attempts now endpoints [] events queue = refl
length-publish_all accepts max_attempts now endpoints (event ∷ claimed) events queue =
    let (failed, queue') = fan_out accepts event endpoints queue in
    length-publish_all accepts max_attempts now endpoints claimed _ queue'
    ∙ length-update event (settled max_attempts now failed event) events
  where
    length-update :
        (event event' : OutboxEvent) (events : List OutboxEvent)
        → length (update_where (λ e. e.id == event.id) (λ e. event') events) ≡ length events
    length-update event event' [] = refl
    length-update event event' (e ∷ es) = omega (arith, length-update event event' es)
