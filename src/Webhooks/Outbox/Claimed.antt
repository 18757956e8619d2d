-- ===== src/Webhooks/Outbox/Claimed.antt =====
-- The rows that a run of the relay claims.
use python_backend_manager.Prelude.Base.{
  ℕ, zero, suc, ◌≡◌, refl, Bool, true, Option, none, some, List, [], ◌∷◌, arith, All, keep, leb,
  Bool-cases, inl, inr,
}
use python_backend_manager.Prelude.Uuid.{Uuid}
use python_backend_manager.Webhooks.Outbox.{
  OutboxEvent, is_pending, is_null, insert_by_age, by_age, first,
}

-- A row that is neither published nor a dead letter.
abbrev pub IsPending : OutboxEvent → Type 0
IsPending e = (e.published_at ≡ none) × (e.failed_at ≡ none)

is_null_sound : (at : Option ℕ) → is_null at ≡ true → at ≡ none
is_null_sound none h = refl
is_null_sound (some n) h = cc

module _ (P : OutboxEvent → Type 0) where
  abbrev Both : OutboxEvent → Type 0
  Both e = P e × IsPending e

  All-keep :
      (locked : Uuid → Bool) (events : List OutboxEvent)
      → All P events
      → All Both (keep (is_pending locked) events)
  All-keep locked [] h = tt
  All-keep locked (e ∷ es) h = elim (Bool-cases (is_pending locked e)) [
    | inl hit ↦ rw hit (
      (
        h.0,
        (
          is_null_sound e.published_at (ground (arith, hit)),
          is_null_sound e.failed_at (ground (arith, hit)),
        ),
      ),
      All-keep locked es h.1,
    )
    | inr miss ↦ rw miss (All-keep locked es h.1)
  ]

  All-insert_by_age :
      (e : OutboxEvent) (events : List OutboxEvent)
      → Both e
      → All Both events
      → All Both (insert_by_age e events)
  unfolding insert_by_age
  All-insert_by_age e [] p h = (p, tt)
  All-insert_by_age e (f ∷ fs) p h = elim (Bool-cases (leb e.created_at f.created_at)) [
    | inl older ↦ rw older (p, h)
    | inr newer ↦ rw newer (h.0, All-insert_by_age e fs p h.1)
  ]

  All-by_age : (events : List OutboxEvent) → All Both events → All Both (by_age events)
  unfolding by_age
  All-by_age [] h = tt
  All-by_age (e ∷ es) h = All-insert_by_age e (by_age es) h.0 (All-by_age es h.1)

  All-first : (n : ℕ) (events : List OutboxEvent) → All Both events → All Both (first n events)
  All-first zero events h = tt
  All-first (suc n) [] h = tt
  All-first (suc n) (e ∷ es) h = (h.0, All-first n es h.1)

  -- What holds of every row holds of those that are claimed, and they are pending.
  pub All-claimed :
      (limit : ℕ) (locked : Uuid → Bool) (events : List OutboxEvent)
      → All P events
      → All (λ e. P e × IsPending e) (first limit (by_age (keep (is_pending locked) events)))
  All-claimed limit locked events h =
      All-first limit (by_age (keep (is_pending locked) events))
        (All-by_age (keep (is_pending locked) events) (All-keep locked events h))
