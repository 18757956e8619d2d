-- ===== src/Billing/Router/Rows.antt =====
-- The upsert of a subscription row leaves no two rows of one organization, and none with one id
-- of the provider.
use python_backend_manager.Prelude.Base.{
  String, Bool, ◌≡◌, true, false, ◌||◌, refl, sym, ap, ◌∙◌, Option, none, some, List, [], ◌∷◌, ◌==◌,
  any, find_first, update_where, any-find_first, find_first-passes, inl, inr, Bool-cases, arith,
  str_eq, eq_iff, if◌then◌else◌,
}
use python_backend_manager.Prelude.Uuid.{Uuid}
use python_backend_manager.Billing.Models.{Subscription}
use python_backend_manager.Billing.Ports.{PaymentEvent}
use python_backend_manager.Billing.Router.{
  upsert, clashes, of_org, same_subscription, new_subscription, updated,
}
use python_backend_manager.Billing.Router.Entitled.{find_first-upsert, row_after}

-- No two elements of a list clash.
abbrev pub Distinct {ℓ} : {A : Type ℓ} → (A → A → Bool) → List A → Type 0
Distinct clash [] = Unit
Distinct clash (x ∷ xs) = (any (clash x) xs ≡ false) × Distinct clash xs

abbrev pub conflict : Subscription → Subscription → Bool
conflict s r =
    s.organization_id == r.organization_id
    || str_eq r.provider_subscription_id s.provider_subscription_id

any-conflict :
    (s : Subscription) (rows : List Subscription)
    → any (of_org s.organization_id) rows ≡ false
    → any (same_subscription s) rows ≡ false
    → any (conflict s) rows ≡ false
any-conflict s [] a b = refl
any-conflict s (r ∷ rows) a b = grind (arith, any-conflict s rows)

module _ (provider : String) (event : PaymentEvent) (org : Uuid) where
  abbrev change : Subscription → Subscription
  change s = updated provider event s

  update_where-none :
      (rows : List Subscription)
      → any (of_org org) rows ≡ false
      → update_where (of_org org) change rows ≡ rows
  update_where-none [] a = refl
  update_where-none (r ∷ rows) a = grind (arith, update_where-none rows)

  any-conflict_org :
      (s : Subscription) (rows : List Subscription)
      → s.organization_id ≡ org
      → any (conflict s) rows ≡ false
      → any (of_org org) rows ≡ false
  any-conflict_org s [] e a = refl
  any-conflict_org s (r ∷ rows) e a = grind (arith, any-conflict_org s rows)

  any-conflict-update :
      (x : Subscription) (rows : List Subscription) {s : Subscription}
      → find_first (of_org org) rows ≡ some s
      → Distinct conflict rows
      → any (conflict x) rows ≡ false
      → conflict x (change s) ≡ false
      → any (conflict x) (update_where (of_org org) change rows) ≡ false
  any-conflict-update x [] f d a c = refl
  any-conflict-update x (r ∷ rows) {s} f d a c = elim (Bool-cases (r.organization_id == org)) [
    | inl e ↦ grind (arith, update_where-none rows (any-conflict_org r rows (grind arith) d.0))
    | inr e ↦ grind (arith, any-conflict-update x rows {s = s})
  ]

  conflict_other :
      (r s : Subscription)
      → (r.organization_id == org) ≡ false
      → (s.organization_id == org) ≡ true
      → same_subscription (change s) r ≡ false
      → conflict r (change s) ≡ false
  conflict_other r s a b c = grind (
    arith,
    eq_iff r.provider_subscription_id (change s).provider_subscription_id,
    eq_iff (change s).provider_subscription_id r.provider_subscription_id,
  )

  at_first :
      (r : Subscription) (rows : List Subscription)
      → (r.organization_id == org) ≡ true
      → Distinct conflict (r ∷ rows)
      → any (same_subscription (change r)) (update_where (of_org org) change rows) ≡ false
      → Distinct conflict (change r ∷ update_where (of_org org) change rows)
  at_first r rows e d h =
      let none_left = any-conflict_org r rows (grind arith) d.0 in
      let same = update_where-none rows none_left in
      rw same (any-conflict (change r) rows (grind arith) (grind arith), d.1)

  update-Distinct :
      (rows : List Subscription) {s : Subscription}
      → find_first (of_org org) rows ≡ some s
      → Distinct conflict rows
      → any (same_subscription (change s)) (update_where (of_org org) change rows) ≡ false
      → Distinct conflict (update_where (of_org org) change rows)
  update-Distinct [] f d h = tt
  update-Distinct (r ∷ rows) {s} f d h =
      go (r.organization_id == org) refl f h (λ f' h'. update-Distinct rows f' d.1 h')
    where
      found : (x : Subscription) → some x ≡ some s → x ≡ s
      found x e = cc

      go :
          (b : Bool)
          → (r.organization_id == org) ≡ b
          → (if b then some r else find_first (of_org org) rows) ≡ some s
          → any
              (same_subscription (change s))
              ((if b then change r else r) ∷ update_where (of_org org) change rows)
            ≡ false
          → (find_first (of_org org) rows ≡ some s
              → any (same_subscription (change s)) (update_where (of_org org) change rows) ≡ false
              → Distinct conflict (update_where (of_org org) change rows))
          → Distinct conflict ((if b then change r else r) ∷ update_where (of_org org) change rows)
      go true e f' h' again = at_first r rows e d (rw (found r f') (grind arith))
      go false e f' h' again = (
        any-conflict-update r rows f' d.1 d.0
            (conflict_other r s e (find_first-passes (of_org org) rows f') (grind arith)),
        again f' (grind arith),
      )

  pub upsert-Distinct :
      (rows : List Subscription)
      → Distinct conflict rows
      → clashes
          (find_first (of_org org) (upsert provider event org rows))
          (upsert provider event org rows)
        ≡ false
      → Distinct conflict (upsert provider event org rows)
  unfolding upsert clashes
  upsert-Distinct rows d h = go (find_first (of_org org) rows) refl (
      sym (
        ap (λ r. clashes r (upsert provider event org rows))
          (find_first-upsert provider event org rows))
      ∙ h)
    where
      go :
          (o : Option Subscription)
          → find_first (of_org org) rows ≡ o
          → any (same_subscription (row_after provider event org o)) (elim o [
            | none ↦ new_subscription provider event org ∷ rows
            | some s ↦ update_where (of_org org) change rows
          ])
            ≡ false
          → Distinct conflict (elim o [
            | none ↦ new_subscription provider event org ∷ rows
            | some s ↦ update_where (of_org org) change rows
          ])
      go none e a = (
        any-conflict (new_subscription provider event org) rows (any-find_first (of_org org) rows e)
            (grind arith),
        d,
      )
      go (some s) e a = update-Distinct rows e d a
