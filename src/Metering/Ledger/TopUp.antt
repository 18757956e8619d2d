-- ===== src/Metering/Ledger/TopUp.antt =====
-- A top-up keeps the ledger sound.
use python_backend_manager.Prelude.Base.{
  String, ◌≡◌, refl, some, ◌∷◌, arith, Option-cases, inl, inr, sym, ◌∙◌,
}
use python_backend_manager.Prelude.Int.{ℤ, pos, ◌≤ℤ◌}
use python_backend_manager.Prelude.Uuid.{Uuid}
use python_backend_manager.Metering.Models.{
  CustomerWallet, WalletTransaction, Tables, Result, ok, integrity_error, insert_transaction,
  insert_wallet,
}
use python_backend_manager.Metering.Wallet.{
  get_wallet, new_wallet, get_or_create_wallet, topup_transaction, credit_wallet, forget_pending,
  apply_topup, top_up,
}
use python_backend_manager.Metering.Ledger.{ledger, IsSound}
use python_backend_manager.Metering.Ledger.Update.{
  credit-IsBalanced, credit-IsUnique, credit-IsOwned, ledger_of_unknown, any-has_wallet,
  Differs-has_wallet, IsOwned-cons,
}
use python_backend_manager.Metering.Ledger.Kept.{insert_transaction-Inserted, Opened}

insert_wallet-Opened :
    (w : CustomerWallet) (t : Tables) {t' : Tables} → insert_wallet w t ≡ some t' → Opened w t t'
unfolding insert_wallet
insert_wallet-Opened w t e = ground arith

-- A new wallet starts with nothing, and no transaction names it.
insert_wallet-IsSound :
    (w : CustomerWallet) (t : Tables) {t' : Tables}
    → w.balance_cents ≡ pos 0
    → insert_wallet w t ≡ some t'
    → IsSound t
    → IsSound t'
insert_wallet-IsSound w t zero e s =
    let (same, new) = insert_wallet-Opened w t e in
    let absent = any-has_wallet w.id w.organization_id t.customer_wallets new in
    let nothing = ledger_of_unknown t.customer_wallets t.wallet_transactions w.id s.owned absent in
    rw same (record {
      balanced = ((zero ∙ sym nothing, rw zero (omega arith)), s.balanced);
      unique = (Differs-has_wallet w t.customer_wallets new, s.unique);
      keys = s.keys;
      owned = IsOwned-cons w t.customer_wallets t.wallet_transactions s.owned;
    })

abbrev SoundAfter : Result (CustomerWallet × Tables) → Type 0
SoundAfter (ok (w, t)) = IsSound t
SoundAfter integrity_error = Unit

get_or_create_wallet-SoundAfter :
    (org : Uuid) (currency : String) (id : Uuid) (seen t : Tables)
    → IsSound t
    → SoundAfter (get_or_create_wallet org currency id seen t)
unfolding get_or_create_wallet
get_or_create_wallet-SoundAfter org currency id seen t s =
    elim (Option-cases (get_wallet org seen)) [
      | inr (w, e) ↦ rw (e, get_or_create_wallet) s
      | inl e ↦ elim (Option-cases (insert_wallet (new_wallet org currency id) t)) [
        | inr (t', q) ↦
            rw (e, get_or_create_wallet)
              (rw (q, get_or_create_wallet)
                (insert_wallet-IsSound (new_wallet org currency id) t refl q s))
        | inl q ↦ elim (Option-cases (get_wallet org t)) [
          | inr (w, r) ↦
              rw (e, get_or_create_wallet)
                (rw (q, get_or_create_wallet) (rw (r, get_or_create_wallet) s))
          | inl r ↦
              rw (e, get_or_create_wallet)
                (rw (q, get_or_create_wallet) (rw (r, get_or_create_wallet) tt))
        ]
      ]
    ]

-- A transaction and the credit of its wallet, in that order.
credit_wallet-IsSound :
    (x : WalletTransaction) (t : Tables) {t' : Tables}
    → insert_transaction x t ≡ some t'
    → pos 0 ≤ℤ x.delta_cents
    → IsSound t
    → IsSound (credit_wallet x.wallet_id x.delta_cents t')
unfolding credit_wallet
credit_wallet-IsSound x t e p s =
    let (same, new, known) = insert_transaction-Inserted x t e in
    rw same (record {
      balanced =
          unfold ledger in
          credit-IsBalanced x.wallet_id x.delta_cents (ledger t.wallet_transactions)
            t.customer_wallets p s.balanced;
      unique = credit-IsUnique x.wallet_id x.delta_cents t.customer_wallets s.unique;
      keys = (new, s.keys);
      owned =
          credit-IsOwned x.wallet_id x.delta_cents t.customer_wallets (x ∷ t.wallet_transactions)
            (known, s.owned);
    })

forget_pending-keeps :
    (r : Result (CustomerWallet × Tables)) (t : Tables) → (forget_pending r t).1 ≡ t
unfolding forget_pending
forget_pending-keeps (ok (w, t')) t = refl
forget_pending-keeps integrity_error t = refl

apply_topup-IsSound :
    (org : Uuid) (amount : ℤ) (key currency : String) (id' : Uuid)
    (r : Result (CustomerWallet × Tables)) (t : Tables)
    → pos 0 ≤ℤ amount
    → SoundAfter r
    → IsSound t
    → IsSound (apply_topup org amount key currency id' r t).1
unfolding apply_topup
apply_topup-IsSound org amount key currency id' integrity_error t p h s = s
apply_topup-IsSound org amount key currency id' (ok (w, flushed)) t p h s =
    elim (Option-cases (insert_transaction (topup_transaction w org amount key) flushed)) [
      | inl e ↦ rw (e, apply_topup) (rw forget_pending-keeps s)
      | inr (t', e) ↦
          rw (e, apply_topup)
            (credit_wallet-IsSound (topup_transaction w org amount key) flushed e p h)
    ]

-- A top-up of an amount that is not negative keeps the ledger sound, whether it is new or a retry and whatever
-- older state the request first read.
pub top_up-IsSound :
    (org : Uuid) (amount : ℤ) (key currency : String) (id id' : Uuid) (seen t : Tables)
    → pos 0 ≤ℤ amount
    → IsSound t
    → IsSound (top_up org amount key currency id id' seen t).1
unfolding top_up
top_up-IsSound org amount key currency id id' seen t p s =
    apply_topup-IsSound org amount key currency id' (get_or_create_wallet org currency id seen t) t
      p (get_or_create_wallet-SoundAfter org currency id seen t s) s
