-- ===== src/Metering/Wallet.antt =====
-- The prepaid wallet: `top_up`, `get_wallet` and `_get_or_create_wallet` of metering/service.py.
pub mod Outcome
use python_backend_manager.Prelude.Base.{String, Option, none, some, ◌==◌, find_first, update_where}
use python_backend_manager.Prelude.Int.{ℤ, pos, ◌+ℤ◌}
use python_backend_manager.Prelude.Uuid.{Uuid}
use python_backend_manager.Metering.Models.{
  Result, ok, integrity_error, CustomerWallet, WalletTransaction, Tables, insert_wallet,
  insert_transaction,
}

unfoldable pub get_wallet : Uuid → Tables → Option CustomerWallet
get_wallet org t = find_first (λ w. w.organization_id == org) t.customer_wallets

-- The row that a first top-up builds.
abbrev pub new_wallet : Uuid → String → Uuid → CustomerWallet
new_wallet org currency id = record {
  id = id;
  organization_id = org;
  balance_cents = pos 0;
  currency = currency;
}

-- `seen` is what the first SELECT read, and `t` the tables at the flush: between the two another
-- request may have created the wallet. The new row is flushed, and not committed.
unfoldable pub get_or_create_wallet :
    Uuid → String → Uuid → Tables → Tables → Result (CustomerWallet × Tables)
get_or_create_wallet org currency id seen t = elim (get_wallet org seen) [
  | some w ↦ ok (w, t)
  | none ↦ elim (insert_wallet (new_wallet org currency id) t) [
    | some t' ↦ ok (new_wallet org currency id, t')
    | none ↦ elim (get_wallet org t) [ some existing ↦ ok (existing, t) | none ↦ integrity_error ]
  ]
]

abbrev pub topup_transaction : CustomerWallet → Uuid → ℤ → String → WalletTransaction
topup_transaction wallet org amount key = record {
  wallet_id = wallet.id;
  organization_id = org;
  delta_cents = amount;
  reason = "topup";
  idempotency_key = key;
  invoice_id = none;
}

-- `balance_cents + amount_cents` of the row with the id.
unfoldable pub credit_wallet : Uuid → ℤ → Tables → Tables
credit_wallet id amount t = record t {
  customer_wallets =
      update_where (λ w. w.id == id) (λ w. record w { balance_cents = w.balance_cents +ℤ amount })
        t.customer_wallets;
}

-- What a caller is told of a wallet, after the session's own uncommitted rows are dropped.
unfoldable pub forget_pending :
    Result (CustomerWallet × Tables) → Tables → Result CustomerWallet × Tables
forget_pending (ok (w, _)) t = (ok w, t)
forget_pending integrity_error t = (integrity_error, t)

-- `wallet` as `session.refresh` reads it again.
unfoldable pub refresh_wallet : CustomerWallet → Tables → CustomerWallet
refresh_wallet w t = elim (find_first (λ v. v.id == w.id) t.customer_wallets) [
  | some v ↦ v
  | none ↦ w
]

-- The credit, once the wallet is at hand in `flushed`; a duplicate key rolls back to `t`.
unfoldable pub apply_topup :
    Uuid
    → ℤ
    → String
    → String
    → Uuid
    → Result (CustomerWallet × Tables)
    → Tables
    → Result CustomerWallet × Tables
apply_topup org amount key currency id' integrity_error t = (integrity_error, t)
apply_topup org amount key currency id' (ok (wallet, flushed)) t =
    elim (insert_transaction (topup_transaction wallet org amount key) flushed) [
      | some t' ↦
          let t'' = credit_wallet wallet.id amount t' in (ok (refresh_wallet wallet t''), t'')
      | none ↦ forget_pending (get_or_create_wallet org currency id' t t) t
    ]

-- `id` and `id'` are the UUIDs of the wallet rows that the call may build.
unfoldable pub top_up :
    Uuid → ℤ → String → String → Uuid → Uuid → Tables → Tables → Result CustomerWallet × Tables
top_up org amount key currency id id' seen t =
    apply_topup org amount key currency id' (get_or_create_wallet org currency id seen t) t
