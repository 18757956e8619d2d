-- ===== src/Metering/Ledger/Kept.antt =====
-- Charging an invoice keeps the ledger sound.
use python_backend_manager.Prelude.Base.{
  ℕ, ◌≡◌, true, false, some, ◌∷◌, ◌==◌, arith, All, any, find_first, update_where, Option-cases,
  Bool-cases, inl, inr,
}
use python_backend_manager.Prelude.Int.{pos}
use python_backend_manager.Metering.Models.{
  CustomerWallet, WalletTransaction, Invoice, InvoiceStatus, open_invoice, paid, uncollectible,
  Tables, has_key, has_wallet, insert_transaction,
}
use python_backend_manager.Metering.Charge.{
  covers, debit, charge_transaction, save_invoice, save_status, settle_charge, debit_wallet,
  charge_open, charge_invoice,
}
use python_backend_manager.Metering.Ledger.{
  ledger, IsBalanced, IsUnique, HasUniqueKeys, IsOwned, IsSound,
}
use python_backend_manager.Metering.Ledger.Update.{
  add_to, debit-IsBalanced, debit-IsUnique, debit-IsOwned,
}

-- The tables of a debit whose transaction is not inserted yet.
abbrev debited : Invoice → Tables → Tables
debited i t = record t {
  customer_wallets = update_where (covers i) (debit (pos i.total_cents)) t.customer_wallets;
}

-- A transaction that goes in: what was checked, and the row at the front of its table.
abbrev Inserted : WalletTransaction → Tables → Tables → Type 0
Inserted x t t' =
    (t' ≡ record t { wallet_transactions = x ∷ t.wallet_transactions })
    × (has_key x.idempotency_key t.wallet_transactions ≡ false)
    × (any (λ w. w.id == x.wallet_id) t.customer_wallets ≡ true)

pub insert_transaction-Inserted :
    (x : WalletTransaction) (t : Tables) {t' : Tables}
    → insert_transaction x t ≡ some t'
    → Inserted x t t'
unfolding insert_transaction
insert_transaction-Inserted x t e = ground arith

-- Balances that already count the transaction are sound once it is in.
transaction-IsSound :
    (x : WalletTransaction) (t : Tables) {t' : Tables}
    → insert_transaction x t ≡ some t'
    → All
        (IsBalanced (add_to x.wallet_id x.delta_cents (ledger t.wallet_transactions)))
        t.customer_wallets
    → IsUnique t.customer_wallets
    → HasUniqueKeys t.wallet_transactions
    → IsOwned t.customer_wallets t.wallet_transactions
    → IsSound t'
transaction-IsSound x t e b u k o =
    let (same, new, known) = insert_transaction-Inserted x t e in
    rw same
      (record { balanced = unfold ledger in b; unique = u; keys = (new, k); owned = (known, o) })

-- The ledger does not depend on the invoices.
save_invoice-IsSound : (i : Invoice) (t : Tables) → IsSound t → IsSound (save_invoice i t)
unfolding save_invoice
save_invoice-IsSound i t s = record {
  balanced = s.balanced;
  unique = s.unique;
  keys = s.keys;
  owned = s.owned;
}

save_status-IsSound : (i : Invoice) (t : Tables) → IsSound t → IsSound (save_status i t)
unfolding save_status
save_status-IsSound i t s = record {
  balanced = s.balanced;
  unique = s.unique;
  keys = s.keys;
  owned = s.owned;
}

settle_charge-IsSound :
    (i : Invoice) (now : ℕ) (w : CustomerWallet) (t : Tables)
    → find_first (covers i) t.customer_wallets ≡ some w
    → IsSound t
    → IsSound (settle_charge i now w.id (debited i t) t).1
unfolding settle_charge
settle_charge-IsSound i now w t f s =
    elim (Option-cases (insert_transaction (charge_transaction i w.id) (debited i t))) [
      | inl e ↦
          rw (e, settle_charge)
            (elim (Option-cases (find_first (λ j. j.id == i.id) t.invoices)) [
              | inl q ↦ rw (q, settle_charge) s
              | inr (j, q) ↦ rw (q, settle_charge) s
            ])
      | inr (t', e) ↦
          rw (e, settle_charge)
            (save_invoice-IsSound _ t' (
              transaction-IsSound (charge_transaction i w.id) (debited i t) e
                (debit-IsBalanced i w t.customer_wallets (ledger t.wallet_transactions) f s.unique
                  s.balanced)
                (debit-IsUnique i (pos i.total_cents) t.customer_wallets s.unique) s.keys
                (debit-IsOwned i (pos i.total_cents) t.customer_wallets t.wallet_transactions
                  s.owned)))
    ]

debit_wallet-IsSound :
    (i : Invoice) (now : ℕ) (t : Tables) → IsSound t → IsSound (debit_wallet i now t).1
unfolding debit_wallet
debit_wallet-IsSound i now t s = elim (Option-cases (find_first (covers i) t.customer_wallets)) [
  | inl e ↦ rw (e, debit_wallet) (save_status-IsSound _ t s)
  | inr (w, e) ↦ rw (e, debit_wallet) (settle_charge-IsSound i now w t e s)
]

charge_open-IsSound :
    (status : InvoiceStatus) (i : Invoice) (now : ℕ) (t : Tables)
    → IsSound t
    → IsSound (charge_open status i now t).1
unfolding charge_open
charge_open-IsSound open_invoice i now t s = elim (Bool-cases (i.total_cents == 0)) [
  | inl e ↦ rw e (save_invoice-IsSound _ t s)
  | inr e ↦ rw e (debit_wallet-IsSound i now t s)
]
charge_open-IsSound paid i now t s = s
charge_open-IsSound uncollectible i now t s = s

-- A charge of any invoice, fresh or stale, paid or refused, keeps every balance equal to the sum of
-- the wallet's transactions and not below zero, and the transactions' keys distinct.
pub charge_invoice-IsSound :
    (i : Invoice) (now : ℕ) (t : Tables) → IsSound t → IsSound (charge_invoice i now t).1
unfolding charge_invoice
charge_invoice-IsSound i now t s = charge_open-IsSound i.status i now t s

abbrev pub Opened : CustomerWallet → Tables → Tables → Type 0
Opened w t t' =
    (t' ≡ record t { customer_wallets = w ∷ t.customer_wallets })
    × (has_wallet w.id w.organization_id t.customer_wallets ≡ false)
