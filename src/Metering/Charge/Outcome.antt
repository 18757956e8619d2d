-- ===== src/Metering/Charge/Outcome.antt =====
-- What a charge does, branch by branch, and that an invoice is debited at most once.
use python_backend_manager.Prelude.Base.{
  ℕ, String, ◌≡◌, ◌≢◌, true, false, Option, none, some, List, [], ◌∷◌, ◌==◌, arith, any, find_first,
  update_where, eq_refl,
}
use python_backend_manager.Prelude.Int.{pos, ◌≤ℤ◌}
use mathlib.Core.Path.{subst}
use Prim.Native.String.{◌++◌ as append}
use python_backend_manager.Prelude.Uuid.{uuid_text}
use python_backend_manager.Metering.Models.{
  CustomerWallet, Invoice, open_invoice, paid, uncollectible, Tables, has_key, has_organization,
  insert_transaction,
}
use python_backend_manager.Metering.Charge.{
  covers, debit, invoice_key, charge_transaction, with_status, save_invoice, save_status,
  settle_charge, debit_wallet, charge_open, charge_invoice,
}
use python_backend_manager.Metering.Wallet.{get_wallet}

-- The first wallet of the organization, if it covers the total, is the one that the debit matches.
found_covers :
    (i : Invoice) (ws : List CustomerWallet) {w : CustomerWallet}
    → find_first (λ w. w.organization_id == i.organization_id) ws ≡ some w
    → pos i.total_cents ≤ℤ w.balance_cents
    → find_first (covers i) ws ≡ some w
found_covers i [] e h = cc
found_covers i (v ∷ vs) {w} e h = ground (arith, found_covers i vs {w = w})

found_debit :
    (i : Invoice) (ws : List CustomerWallet) {w : CustomerWallet}
    → find_first (λ w. w.organization_id == i.organization_id) ws ≡ some w
    → pos i.total_cents ≤ℤ w.balance_cents
    → find_first
        (λ w. w.organization_id == i.organization_id)
        (update_where (covers i) (debit (pos i.total_cents)) ws)
      ≡ some (debit (pos i.total_cents) w)
found_debit i [] e h = cc
found_debit i (v ∷ vs) {w} e h = ground (arith, found_debit i vs {w = w})

any_debited :
    (i : Invoice) (ws : List CustomerWallet) {w : CustomerWallet}
    → find_first (λ w. w.organization_id == i.organization_id) ws ≡ some w
    → any (λ v. v.id == w.id) (update_where (covers i) (debit (pos i.total_cents)) ws) ≡ true
any_debited i [] e = cc
any_debited i (v ∷ vs) {w} e = ground (arith, any_debited i vs {w = w})

-- An open invoice with a positive total, a wallet that covers it and no earlier charge: it is paid
-- at `now`, the wallet holds the total less, and the one new transaction is the debit under the
-- invoice's own key.
pub charge_invoice-paid :
    (i : Invoice) (now : ℕ) (t : Tables) {w : CustomerWallet}
    → i.status ≡ open_invoice
    → i.total_cents ≢ 0
    → has_organization i.organization_id t ≡ true
    → get_wallet i.organization_id t ≡ some w
    → pos i.total_cents ≤ℤ w.balance_cents
    → has_key (invoice_key i) t.wallet_transactions ≡ false
    → let (charged, t') = charge_invoice i now t in
      (charged ≡ with_status paid (some now) i)
      × (get_wallet i.organization_id t' ≡ some (debit (pos i.total_cents) w))
      × (t'.wallet_transactions ≡ charge_transaction i w.id ∷ t.wallet_transactions)
unfolding charge_invoice charge_open debit_wallet settle_charge insert_transaction save_invoice
    save_status get_wallet
charge_invoice-paid i now t {w} is_open positive org found enough fresh = ground (
  arith,
  found_covers i t.customer_wallets found enough,
  found_debit i t.customer_wallets found enough,
  any_debited i t.customer_wallets found,
)

-- What a repeated or refused charge leaves alone.
abbrev pub SameWallets : Tables → Tables → Type 0
SameWallets t t' =
    (t'.customer_wallets ≡ t.customer_wallets) × (t'.wallet_transactions ≡ t.wallet_transactions)

-- Once a transaction stands under the invoice's key, no further charge of the invoice touches a
-- wallet or a transaction, however stale the copy of the invoice that is charged.
pub charge_invoice_once :
    (i : Invoice) (now : ℕ) (t : Tables)
    → has_key (invoice_key i) t.wallet_transactions ≡ true
    → SameWallets t (charge_invoice i now t).1
unfolding charge_invoice charge_open debit_wallet settle_charge insert_transaction save_invoice
    save_status
charge_invoice_once i now t used = ground arith

-- A charge writes a transaction under the invoice's key or none.
wrote_key :
    (i : Invoice) (now : ℕ) (t : Tables)
    → (charge_invoice i now t).1.wallet_transactions ≢ t.wallet_transactions
    → has_key (invoice_key i) (charge_invoice i now t).1.wallet_transactions ≡ true
unfolding charge_invoice charge_open debit_wallet settle_charge insert_transaction save_invoice
    save_status
wrote_key i now t wrote = ground (arith, eq_refl (invoice_key i))

-- A charge, of this or of another invoice, leaves the keys that are used used.
keeps_key :
    (key : String) (i : Invoice) (now : ℕ) (t : Tables)
    → has_key key t.wallet_transactions ≡ true
    → has_key key (charge_invoice i now t).1.wallet_transactions ≡ true
unfolding charge_invoice charge_open debit_wallet settle_charge insert_transaction save_invoice
    save_status
keeps_key key i now t used = ground arith

-- Charges of any invoices, in any copies, one after the other.
unfoldable pub charge_all : List (Invoice × ℕ) → Tables → Tables
charge_all [] t = t
charge_all ((i, now) ∷ charges) t = charge_all charges (charge_invoice i now t).1

charge_all-keeps :
    (key : String) (charges : List (Invoice × ℕ)) (t : Tables)
    → has_key key t.wallet_transactions ≡ true
    → has_key key (charge_all charges t).wallet_transactions ≡ true
unfolding charge_all
charge_all-keeps key [] t used = used
charge_all-keeps key ((i, now) ∷ charges) t used =
    charge_all-keeps key charges _ (keeps_key key i now t used)

-- However often an invoice is charged, in whatever copies, at most one debit of it stands: after
-- a charge that wrote a transaction, and any charges of this invoice and of others that followed
-- it, a charge of the same invoice leaves the wallets and the transactions as it finds them.
pub charge_invoice_twice :
    (i j : Invoice) (now later : ℕ) (between : List (Invoice × ℕ)) (t : Tables)
    → i.id ≡ j.id
    → (charge_invoice i now t).1.wallet_transactions ≢ t.wallet_transactions
    → let t' = charge_all between (charge_invoice i now t).1 in
      SameWallets t' (charge_invoice j later t').1
charge_invoice_twice i j now later between t same wrote =
    charge_invoice_once j later (charge_all between (charge_invoice i now t).1) (
      charge_all-keeps (invoice_key j) between (charge_invoice i now t).1 (
        subst
          (λ id.
            has_key (append "invoice:" (uuid_text id))
              (charge_invoice i now t).1.wallet_transactions
            ≡ true)
          same (wrote_key i now t wrote)))

-- An open invoice with a positive total that no wallet of the organization covers: it is marked
-- uncollectible, and no wallet or transaction changes.
pub charge_invoice-uncollectible :
    (i : Invoice) (now : ℕ) (t : Tables)
    → i.status ≡ open_invoice
    → i.total_cents ≢ 0
    → find_first (covers i) t.customer_wallets ≡ none
    → let (charged, t') = charge_invoice i now t in
      (charged ≡ with_status uncollectible i.charged_at i) × SameWallets t t'
unfolding charge_invoice charge_open debit_wallet save_invoice save_status
charge_invoice-uncollectible i now t is_open positive none_covers = ground arith

found_saved :
    (i : Invoice) (rows : List Invoice) {row : Invoice}
    → find_first (λ j. j.id == i.id) rows ≡ some row
    → find_first
        (λ j. j.id == i.id)
        (update_where (λ j. j.id == i.id) (λ j. record j { status = i.status }) rows)
      ≡ some (with_status i.status row.charged_at row)
found_saved i [] e = cc
found_saved i (j ∷ rows) {row} e = ground (arith, found_saved i rows {row = row})

abbrev pub row_of : Invoice → Tables → Option Invoice
row_of i t = find_first (λ j. j.id == i.id) t.invoices

-- A charge of a copy that still reads open marks the invoice's row uncollectible whenever the
-- balance does not cover the total any more, also where the row is paid and the wallet was debited.
pub stale_charge-overwrites :
    (i : Invoice) (now : ℕ) (t : Tables) {row : Invoice}
    → i.status ≡ open_invoice
    → i.total_cents ≢ 0
    → row_of i t ≡ some row
    → find_first (covers i) t.customer_wallets ≡ none
    → row_of i (charge_invoice i now t).1 ≡ some (with_status uncollectible row.charged_at row)
unfolding charge_invoice charge_open debit_wallet save_invoice save_status
stale_charge-overwrites i now t {row} is_open positive found none_covers =
    ground (arith, found_saved (with_status uncollectible i.charged_at i) t.invoices {row = row})
