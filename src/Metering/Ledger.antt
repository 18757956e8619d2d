-- ===== src/Metering/Ledger.antt =====
-- The ledger of the prepaid wallets: the balances are the sums of the wallet transactions. The
-- invariant of the tables that the charge and the top-up keep.
pub mod Update
pub mod Kept
pub mod TopUp
use python_backend_manager.Prelude.Base.{
  ℕ, ◌≡◌, ◌≢◌, Bool, true, false, List, [], ◌∷◌, ◌==◌, All, any, if◌then◌else◌,
}
use python_backend_manager.Prelude.Int.{ℤ, pos, ◌+ℤ◌, ◌≤ℤ◌}
use python_backend_manager.Prelude.Uuid.{Uuid}
use python_backend_manager.Metering.Models.{CustomerWallet, WalletTransaction, Tables, has_key}

-- The sum of the transactions of one wallet.
unfoldable pub ledger : List WalletTransaction → Uuid → ℤ
ledger [] id = pos 0
ledger (x ∷ txns) id = if x.wallet_id == id then x.delta_cents +ℤ ledger txns id else ledger txns id

-- A wallet's row and the ledger agree, and no debt is allowed.
abbrev pub IsBalanced : (Uuid → ℤ) → CustomerWallet → Type 0
IsBalanced sums w = (w.balance_cents ≡ sums w.id) × (pos 0 ≤ℤ w.balance_cents)

abbrev pub Differs : CustomerWallet → CustomerWallet → Type 0
Differs w v = (v.id ≢ w.id) × (v.organization_id ≢ w.organization_id)

-- No two wallets share an id or an organization.
abbrev pub IsUnique : List CustomerWallet → Type 0
IsUnique [] = Unit
IsUnique (w ∷ ws) = All (Differs w) ws × IsUnique ws

-- No two transactions share a key.
abbrev pub HasUniqueKeys : List WalletTransaction → Type 0
HasUniqueKeys [] = Unit
HasUniqueKeys (x ∷ xs) = (has_key x.idempotency_key xs ≡ false) × HasUniqueKeys xs

-- Every transaction belongs to a wallet of the table.
abbrev pub IsOwned : List CustomerWallet → List WalletTransaction → Type 0
IsOwned wallets txns = All (λ x. any (λ w. w.id == x.wallet_id) wallets ≡ true) txns

pub record IsSound (t : Tables) : Type 0 where
  pub balanced : All (IsBalanced (ledger t.wallet_transactions)) t.customer_wallets
  pub unique : IsUnique t.customer_wallets
  pub keys : HasUniqueKeys t.wallet_transactions
  pub owned : IsOwned t.customer_wallets t.wallet_transactions
