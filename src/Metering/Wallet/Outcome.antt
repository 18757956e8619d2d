-- ===== src/Metering/Wallet/Outcome.antt =====
-- What a top-up does: a new key credits the wallet, and a used key does nothing at all.
use python_backend_manager.Prelude.Base.{
  String, ◌≡◌, true, false, none, some, List, [], ◌∷◌, ◌==◌, arith, any, find_first, update_where,
}
use python_backend_manager.Prelude.Int.{ℤ, ◌+ℤ◌}
use python_backend_manager.Prelude.Uuid.{Uuid}
use python_backend_manager.Metering.Models.{
  CustomerWallet, Tables, ok, has_key, has_organization, insert_transaction, insert_wallet,
  has_wallet,
}
use python_backend_manager.Metering.Wallet.{
  get_wallet, new_wallet, get_or_create_wallet, topup_transaction, credit_wallet, forget_pending,
  refresh_wallet, apply_topup, top_up,
}

-- A wallet with an amount more.
abbrev pub credited : ℤ → CustomerWallet → CustomerWallet
credited amount w = record w { balance_cents = w.balance_cents +ℤ amount }

any_found :
    (org : Uuid) (ws : List CustomerWallet) {w : CustomerWallet}
    → find_first (λ v. v.organization_id == org) ws ≡ some w
    → any (λ v. v.id == w.id) ws ≡ true
any_found org [] e = cc
any_found org (v ∷ vs) {w} e = ground (arith, any_found org vs {w = w})

-- No other row has the id of a wallet.
abbrev pub HasOwnId : CustomerWallet → List CustomerWallet → Type 0
HasOwnId w ws = find_first (λ v. v.id == w.id) ws ≡ some w

found_credited :
    (amount : ℤ) (ws : List CustomerWallet) {w : CustomerWallet}
    → HasOwnId w ws
    → find_first (λ v. v.id == w.id) (update_where (λ v. v.id == w.id) (credited amount) ws)
      ≡ some (credited amount w)
found_credited amount [] e = cc
found_credited amount (v ∷ vs) {w} e = ground (arith, found_credited amount vs {w = w})

-- A top-up under a new key, for an organization with a wallet: the amount is added to the wallet,
-- the caller sees the new balance, and one transaction of the amount is written.
pub top_up-credits :
    (org : Uuid) (amount : ℤ) (key currency : String) (id id' : Uuid) (t : Tables)
    {w : CustomerWallet}
    → has_organization org t ≡ true
    → get_wallet org t ≡ some w
    → HasOwnId w t.customer_wallets
    → has_key key t.wallet_transactions ≡ false
    → let (r, t') = top_up org amount key currency id id' t t in
      (r ≡ ok (credited amount w))
      × (t'.customer_wallets
          ≡ update_where (λ v. v.id == w.id) (credited amount) t.customer_wallets)
      × (t'.wallet_transactions ≡ topup_transaction w org amount key ∷ t.wallet_transactions)
unfolding top_up apply_topup get_or_create_wallet get_wallet insert_transaction credit_wallet
    refresh_wallet
top_up-credits org amount key currency id id' t {w} known found own fresh = ground (
  arith,
  any_found org t.customer_wallets found,
  found_credited amount t.customer_wallets {w = w} own,
)

-- A first top-up opens a wallet in the given currency and credits it.
pub top_up-opens :
    (org : Uuid) (amount : ℤ) (key currency : String) (id id' : Uuid) (t : Tables)
    → has_organization org t ≡ true
    → get_wallet org t ≡ none
    → has_wallet id org t.customer_wallets ≡ false
    → has_key key t.wallet_transactions ≡ false
    → let (r, t') = top_up org amount key currency id id' t t in
      let w = credited amount (new_wallet org currency id) in
      (r ≡ ok w) × (get_wallet org t' ≡ some w)
unfolding top_up apply_topup get_or_create_wallet get_wallet insert_wallet insert_transaction
    credit_wallet refresh_wallet
top_up-opens org amount key currency id id' t known missing new fresh = ground arith

-- A top-up under a key that any transaction already has, of whatever organization, changes no
-- table, whatever amount it carries and whatever older state the request first read.
pub top_up-used_key :
    (org : Uuid) (amount : ℤ) (key currency : String) (id id' : Uuid) (seen t : Tables)
    → has_key key t.wallet_transactions ≡ true
    → (top_up org amount key currency id id' seen t).1 ≡ t
unfolding top_up apply_topup get_or_create_wallet insert_wallet insert_transaction forget_pending
top_up-used_key org amount key currency id id' seen t used = ground arith

-- The caller of such a top-up is told of success: it gets its own wallet as it stands.
pub top_up-used_key_reply :
    (org : Uuid) (amount : ℤ) (key currency : String) (id id' : Uuid) (t : Tables)
    {w : CustomerWallet}
    → get_wallet org t ≡ some w
    → has_key key t.wallet_transactions ≡ true
    → top_up org amount key currency id id' t t ≡ (ok w, t)
unfolding top_up apply_topup get_or_create_wallet insert_transaction forget_pending
top_up-used_key_reply org amount key currency id id' t {w} found used = ground arith
