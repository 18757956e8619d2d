-- ===== src/Metering/Ledger/Update.antt =====
-- What an UPDATE of one wallet and an INSERT of one transaction do to the invariant.
use python_backend_manager.Prelude.Base.{
  ◌≡◌, ◌∙◌, refl, true, false, some, List, [], ◌∷◌, ◌==◌, arith, All, any, find_first, update_where,
  All-find_first, Bool-cases, inl, inr, if◌then◌else◌,
}
use mathlib.Core.Path.{subst}
use python_backend_manager.Prelude.Int.{ℤ, pos, ◌+ℤ◌, ◌-ℤ◌, ◌≤ℤ◌, int_laws}
use python_backend_manager.Prelude.Uuid.{Uuid}
use python_backend_manager.Metering.Models.{CustomerWallet, WalletTransaction, Invoice, has_wallet}
use python_backend_manager.Metering.Charge.{covers, debit}
use python_backend_manager.Metering.Ledger.{ledger, IsBalanced, Differs, IsUnique, IsOwned}

-- The ledger with one more transaction.
abbrev pub add_to : Uuid → ℤ → (Uuid → ℤ) → Uuid → ℤ
add_to id amount sums j = if id == j then amount +ℤ sums j else sums j

pub credit-IsBalanced :
    (id : Uuid) (amount : ℤ) (sums : Uuid → ℤ) (wallets : List CustomerWallet)
    → pos 0 ≤ℤ amount
    → All (IsBalanced sums) wallets
    → All (IsBalanced (add_to id amount sums)) (
        update_where
          (λ w. w.id == id)
          (λ w. record w { balance_cents = w.balance_cents +ℤ amount })
          wallets)
credit-IsBalanced id amount sums [] p h = tt
credit-IsBalanced id amount sums (w ∷ ws) p h =
    grind (int_laws, credit-IsBalanced id amount sums ws p h.1)

-- A change of the balances leaves the ids and organizations as they are.
pub debit-Differs :
    (i : Invoice) (w : CustomerWallet) (ws : List CustomerWallet) (amount : ℤ)
    → All (Differs w) ws
    → All (Differs w) (update_where (covers i) (debit amount) ws)
debit-Differs i w [] amount h = tt
debit-Differs i w (v ∷ vs) amount h = ground (arith, debit-Differs i w vs amount h.1)

debit_unmatched :
    (i : Invoice) (w : CustomerWallet) (ws : List CustomerWallet) (amount delta : ℤ)
    (sums : Uuid → ℤ)
    → covers i w ≡ true
    → All (Differs w) ws
    → All (IsBalanced sums) ws
    → All (IsBalanced (add_to w.id delta sums)) (update_where (covers i) (debit amount) ws)
debit_unmatched i w [] amount delta sums c d h = tt
debit_unmatched i w (v ∷ vs) amount delta sums c d h =
    ground (arith, debit_unmatched i w vs amount delta sums c d.1 h.1)

debit_matched :
    (i : Invoice) (w : CustomerWallet) (ws : List CustomerWallet) (sums : Uuid → ℤ)
    → covers i w ≡ true
    → All (Differs w) ws
    → All (IsBalanced sums) (w ∷ ws)
    → All
        (IsBalanced (add_to w.id (pos 0 -ℤ pos i.total_cents) sums))
        (update_where (covers i) (debit (pos i.total_cents)) (w ∷ ws))
debit_matched i w ws sums c d h = (
  grind (int_laws),
  debit_unmatched i w ws (pos i.total_cents) (pos 0 -ℤ pos i.total_cents) sums c d h.1,
)

found_head :
    (i : Invoice) (w v : CustomerWallet) (vs : List CustomerWallet)
    → find_first (covers i) (v ∷ vs) ≡ some w
    → covers i v ≡ true
    → v ≡ w
found_head i w v vs f c = ground arith

-- The debit of the one wallet that covers the invoice.
pub debit-IsBalanced :
    (i : Invoice) (w : CustomerWallet) (ws : List CustomerWallet) (sums : Uuid → ℤ)
    → find_first (covers i) ws ≡ some w
    → IsUnique ws
    → All (IsBalanced sums) ws
    → All
        (IsBalanced (add_to w.id (pos 0 -ℤ pos i.total_cents) sums))
        (update_where (covers i) (debit (pos i.total_cents)) ws)
debit-IsBalanced i w [] sums f u h = tt
debit-IsBalanced i w (v ∷ vs) sums f u h = elim (Bool-cases (covers i v)) [
  | inl hit ↦
      subst
        (λ x.
          All (IsBalanced (add_to x.id (pos 0 -ℤ pos i.total_cents) sums))
            (update_where (covers i) (debit (pos i.total_cents)) (v ∷ vs)))
        (found_head i w v vs f hit) (debit_matched i v vs sums hit u.0 h)
  | inr miss ↦
      ground (arith, All-find_first (Differs v) (covers i) vs {x = w}, debit-IsBalanced i w vs sums)
]

pub debit-IsUnique :
    (i : Invoice) (amount : ℤ) (ws : List CustomerWallet)
    → IsUnique ws
    → IsUnique (update_where (covers i) (debit amount) ws)
debit-IsUnique i amount [] u = tt
debit-IsUnique i amount (w ∷ ws) u = elim (Bool-cases (covers i w)) [
  | inl e ↦ rw e (debit-Differs i w ws amount u.0, debit-IsUnique i amount ws u.1)
  | inr e ↦ rw e (debit-Differs i w ws amount u.0, debit-IsUnique i amount ws u.1)
]

any-debit :
    (i : Invoice) (amount : ℤ) (id : Uuid) (ws : List CustomerWallet)
    → any (λ w. w.id == id) (update_where (covers i) (debit amount) ws) ≡ any (λ w. w.id == id) ws
any-debit i amount id [] = refl
any-debit i amount id (w ∷ ws) = ground (arith, any-debit i amount id ws)

pub debit-IsOwned :
    (i : Invoice) (amount : ℤ) (ws : List CustomerWallet) (txns : List WalletTransaction)
    → IsOwned ws txns
    → IsOwned (update_where (covers i) (debit amount) ws) txns
debit-IsOwned i amount ws [] h = tt
debit-IsOwned i amount ws (x ∷ txns) h =
    (any-debit i amount x.wallet_id ws ∙ h.0, debit-IsOwned i amount ws txns h.1)

abbrev credited : Uuid → ℤ → List CustomerWallet → List CustomerWallet
credited id amount ws =
    update_where (λ w. w.id == id) (λ w. record w { balance_cents = w.balance_cents +ℤ amount }) ws

credit-Differs :
    (id : Uuid) (amount : ℤ) (w : CustomerWallet) (ws : List CustomerWallet)
    → All (Differs w) ws
    → All (Differs w) (credited id amount ws)
credit-Differs id amount w [] h = tt
credit-Differs id amount w (v ∷ vs) h = ground (arith, credit-Differs id amount w vs h.1)

pub credit-IsUnique :
    (id : Uuid) (amount : ℤ) (ws : List CustomerWallet)
    → IsUnique ws
    → IsUnique (credited id amount ws)
credit-IsUnique id amount [] u = tt
credit-IsUnique id amount (w ∷ ws) u = elim (Bool-cases (w.id == id)) [
  | inl e ↦ rw e (credit-Differs id amount w ws u.0, credit-IsUnique id amount ws u.1)
  | inr e ↦ rw e (credit-Differs id amount w ws u.0, credit-IsUnique id amount ws u.1)
]

any-credit :
    (id : Uuid) (amount : ℤ) (j : Uuid) (ws : List CustomerWallet)
    → any (λ w. w.id == j) (credited id amount ws) ≡ any (λ w. w.id == j) ws
any-credit id amount j [] = refl
any-credit id amount j (w ∷ ws) = ground (arith, any-credit id amount j ws)

pub credit-IsOwned :
    (id : Uuid) (amount : ℤ) (ws : List CustomerWallet) (txns : List WalletTransaction)
    → IsOwned ws txns
    → IsOwned (credited id amount ws) txns
credit-IsOwned id amount ws [] h = tt
credit-IsOwned id amount ws (x ∷ txns) h =
    (any-credit id amount x.wallet_id ws ∙ h.0, credit-IsOwned id amount ws txns h.1)

-- A wallet that no transaction names has the sum zero.
pub ledger_of_unknown :
    (ws : List CustomerWallet) (txns : List WalletTransaction) (id : Uuid)
    → IsOwned ws txns
    → any (λ w. w.id == id) ws ≡ false
    → ledger txns id ≡ pos 0
unfolding ledger
ledger_of_unknown ws [] id h e = refl
ledger_of_unknown ws (x ∷ txns) id h e = ground (arith, ledger_of_unknown ws txns id h.1 e)

pub any-has_wallet :
    (id org : Uuid) (ws : List CustomerWallet)
    → has_wallet id org ws ≡ false
    → any (λ w. w.id == id) ws ≡ false
any-has_wallet id org [] h = refl
any-has_wallet id org (w ∷ ws) h = ground (arith, any-has_wallet id org ws)

pub Differs-has_wallet :
    (v : CustomerWallet) (ws : List CustomerWallet)
    → has_wallet v.id v.organization_id ws ≡ false
    → All (Differs v) ws
Differs-has_wallet v [] h = tt
Differs-has_wallet v (w ∷ ws) h = ground (arith, Differs-has_wallet v ws)

pub IsOwned-cons :
    (v : CustomerWallet) (ws : List CustomerWallet) (txns : List WalletTransaction)
    → IsOwned ws txns
    → IsOwned (v ∷ ws) txns
IsOwned-cons v ws [] h = tt
IsOwned-cons v ws (x ∷ txns) h = ground (arith, IsOwned-cons v ws txns h.1)
