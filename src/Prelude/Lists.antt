-- ===== src/Prelude/Lists.antt =====
-- Lists measured by native numbers, predicates on lists, and sums, for every component.
use Prim.Native.Nat.{ℕ, suc, ◌+◌}
use mathlib.Core.Path.{subst, refl, ◌≡◌}
use mathlib.Core.Bool.{Bool, true, false}
use mathlib.Core.List.{List, [], ◌∷◌, ◌++◌}
use mathlib.Core.Option.{Option, none, some}
use native.Mathlib.Omega.{arith}
use python_backend_manager.Prelude.Tests.{if◌then◌else◌}

module _ {ℓ} {A : Type ℓ} where
  abbrev pub length : List A → ℕ
  length [] = 0
  length (x ∷ xs) = suc (length xs)

  pub length-append : (xs ys : List A) → length (xs ++ ys) ≡ length xs + length ys
  length-append [] ys = omega arith
  length-append (x ∷ xs) ys = omega (arith, length-append xs ys)

  -- The elements that pass a Boolean test, in order.
  abbrev pub keep : (A → Bool) → List A → List A
  keep p [] = []
  keep p (x ∷ xs) = if p x then x ∷ keep p xs else keep p xs

  -- The first element that passes a test.
  abbrev pub find_first : (A → Bool) → List A → Option A
  find_first p [] = none
  find_first p (x ∷ xs) = if p x then some x else find_first p xs

  -- A change of every element that passes a test, as an UPDATE makes it.
  abbrev pub update_where : (A → Bool) → (A → A) → List A → List A
  update_where p f [] = []
  update_where p f (x ∷ xs) = (if p x then f x else x) ∷ update_where p f xs

  -- Is there an element that passes a test?
  abbrev pub any : (A → Bool) → List A → Bool
  any p [] = false
  any p (x ∷ xs) = if p x then true else any p xs

module _ {ℓ κ} {A : Type ℓ} where
  abbrev pub All : (A → Type κ) → List A → Type κ
  All P [] = Unit
  All P (x ∷ xs) = P x × All P xs

  pub All-append : (P : A → Type κ) (xs ys : List A) → All P xs → All P ys → All P (xs ++ ys)
  All-append P [] ys hx hy = hy
  All-append P (x ∷ xs) ys hx hy = (hx.0, All-append P xs ys hx.1 hy)

pub All-map {ℓ κ ι} :
    {A : Type ℓ} {P : A → Type κ} {Q : A → Type ι}
    → ((x : A) → P x → Q x)
    → (xs : List A) → All P xs
    → All Q xs
All-map f [] h = tt
All-map f (x ∷ xs) h = (f x h.0, All-map f xs h.1)

module _ {ℓ} {A : Type ℓ} where
  abbrev pub sum_by : (A → ℕ) → List A → ℕ
  sum_by f [] = 0
  sum_by f (x ∷ xs) = f x + sum_by f xs

  pub sum_by-append : (f : A → ℕ) (xs ys : List A) → sum_by f (xs ++ ys) ≡ sum_by f xs + sum_by f ys
  sum_by-append f [] ys = omega arith
  sum_by-append f (x ∷ xs) ys = omega (arith, sum_by-append f xs ys)

-- What holds of every element holds of the one that a search finds.
pub All-find_first {ℓ κ} :
    {A : Type ℓ} (P : A → Type κ) (p : A → Bool) (xs : List A) {x : A}
    → find_first p xs ≡ some x
    → All P xs
    → P x
All-find_first P p [] e h = cc
All-find_first P p (y ∷ ys) {x} e h = go (p y) e (λ r. All-find_first P p ys r h.1)
  where
    go :
        (b : Bool)
        → (if b then some y else find_first p ys) ≡ some x
        → (find_first p ys ≡ some x → P x)
        → P x
    go true r ih = subst P (cc) h.0
    go false r ih = ih r

-- A search finds nothing just where no element passes the test.
pub any-find_first {ℓ} :
    {A : Type ℓ} (p : A → Bool) (xs : List A) → find_first p xs ≡ none → any p xs ≡ false
any-find_first p [] e = refl
any-find_first p (x ∷ xs) e = ground (arith, any-find_first p xs)

pub find_first-any {ℓ} :
    {A : Type ℓ} (p : A → Bool) (xs : List A) → any p xs ≡ false → find_first p xs ≡ none
find_first-any p [] e = refl
find_first-any p (x ∷ xs) e = ground (arith, find_first-any p xs)

pub any-found {ℓ} :
    {A : Type ℓ} (p : A → Bool) (xs : List A) {x : A} → find_first p xs ≡ some x → any p xs ≡ true
any-found p [] e = cc
any-found p (y ∷ ys) {x} e = ground (arith, any-found p ys {x = x})

-- What a search finds passes the test.
pub find_first-passes {ℓ} :
    {A : Type ℓ} (p : A → Bool) (xs : List A) {x : A} → find_first p xs ≡ some x → p x ≡ true
find_first-passes p [] e = cc
find_first-passes p (y ∷ ys) {x} e = ground (arith, find_first-passes p ys {x = x})
