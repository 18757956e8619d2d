-- ===== src/Users/Sessions/Live.antt =====
-- The live tokens of a family: no UPDATE brings a revoked token to life.
use python_backend_manager.Prelude.Base.{
  ℕ, String, ◌≡◌, refl, ◌≢◌, Bool, true, false, Option, some, [], ◌∷◌, arith, eq_iff, any,
  update_where, Bool-cases, inl, inr,
}
use mathlib.Core.Path.{subst}
use python_backend_manager.Prelude.Uuid.{Uuid}
use python_backend_manager.Users.Sessions.{
  RefreshToken, Tokens, has_hash, find_token, is_claimable, spent, revoke, revoke_family, family_or,
  issue_refresh_token,
}
use python_backend_manager.Users.Sessions.Reuse.{has_live, unknown-claimable}

-- The UNIQUE constraint on the hash.
abbrev pub HasUniqueHashes : Tokens → Type 0
HasUniqueHashes [] = Unit
HasUniqueHashes (r ∷ tokens) = (any (has_hash r.token_hash) tokens ≡ false) × HasUniqueHashes tokens

-- An UPDATE that leaves the hashes and brings no row to life.
abbrev pub IsTame : (RefreshToken → RefreshToken) → Type 0
IsTame f =
    (r : RefreshToken)
    → ((f r).token_hash ≡ r.token_hash)
      × ((f r).family_id ≡ r.family_id)
      × (r.revoked ≡ true → (f r).revoked ≡ true)

pub spent-IsTame : (now : ℕ) → IsTame (spent now)
spent-IsTame now r = (refl, refl, λ h. h)

pub revoke-IsTame : IsTame revoke
revoke-IsTame r = (refl, refl, λ h. refl)

any-update :
    (hash : String) (p : RefreshToken → Bool) (f : RefreshToken → RefreshToken) (tokens : Tokens)
    → IsTame f
    → any (has_hash hash) (update_where p f tokens) ≡ any (has_hash hash) tokens
any-update hash p f [] tame = refl
any-update hash p f (r ∷ tokens) tame = ground (arith, any-update hash p f tokens tame, tame r)

pub update-HasUniqueHashes :
    (p : RefreshToken → Bool) (f : RefreshToken → RefreshToken) (tokens : Tokens)
    → IsTame f
    → HasUniqueHashes tokens
    → HasUniqueHashes (update_where p f tokens)
update-HasUniqueHashes p f [] tame h = tt
update-HasUniqueHashes p f (r ∷ tokens) tame h = ground (
  arith,
  any-update r.token_hash p f tokens tame,
  tame r,
  update-HasUniqueHashes p f tokens tame h.1,
)

pub update-dead :
    (family : Uuid) (p : RefreshToken → Bool) (f : RefreshToken → RefreshToken) (tokens : Tokens)
    → IsTame f
    → has_live family tokens ≡ false
    → has_live family (update_where p f tokens) ≡ false
update-dead family p f [] tame h = refl
update-dead family p f (r ∷ tokens) tame h =
    ground (arith, tame r, update-dead family p f tokens tame)

-- Revoking a family leaves no live token of it.
pub has_live-revoke_family :
    (family : Uuid) (tokens : Tokens) → has_live family (revoke_family family tokens) ≡ false
unfolding revoke_family
has_live-revoke_family family [] = refl
has_live-revoke_family family (r ∷ tokens) = ground (arith, has_live-revoke_family family tokens)

-- No token of a dead family can be claimed.
pub dead-claimable :
    (family : Uuid) (hash : String) (tokens : Tokens) {row : RefreshToken}
    → HasUniqueHashes tokens
    → has_live family tokens ≡ false
    → find_token hash tokens ≡ some row
    → row.family_id ≡ family
    → any (is_claimable hash) tokens ≡ false
unfolding find_token
dead-claimable family hash [] u dead is same = refl
dead-claimable family hash (r ∷ tokens) {row} u dead is same = elim (Bool-cases (has_hash hash r)) [
  | inl hit ↦
      let rest =
        subst (λ h. any (has_hash h) tokens ≡ false) ((eq_iff r.token_hash hash).0 hit) u.0 in
      ground (arith, hit, unknown-claimable hash tokens rest)
  | inr miss ↦ ground (arith, miss, dead-claimable family hash tokens {row = row} u.1)
]

pub issue-HasUniqueHashes :
    (hash_of : String → String) (lifetime_seconds : ℕ) (user : Uuid) (family : Option Uuid)
    (token : String) (fresh : Uuid) (now : ℕ) (tokens : Tokens) {tokens' : Tokens}
    → issue_refresh_token hash_of lifetime_seconds user family token fresh now tokens ≡ some tokens'
    → HasUniqueHashes tokens
    → HasUniqueHashes tokens'
unfolding issue_refresh_token
issue-HasUniqueHashes hash_of lifetime_seconds user family token fresh now tokens e u =
    ground (arith, u)

pub issue-dead :
    (hash_of : String → String) (lifetime_seconds : ℕ) (user : Uuid) (family : Option Uuid)
    (token : String) (fresh : Uuid) (now : ℕ) (tokens : Tokens) {tokens' : Tokens} (dead : Uuid)
    → issue_refresh_token hash_of lifetime_seconds user family token fresh now tokens ≡ some tokens'
    → family_or family fresh ≢ dead
    → has_live dead tokens ≡ false
    → has_live dead tokens' ≡ false
unfolding issue_refresh_token
issue-dead hash_of lifetime_seconds user family token fresh now tokens dead e other h = ground arith
