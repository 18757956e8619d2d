-- ===== src/Users/Sessions.antt =====
-- Rotating refresh tokens: users/sessions.py, the row of users/models.py, and what the routes of
-- users/router.py.jinja commit. Only the hash of a token is stored; the hash is an argument. The
-- table of the users is not modelled, nor the foreign key on it.
pub mod Reuse
pub mod Live
pub mod Revocation
use python_backend_manager.Prelude.Base.{
  ℕ, ◌+◌, ◌*◌, String, Bool, true, false, not, ◌&&◌, Option, none, some, List, ◌∷◌, ◌==◌, leb,
  str_eq, any, find_first, update_where, if◌then◌else◌,
}
use python_backend_manager.Prelude.Uuid.{Uuid}

pub record RefreshToken : Type 0 where
  pub user_id : Uuid
  pub token_hash : String
  pub family_id : Uuid
  pub expires_at : ℕ
  pub used_at : Option ℕ
  pub revoked : Bool

abbrev pub Tokens : Type 0
Tokens = List RefreshToken

abbrev pub has_hash : String → RefreshToken → Bool
has_hash hash r = str_eq r.token_hash hash

unfoldable pub find_token : String → Tokens → Option RefreshToken
find_token hash tokens = find_first (has_hash hash) tokens

abbrev pub is_unused : Option ℕ → Bool
is_unused none = true
is_unused (some at) = false

-- The WHERE of the UPDATE that claims a token.
abbrev pub is_claimable : String → RefreshToken → Bool
is_claimable hash r = has_hash hash r && is_unused r.used_at && not r.revoked

abbrev pub spent : ℕ → RefreshToken → RefreshToken
spent now r = record r { used_at = some now }

abbrev pub revoke : RefreshToken → RefreshToken
revoke r = record r { revoked = true }

-- `_revoke_family`
unfoldable pub revoke_family : Uuid → Tokens → Tokens
revoke_family family tokens = update_where (λ r. r.family_id == family) revoke tokens

unfoldable pub revoke_all_for_user : Uuid → Tokens → Tokens
revoke_all_for_user user tokens = update_where (λ r. r.user_id == user) revoke tokens

-- `family_id or uuid.uuid4()`; a UUID is never false.
abbrev pub family_or : Option Uuid → Uuid → Uuid
family_or none fresh = fresh
family_or (some family) fresh = family

abbrev pub new_row : String → Uuid → Uuid → ℕ → RefreshToken
new_row hash user family expires_at = record {
  user_id = user;
  token_hash = hash;
  family_id = family;
  expires_at = expires_at;
  used_at = none;
  revoked = false;
}

-- What a refresh gives: the user and the new token, or a `RefreshError`, by its message, or an
-- `IntegrityError` of the INSERT.
pub data Refreshed : Type 0 where
  rotated : Uuid → String → Refreshed
  unknown expired reuse_detected integrity_error : Refreshed

module _ (hash_of : String → String) (lifetime_seconds : ℕ) where
  -- `token` is what `secrets.token_urlsafe` gives, `fresh` what `uuid.uuid4` gives; `none` is an
  -- `IntegrityError`, of the UNIQUE token_hash.
  unfoldable pub issue_refresh_token :
      Uuid → Option Uuid → String → Uuid → ℕ → Tokens → Option Tokens
  issue_refresh_token user family token fresh now tokens =
      if any (has_hash (hash_of token)) tokens
      then none
      else some (
          new_row (hash_of token) user (family_or family fresh) (now + lifetime_seconds * 1000000)
          ∷ tokens)

  -- The UPDATE that claims the token and what follows it; `row` is what the SELECT read.
  unfoldable pub claim_token :
      RefreshToken → String → String → Uuid → ℕ → ℕ → Tokens → Refreshed × Tokens
  claim_token row token new_token fresh now issued tokens =
      if any (is_claimable (hash_of token)) tokens
      then elim (issue_refresh_token row.user_id (some row.family_id) new_token fresh issued
          (update_where (is_claimable (hash_of token)) (spent now) tokens)) [
            | some tokens' ↦ (rotated row.user_id new_token, tokens')
            | none ↦ (integrity_error, tokens)
          ]
      else (reuse_detected, revoke_family row.family_id tokens)

  -- `read`, `now` and `issued` are the three times at which the clock is read, and `between` what
  -- other requests do to the table between the SELECT and the UPDATE.
  unfoldable pub rotate_refresh_token :
      String → String → Uuid → ℕ → ℕ → ℕ → (Tokens → Tokens) → Tokens → Refreshed × Tokens
  rotate_refresh_token token new_token fresh read now issued between tokens =
      elim (find_token (hash_of token) tokens) [
        | none ↦ (unknown, tokens)
        | some row ↦
            if leb row.expires_at read
            then (expired, tokens)
            else claim_token row token new_token fresh now issued (between tokens)
      ]

  unfoldable pub revoke_family_of : String → Tokens → Tokens
  revoke_family_of token tokens = elim (find_token (hash_of token) tokens) [
    | none ↦ tokens
    | some row ↦ revoke_family row.family_id tokens
  ]
