-- ===== src/Users/Manager/Reset.antt =====
-- What a password reset leaves of a user's sessions.
use python_backend_manager.Prelude.Base.{
  ℕ, ◌+◌, String, ◌≡◌, ◌≢◌, refl, Bool, false, Option, none, some, List, [], ◌∷◌, ◌==◌, arith, All,
}
use python_backend_manager.Prelude.Uuid.{Uuid}
use python_backend_manager.Users.AccessTokens.{User, Claims, Denylist, read_token, bump_version}
use python_backend_manager.Users.AccessTokens.Versions.{read_token-bump_version}
use python_backend_manager.Users.Sessions.{
  RefreshToken, Tokens, find_token, rotate_refresh_token, revoke_all_for_user, revoke, rotated,
}
use python_backend_manager.Users.Sessions.Reuse.{has_live, undisturbed}
use python_backend_manager.Users.Sessions.Live.{
  HasUniqueHashes, update-HasUniqueHashes, revoke-IsTame,
}
use python_backend_manager.Users.Sessions.Revocation.{
  Request, IsOther, handle_all, handle_all-revoked,
}
use python_backend_manager.Users.Manager.{
  Accounts, write_version, on_after_reset_password, logout_all,
}

-- The tokens of a session are those of one user.
abbrev pub IsOwnedBy : Uuid → Uuid → RefreshToken → Type 0
IsOwnedBy user family r = r.family_id ≡ family → r.user_id ≡ user

-- The rows of a user, by the primary key.
abbrev pub HasVersion : Uuid → ℕ → User → Type 0
HasVersion id version u = u.id ≡ id → u.token_version ≡ version

write_version-bump :
    (id : Uuid) (seen : ℕ) (users : List User)
    → All (HasVersion id seen) users
    → write_version id seen users ≡ bump_version id users
unfolding write_version bump_version
write_version-bump id seen [] h = refl
write_version-bump id seen (u ∷ users) h = ground (arith, h.0, write_version-bump id seen users h.1)

revoked-dead :
    (user family : Uuid) (tokens : Tokens)
    → All (IsOwnedBy user family) tokens
    → has_live family (revoke_all_for_user user tokens) ≡ false
unfolding revoke_all_for_user
revoked-dead user family [] h = refl
revoked-dead user family (r ∷ tokens) h = ground (arith, h.0, revoked-dead user family tokens h.1)

revoke_all-HasUniqueHashes :
    (user : Uuid) (tokens : Tokens)
    → HasUniqueHashes tokens
    → HasUniqueHashes (revoke_all_for_user user tokens)
unfolding revoke_all_for_user
revoke_all-HasUniqueHashes user tokens h =
    update-HasUniqueHashes (λ r. r.user_id == user) revoke tokens revoke-IsTame h

module _ (hash_of : String → String) (lifetime_seconds : ℕ) where
  -- A password reset ends a session for good: whatever logins, refreshes and logouts follow, one
  -- after another, no refresh with a token of the session succeeds, where its tokens were all of
  -- the user whose password is reset.
  pub on_after_reset_password-ends_session :
      (user family : Uuid) (seen : ℕ) (a : Accounts) (steps : List Request)
      (token new_token : String) (fresh : Uuid) (read now issued : ℕ) (other : Uuid)
      {row : RefreshToken}
      → All (IsOwnedBy user family) a.tokens
      → HasUniqueHashes a.tokens
      → All (IsOther family) steps
      → let tokens = (on_after_reset_password user seen a).tokens in
        let tokens' = handle_all hash_of lifetime_seconds steps tokens in
        find_token (hash_of token) tokens' ≡ some row
        → row.family_id ≡ family
        → (rotate_refresh_token hash_of lifetime_seconds token new_token fresh read now issued
            undisturbed tokens').0
          ≢ rotated other new_token
  unfolding on_after_reset_password
  on_after_reset_password-ends_session user family seen a steps token new_token fresh read now
        issued other owned unique others is same =
      (handle_all-revoked hash_of lifetime_seconds family steps (revoke_all_for_user user a.tokens)
        token new_token fresh read now issued other
        (revoke_all-HasUniqueHashes user a.tokens unique) (revoked-dead user family a.tokens owned)
        others is same).1

module _ (parse_id : String → Option Uuid) where
  -- After a password reset that read the user's current version, an access token that was accepted
  -- for the user is refused, at any later time and whether Redis is reachable or not; what the JWT
  -- library decodes from one token at two times has the same claims.
  pub read_token-on_after_reset_password :
      (decode : String → ℕ → Option Claims) (redis redis' : Bool) (token : String) (now later : ℕ)
      (denied denied' : Denylist) (a : Accounts) (seen : ℕ) {u : User}
      → ((claims claims' : Claims)
          → decode token now ≡ some claims
          → decode token later ≡ some claims'
          → claims ≡ claims')
      → All (HasVersion u.id seen) a.users
      → read_token parse_id decode redis (some token) now denied a.users ≡ some u
      → read_token parse_id decode redis'
          (some token)
          later
          denied'
          (on_after_reset_password u.id seen a).users
        ≡ none
  unfolding on_after_reset_password
  read_token-on_after_reset_password decode redis redis' token now later denied denied' a seen {u}
        fixed versions e =
      rw (write_version-bump u.id seen a.users versions) (
        read_token-bump_version parse_id decode redis redis' token now later denied denied' a.users
          fixed e)

same_version :
    (id : Uuid) (seen : ℕ) (users : List User)
    → All (HasVersion id (seen + 1)) users
    → write_version id seen users ≡ users
unfolding write_version
same_version id seen [] h = refl
same_version id seen (u ∷ users) h = ground (arith, h.0, same_version id seen users h.1)

-- A logout everywhere that read the version before another bump was committed writes the version
-- that is there already: every access token is read as before, so one minted since the other bump
-- stays good.
pub read_token-logout_all_stale :
    (parse_id : String → Option Uuid) (decode : String → ℕ → Option Claims) (redis : Bool)
    (token : Option String) (now : ℕ) (denied : Denylist) (a : Accounts) (id : Uuid) (seen : ℕ)
    → All (HasVersion id (seen + 1)) a.users
    → read_token parse_id decode redis token now denied (logout_all id seen a).users
      ≡ read_token parse_id decode redis token now denied a.users
unfolding logout_all
read_token-logout_all_stale parse_id decode redis token now denied a id seen h =
    rw (same_version id seen a.users h)
