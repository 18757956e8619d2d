-- ===== src/Users/AccessTokens.antt =====
-- Access tokens: the claims that `write_token` of users/auth.py signs and the checks of
-- `read_token`, the denylist of users/denylist.py, and the version of users/models.py, which the
-- code bumps by one (Users/Manager). The JWT library is an argument: `decode` gives the
-- claims of a token that is valid at a time; so is `parse_id` of fastapi-users.
pub mod Versions
use python_backend_manager.Prelude.Base.{
  ℕ, ◌+◌, ◌*◌, String, Bool, true, false, not, Option, none, some, List, [], ◌∷◌, ◌==◌, leb, ltb,
  any, keep, str_eq, ◌&&◌, find_first, update_where, if◌then◌else◌,
}
use python_backend_manager.Prelude.Uuid.{Uuid}

pub record User : Type 0 where
  pub id : Uuid
  pub token_version : ℕ

pub record Claims : Type 0 where
  pub sub : Option String
  pub tv : Option ℕ
  pub jti : Option String

-- The keys "denylist:jti:…" that Redis holds, and when each expires.
abbrev pub Denylist : Type 0
Denylist = List (String × ℕ)

-- `deny_jti`: without Redis, or on an error, nothing is written; SET puts the key and its expiry in
-- place of what the key held.
unfoldable pub deny_jti : Bool → String → ℕ → ℕ → Denylist → Denylist
deny_jti false jti ttl_seconds now denied = denied
deny_jti true jti ttl_seconds now denied =
    (jti, now + (if ltb ttl_seconds 1 then 1 else ttl_seconds) * 1000000)
    ∷ keep (λ d. not (str_eq d.0 jti)) denied

-- `is_jti_denied`: without Redis, or on an error, no token is denied.
unfoldable pub is_jti_denied : Bool → String → ℕ → Denylist → Bool
is_jti_denied false jti now denied = false
is_jti_denied true jti now denied = any (λ d. str_eq d.0 jti && ltb now d.1) denied

abbrev pub find_user : Uuid → List User → Option User
find_user id users = find_first (λ u. u.id == id) users

-- `data.get("tv") == user.token_version`
abbrev pub is_current : Option ℕ → ℕ → Bool
is_current none version = false
is_current (some tv) version = tv == version

unfoldable pub is_denied : Bool → Option String → ℕ → Denylist → Bool
is_denied redis none now denied = false
is_denied redis (some jti) now denied = is_jti_denied redis jti now denied

-- The user of the claims, if the version is the current one.
unfoldable pub current_user : Option ℕ → Option Uuid → List User → Option User
current_user tv none users = none
current_user tv (some id) users = elim (find_user id users) [
  | none ↦ none
  | some user ↦ if is_current tv user.token_version then some user else none
]

module _ (parse_id : String → Option Uuid) where
  unfoldable pub check_sub : Option String → Option ℕ → List User → Option User
  check_sub none tv users = none
  check_sub (some sub) tv users = current_user tv (parse_id sub) users

  -- `read_token` once the claims are decoded.
  unfoldable pub check_claims : Bool → Claims → ℕ → Denylist → List User → Option User
  check_claims redis claims now denied users =
      if is_denied redis claims.jti now denied then none else check_sub claims.sub claims.tv users

  unfoldable pub read_token :
      (String → ℕ → Option Claims) → Bool → Option String → ℕ → Denylist → List User → Option User
  read_token decode redis none now denied users = none
  read_token decode redis (some token) now denied users = elim (decode token now) [
    | none ↦ none
    | some claims ↦ check_claims redis claims now denied users
  ]

-- `user.token_version += 1`, where the version that was read is the one that the row has.
unfoldable pub bump_version : Uuid → List User → List User
bump_version id users =
    update_where (λ u. u.id == id) (λ u. record u { token_version = u.token_version + 1 }) users
