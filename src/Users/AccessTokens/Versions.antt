-- ===== src/Users/AccessTokens/Versions.antt =====
-- A logout everywhere refuses every access token that was good before.
use python_backend_manager.Prelude.Base.{
  ℕ, ◌+◌, String, ◌≡◌, refl, sym, Bool, true, Option, none, some, List, [], ◌∷◌, ◌==◌, arith,
  Option-cases, inl, inr, update_where,
}
use mathlib.Core.Path.{subst}
use python_backend_manager.Prelude.Uuid.{Uuid}
use python_backend_manager.Users.AccessTokens.{
  User, Claims, Denylist, find_user, is_current, current_user, check_sub, check_claims, read_token,
  bump_version,
}

found_bumped :
    (id : Uuid) (users : List User) {u : User}
    → find_user id users ≡ some u
    → (u.id ≡ id)
      × (find_user id (
            update_where
              (λ v. v.id == id)
              (λ v. record v { token_version = v.token_version + 1 })
              users)
          ≡ some (record u { token_version = u.token_version + 1 }))
found_bumped id [] e = cc
found_bumped id (v ∷ vs) {u} e = ground (arith, found_bumped id vs {u = u})

accepted :
    (tv : Option ℕ) (id : Uuid) (users : List User) {u : User}
    → current_user tv (some id) users ≡ some u
    → (find_user id users ≡ some u) × (is_current tv u.token_version ≡ true)
unfolding current_user
accepted none id users e = ground arith
accepted (some version) id users e = ground arith

refused :
    (tv : Option ℕ) (id : Uuid) (users : List User) (u : User)
    → find_user id users ≡ some (record u { token_version = u.token_version + 1 })
    → is_current tv u.token_version ≡ true
    → current_user tv (some id) users ≡ none
unfolding current_user
refused none id users u found current = cc
refused (some version) id users u found current = ground arith

current_user-bump_version :
    (tv : Option ℕ) (parsed : Option Uuid) (users : List User) {u : User}
    → current_user tv parsed users ≡ some u
    → current_user tv parsed (bump_version u.id users) ≡ none
unfolding bump_version
current_user-bump_version tv none users e = unfold current_user in refl
current_user-bump_version tv (some id) users {u} e =
    let (found, current) = accepted tv id users e in
    let (same, bumped) = found_bumped id users found in
    subst (λ j. current_user tv (some id) (bump_version j users) ≡ none) (sym same)
      (refused tv id (bump_version id users) u bumped current)

module _ (parse_id : String → Option Uuid) where
  check_sub-bump_version :
      (sub : Option String) (tv : Option ℕ) (users : List User) {u : User}
      → check_sub parse_id sub tv users ≡ some u
      → check_sub parse_id sub tv (bump_version u.id users) ≡ none
  unfolding check_sub
  check_sub-bump_version none tv users e = refl
  check_sub-bump_version (some sub) tv users e = current_user-bump_version tv (parse_id sub) users e

  check_claims-bump_version :
      (redis redis' : Bool) (claims : Claims) (now later : ℕ) (denied denied' : Denylist)
      (users : List User) {u : User}
      → check_claims parse_id redis claims now denied users ≡ some u
      → check_claims parse_id redis' claims later denied' (bump_version u.id users) ≡ none
  unfolding check_claims
  check_claims-bump_version redis redis' claims now later denied denied' users {u} e =
      ground (arith, check_sub-bump_version claims.sub claims.tv users {u = u})

  -- Logout everywhere: a token that was accepted for a user is refused, at any later time and
  -- whether Redis is reachable or not, once the user's version is bumped; what the JWT library
  -- decodes from one token at two times has the same claims.
  pub read_token-bump_version :
      (decode : String → ℕ → Option Claims) (redis redis' : Bool) (token : String) (now later : ℕ)
      (denied denied' : Denylist) (users : List User) {u : User}
      → ((claims claims' : Claims)
          → decode token now ≡ some claims
          → decode token later ≡ some claims'
          → claims ≡ claims')
      → read_token parse_id decode redis (some token) now denied users ≡ some u
      → read_token parse_id decode redis' (some token) later denied' (bump_version u.id users)
        ≡ none
  unfolding read_token
  read_token-bump_version decode redis redis' token now later denied denied' users {u} fixed e =
      elim (Option-cases (decode token later)) [
        | inl gone ↦ rw (gone, read_token) refl
        | inr (claims', here) ↦ elim (Option-cases (decode token now)) [
          | inl never ↦ cc (rw (never, read_token) at e)
          | inr (claims, before) ↦
              rw (here, read_token)
                (subst
                  (λ c.
                    check_claims parse_id redis' c later denied' (bump_version u.id users) ≡ none)
                  (fixed claims claims' before here)
                  (check_claims-bump_version redis redis' claims now later denied denied' users
                    (rw (before, read_token) at e)))
        ]
      ]
