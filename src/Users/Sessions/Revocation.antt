-- ===== src/Users/Sessions/Revocation.antt =====
-- A revoked session stays dead: no sequence of requests brings a token of its family to life.
use python_backend_manager.Prelude.Base.{
  ℕ, String, ◌≡◌, ◌≢◌, Bool, false, Option, none, some, List, [], ◌∷◌, ◌==◌, arith, leb, any, All,
  update_where, Bool-cases, Option-cases, inl, inr,
}
use python_backend_manager.Prelude.Uuid.{Uuid}
use python_backend_manager.Users.Sessions.{
  RefreshToken, Tokens, find_token, is_claimable, spent, revoke, revoke_family, revoke_all_for_user,
  revoke_family_of, rotated, issue_refresh_token, claim_token, rotate_refresh_token,
}
use python_backend_manager.Users.Sessions.Reuse.{undisturbed, has_live}
use python_backend_manager.Users.Sessions.Live.{
  HasUniqueHashes, IsTame, spent-IsTame, revoke-IsTame, update-HasUniqueHashes, update-dead,
  dead-claimable, issue-HasUniqueHashes, issue-dead,
}

-- A request on the sessions: one transaction.
pub data Request : Type 0 where
  login : Uuid → String → Uuid → ℕ → Request
  refresh : String → String → Uuid → ℕ → ℕ → ℕ → Request
  logout : String → Request
  logout_all : Uuid → Request

-- A login starts a family of its own.
abbrev pub IsOther : Uuid → Request → Type 0
IsOther family (login user token fresh now) = fresh ≢ family
IsOther family (refresh token new_token fresh read now issued) = Unit
IsOther family (logout token) = Unit
IsOther family (logout_all user) = Unit

-- The tables that a transaction commits: none are written on an `IntegrityError`.
abbrev committed : Option Tokens → Tokens → Tokens
committed none tokens = tokens
committed (some tokens') tokens = tokens'

module _ (hash_of : String → String) (lifetime_seconds : ℕ) where
  unfoldable pub handle : Request → Tokens → Tokens
  handle (login user token fresh now) tokens =
      committed (issue_refresh_token hash_of lifetime_seconds user none token fresh now tokens)
        tokens
  handle (refresh token new_token fresh read now issued) tokens =
      (rotate_refresh_token hash_of lifetime_seconds token new_token fresh read now issued
        undisturbed tokens).1
  handle (logout token) tokens = revoke_family_of hash_of lifetime_seconds token tokens
  handle (logout_all user) tokens = revoke_all_for_user user tokens

  unfoldable pub handle_all : List Request → Tokens → Tokens
  handle_all [] tokens = tokens
  handle_all (step ∷ steps) tokens = handle_all steps (handle step tokens)

  -- What the sequence of the requests keeps of a dead family.
  abbrev Dead : Uuid → Tokens → Type 0
  Dead family tokens = HasUniqueHashes tokens × (has_live family tokens ≡ false)

  update-Dead :
      (family : Uuid) (p : RefreshToken → Bool) (f : RefreshToken → RefreshToken) (tokens : Tokens)
      → IsTame f
      → Dead family tokens
      → Dead family (update_where p f tokens)
  update-Dead family p f tokens tame h =
      (update-HasUniqueHashes p f tokens tame h.0, update-dead family p f tokens tame h.1)

  claim_token-Dead :
      (family : Uuid) (row : RefreshToken) (token new_token : String) (fresh : Uuid)
      (now issued : ℕ) (tokens : Tokens)
      → find_token (hash_of token) tokens ≡ some row
      → Dead family tokens
      → Dead family
          (claim_token hash_of lifetime_seconds row token new_token fresh now issued tokens).1
  unfolding claim_token revoke_family
  claim_token-Dead family row token new_token fresh now issued tokens is h =
      elim (Bool-cases (any (is_claimable (hash_of token)) tokens)) [
        | inr miss ↦
            rw miss
              (update-Dead family (λ r. r.family_id == row.family_id) revoke tokens revoke-IsTame h)
        | inl hit ↦
            let other : row.family_id ≢ family =
              λ same. cc (hit, dead-claimable family (hash_of token) tokens h.0 h.1 is same) in
            let after = update_where (is_claimable (hash_of token)) (spent now) tokens in
            let kept =
              update-Dead family (is_claimable (hash_of token)) (spent now) tokens
                (spent-IsTame now) h in
            elim (Option-cases (
              issue_refresh_token hash_of lifetime_seconds row.user_id (some row.family_id)
                new_token fresh issued after)) [
                  | inl e ↦ rw hit (rw e h)
                  | inr (tokens', e) ↦ rw hit (
                      rw e (
                        issue-HasUniqueHashes hash_of lifetime_seconds row.user_id
                            (some row.family_id) new_token fresh issued after e kept.0,
                        issue-dead hash_of lifetime_seconds row.user_id (some row.family_id)
                            new_token fresh issued after family e other kept.1,
                      ))
                ]
      ]

  rotate_refresh_token-Dead :
      (family : Uuid) (token new_token : String) (fresh : Uuid) (read now issued : ℕ)
      (tokens : Tokens)
      → Dead family tokens
      → Dead family
          (rotate_refresh_token hash_of lifetime_seconds token new_token fresh read now issued
            undisturbed tokens).1
  unfolding rotate_refresh_token
  rotate_refresh_token-Dead family token new_token fresh read now issued tokens h =
      elim (Option-cases (find_token (hash_of token) tokens)) [
        | inl e ↦ rw (e, rotate_refresh_token) h
        | inr (row, e) ↦
            rw (e, rotate_refresh_token)
              (elim (Bool-cases (leb row.expires_at read)) [
                | inl late ↦ rw late h
                | inr early ↦
                    rw early
                      (claim_token-Dead family row token new_token fresh now issued tokens e h)
              ])
      ]

  handle-Dead :
      (family : Uuid) (step : Request) (tokens : Tokens)
      → IsOther family step
      → Dead family tokens
      → Dead family (handle step tokens)
  unfolding handle revoke_family_of revoke_family revoke_all_for_user
  handle-Dead family (login user token fresh now) tokens other h =
      elim (Option-cases
        (issue_refresh_token hash_of lifetime_seconds user none token fresh now tokens)) [
          | inl e ↦ rw e h
          | inr (tokens', e) ↦ rw e (
            issue-HasUniqueHashes hash_of lifetime_seconds user none token fresh now tokens e h.0,
            issue-dead hash_of lifetime_seconds user none token fresh now tokens family e other h.1,
          )
        ]
  handle-Dead family (refresh token new_token fresh read now issued) tokens other h =
      rotate_refresh_token-Dead family token new_token fresh read now issued tokens h
  handle-Dead family (logout token) tokens other h =
      elim (Option-cases (find_token (hash_of token) tokens)) [
        | inl e ↦ rw (e, revoke_family_of) h
        | inr (row, e) ↦
            rw (e, revoke_family_of)
              (update-Dead family (λ r. r.family_id == row.family_id) revoke tokens revoke-IsTame h)
      ]
  handle-Dead family (logout_all user) tokens other h =
      update-Dead family (λ r. r.user_id == user) revoke tokens revoke-IsTame h

  handle_all-Dead :
      (family : Uuid) (steps : List Request) (tokens : Tokens)
      → All (IsOther family) steps
      → Dead family tokens
      → Dead family (handle_all steps tokens)
  unfolding handle_all
  handle_all-Dead family [] tokens others h = h
  handle_all-Dead family (step ∷ steps) tokens others h =
      handle_all-Dead family steps (handle step tokens) others.1
        (handle-Dead family step tokens others.0 h)

  -- Revocation is final: once no token of a family is live, whatever logins (each with a family of
  -- its own), refreshes and logouts follow, one after another, no token of the family is live
  -- again, and no refresh with one succeeds.
  pub handle_all-revoked :
      (family : Uuid) (steps : List Request) (tokens : Tokens) (token new_token : String)
      (fresh : Uuid) (read now issued : ℕ) (user : Uuid) {row : RefreshToken}
      → HasUniqueHashes tokens
      → has_live family tokens ≡ false
      → All (IsOther family) steps
      → find_token (hash_of token) (handle_all steps tokens) ≡ some row
      → row.family_id ≡ family
      → let tokens' = handle_all steps tokens in
        (has_live family tokens' ≡ false)
        × ((rotate_refresh_token hash_of lifetime_seconds token new_token fresh read now issued
              undisturbed tokens').0
            ≢ rotated user new_token)
  unfolding rotate_refresh_token claim_token
  handle_all-revoked family steps tokens token new_token fresh read now issued user u dead others is
        same =
      let kept = handle_all-Dead family steps tokens others (u, dead) in
      (
        kept.1,
        λ done. ground (
          arith,
          is,
          dead-claimable family (hash_of token) (handle_all steps tokens) kept.0 kept.1 is same,
          done,
        ),
      )
