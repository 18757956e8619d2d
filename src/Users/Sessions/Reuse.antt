-- ===== src/Users/Sessions/Reuse.antt =====
-- A refresh token rotates once, and its reuse ends the session.
use python_backend_manager.Prelude.Base.{
  ℕ, ◌<◌, ◌+◌, ◌*◌, ◌==◌, ◌&&◌, not, Bool, String, ◌≡◌, refl, ap, eq_refl, true, false, Option,
  some, [], ◌∷◌, arith, eq_iff, any, update_where, Bool-cases, inl, inr, Option-cases, any-found,
  ◌∙◌, if◌then◌else◌,
}
use python_backend_manager.Prelude.Uuid.{Uuid}
use python_backend_manager.Users.Sessions.{
  RefreshToken, Tokens, Refreshed, new_row, revoke, has_hash, find_token, is_claimable, spent,
  revoke_family, rotated, reuse_detected, issue_refresh_token, claim_token, rotate_refresh_token,
}

abbrev pub undisturbed : Tokens → Tokens
undisturbed tokens = tokens

-- Is there a token of the family that is not revoked?
abbrev pub has_live : Uuid → Tokens → Bool
has_live family tokens = any (λ r. r.family_id == family && not r.revoked) tokens

spent-claimable :
    (hash : String) (now : ℕ) (tokens : Tokens)
    → any (is_claimable hash) (update_where (is_claimable hash) (spent now) tokens) ≡ false
spent-claimable hash now [] = refl
spent-claimable hash now (r ∷ tokens) = ground (arith, spent-claimable hash now tokens)

-- A token without a row is not claimable.
pub unknown-claimable :
    (hash : String) (tokens : Tokens)
    → any (has_hash hash) tokens ≡ false
    → any (is_claimable hash) tokens ≡ false
unknown-claimable hash [] h = refl
unknown-claimable hash (r ∷ tokens) h = ground (arith, unknown-claimable hash tokens)

-- The row of a hash is found where it was, though its token is spent.
find_token-spent :
    (hash : String) (now : ℕ) (tokens : Tokens) {row : RefreshToken}
    → find_token hash tokens ≡ some row
    → find_token hash (update_where (is_claimable hash) (spent now) tokens)
      ≡ some (if is_claimable hash row then spent now row else row)
unfolding find_token
find_token-spent hash now [] e = cc
find_token-spent hash now (r ∷ tokens) {row} e =
    ground (arith, find_token-spent hash now tokens {row = row})

any-spent :
    (h hash : String) (now : ℕ) (tokens : Tokens)
    → any (has_hash h) (update_where (is_claimable hash) (spent now) tokens)
      ≡ any (has_hash h) tokens
any-spent h hash now [] = refl
any-spent h hash now (r ∷ tokens) = ground (arith, any-spent h hash now tokens)

-- After the row of another hash is inserted the token is found where it was.
find_token-issued :
    (hash_of : String → String) (lifetime_seconds : ℕ) (hash : String) (user : Uuid)
    (family : Option Uuid) (token : String) (fresh : Uuid) (now : ℕ) (tokens : Tokens)
    {tokens' : Tokens}
    → issue_refresh_token hash_of lifetime_seconds user family token fresh now tokens ≡ some tokens'
    → any (has_hash hash) tokens ≡ true
    → (find_token hash tokens' ≡ find_token hash tokens)
      × (any (is_claimable hash) tokens' ≡ any (is_claimable hash) tokens)
unfolding issue_refresh_token find_token
find_token-issued hash_of lifetime_seconds hash user family token fresh now tokens e known =
    ground (arith, eq_iff (hash_of token) hash)

revoke_family-dead :
    (family : Uuid) (tokens : Tokens) → has_live family (revoke_family family tokens) ≡ false
unfolding revoke_family
revoke_family-dead family [] = refl
revoke_family-dead family (r ∷ tokens) = ground (arith, revoke_family-dead family tokens)

find_token-revoked :
    (hash : String) (family : Uuid) (tokens : Tokens) {row : RefreshToken}
    → find_token hash tokens ≡ some row
    → row.family_id ≡ family
    → find_token hash (revoke_family family tokens) ≡ some (revoke row)
unfolding find_token revoke_family
find_token-revoked hash family [] e same = cc
find_token-revoked hash family (r ∷ tokens) {row} e same =
    ground (arith, find_token-revoked hash family tokens {row = row})

module _ (hash_of : String → String) (lifetime_seconds : ℕ) where
  -- What a rotation leaves: the token's row, spent or not claimable, and no claimable row.
  claim_token-spent :
      (row : RefreshToken) (token new_token : String) (fresh : Uuid) (now issued : ℕ)
      (tokens : Tokens) {user : Uuid} {found : RefreshToken}
      → (claim_token hash_of lifetime_seconds row token new_token fresh now issued tokens).0
        ≡ rotated user new_token
      → find_token (hash_of token) tokens ≡ some found
      → let tokens' =
          (claim_token hash_of lifetime_seconds row token new_token fresh now issued tokens).1 in
        (any (is_claimable (hash_of token)) tokens' ≡ false)
        × (find_token (hash_of token) tokens'
            ≡ some (if is_claimable (hash_of token) found then spent now found else found))
  unfolding claim_token
  claim_token-spent row token new_token fresh now issued tokens {found = found} done is =
      let after = update_where (is_claimable (hash_of token)) (spent now) tokens in
      let known =
        any-spent (hash_of token) (hash_of token) now tokens
        ∙ any-found (has_hash (hash_of token)) tokens {x = found} (unfold find_token in is) in
      elim (Option-cases (
        issue_refresh_token hash_of lifetime_seconds row.user_id (some row.family_id) new_token
          fresh issued after)) [
            | inl e ↦ ground (arith, e)
            | inr (tokens', e) ↦
                let same =
                  find_token-issued hash_of lifetime_seconds (hash_of token) row.user_id
                    (some row.family_id) new_token fresh issued after e known in
                ground (
                  arith,
                  e,
                  same.0,
                  same.1,
                  spent-claimable (hash_of token) now tokens,
                  find_token-spent (hash_of token) now tokens {row = found} is,
                )
          ]

  -- A rotation that succeeds came to the claim.
  rotate_refresh_token-claims :
      (token new_token : String) (fresh : Uuid) (read now issued : ℕ) (between : Tokens → Tokens)
      (tokens : Tokens) {user : Uuid} {row : RefreshToken}
      → (rotate_refresh_token hash_of lifetime_seconds token new_token fresh read now issued between
          tokens).0
        ≡ rotated user new_token
      → find_token (hash_of token) tokens ≡ some row
      → rotate_refresh_token hash_of lifetime_seconds token new_token fresh read now issued between
          tokens
        ≡ claim_token hash_of lifetime_seconds row token new_token fresh now issued (between tokens)
  unfolding rotate_refresh_token
  rotate_refresh_token-claims token new_token fresh read now issued between tokens done is =
      ground arith

  -- A token that is not claimable, before it expires: its family is revoked.
  pub rotate_refresh_token-refused :
      (token again : String) (fresh : Uuid) (read now issued : ℕ) (tokens : Tokens)
      {row : RefreshToken}
      → find_token (hash_of token) tokens ≡ some row
      → any (is_claimable (hash_of token)) tokens ≡ false
      → read < row.expires_at
      → rotate_refresh_token hash_of lifetime_seconds token again fresh read now issued undisturbed
          tokens
        ≡ (reuse_detected, revoke_family row.family_id tokens)
  unfolding rotate_refresh_token claim_token
  rotate_refresh_token-refused token again fresh read now issued tokens is none_left early =
      ground arith

  -- The successor is the row under the new token's hash, in the family of the row that was read.
  claim_token-successor :
      (row : RefreshToken) (token new_token : String) (fresh : Uuid) (now issued : ℕ)
      (tokens : Tokens) {user : Uuid}
      → (claim_token hash_of lifetime_seconds row token new_token fresh now issued tokens).0
        ≡ rotated user new_token
      → (successor : RefreshToken) × (find_token
            (hash_of new_token)
            (claim_token hash_of lifetime_seconds row token new_token fresh now issued tokens).1
          ≡ some successor)
        × (successor.family_id ≡ row.family_id)
  unfolding claim_token issue_refresh_token find_token
  claim_token-successor row token new_token fresh now issued tokens done = (
    new_row (hash_of new_token) row.user_id row.family_id (issued + lifetime_seconds * 1000000),
    ground (arith, eq_refl (hash_of new_token)),
    refl,
  )

  -- A refresh token is good for one rotation, and reuse is detected: once a token has been rotated,
  -- whatever other requests did between its SELECT and its UPDATE, as long as its row kept its
  -- family, presenting it again before it expires is answered with the error of a reuse. Its whole
  -- family is revoked then: no token of the family is live, and the successor that the rotation
  -- issued is found revoked.
  pub rotate_refresh_token-reuse :
      (token new_token again : String) (fresh fresh' : Uuid)
      (read now issued read' now' issued' : ℕ) (between : Tokens → Tokens) (tokens : Tokens)
      {user : Uuid} {seen row : RefreshToken}
      → (rotate_refresh_token hash_of lifetime_seconds token new_token fresh read now issued between
          tokens).0
        ≡ rotated user new_token
      → find_token (hash_of token) tokens ≡ some seen
      → find_token (hash_of token) (between tokens) ≡ some row
      → seen.family_id ≡ row.family_id
      → read' < row.expires_at
      → let tokens' =
          (rotate_refresh_token hash_of lifetime_seconds token new_token fresh read now issued
            between tokens).1 in
        let (reply, left) =
          rotate_refresh_token hash_of lifetime_seconds token again fresh' read' now' issued'
            undisturbed tokens' in
        (reply ≡ reuse_detected)
        × (left ≡ revoke_family row.family_id tokens')
        × (has_live row.family_id left ≡ false)
        × ((successor : RefreshToken) × (find_token (hash_of new_token) left ≡ some successor)
            × (successor.revoked ≡ true))
  rotate_refresh_token-reuse token new_token again fresh fresh' read now issued read' now' issued'
        between tokens {seen = seen} {row = row} done before is family early =
      let same =
        rotate_refresh_token-claims token new_token fresh read now issued between tokens done
          before in
      let claimed = rw same at done in
      let tokens' =
        (claim_token hash_of lifetime_seconds seen token new_token fresh now issued
          (between tokens)).1 in
      let (spent_all, found) =
        claim_token-spent seen token new_token fresh now issued (between tokens) claimed is in
      let (successor, issued_row, its_family) =
        claim_token-successor seen token new_token fresh now issued (between tokens) claimed in
      let (r, found_row, r_family, r_early) = spent_or found early in
      let refused =
        rotate_refresh_token-refused token again fresh' read' now' issued' tokens' {row = r}
          found_row spent_all r_early
        ∙ ap (λ f. (reuse_detected, revoke_family f tokens')) r_family in
      rw same (
        ap (λ (x : Refreshed × Tokens). x.0) refused,
        ap (λ (x : Refreshed × Tokens). x.1) refused,
        ap (λ (x : Refreshed × Tokens). has_live row.family_id x.1) refused
            ∙ revoke_family-dead row.family_id tokens',
        (
          revoke successor,
          ap (λ (x : Refreshed × Tokens). find_token (hash_of new_token) x.1) refused
              ∙ find_token-revoked (hash_of new_token) row.family_id tokens' issued_row
                  (its_family ∙ family),
          refl,
        ),
      )
    where
      spent_or :
          {found : Option RefreshToken}
          → found ≡ some (if is_claimable (hash_of token) row then spent now row else row)
          → read' < row.expires_at
          → (r : RefreshToken) × (found ≡ some r)
            × (r.family_id ≡ row.family_id)
            × (read' < r.expires_at)
      spent_or {found} e early = elim (Bool-cases (is_claimable (hash_of token) row)) [
        | inl hit ↦ (spent now row, rw hit at e, refl, early)
        | inr miss ↦ (row, rw miss at e, refl, early)
      ]
