-- ===== src/ApiKeys/Keys/Lookup.antt =====
-- Taking a key apart, and finding its row.
use python_backend_manager.Prelude.Base.{
  ℕ, ◌≡◌, refl, ◌∙◌, true, false, not, ◌&&◌, Option, some, List, [], ◌∷◌, ◌++◌, ◌==◌, arith, All,
  any, find_first-passes, update_where,
}
use python_backend_manager.Prelude.Bytes.{CodePoints, bytes_eq, bytes_eq_iff}
use python_backend_manager.Prelude.Words.{
  split_words, join_words, IsWord, split_words-join_words, split_from,
}
use python_backend_manager.Prelude.Uuid.{Uuid}
use python_backend_manager.ApiKeys.Keys.{
  ApiKey, Keys, Principal, key_prefix, full_key, partition_dot, nonempty, split_key, stored_scopes,
  read_scopes, find_key, is_of, revoke_api_key, is_good, principal_of, use_key,
}

partition_dot-append :
    (before behind : CodePoints)
    → any (λ c. c == b'.') before ≡ false
    → partition_dot (before ++ b'.' ∷ behind) ≡ some (before, behind)
unfolding partition_dot
partition_dot-append [] behind h = refl
partition_dot-append (c ∷ cs) behind h = ground (arith, partition_dot-append cs behind)

pub split_key-full_key :
    (token : CodePoints) (d : ℕ) (ds : CodePoints)
    → any (λ c. c == b'.') token ≡ false
    → split_key (full_key token (d ∷ ds)) ≡ some (key_prefix token, d ∷ ds)
unfolding split_key nonempty
split_key-full_key token d ds h = ground (arith, partition_dot-append (key_prefix token) (d ∷ ds) h)

read_scopes-some : (text : CodePoints) → read_scopes (some text) ≡ split_words text
unfolding split_words split_from
read_scopes-some [] = refl
read_scopes-some (c ∷ cs) = refl

pub read_scopes-stored_scopes :
    (scopes : List CodePoints)
    → All IsWord scopes
    → read_scopes (stored_scopes (some scopes)) ≡ scopes
read_scopes-stored_scopes [] h = refl
read_scopes-stored_scopes (s ∷ scopes) h =
    read_scopes-some (join_words (s ∷ scopes)) ∙ split_words-join_words (s ∷ scopes) h

-- What stands behind a principal that a key resolves to.
abbrev pub Source :
    (CodePoints → CodePoints) → Option (CodePoints × CodePoints) → ℕ → Keys → Principal → Type 0
Source hash_secret parts now keys p =
    (k : ApiKey) × (secret : CodePoints) × (parts ≡ some (k.prefix, secret))
    × (find_key k.prefix keys ≡ some k)
    × (hash_secret secret ≡ k.hashed_secret)
    × (is_good now k.revoked_at k.expires_at ≡ true)
    × (p ≡ principal_of k)

pub good_source :
    (now : ℕ) (k : ApiKey) (keys : Keys) {p : Principal}
    → (use_key now k keys).0 ≡ some p
    → (is_good now k.revoked_at k.expires_at ≡ true) × (p ≡ principal_of k)
unfolding use_key
good_source now k keys {p} done = ground arith

pub found_prefix :
    (prefix : CodePoints) (keys : Keys) {k : ApiKey}
    → find_key prefix keys ≡ some k
    → k.prefix ≡ prefix
unfolding find_key
found_prefix prefix keys {k} is =
    (bytes_eq_iff k.prefix prefix).0
      (find_first-passes (λ (j : ApiKey). bytes_eq j.prefix prefix) keys {x = k} is)

-- The keys of the id, after its revocation.
pub revoked_keys :
    (org id : Uuid) (at now : ℕ) (keys : Keys)
    → any (λ k. k.id == id && not (k.organization_id == org)) keys ≡ false
    → All
        (λ k. k.id ≡ id → is_good now k.revoked_at k.expires_at ≡ false)
        (update_where (is_of org id) (λ k. record k { revoked_at = some at }) keys)
revoked_keys org id at now [] alone = tt
revoked_keys org id at now (k ∷ keys) alone = ground (arith, revoked_keys org id at now keys)

pub revoke_is :
    (org id : Uuid) (at : ℕ) (keys : Keys) {keys' : Keys}
    → revoke_api_key org id at keys ≡ some keys'
    → keys' ≡ update_where (is_of org id) (λ k. record k { revoked_at = some at }) keys
unfolding revoke_api_key
revoke_is org id at keys revoked = ground arith
