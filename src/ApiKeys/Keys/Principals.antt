-- ===== src/ApiKeys/Keys/Principals.antt =====
-- Who a key authenticates: its creator in its organization, while it is good, and nobody else.
use python_backend_manager.Prelude.Base.{
  ℕ, ◌≡◌, sym, ◌≢◌, ◌∙◌, ap, true, false, not, ◌&&◌, Option, none, some, List, [], ◌∷◌, ◌==◌, arith,
  All, All-find_first, any, Bool-cases, Option-cases, inl, inr,
}
use mathlib.Core.Option.{some-injective}
use python_backend_manager.Prelude.Bytes.{CodePoints, bytes_eq, bytes_eq_iff, bytes_eq_refl}
use python_backend_manager.Prelude.Words.{IsWord}
use python_backend_manager.Prelude.Uuid.{Uuid}
use python_backend_manager.ApiKeys.Keys.{
  ApiKey, Keys, Principal, ApiKeyCreate, api_key, key_prefix, full_key, split_key, stored_scopes,
  expiry, find_key, revoke_api_key, is_good, principal_of, use_key, create_api_key, check_key,
  get_principal,
}
use python_backend_manager.ApiKeys.Keys.Lookup.{
  split_key-full_key, read_scopes-stored_scopes, Source, good_source, found_prefix, revoked_keys,
  revoke_is,
}

module _ (hash_secret : CodePoints → CodePoints) where
  check_key-Source :
      (parts : Option (CodePoints × CodePoints)) (now : ℕ) (keys : Keys) {p : Principal}
      → (check_key hash_secret parts now keys).0 ≡ some p
      → Source hash_secret parts now keys p
  unfolding check_key
  check_key-Source none now keys done = cc
  check_key-Source (some (prefix, secret)) now keys {p} done =
      elim (Option-cases (find_key prefix keys)) [
        | inl e ↦ cc (rw (e, check_key) at done)
        | inr (k, e) ↦
            let used = rw (e, check_key) at done in
            elim (Bool-cases (bytes_eq (hash_secret secret) k.hashed_secret)) [
              | inr differs ↦ cc (rw differs at used)
              | inl same ↦
                  let same_prefix = found_prefix prefix keys e in
                  let (good, is) = good_source now k keys (rw same at used) in
                  (
                    k,
                    secret,
                    ap (λ x. some (x, secret)) (sym same_prefix),
                    ap (λ x. find_key x keys) same_prefix ∙ e,
                    (bytes_eq_iff (hash_secret secret) k.hashed_secret).0 same,
                    good,
                    is,
                  )
            ]
      ]

  created_key :
      (org user : Uuid) (payload : ApiKeyCreate) (token secret : CodePoints) (id : Uuid) (now : ℕ)
      (keys : Keys) {raw : CodePoints} {keys' : Keys}
      → create_api_key hash_secret org user payload token secret id now keys ≡ some (raw, keys')
      → (raw ≡ full_key token secret)
        × (keys'
            ≡ record {
              id = id;
              organization_id = org;
              created_by_user_id = user;
              name = payload.name;
              prefix = key_prefix token;
              hashed_secret = hash_secret secret;
              scopes = stored_scopes payload.scopes;
              expires_at = expiry now payload.expires_in_days;
              last_used_at = none;
              revoked_at = none;
            }
              ∷ keys)
  unfolding create_api_key
  created_key org user payload token secret id now keys made = ground arith

  -- A key authenticates its creator: the full key that a creation returned, presented as long as
  -- it has not expired, resolves to the creator, the organization, the key and the scopes that it
  -- was created with, if the random token has no dot, the secret is not empty, and every scope is
  -- a text without a space.
  pub get_principal-create_api_key :
      (org user : Uuid) (payload : ApiKeyCreate) (token : CodePoints) (d : ℕ) (ds : CodePoints)
      (id : Uuid) (now later : ℕ) (visitor : Option Uuid) (keys : Keys) {scopes : List CodePoints}
      {raw : CodePoints} {keys' : Keys}
      → create_api_key hash_secret org user payload token (d ∷ ds) id now keys ≡ some (raw, keys')
      → any (λ c. c == b'.') token ≡ false
      → payload.scopes ≡ some scopes
      → All IsWord scopes
      → is_good later none (expiry now payload.expires_in_days) ≡ true
      → (get_principal hash_secret (some raw) visitor later keys').0
        ≡ some (record {
          user_id = user;
          organization_id = some org;
          api_key_id = some id;
          scopes = scopes;
          method = api_key;
        })
  unfolding get_principal check_key use_key find_key
  get_principal-create_api_key org user payload token d ds id now later visitor keys {scopes} made
        no_dot given words good =
      let (is_raw, is_keys) = created_key org user payload token (d ∷ ds) id now keys made in
      rw (is_raw, is_keys)
        (rw (split_key-full_key token d ds no_dot, given)
          (ground (
            arith,
            bytes_eq_refl (key_prefix token),
            bytes_eq_refl (hash_secret (d ∷ ds)),
            good,
            read_scopes-stored_scopes scopes words,
          )))

  -- Authentication is sound: where no user is logged in, a principal comes from a key of the table
  -- whose prefix is the one presented, whose hash is that of the secret presented, and which is
  -- neither revoked nor expired; the principal is that key's.
  pub get_principal_sound :
      (raw : CodePoints) (now : ℕ) (keys : Keys) {p : Principal}
      → (get_principal hash_secret (some raw) none now keys).0 ≡ some p
      → (k : ApiKey) × (secret : CodePoints) × (split_key raw ≡ some (k.prefix, secret))
        × (find_key k.prefix keys ≡ some k)
        × (hash_secret secret ≡ k.hashed_secret)
        × (is_good now k.revoked_at k.expires_at ≡ true)
        × (p ≡ principal_of k)
  unfolding get_principal
  get_principal_sound [] now keys done = cc
  get_principal_sound (c ∷ cs) now keys done = check_key-Source (split_key (c ∷ cs)) now keys done

  -- Where the keys of an id are not good, no principal has the id.
  revoked-Source :
      (parts : Option (CodePoints × CodePoints)) (id : Uuid) (now : ℕ) (keys : Keys) {p : Principal}
      → All (λ k. k.id ≡ id → is_good now k.revoked_at k.expires_at ≡ false) keys
      → Source hash_secret parts now keys p
      → p.api_key_id ≢ some id
  unfolding find_key
  revoked-Source parts id now keys {p} bad (k, secret, split, is, same, good, of_k) has =
      let same_id : k.id ≡ id =
        some-injective _ _ (sym (ap (λ (q : Principal). q.api_key_id) of_k) ∙ has) in
      let refused =
        All-find_first (λ (j : ApiKey). j.id ≡ id → is_good now j.revoked_at j.expires_at ≡ false)
          (λ (j : ApiKey). bytes_eq j.prefix k.prefix) keys {x = k} is bad same_id in
      cc (refused, good)

  revoked_principal :
      (header : Option CodePoints) (visitor : Option Uuid) (id : Uuid) (now : ℕ) (keys : Keys)
      {p : Principal}
      → All (λ k. k.id ≡ id → is_good now k.revoked_at k.expires_at ≡ false) keys
      → (get_principal hash_secret header visitor now keys).0 ≡ some p
      → p.api_key_id ≢ some id
  unfolding get_principal
  revoked_principal none none id now keys bad done = cc
  revoked_principal none (some user) id now keys bad done = ground (arith, done)
  revoked_principal (some []) none id now keys bad done = cc
  revoked_principal (some []) (some user) id now keys bad done = ground (arith, done)
  revoked_principal (some (c ∷ cs)) visitor id now keys bad done =
      revoked-Source (split_key (c ∷ cs)) id now keys bad
        (check_key-Source (split_key (c ∷ cs)) now keys done)

  -- Revocation: once an organization's key is revoked, no request is resolved to it, whatever it
  -- presents and whenever it comes; no key of another organization may have the same id.
  pub get_principal-revoke_api_key :
      (org id : Uuid) (at now : ℕ) (header : Option CodePoints) (visitor : Option Uuid)
      (keys : Keys) {keys' : Keys} {p : Principal}
      → revoke_api_key org id at keys ≡ some keys'
      → any (λ k. k.id == id && not (k.organization_id == org)) keys ≡ false
      → (get_principal hash_secret header visitor now keys').0 ≡ some p
      → p.api_key_id ≢ some id
  get_principal-revoke_api_key org id at now header visitor keys revoked alone done =
      revoked_principal header visitor id now _
        (rw (revoke_is org id at keys revoked) (revoked_keys org id at now keys alone)) done
