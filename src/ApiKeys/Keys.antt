-- ===== src/ApiKeys/Keys.antt =====
-- API keys: api_keys/security.py, the row of api_keys/models.py, the routes of api_keys/router.py
-- that change state, and `get_principal` of api_keys/dependencies.py.jinja. The hash of a secret is
-- an argument. The membership check of the routes is tenancy's, and the foreign keys are left out.
pub mod Lookup
pub mod Principals
use python_backend_manager.Prelude.Base.{
  ℕ, ◌+◌, ◌*◌, Bool, true, false, not, ◌&&◌, Option, none, some, List, [], ◌∷◌, ◌++◌, ◌==◌, leb,
  any, find_first, update_where, if◌then◌else◌,
}
use python_backend_manager.Prelude.Bytes.{CodePoints, codes, bytes_eq}
use python_backend_manager.Prelude.Words.{split_words, join_words}
use python_backend_manager.Prelude.Uuid.{Uuid}

pub record ApiKey : Type 0 where
  pub id : Uuid
  pub organization_id : Uuid
  pub created_by_user_id : Uuid
  pub name : CodePoints
  pub prefix : CodePoints
  pub hashed_secret : CodePoints
  pub scopes : Option CodePoints
  pub expires_at : Option ℕ
  pub last_used_at : Option ℕ
  pub revoked_at : Option ℕ

abbrev pub Keys : Type 0
Keys = List ApiKey

pub data AuthMethod : Type 0 where
  jwt api_key : AuthMethod

pub record Principal : Type 0 where
  pub user_id : Uuid
  pub organization_id : Option Uuid
  pub api_key_id : Option Uuid
  pub scopes : List CodePoints
  pub method : AuthMethod

pub record ApiKeyCreate : Type 0 where
  pub name : CodePoints
  pub scopes : Option (List CodePoints)
  pub expires_in_days : Option ℕ

abbrev brand : CodePoints
brand = codes "wsk"

-- `generate_key`, for the tokens that `secrets` gives: the prefix and the full key.
abbrev pub key_prefix : CodePoints → CodePoints
key_prefix token = brand ++ codes "_" ++ token

abbrev pub full_key : CodePoints → CodePoints → CodePoints
full_key token secret = key_prefix token ++ b'.' ∷ secret

-- `raw.partition(".")`: the texts before and behind the first dot, if there is one.
unfoldable pub partition_dot : CodePoints → Option (CodePoints × CodePoints)
partition_dot [] = none
partition_dot (c ∷ cs) =
    let rest = partition_dot cs in
    if c == b'.'
    then some ([], cs)
    else elim rest [ none ↦ none | some (before, behind) ↦ some (c ∷ before, behind) ]

nonempty : CodePoints → CodePoints → Option (CodePoints × CodePoints)
nonempty [] secret = none
nonempty (c ∷ cs) [] = none
nonempty (c ∷ cs) (d ∷ ds) = some (c ∷ cs, d ∷ ds)

unfoldable pub split_key : CodePoints → Option (CodePoints × CodePoints)
unfolding nonempty
split_key raw = elim (partition_dot raw) [
  | none ↦ none
  | some (prefix, secret) ↦ nonempty prefix secret
]

-- `" ".join(scopes) if scopes else None`, and back.
abbrev pub stored_scopes : Option (List CodePoints) → Option CodePoints
stored_scopes none = none
stored_scopes (some []) = none
stored_scopes (some (s ∷ scopes)) = some (join_words (s ∷ scopes))

abbrev pub read_scopes : Option CodePoints → List CodePoints
read_scopes none = []
read_scopes (some []) = []
read_scopes (some (c ∷ cs)) = split_words (c ∷ cs)

abbrev pub expiry : ℕ → Option ℕ → Option ℕ
expiry now none = none
expiry now (some days) = some (now + days * 86400000000)

unfoldable pub find_key : CodePoints → Keys → Option ApiKey
find_key prefix keys = find_first (λ k. bytes_eq k.prefix prefix) keys

abbrev pub is_of : Uuid → Uuid → ApiKey → Bool
is_of org id k = k.id == id && k.organization_id == org

-- `revoke_api_key`: `none` is a 404.
unfoldable pub revoke_api_key : Uuid → Uuid → ℕ → Keys → Option Keys
revoke_api_key org id now keys =
    if any (is_of org id) keys
    then some (update_where (is_of org id) (λ k. record k { revoked_at = some now }) keys)
    else none

-- A key that is neither revoked nor expired.
abbrev pub is_good : ℕ → Option ℕ → Option ℕ → Bool
is_good now (some at) expires_at = false
is_good now none none = true
is_good now none (some expires_at) = not (leb expires_at now)

abbrev pub principal_of : ApiKey → Principal
principal_of k = record {
  user_id = k.created_by_user_id;
  organization_id = some k.organization_id;
  api_key_id = some k.id;
  scopes = read_scopes k.scopes;
  method = api_key;
}

-- The rest of `get_principal` once the row is found; `none` is a 401.
unfoldable pub use_key : ℕ → ApiKey → Keys → Option Principal × Keys
use_key now k keys =
    if is_good now k.revoked_at k.expires_at
    then (
      some (principal_of k),
      update_where (λ j. j.id == k.id) (λ j. record j { last_used_at = some now }) keys,
    )
    else (none, keys)

abbrev pub user_principal : Option Uuid → Option Principal
user_principal none = none
user_principal (some user) = some (record {
  user_id = user;
  organization_id = none;
  api_key_id = none;
  scopes = [];
  method = jwt;
})

module _ (hash_secret : CodePoints → CodePoints) where
  -- `create_api_key`, for a member of `org`: the row and the full key, shown once; `none` is the
  -- `IntegrityError` of the UNIQUE prefix or of the primary key.
  unfoldable pub create_api_key :
      Uuid
      → Uuid
      → ApiKeyCreate
      → CodePoints
      → CodePoints
      → Uuid
      → ℕ
      → Keys
      → Option (CodePoints × Keys)
  create_api_key org user payload token secret id now keys =
      if any (λ k. bytes_eq k.prefix (key_prefix token)) keys
      then none
      else if any (λ k. k.id == id) keys
      then none
      else some (
        full_key token secret,
        record {
          id = id;
          organization_id = org;
          created_by_user_id = user;
          name = payload.name;
          prefix = key_prefix token;
          hashed_secret = hash_secret secret;
          scopes = stored_scopes payload.scopes;
          expires_at = expiry now payload.expires_in_days;
          last_used_at = none;
          revoked_at = none;
        }
            ∷ keys,
      )

  abbrev verify_secret : CodePoints → CodePoints → Bool
  verify_secret secret hashed = bytes_eq (hash_secret secret) hashed

  -- The key of the header, split.
  unfoldable pub check_key : Option (CodePoints × CodePoints) → ℕ → Keys → Option Principal × Keys
  check_key none now keys = (none, keys)
  check_key (some (prefix, secret)) now keys = elim (find_key prefix keys) [
    | none ↦ (none, keys)
    | some k ↦ if verify_secret secret k.hashed_secret then use_key now k keys else (none, keys)
  ]

  -- An empty header is no header.
  unfoldable pub get_principal :
      Option CodePoints → Option Uuid → ℕ → Keys → Option Principal × Keys
  get_principal none user now keys = (user_principal user, keys)
  get_principal (some []) user now keys = (user_principal user, keys)
  get_principal (some (c ∷ cs)) user now keys = check_key (split_key (c ∷ cs)) now keys
