-- ===== src/ApiKeys/Tests.antt =====
-- The theorems on API keys at a concrete key.
use python_backend_manager.Prelude.Base.{refl, ◌≢◌, none, some, List, [], ◌∷◌}
use python_backend_manager.Prelude.Bytes.{CodePoints, codes, bytes_eq}
use python_backend_manager.ApiKeys.Keys.{
  ApiKey, ApiKeyCreate, key_prefix, full_key, get_principal, revoke_api_key, check_key, use_key,
  find_key, split_key, partition_dot, principal_of,
}
use python_backend_manager.ApiKeys.Keys.Principals.{get_principal-revoke_api_key}

-- A function in place of the hash.
abbrev plain_hash : CodePoints → CodePoints
plain_hash secret = secret

abbrev scopes : List CodePoints
scopes = codes "read" ∷ codes "write" ∷ []

abbrev payload : ApiKeyCreate
payload = record { name = codes "ci"; scopes = some scopes; expires_in_days = some 1 }

abbrev row : ApiKey
row = record {
  id = 3;
  organization_id = 1;
  created_by_user_id = 2;
  name = codes "ci";
  prefix = key_prefix (codes "1a");
  hashed_secret = codes "xyz";
  scopes = some (codes "read write");
  expires_at = some 86400000005;
  last_used_at = none;
  revoked_at = none;
}

abbrev good_row : ApiKey
good_row = record row { scopes = none }

abbrev other_row : ApiKey
other_row = record good_row { id = 4; prefix = key_prefix (codes "2b") }

get_principal-revoke_api_key_example : (principal_of other_row).api_key_id ≢ some 3
unfolding revoke_api_key get_principal check_key use_key find_key split_key partition_dot bytes_eq
get_principal-revoke_api_key_example =
    get_principal-revoke_api_key plain_hash 1 3 7 9 (some (full_key (codes "2b") (codes "xyz")))
      none (row ∷ other_row ∷ []) {keys' = record row { revoked_at = some 7 } ∷ other_row ∷ []}
      {p = principal_of other_row} refl refl refl
