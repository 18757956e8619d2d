-- ===== src/Storage/Client.antt =====
-- The object store: storage/client.py, and the routes of storage/router.py.jinja for a service with
-- tenants. The S3 client is a parameter, with a state of its own; an operation is `none` where no
-- bucket is configured. An expiry is a number of seconds.
pub mod Isolation
use python_backend_manager.Prelude.Base.{
  ℕ, Bool, Option, none, some, List, [], ◌∷◌, map, if◌then◌else◌,
}
use python_backend_manager.Prelude.Bytes.{Bytes, CodePoints, bytes_eq}
use python_backend_manager.Storage.Keys.{build_key, relative_key, tenant_prefix}

-- The operations of the S3 client on a bucket and a key. `list_objects` gives the keys of its one
-- answer, `none` where the answer has no "Contents".
pub record S3 (World : Type 0) : Type 0 where
  pub put_object : CodePoints → CodePoints → Bytes → Option CodePoints → World → World
  pub get_object : CodePoints → CodePoints → World → Option Bytes
  pub delete_object : CodePoints → CodePoints → World → World
  pub list_objects : CodePoints → CodePoints → World → Option (List CodePoints)
  pub presigned_put : CodePoints → CodePoints → Option CodePoints → ℕ → CodePoints
  pub presigned_get : CodePoints → CodePoints → ℕ → CodePoints

-- `_bucket`: `none` and the empty text raise.
unfoldable pub configured_bucket : Option CodePoints → Option CodePoints
configured_bucket none = none
configured_bucket (some []) = none
configured_bucket (some (c ∷ cs)) = some (c ∷ cs)

abbrev pub with_bucket {ℓ} : {A : Type ℓ} → Option CodePoints → (CodePoints → A) → Option A
with_bucket none f = none
with_bucket (some bucket) f = some (f bucket)

-- `response.get("Contents") or []`
abbrev pub contents : Option (List CodePoints) → List CodePoints
contents none = []
contents (some keys) = keys

module _ {World : Type 0} (s3 : S3 World) (s3_bucket : Option CodePoints) where
  unfoldable pub put_object : CodePoints → Bytes → Option CodePoints → World → Option World
  put_object key data_bytes content_type w =
      with_bucket (configured_bucket s3_bucket)
        (λ bucket. s3.put_object bucket key data_bytes content_type w)

  unfoldable pub get_object : CodePoints → World → Option (Option Bytes)
  get_object key w =
      with_bucket (configured_bucket s3_bucket) (λ bucket. s3.get_object bucket key w)

  unfoldable pub remove_object : CodePoints → World → Option World
  remove_object key w =
      with_bucket (configured_bucket s3_bucket) (λ bucket. s3.delete_object bucket key w)

  unfoldable pub list_keys : CodePoints → World → Option (List CodePoints)
  list_keys prefix w =
      with_bucket (configured_bucket s3_bucket)
        (λ bucket. contents (s3.list_objects bucket prefix w))

  unfoldable pub presigned_put_url : CodePoints → ℕ → Option CodePoints → Option CodePoints
  presigned_put_url key expires_in content_type =
      with_bucket (configured_bucket s3_bucket)
        (λ bucket. s3.presigned_put bucket key content_type expires_in)

  unfoldable pub presigned_get_url : CodePoints → ℕ → Option CodePoints
  presigned_get_url key expires_in =
      with_bucket (configured_bucket s3_bucket) (λ bucket. s3.presigned_get bucket key expires_in)

  -- The routes, with `org` the text of the id of the organization.
  unfoldable pub create_upload_url :
      CodePoints → CodePoints → Option CodePoints → ℕ → Option CodePoints
  create_upload_url org key content_type expires_in =
      presigned_put_url (build_key key (some org)) expires_in content_type

  unfoldable pub list_objects : CodePoints → World → Option (List CodePoints)
  list_objects org w = elim (list_keys (tenant_prefix (some org)) w) [
    | none ↦ none
    | some stored ↦ some (map (λ k. relative_key k (some org)) stored)
  ]

  unfoldable pub create_download_url : CodePoints → CodePoints → ℕ → Option CodePoints
  create_download_url org key expires_in = presigned_get_url (build_key key (some org)) expires_in

  unfoldable pub delete_object : CodePoints → CodePoints → World → Option World
  delete_object org key w = remove_object (build_key key (some org)) w
