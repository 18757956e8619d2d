-- ===== src/Storage/Tests.antt =====
-- The theorem on the objects of tenants at a concrete store.
use python_backend_manager.Prelude.Base.{
  ◌≡◌, ◌≢◌, refl, Option, none, some, List, [], ◌∷◌, arith, if◌then◌else◌,
}
use python_backend_manager.Prelude.Bytes.{Bytes, CodePoints, codes, bytes_eq, bytes_eq_iff}
use python_backend_manager.Storage.Keys.{build_key, strip_slashes, tenant_prefix}
use python_backend_manager.Storage.Client.{
  S3, configured_bucket, get_object, remove_object, delete_object,
}
use python_backend_manager.Storage.Client.Isolation.{delete_object-isolated}

-- A store is the list of its keys with their objects.
abbrev Store : Type 0
Store = List (CodePoints × Bytes)

abbrev found : CodePoints → Store → Option Bytes
found key [] = none
found key ((k, v) ∷ store) = if bytes_eq k key then some v else found key store

abbrev without : CodePoints → Store → Store
without key [] = []
without key ((k, v) ∷ store) =
    if bytes_eq k key then without key store else (k, v) ∷ without key store

found-without :
    (key j : CodePoints) (store : Store) → key ≢ j → found j (without key store) ≡ found j store
found-without key j [] ne = refl
found-without key j ((k, v) ∷ store) ne =
    ground (arith, ne, bytes_eq_iff k key, bytes_eq_iff k j, found-without key j store ne)

abbrev s3 : S3 Store
s3 = record {
  put_object = λ bucket key object content_type store. (key, object) ∷ store;
  get_object = λ bucket key store. found key store;
  delete_object = λ bucket key store. without key store;
  list_objects = λ bucket prefix store. none;
  presigned_put = λ bucket key content_type expires_in. key;
  presigned_get = λ bucket key expires_in. key;
}

abbrev store : Store
store = (codes "orgs/1/a", codes "x") ∷ (codes "orgs/2/a", codes "y") ∷ []

delete_object-isolated_example :
    get_object s3
      (some (codes "b"))
      (build_key (codes "a") (some (codes "2")))
      ((codes "orgs/2/a", codes "y") ∷ [])
    ≡ some (some (codes "y"))
unfolding delete_object remove_object get_object configured_bucket build_key strip_slashes
    tenant_prefix bytes_eq
delete_object-isolated_example =
    delete_object-isolated s3 (some (codes "b")) (codes "1") (codes "2") (codes "/a") (codes "a")
      store {w' = (codes "orgs/2/a", codes "y") ∷ []} (λ b k j v ne. found-without k j v ne) refl
      refl (λ e. ground (arith, e)) (λ e. ground (arith, e)) (λ e. ground (arith, e)) refl
