-- ===== src/Storage/Keys/Tenants.antt =====
-- A tenant's keys stay in its prefix and come back as they were given.
use python_backend_manager.Prelude.Base.{◌≡◌, refl, Option, some, [], ◌∷◌, ◌++◌, arith}
use python_backend_manager.Prelude.Bytes.{CodePoints}
use python_backend_manager.Storage.Keys.{
  strip_slashes, tenant_prefix, build_key, without_prefix, relative_key,
}

without_prefix-append : (p text : CodePoints) → without_prefix p (p ++ text) ≡ some text
unfolding without_prefix
without_prefix-append [] text = refl
without_prefix-append (c ∷ cs) text = ground (arith, without_prefix-append cs text)

-- A stored key starts with the prefix of its tenant, and reads back as the key that was given, less
-- the slashes in front.
pub relative_key-build_key :
    (key : CodePoints) (org : Option CodePoints)
    → (without_prefix (tenant_prefix org) (build_key key org) ≡ some (strip_slashes key))
      × (relative_key (build_key key org) org ≡ strip_slashes key)
unfolding build_key relative_key
relative_key-build_key key org =
    let found = without_prefix-append (tenant_prefix org) (strip_slashes key) in
    (found, rw (found, relative_key) refl)
