-- ===== src/Storage/Client/Isolation.antt =====
-- The routes of one tenant and the objects of another.
use python_backend_manager.Prelude.Base.{
  ℕ, ◌≡◌, ◌≢◌, refl, ap, ◌∙◌, Bool, false, Option, none, some, [], ◌∷◌, ◌++◌, ◌==◌, any, arith,
}
use python_backend_manager.Prelude.Bytes.{CodePoints, codes}
use python_backend_manager.Storage.Keys.{strip_slashes, tenant_prefix, build_key}
use python_backend_manager.Storage.Client.{
  S3, configured_bucket, with_bucket, get_object, remove_object, delete_object,
}

abbrev has_slash : CodePoints → Bool
has_slash text = any (λ c. c == b'/') text

tail_eq : (a b : ℕ) (as' bs : CodePoints) → a ∷ as' ≡ b ∷ bs → (a ≡ b) × (as' ≡ bs)
tail_eq a b as' bs e = (cc, cc)

-- A text up to its first slash is determined by what it begins.
before_slash :
    (a b x y : CodePoints)
    → has_slash a ≡ false
    → has_slash b ≡ false
    → (a ++ codes "/") ++ x ≡ (b ++ codes "/") ++ y
    → a ≡ b
before_slash [] [] x y ha hb e = refl
before_slash [] (d ∷ b) x y ha hb e = absurd (ground (arith, hb, tail_eq _ _ _ _ e))
before_slash (c ∷ a) [] x y ha hb e = absurd (ground (arith, ha, tail_eq _ _ _ _ e))
before_slash (c ∷ a) (d ∷ b) x y ha hb e =
    let (same, rest) = tail_eq _ _ _ _ e in
    ground (arith, same, before_slash a b x y (ground (arith, ha)) (ground (arith, hb)) rest)

-- What follows the five characters of "orgs/".
abbrev after_orgs : CodePoints → CodePoints
after_orgs (o ∷ r ∷ g ∷ s ∷ c ∷ text) = text
after_orgs _ = []

-- The stored keys of two tenants are never the same, whatever keys the callers give.
build_key-apart :
    (a b key key' : CodePoints)
    → has_slash a ≡ false
    → has_slash b ≡ false
    → a ≢ []
    → b ≢ []
    → a ≢ b
    → build_key key (some a) ≢ build_key key' (some b)
unfolding build_key tenant_prefix
build_key-apart [] b key key' ha hb na nb ne e = na refl
build_key-apart (c ∷ a) [] key key' ha hb na nb ne e = nb refl
build_key-apart (c ∷ a) (d ∷ b) key key' ha hb na nb ne e =
    ne (
      before_slash (c ∷ a) (d ∷ b) (strip_slashes key) (strip_slashes key') ha hb (ap after_orgs e))

-- Deleting an object through the routes of one tenant leaves what every key of another tenant
-- holds: whatever keys the two callers give, the object that the other one reads afterwards is the
-- one that it would have read before. The ids of the tenants are texts without a slash, and a
-- deletion at the object store leaves the other keys of a bucket.
pub delete_object-isolated :
    {World : Type 0} (s3 : S3 World) (bucket : Option CodePoints) (org other key key' : CodePoints)
    (w : World) {w' : World}
    → ((b k j : CodePoints) (v : World)
        → k ≢ j
        → s3.get_object b j (s3.delete_object b k v) ≡ s3.get_object b j v)
    → has_slash org ≡ false
    → has_slash other ≡ false
    → org ≢ []
    → other ≢ []
    → org ≢ other
    → delete_object s3 bucket org key w ≡ some w'
    → get_object s3 bucket (build_key key' (some other)) w'
      ≡ get_object s3 bucket (build_key key' (some other)) w
unfolding delete_object remove_object get_object
delete_object-isolated {World} s3 bucket org other key key' w {w'} law hs ht org_set other_set ne
      h =
    go (configured_bucket bucket) h
  where
    same : (v : World) → some v ≡ some w' → w' ≡ v
    same v e = cc

    go :
        (c : Option CodePoints)
        → with_bucket c (λ b. s3.delete_object b (build_key key (some org)) w) ≡ some w'
        → with_bucket c (λ b. s3.get_object b (build_key key' (some other)) w')
          ≡ with_bucket c (λ b. s3.get_object b (build_key key' (some other)) w)
    go none e = cc
    go (some b) e =
        ap (λ v. some (s3.get_object b (build_key key' (some other)) v)) (same _ e)
        ∙ ap some (
            law b (build_key key (some org)) (build_key key' (some other)) w
              (build_key-apart org other key key' hs ht org_set other_set ne))
