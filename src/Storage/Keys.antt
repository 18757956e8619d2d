-- ===== src/Storage/Keys.antt =====
-- The object keys of storage/keys.py.
pub mod Tenants
use python_backend_manager.Prelude.Base.{
  ℕ, Option, none, some, List, [], ◌∷◌, ◌++◌, ◌==◌, if◌then◌else◌,
}
use python_backend_manager.Prelude.Bytes.{CodePoints, codes}

-- `key.lstrip("/")`
unfoldable pub strip_slashes : CodePoints → CodePoints
strip_slashes [] = []
strip_slashes (c ∷ cs) = let rest = strip_slashes cs in if c == b'/' then rest else c ∷ cs

unfoldable pub tenant_prefix : Option CodePoints → CodePoints
tenant_prefix none = []
tenant_prefix (some []) = []
tenant_prefix (some (c ∷ cs)) = codes "orgs/" ++ (c ∷ cs) ++ codes "/"

-- The prefix is empty where no organization is given.
unfoldable pub build_key : CodePoints → Option CodePoints → CodePoints
build_key key org = tenant_prefix org ++ strip_slashes key

-- What follows the prefix, if the text starts with it.
unfoldable pub without_prefix : CodePoints → CodePoints → Option CodePoints
without_prefix [] text = some text
without_prefix (p ∷ ps) [] = none
without_prefix (p ∷ ps) (c ∷ cs) = let rest = without_prefix ps cs in if p == c then rest else none

unfoldable pub relative_key : CodePoints → Option CodePoints → CodePoints
relative_key stored org = elim (without_prefix (tenant_prefix org) stored) [
  | some key ↦ key
  | none ↦ stored
]
