-- ===== src/Rbac/Permissions.antt =====
-- The roles of rbac/permissions.py, their order and their scopes. The guards are given the role of
-- the caller's membership; a refused request is a 403.
pub mod Hierarchy
use python_backend_manager.Prelude.Base.{ℕ, String, Bool, List, [], ◌∷◌, any, leb, str_eq}
use python_backend_manager.Prelude.Dict.{Dict, get_or}

abbrev role_rank : Dict ℕ
role_rank = ("member", 1) ∷ ("admin", 2) ∷ ("owner", 3) ∷ []

abbrev scopes_by_role : Dict (List String)
scopes_by_role =
    ("member", "org:read" ∷ [])
    ∷ ("admin", "org:read" ∷ "members:write" ∷ [])
    ∷ ("owner", "org:read" ∷ "members:write" ∷ "org:admin" ∷ [])
    ∷ []

unfoldable pub has_role : String → String → Bool
has_role role minimum = leb (get_or role_rank minimum 0) (get_or role_rank role 0)

unfoldable pub role_grants_scope : String → String → Bool
role_grants_scope role scope = any (λ s. str_eq s scope) (get_or scopes_by_role role [])

-- `require_role(minimum)` and `require_scope(scope)`: does the request pass?
abbrev pub require_role : String → String → Bool
require_role minimum role = has_role role minimum

abbrev pub require_scope : String → String → Bool
require_scope scope role = role_grants_scope role scope
