-- ===== src/Rbac/Permissions/Hierarchy.antt =====
-- The scopes grow with the roles.
use python_backend_manager.Prelude.Base.{String, ◌≡◌, true, not, ◌||◌, ◌&&◌, arith, eq_iff}
use python_backend_manager.Prelude.Dict.{get, get_or}
use python_backend_manager.Rbac.Permissions.{
  has_role, role_grants_scope, require_role, require_scope,
}

-- The scopes are cumulative: whoever passes the guard of a role has every scope of that role.
pub require_role-require_scope :
    (minimum role scope : String)
    → not (require_role minimum role && require_scope scope minimum) || require_scope scope role
      ≡ true
unfolding has_role role_grants_scope get_or get
require_role-require_scope minimum role scope = grind (
  arith,
  eq_iff "member" minimum,
  eq_iff "admin" minimum,
  eq_iff "owner" minimum,
  eq_iff "member" role,
  eq_iff "admin" role,
  eq_iff "owner" role,
)
