-- ===== src/Tenancy/Tests.antt =====
-- The theorems on members at a concrete organization.
use python_backend_manager.Prelude.Base.{◌≡◌, refl, true, none, some, [], ◌∷◌, arith}
use python_backend_manager.Prelude.Dict.{get_or}
use python_backend_manager.Prelude.Bytes.{codes}
use python_backend_manager.Tenancy.Models.{Membership, Tables}
use python_backend_manager.Rbac.Permissions.{has_role, role_grants_scope, require_role}
use python_backend_manager.Tenancy.Router.{
  MemberAdd, remove_member, remove_guarded, get_current_membership,
}
use python_backend_manager.Tenancy.Router.Authorized.{
  Request, remove, handle, handle-authorized, remove_member-revokes,
}

abbrev tables : Tables
tables = record {
  users = 1 ∷ 2 ∷ 3 ∷ [];
  organizations = [];
  memberships =
      record { organization_id = 9; user_id = 1; role = "owner" }
      ∷ record { organization_id = 9; user_id = 2; role = "admin" }
      ∷ [];
  outbox_events = [];
}

-- An administrator asks for a member with the role of an owner.
abbrev new_owner : MemberAdd
new_owner = record {
  user_id = 3;
  role = "owner";
  data_text = "{}";
  event_id = codes "e";
  row_id = 7;
  now = 100;
}

handle-authorized_example :
    (m : Membership) × (some (record { organization_id = 9; user_id = 2; role = "admin" }) ≡ some m)
    × (require_role "admin" m.role ≡ true)
unfolding handle remove_member remove_guarded get_current_membership has_role role_grants_scope
    get_or
handle-authorized_example = handle-authorized 9 2 (remove 1) tables (λ e. ground (arith, e))

-- An administrator removes the only owner.
remove_member-revokes_example :
    (get_current_membership 9 1 (remove_member 9 2 1 tables).1.memberships ≡ none)
    × ((request : Request)
        → handle 9 1 request (remove_member 9 2 1 tables).1 ≡ (remove_member 9 2 1 tables).1)
unfolding remove_member remove_guarded get_current_membership role_grants_scope get_or
remove_member-revokes_example = remove_member-revokes 9 2 1 tables refl
