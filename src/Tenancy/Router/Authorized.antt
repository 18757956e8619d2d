-- ===== src/Tenancy/Router/Authorized.antt =====
-- Who changes the members of an organization, and what a change grants.
use python_backend_manager.Prelude.Base.{
  String, ◌≡◌, ◌≢◌, refl, ap, ◌∙◌, Bool, true, false, not, Option, none, some, List, [], ◌∷◌, any,
  keep, find_first, inl, inr, Bool-cases, arith, if◌then◌else◌,
}
use python_backend_manager.Prelude.Uuid.{Uuid}
use python_backend_manager.Prelude.Dict.{get_or}
use python_backend_manager.Tenancy.Models.{Membership, Tables}
use python_backend_manager.Rbac.Permissions.{
  has_role, role_grants_scope, require_role, require_scope,
}
use python_backend_manager.Tenancy.Router.{
  Reply, done, forbidden, not_found, is_member, get_current_membership, MemberAdd, add_guarded,
  add_member, remove_guarded, remove_member,
}

-- The requests that change the members of an organization.
pub data Request : Type 0 where
  add : MemberAdd → Request
  remove : Uuid → Request

unfoldable pub handle : Uuid → Uuid → Request → Tables → Tables
handle org_id caller (add payload) t = (add_member org_id caller payload t).1
handle org_id caller (remove user_id) t = (remove_member org_id caller user_id t).1

members_write-admin :
    (role : String) → require_scope "members:write" role ≡ true → require_role "admin" role ≡ true
unfolding role_grants_scope has_role get_or
members_write-admin role h = ground (arith, h)

-- A request to add or to remove a member changes the tables only where its caller is a member of the organization with the role
-- of an administrator or a higher one.
pub handle-authorized :
    (org_id caller : Uuid) (request : Request) (t : Tables)
    → handle org_id caller request t ≢ t
    → (m : Membership) × (get_current_membership org_id caller t.memberships ≡ some m)
      × (require_role "admin" m.role ≡ true)
unfolding handle add_member remove_member add_guarded remove_guarded
handle-authorized org_id caller (add payload) t h =
    go (get_current_membership org_id caller t.memberships) refl h
  where
    go :
        (o : Option Membership)
        → get_current_membership org_id caller t.memberships ≡ o
        → (add_guarded org_id payload t o).1 ≢ t
        → (m : Membership) × (get_current_membership org_id caller t.memberships ≡ some m)
          × (require_role "admin" m.role ≡ true)
    go none e h = absurd (h refl)
    go (some m) e h = elim (Bool-cases (require_role "admin" m.role)) [
      | inl y ↦ (m, e, y)
      | inr n ↦ absurd (h (rw n refl))
    ]
handle-authorized org_id caller (remove user_id) t h =
    go (get_current_membership org_id caller t.memberships) refl h
  where
    go :
        (o : Option Membership)
        → get_current_membership org_id caller t.memberships ≡ o
        → (remove_guarded org_id user_id t o).1 ≢ t
        → (m : Membership) × (get_current_membership org_id caller t.memberships ≡ some m)
          × (require_role "admin" m.role ≡ true)
    go none e h = absurd (h refl)
    go (some m) e h = elim (Bool-cases (require_scope "members:write" m.role)) [
      | inl y ↦ (m, e, members_write-admin m.role y)
      | inr n ↦ absurd (h (rw n refl))
    ]

find_first-keep :
    (p : Membership → Bool) (ms : List Membership) → find_first p (keep (λ m. not (p m)) ms) ≡ none
find_first-keep p [] = refl
find_first-keep p (m ∷ ms) = ground (arith, find_first-keep p ms)

remove_guarded-removed :
    (org_id user_id : Uuid) (t : Tables) (o : Option Membership)
    → (remove_guarded org_id user_id t o).0 ≡ done tt
    → (remove_guarded org_id user_id t o).1.memberships
      ≡ keep (λ m. not (is_member org_id user_id m)) t.memberships
unfolding remove_guarded
remove_guarded-removed org_id user_id t none h = absurd (ground (arith, h))
remove_guarded-removed org_id user_id t (some m) h =
    go (require_scope "members:write" m.role) (any (is_member org_id user_id) t.memberships) h
  where
    kept : Tables
    kept = record t { memberships = keep (λ m. not (is_member org_id user_id m)) t.memberships }

    removed : Bool → Bool → Reply (Unit {0}) × Tables
    removed a b = if a then (if b then (done tt, kept) else (not_found, t)) else (forbidden, t)

    go :
        (a b : Bool)
        → (removed a b).0 ≡ done tt
        → (removed a b).1.memberships ≡ keep (λ m. not (is_member org_id user_id m)) t.memberships
    go true true e = refl
    go true false e = absurd (ground (arith, e))
    go false b e = absurd (ground (arith, e))

handle-outsider :
    (org_id caller : Uuid) (request : Request) (t : Tables)
    → get_current_membership org_id caller t.memberships ≡ none
    → handle org_id caller request t ≡ t
unfolding handle add_member remove_member add_guarded remove_guarded
handle-outsider org_id caller (add payload) t e = ap (λ o. (add_guarded org_id payload t o).1) e
handle-outsider org_id caller (remove user_id) t e =
    ap (λ o. (remove_guarded org_id user_id t o).1) e

-- Once a member is removed, the guard of the organization refuses the user, and no request of the
-- user to add or to remove a member changes the tables as they are then.
pub remove_member-revokes :
    (org_id caller user_id : Uuid) (t : Tables)
    → (remove_member org_id caller user_id t).0 ≡ done tt
    → (get_current_membership org_id user_id (remove_member org_id caller user_id t).1.memberships
        ≡ none)
      × ((request : Request)
          → handle org_id user_id request (remove_member org_id caller user_id t).1
            ≡ (remove_member org_id caller user_id t).1)
unfolding remove_member get_current_membership
remove_member-revokes org_id caller user_id t h =
    let o = get_current_membership org_id caller t.memberships in
    let gone =
      ap (find_first (is_member org_id user_id)) (remove_guarded-removed org_id user_id t o h)
      ∙ find_first-keep (is_member org_id user_id) t.memberships in
    (gone, λ request. handle-outsider org_id user_id request _ gone)
