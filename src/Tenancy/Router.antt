-- ===== src/Tenancy/Router.antt =====
-- The routes of tenancy/router.py.jinja and the guard of tenancy/dependencies.py, for a service with
-- roles and webhooks. `caller` is the id of the user who is logged in; the text of the data of an
-- event, its ids and the time are arguments. The audit rows, written once a change is committed, are
-- left out.
pub mod Authorized
pub mod Added
use python_backend_manager.Prelude.Base.{
  ℕ, String, Bool, not, ◌&&◌, ◌||◌, Option, none, some, List, [], ◌∷◌, ◌==◌, any, keep, find_first,
  str_eq, if◌then◌else◌,
}
use python_backend_manager.Prelude.Uuid.{Uuid, uuid_text}
use python_backend_manager.Prelude.Bytes.{CodePoints, codes}
use python_backend_manager.Tenancy.Models.{Organization, Membership, Tables}
use python_backend_manager.Rbac.Permissions.{require_role, require_scope}
use python_backend_manager.Webhooks.Models.{OutboxEvent}
use python_backend_manager.Webhooks.Outbox.{dispatch}

-- The answers of the routes; the last one stands for every error of the client by its status.
pub data Reply {ℓ} (A : Type ℓ) : Type ℓ where
  done : A → Reply A
  forbidden not_found conflict : Reply A

abbrev pub owner : String
owner = "owner"

abbrev pub is_member : Uuid → Uuid → Membership → Bool
is_member org_id user_id m = m.organization_id == org_id && m.user_id == user_id

-- `get_current_membership`: `none` is the 404. The two columns are unique together.
unfoldable pub get_current_membership : Uuid → Uuid → List Membership → Option Membership
get_current_membership org_id caller memberships = find_first (is_member org_id caller) memberships

-- INSERT INTO memberships: UNIQUE (organization_id, user_id), and the foreign key on the users.
unfoldable pub insert_membership : Membership → Tables → Option Tables
insert_membership m t =
    if any (is_member m.organization_id m.user_id) t.memberships
      || not (any (λ u. u == m.user_id) t.users)
    then none
    else some (record t { memberships = m ∷ t.memberships })

abbrev pub new_organization : String → String → Uuid → Organization
new_organization name slug id = record {
  id = id;
  name = name;
  slug = slug;
  payments_customer_id = none;
}

abbrev pub owner_of : Uuid → Uuid → Membership
owner_of id caller = record { organization_id = id; user_id = caller; role = owner }

-- The user of the session exists, and `id` is fresh: the one constraint that can fail is UNIQUE
-- (slug).
unfoldable pub create_organization :
    Uuid → String → String → Uuid → Tables → Reply Organization × Tables
create_organization caller name slug id t =
    if any (λ o. str_eq o.slug slug) t.organizations then (conflict, t) else (
      done (new_organization name slug id),
      record t {
        organizations = new_organization name slug id ∷ t.organizations;
        memberships = owner_of id caller ∷ t.memberships;
      },
    )

unfoldable pub list_members : Uuid → Uuid → Tables → Reply (List Membership)
list_members org_id caller t = elim (get_current_membership org_id caller t.memberships) [
  | none ↦ not_found
  | some m ↦ done (keep (λ m. m.organization_id == org_id) t.memberships)
]

-- What a request for a new member brings: `MemberAdd`, and the arguments of its event.
pub record MemberAdd : Type 0 where
  pub user_id : Uuid
  pub role : String
  pub data_text : String
  pub event_id : CodePoints
  pub row_id : Uuid
  pub now : ℕ

-- `dispatch` in the transaction of the INSERT: the tables with both rows, or an `IntegrityError`.
unfoldable pub dispatched : Uuid → MemberAdd → Tables → Option Tables
dispatched org_id payload t =
    elim (dispatch (codes "member.added") org_id payload.data_text payload.event_id payload.row_id
      payload.now t.outbox_events) [
        | none ↦ none
        | some events ↦ some (record t { outbox_events = events })
      ]

abbrev pub and_dispatched : Uuid → MemberAdd → Option Tables → Option Tables
and_dispatched org_id payload none = none
and_dispatched org_id payload (some t) = dispatched org_id payload t

abbrev pub new_member : Uuid → MemberAdd → Membership
new_member org_id payload = record {
  organization_id = org_id;
  user_id = payload.user_id;
  role = payload.role;
}

abbrev pub committed : Membership → Tables → Option Tables → Reply Membership × Tables
committed m t none = (conflict, t)
committed m t (some t') = (done m, t')

unfoldable pub add_guarded :
    Uuid → MemberAdd → Tables → Option Membership → Reply Membership × Tables
add_guarded org_id payload t none = (not_found, t)
add_guarded org_id payload t (some membership) =
    if require_role "admin" membership.role
    then committed (new_member org_id payload) t
        (and_dispatched org_id payload (insert_membership (new_member org_id payload) t))
    else (forbidden, t)

unfoldable pub add_member : Uuid → Uuid → MemberAdd → Tables → Reply Membership × Tables
add_member org_id caller payload t =
    add_guarded org_id payload t (get_current_membership org_id caller t.memberships)

unfoldable pub remove_guarded : Uuid → Uuid → Tables → Option Membership → Reply (Unit {0}) × Tables
remove_guarded org_id user_id t none = (not_found, t)
remove_guarded org_id user_id t (some membership) =
    if require_scope "members:write" membership.role
    then if any (is_member org_id user_id) t.memberships
      then (
        done tt,
        record t { memberships = keep (λ m. not (is_member org_id user_id m)) t.memberships },
      )
      else (not_found, t)
    else (forbidden, t)

unfoldable pub remove_member : Uuid → Uuid → Uuid → Tables → Reply (Unit {0}) × Tables
remove_member org_id caller user_id t =
    remove_guarded org_id user_id t (get_current_membership org_id caller t.memberships)
