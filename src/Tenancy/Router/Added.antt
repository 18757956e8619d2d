-- ===== src/Tenancy/Router/Added.antt =====
-- A member that is added, and the event that is written with it.
use python_backend_manager.Prelude.Base.{◌≡◌, ◌⊎◌, true, false, none, some, ◌∷◌, ◌==◌, any}
use python_backend_manager.Prelude.Uuid.{Uuid}
use python_backend_manager.Prelude.Bytes.{codes}
use python_backend_manager.Tenancy.Models.{Membership, Tables}
use python_backend_manager.Rbac.Permissions.{require_role}
use python_backend_manager.Webhooks.Outbox.{dispatch}
use python_backend_manager.Tenancy.Router.{
  Reply, done, forbidden, not_found, conflict, is_member, get_current_membership, MemberAdd,
  new_member,
}

-- The tables after a member is added: its row, and its event, which is the one that `dispatch` adds.
abbrev pub IsAdded : Uuid → MemberAdd → Tables → Tables → Type 0
IsAdded org_id payload t t' =
    (t'.memberships ≡ new_member org_id payload ∷ t.memberships)
    × (dispatch (codes "member.added") org_id payload.data_text payload.event_id payload.row_id
          payload.now t.outbox_events
        ≡ some t'.outbox_events)
    × (any (is_member org_id payload.user_id) t.memberships ≡ false)

-- Why a commit fails: the user is a member, there is no such user, or the event cannot be written.
abbrev pub IsRefused : Uuid → MemberAdd → Tables → Type 0
IsRefused org_id payload t =
    (any (is_member org_id payload.user_id) t.memberships ≡ true)
    ⊎ (any (λ u. u == payload.user_id) t.users ≡ false)
    ⊎ (dispatch (codes "member.added") org_id payload.data_text payload.event_id payload.row_id
          payload.now t.outbox_events
        ≡ none)

-- What a reply says: the member is answered only where it was added with its event, and the guard
-- of the organization now finds it. Any other reply leaves the tables alone, for its own reason.
abbrev pub IsAnswered : Uuid → Uuid → MemberAdd → Tables → Reply Membership × Tables → Type 0
IsAnswered org_id caller payload t (reply, t') = elim reply [
  | done m ↦
      (m ≡ new_member org_id payload)
      × IsAdded org_id payload t t'
      × (get_current_membership org_id payload.user_id t'.memberships ≡ some m)
  | not_found ↦ (t' ≡ t) × (get_current_membership org_id caller t.memberships ≡ none)
  | forbidden ↦
      (t' ≡ t)
      × ((m : Membership) × (get_current_membership org_id caller t.memberships ≡ some m)
          × (require_role "admin" m.role ≡ false))
  | conflict ↦ (t' ≡ t) × IsRefused org_id payload t
]
