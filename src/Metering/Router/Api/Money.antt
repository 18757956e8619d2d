-- ===== src/Metering/Router/Api/Money.antt =====
-- Who moves money: the routes of metering/router.py.jinja that write, taken together.
use python_backend_manager.Prelude.Base.{
  ℕ, String, ◌≡◌, refl, ◌⊎◌, inl, inr, true, Option, none, some, List, arith, Bool-cases,
}
use python_backend_manager.Prelude.Int.{ℤ, pos, negsuc}
use python_backend_manager.Prelude.Uuid.{Uuid}
use python_backend_manager.Tenancy.Models.{Membership}
use python_backend_manager.Tenancy.Router.{get_current_membership}
use python_backend_manager.Rbac.Permissions.{require_role}
use python_backend_manager.Billing.Models.{Subscription}
use python_backend_manager.Metering.Models.{Tables, insert_event}
use python_backend_manager.Metering.Usage.{record_usage}
use python_backend_manager.Metering.Router.Api.{
  UsageRecord, WalletTopUp, Reply, for_member, for_admin, recorded, record_usage_route,
  top_up_wallet, close_invoice_route,
}

-- A request that writes, with its times, the fresh UUIDs, and what it has read before.
pub data MeteringRequest : Type 0 where
  usage : UsageRecord → ℕ → MeteringRequest
  topup : WalletTopUp → Uuid → Uuid → Tables → MeteringRequest
  close : List Subscription → Uuid → ℕ → ℕ → ℕ → MeteringRequest

unfoldable pub handle : Uuid → Uuid → List Membership → MeteringRequest → Tables → Tables
handle org caller memberships (usage payload now) t =
    (record_usage_route org caller payload now memberships t).1
handle org caller memberships (topup payload id id' seen) t =
    (top_up_wallet org caller payload id id' memberships seen t).1
handle org caller memberships (close subscriptions id now inserted later) t =
    (close_invoice_route org caller subscriptions id now inserted later memberships t).1

-- Two states of the tables with the same invoices, wallets and transactions.
abbrev pub SameMoney : Tables → Tables → Type 0
SameMoney t t' =
    (t'.invoices ≡ t.invoices)
    × (t'.customer_wallets ≡ t.customer_wallets)
    × (t'.wallet_transactions ≡ t.wallet_transactions)

-- The caller has the role of an administrator or a higher one in the organization.
abbrev pub IsAdmin : Option Membership → Type 0
IsAdmin membership = (m : Membership) × (membership ≡ some m) × (require_role "admin" m.role ≡ true)

record_usage-SameMoney :
    (org : Uuid) (meter : String) (quantity : ℕ) (key : String) (now : ℕ) (t : Tables)
    → SameMoney t (record_usage org meter quantity key now t).1
unfolding record_usage insert_event
record_usage-SameMoney org meter quantity key now t = ground arith

recorded-SameMoney :
    (org : Uuid) (meter : String) (quantity : ℤ) (key : String) (now : ℕ) (t : Tables)
    → SameMoney t (recorded org meter quantity key now t).1
unfolding recorded record_usage insert_event
recorded-SameMoney org meter (negsuc n) key now t = (refl, refl, refl)
recorded-SameMoney org meter (pos quantity) key now t = ground arith

for_member-SameMoney :
    {A : Type 0} (t : Tables) (membership : Option Membership) (run : Reply A × Tables)
    → SameMoney t run.1
    → SameMoney t (for_member t membership run).1
unfolding for_member
for_member-SameMoney t none run h = (refl, refl, refl)
for_member-SameMoney t (some m) run h = h

for_admin-IsAdmin :
    {A : Type 0} (t : Tables) (membership : Option Membership) (run : Reply A × Tables)
    → ((for_admin t membership run).1 ≡ t) ⊎ IsAdmin membership
unfolding for_admin
for_admin-IsAdmin t none run = inl refl
for_admin-IsAdmin t (some m) run = elim (Bool-cases (require_role "admin" m.role)) [
  | inl admin ↦ inr (m, refl, admin)
  | inr refused ↦ inl (rw refused refl)
]

same_or : {P : Type 0} (t t' : Tables) → (t' ≡ t) ⊎ P → SameMoney t t' ⊎ P
same_or t t' (inl e) = inl (rw e (refl, refl, refl))
same_or t t' (inr p) = inr p

-- A request to the metering of an organization leaves its invoices, wallets and wallet transactions,
-- and those of every other one, as they were, or its caller has the role of an administrator or a
-- higher one there: a member without it records usage, and moves no money.
pub handle-SameMoney :
    (org caller : Uuid) (memberships : List Membership) (request : MeteringRequest) (t : Tables)
    → SameMoney t (handle org caller memberships request t)
      ⊎ IsAdmin (get_current_membership org caller memberships)
unfolding handle record_usage_route top_up_wallet close_invoice_route
handle-SameMoney org caller memberships (usage payload now) t = inl (
    for_member-SameMoney t _ _
      (recorded-SameMoney org payload.meter payload.quantity payload.idempotency_key now t))
handle-SameMoney org caller memberships (topup payload id id' seen) t =
    same_or t _ (for_admin-IsAdmin t _ _)
handle-SameMoney org caller memberships (close subscriptions id now inserted later) t =
    same_or t _ (for_admin-IsAdmin t _ _)
