-- ===== src/Billing/Router/Entitled.antt =====
-- What a webhook does to the entitlements of the organizations.
use python_backend_manager.Prelude.Base.{
  String, ◌≡◌, ◌≢◌, true, false, refl, sym, ap, ◌∙◌, Option, none, some, List, [], ◌∷◌, keep,
  find_first, update_where, arith, eq_iff, if◌then◌else◌,
}
use python_backend_manager.Prelude.Uuid.{Uuid}
use python_backend_manager.Billing.Models.{Organization, Subscription, Tables}
use python_backend_manager.Billing.Ports.{ok, PaymentEvent, subscription_events, or_text}
use python_backend_manager.Billing.Entitlements.{
  contains, active_statuses, free_plan, find_subscription, plan_has_feature, active_plan,
  require_feature,
}
use python_backend_manager.Billing.Router.{
  reply, sync_subscription, scalar_one_or_none, sync_org, sync_found, upsert, owns, of_org,
  new_subscription, updated,
}
use python_backend_manager.Billing.Router.Webhook.{mark_processed, synced, apply_event}
use python_backend_manager.Billing.Router.Replay.{apply_event-ok}

find_first-update_where :
    (org : Uuid) (f : Subscription → Subscription) (rows : List Subscription) {s : Subscription}
    → ((r : Subscription) → (f r).organization_id ≡ r.organization_id)
    → find_first (of_org org) rows ≡ some s
    → find_first (of_org org) (update_where (of_org org) f rows) ≡ some (f s)
find_first-update_where org f [] k h = cc
find_first-update_where org f (r ∷ rows) {s} k h =
    ground (arith, h, k r, find_first-update_where org f rows {s = s} k)

-- The row of an organization once an event of it is synced.
abbrev pub row_after : String → PaymentEvent → Uuid → Option Subscription → Subscription
row_after provider event org none = new_subscription provider event org
row_after provider event org (some s) = updated provider event s

pub find_first-upsert :
    (provider : String) (event : PaymentEvent) (org : Uuid) (rows : List Subscription)
    → find_first (of_org org) (upsert provider event org rows)
      ≡ some (row_after provider event org (find_first (of_org org) rows))
unfolding upsert
find_first-upsert provider event org rows = go (find_first (of_org org) rows) refl
  where
    go :
        (o : Option Subscription)
        → find_first (of_org org) rows ≡ o
        → find_first (of_org org) (elim o [
          | none ↦ new_subscription provider event org ∷ rows
          | some s ↦ update_where (of_org org) (updated provider event) rows
        ])
          ≡ some (row_after provider event org o)
    go none e = ground arith
    go (some s) e = find_first-update_where org (updated provider event) rows (λ r. refl) e

pub find_first-upsert_other :
    (provider : String) (event : PaymentEvent) (org other : Uuid) (rows : List Subscription)
    → other ≢ org
    → find_first (of_org other) (upsert provider event org rows) ≡ find_first (of_org other) rows
unfolding upsert
find_first-upsert_other provider event org other rows ne = go (find_first (of_org org) rows)
  where
    kept :
        (rs : List Subscription)
        → find_first (of_org other) (update_where (of_org org) (updated provider event) rs)
          ≡ find_first (of_org other) rs
    kept [] = refl
    kept (r ∷ rs) = ground (arith, ne, kept rs)

    go :
        (o : Option Subscription)
        → find_first (of_org other) (elim o [
          | none ↦ new_subscription provider event org ∷ rows
          | some s ↦ update_where (of_org org) (updated provider event) rows
        ])
          ≡ find_first (of_org other) rows
    go none = ground (arith, ne)
    go (some s) = kept rows

pub sync_org-subscriptions :
    (provider : String) (event : PaymentEvent) (t : Tables) (org : Organization) {t' : Tables}
    → sync_org provider event t org ≡ ok t'
    → t'.subscriptions ≡ upsert provider event org.id t.subscriptions
unfolding sync_org
sync_org-subscriptions provider event t org {t'} h = grind arith

-- The subscriptions after a subscription event of a known customer that is committed.
apply_event-subscriptions :
    (provider : String) (event : PaymentEvent) (t : Tables) (org : Organization)
    → keep (owns event.customer_ref) t.organizations ≡ org ∷ []
    → contains subscription_events event.event_type ≡ true
    → (apply_event provider event t).0 ≡ reply "ok"
    → (apply_event provider event t).1.subscriptions ≡ upsert provider event org.id t.subscriptions
unfolding synced sync_subscription sync_found
apply_event-subscriptions provider event t org one lifecycle answered =
    let (t', s, e) = apply_event-ok provider event t answered in
    ap (λ r. r.1.subscriptions) e
    ∙ sync_org-subscriptions provider event (mark_processed provider event t) org {t' = t'} (
        sym (
          ap
            (λ os.
              sync_found provider event (mark_processed provider event t) (scalar_one_or_none os))
            one)
        ∙ grind (arith, s, lifecycle))

or_text-set :
    (field : Option String) (t default : String)
    → field ≡ some t
    → t ≢ ""
    → or_text field default ≡ t
or_text-set field t default f ne = ground (arith, f, eq_iff t "")

plan_after :
    (provider : String) (event : PaymentEvent) (org : Uuid) (status plan : String)
    → event.status ≡ some status
    → event.plan ≡ some plan
    → status ≢ ""
    → plan ≢ ""
    → (old : Option Subscription)
    → active_plan free_plan (some (row_after provider event org old))
      ≡ (if contains active_statuses status then plan else free_plan)
unfolding active_plan
plan_after provider event org status plan st pl s≠ p≠ none =
    rw (or_text-set event.status status "" st s≠, or_text-set event.plan plan free_plan pl p≠) refl
plan_after provider event org status plan st pl s≠ p≠ (some s) =
    rw (or_text-set event.status status s.status st s≠, or_text-set event.plan plan s.plan pl p≠)
      refl

-- After a subscription event that is answered "ok", the organization of the customer has the
-- features of the event's plan where the event's status is active or trialing, and those of the
-- free plan where it is not. The status and the plan of the event are not empty.
pub apply_event-entitles :
    (provider : String) (event : PaymentEvent) (t : Tables) (org : Organization)
    (status plan feature : String)
    → keep (owns event.customer_ref) t.organizations ≡ org ∷ []
    → contains subscription_events event.event_type ≡ true
    → event.status ≡ some status
    → event.plan ≡ some plan
    → status ≢ ""
    → plan ≢ ""
    → (apply_event provider event t).0 ≡ reply "ok"
    → require_feature feature org.id (apply_event provider event t).1.subscriptions
      ≡ plan_has_feature
          (some (if contains active_statuses status then plan else free_plan))
          feature
unfolding require_feature find_subscription active_plan
apply_event-entitles provider event t org status plan feature one lifecycle st pl s≠ p≠ answered =
    ap
      (λ rows.
        plan_has_feature (some (active_plan free_plan (find_first (of_org org.id) rows))) feature)
      (apply_event-subscriptions provider event t org one lifecycle answered)
    ∙ ap (λ r. plan_has_feature (some (active_plan free_plan r)) feature)
        (find_first-upsert provider event org.id t.subscriptions)
    ∙ ap (λ p. plan_has_feature (some p) feature)
        (plan_after provider event org.id status plan st pl s≠ p≠
          (find_first (of_org org.id) t.subscriptions))

inactive_after :
    (provider : String) (event : PaymentEvent) (org : Uuid) (status : String)
    → event.status ≡ some status
    → status ≢ ""
    → contains active_statuses status ≡ false
    → (old : Option Subscription)
    → active_plan free_plan (some (row_after provider event org old)) ≡ free_plan
unfolding active_plan
inactive_after provider event org status st s≠ inactive none =
    rw (or_text-set event.status status "" st s≠, inactive) refl
inactive_after provider event org status st s≠ inactive (some s) =
    rw (or_text-set event.status status s.status st s≠, inactive) refl

-- After a subscription event whose status is set and is neither active nor trialing, and that is
-- answered "ok", the organization of the customer has the features of the free plan, whatever
-- plan the event names.
pub apply_event-revokes :
    (provider : String) (event : PaymentEvent) (t : Tables) (org : Organization)
    (status feature : String)
    → keep (owns event.customer_ref) t.organizations ≡ org ∷ []
    → contains subscription_events event.event_type ≡ true
    → event.status ≡ some status
    → status ≢ ""
    → contains active_statuses status ≡ false
    → (apply_event provider event t).0 ≡ reply "ok"
    → require_feature feature org.id (apply_event provider event t).1.subscriptions
      ≡ plan_has_feature (some free_plan) feature
unfolding require_feature find_subscription
apply_event-revokes provider event t org status feature one lifecycle st s≠ inactive answered =
    ap
      (λ rows.
        plan_has_feature (some (active_plan free_plan (find_first (of_org org.id) rows))) feature)
      (apply_event-subscriptions provider event t org one lifecycle answered)
    ∙ ap (λ r. plan_has_feature (some (active_plan free_plan r)) feature)
        (find_first-upsert provider event org.id t.subscriptions)
    ∙ ap (λ p. plan_has_feature (some p) feature)
        (inactive_after provider event org.id status st s≠ inactive
          (find_first (of_org org.id) t.subscriptions))
