-- ===== src/Billing/Router/Unique.antt =====
-- The unique columns of the billing tables: one subscription row for an organization, one for an
-- id of the provider, and one row for a processed event.
use python_backend_manager.Prelude.Base.{
  String, Bool, ◌≡◌, true, false, refl, sym, Option, none, some, any, keep, find_first,
  if◌then◌else◌,
}
use mathlib.Core.Path.{subst}
use python_backend_manager.Billing.Models.{Organization, ProcessedEvent, Tables}
use python_backend_manager.Billing.Ports.{
  Result, ok, webhook_verification_error, payment_error, failed, PaymentEvent, subscription_events,
}
use python_backend_manager.Billing.Entitlements.{contains}
use python_backend_manager.Billing.Router.{
  reply, sync_subscription, sync_org, sync_found, scalar_one_or_none, upsert, clashes, owns, of_org,
}
use python_backend_manager.Billing.Router.Webhook.{
  is_processed, committed, mark_processed, synced, apply_event,
}
use python_backend_manager.Billing.Router.Rows.{Distinct, conflict, upsert-Distinct}
use python_backend_manager.Billing.Router.Replay.{synced-processed}

abbrev pub same_event : ProcessedEvent → ProcessedEvent → Bool
same_event p q = is_processed p.provider p.event_id q

abbrev pub IsUnique : Tables → Type 0
IsUnique t = Distinct conflict t.subscriptions × Distinct same_event t.processed_events

sync_org-Distinct :
    (provider : String) (event : PaymentEvent) (t : Tables) (org : Organization) {t' : Tables}
    → Distinct conflict t.subscriptions
    → sync_org provider event t org ≡ ok t'
    → Distinct conflict t'.subscriptions
unfolding sync_org
sync_org-Distinct provider event t org {t'} d h =
    let rows = upsert provider event org.id t.subscriptions in
    go (clashes (find_first (of_org org.id) rows) rows) refl h
  where
    taken :
        (u : Tables)
        → ok (record t { subscriptions = upsert provider event org.id t.subscriptions }) ≡ ok u
        → upsert provider event org.id t.subscriptions ≡ u.subscriptions
    taken u e = cc

    go :
        (b : Bool)
        → clashes
            (find_first (of_org org.id) (upsert provider event org.id t.subscriptions))
            (upsert provider event org.id t.subscriptions)
          ≡ b
        → (if b
            then failed
            else ok (record t { subscriptions = upsert provider event org.id t.subscriptions }))
          ≡ ok t'
        → Distinct conflict t'.subscriptions
    go true c e = cc
    go false c e = rw (← taken t' e) (upsert-Distinct provider event org.id t.subscriptions d c)

synced-Distinct :
    (provider : String) (event : PaymentEvent) (t : Tables) {t' : Tables}
    → Distinct conflict t.subscriptions
    → synced provider event t ≡ ok t'
    → Distinct conflict t'.subscriptions
unfolding synced sync_subscription sync_found
synced-Distinct provider event t {t'} d h =
    go (contains subscription_events event.event_type)
      (scalar_one_or_none (keep (owns event.customer_ref) t.organizations)) h
  where
    same : (u : Tables) → ok t ≡ ok u → Distinct conflict u.subscriptions
    same u e = subst (λ (v : Tables). Distinct conflict v.subscriptions) {x = t} {y = u} (cc) d

    go :
        (b : Bool) (r : Result (Option Organization))
        → (if b then sync_found provider event t r else ok t) ≡ ok t'
        → Distinct conflict t'.subscriptions
    go true (ok none) e = same t' e
    go true (ok (some org)) e = sync_org-Distinct provider event t org d e
    go true webhook_verification_error e = cc
    go true payment_error e = cc
    go true failed e = cc
    go false r e = same t' e

-- The unique columns stay unique: where no two subscriptions share their organization or their
-- provider's id and no two processed events share their provider and id, none do after an event
-- is handled, whatever it is answered.
pub apply_event-IsUnique :
    (provider : String) (event : PaymentEvent) (t : Tables)
    → IsUnique t
    → IsUnique (apply_event provider event t).1
unfolding apply_event
apply_event-IsUnique provider event t u =
    go (any (is_processed provider event.event_id) t.processed_events) refl
      (synced provider event (mark_processed provider event t)) refl
  where
    go :
        (b : Bool)
        → any (is_processed provider event.event_id) t.processed_events ≡ b
        → (r : Result Tables) → synced provider event (mark_processed provider event t) ≡ r
        → IsUnique (if b then (reply "duplicate", t) else committed t r).1
    go true n r e = u
    go false n (ok t') e = (
      synced-Distinct provider event (mark_processed provider event t) u.0 e,
      subst (Distinct same_event)
          (sym (synced-processed provider event (mark_processed provider event t) e)) (n, u.1),
    )
    go false n webhook_verification_error e = u
    go false n payment_error e = u
    go false n failed e = u
