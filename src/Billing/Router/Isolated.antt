-- ===== src/Billing/Router/Isolated.antt =====
-- The organizations that a webhook leaves alone.
use python_backend_manager.Prelude.Base.{
  String, Bool, ◌≡◌, ◌≢◌, true, false, ◌&&◌, refl, ap, ◌∙◌, List, [], ◌∷◌, ◌==◌, any, keep,
  find_first, arith, if◌then◌else◌,
}
use python_backend_manager.Prelude.Uuid.{Uuid}
use python_backend_manager.Billing.Models.{Organization, Tables}
use python_backend_manager.Billing.Ports.{
  Result, ok, webhook_verification_error, payment_error, failed, PaymentEvent, subscription_events,
}
use python_backend_manager.Billing.Entitlements.{contains, find_subscription}
use python_backend_manager.Billing.Router.{
  reply, sync_subscription, scalar_one_or_none, sync_org, sync_found, owns, of_org,
}
use python_backend_manager.Billing.Router.Webhook.{
  is_processed, committed, mark_processed, synced, apply_event,
}
use python_backend_manager.Billing.Router.Entitled.{sync_org-subscriptions, find_first-upsert_other}

any-keep :
    (p q : Organization → Bool) (os : List Organization)
    → any q (keep p os) ≡ any (λ o. p o && q o) os
any-keep p q [] = refl
any-keep p q (o ∷ os) = ground (arith, any-keep p q os)

sync_org-other :
    (provider : String) (event : PaymentEvent) (t : Tables) (org : Organization) (other : Uuid)
    {t' : Tables}
    → sync_org provider event t org ≡ ok t'
    → other ≢ org.id
    → find_subscription other t'.subscriptions ≡ find_subscription other t.subscriptions
unfolding find_subscription
sync_org-other provider event t org other {t'} h ne =
    ap (find_first (of_org other)) (sync_org-subscriptions provider event t org h)
    ∙ find_first-upsert_other provider event org.id other t.subscriptions ne

sync_found-other :
    (provider : String) (event : PaymentEvent) (t : Tables) (os : List Organization) (other : Uuid)
    {t' : Tables}
    → sync_found provider event t (scalar_one_or_none os) ≡ ok t'
    → any (λ o. o.id == other) os ≡ false
    → find_subscription other t'.subscriptions ≡ find_subscription other t.subscriptions
unfolding sync_found
sync_found-other provider event t [] other h a = cc
sync_found-other provider event t (o ∷ []) other h a =
    sync_org-other provider event t o other h (ground (arith, a))
sync_found-other provider event t (o ∷ p ∷ os) other h a = cc

synced-other :
    (provider : String) (event : PaymentEvent) (t : Tables) (other : Uuid) {t' : Tables}
    → any (λ o. owns event.customer_ref o && o.id == other) t.organizations ≡ false
    → synced provider event t ≡ ok t'
    → find_subscription other t'.subscriptions ≡ find_subscription other t.subscriptions
unfolding synced sync_subscription
synced-other provider event t other {t'} a h = go (contains subscription_events event.event_type) h
  where
    go :
        (b : Bool)
        → (if b
            then sync_found provider event t
                (scalar_one_or_none (keep (owns event.customer_ref) t.organizations))
            else ok t)
          ≡ ok t'
        → find_subscription other t'.subscriptions ≡ find_subscription other t.subscriptions
    go true e = sync_found-other provider event t _ other e (any-keep _ _ t.organizations ∙ a)
    go false e = cc

-- A webhook leaves the subscription of every organization but the customer of its event as it is,
-- whatever the request is answered: an organization whose customer id is not the one that the
-- event names has the same subscription row after it as before.
pub apply_event-isolated :
    (provider : String) (event : PaymentEvent) (t : Tables) (other : Uuid)
    → any (λ o. owns event.customer_ref o && o.id == other) t.organizations ≡ false
    → find_subscription other (apply_event provider event t).1.subscriptions
      ≡ find_subscription other t.subscriptions
unfolding apply_event
apply_event-isolated provider event t other a =
    go (any (is_processed provider event.event_id) t.processed_events)
      (synced provider event (mark_processed provider event t)) refl
  where
    go :
        (b : Bool) (r : Result Tables)
        → synced provider event (mark_processed provider event t) ≡ r
        → find_subscription other
            (if b then (reply "duplicate", t) else committed t r).1.subscriptions
          ≡ find_subscription other t.subscriptions
    go true r e = refl
    go false (ok t') e = synced-other provider event (mark_processed provider event t) other a e
    go false webhook_verification_error e = refl
    go false payment_error e = refl
    go false failed e = refl
