-- ===== src/Webhooks/Tests.antt =====
-- The theorems on the webhooks at concrete events.
use open_aipoject.Prelude.{◌+◌, String, ◌≡◌, refl, true, false, none, some, List, [], ◌∷◌, map, ℕ}
use open_aipoject.Webhooks.Service.{
  StripeSubscriptionState, resolve_billing_account, apply_subscription_state,
}
use open_aipoject.Webhooks.Dispatch.{Retrieved, dispatch_event, checkout, subscription_object}
use open_aipoject.Webhooks.Delivery.{
  check_event, synchronize_event, mark_failed, commit_units, process_stripe_webhook,
}
use open_aipoject.Webhooks.Evolution.{Evolves}
use open_aipoject.Webhooks.Repeats.{process-once}
use open_aipoject.Webhooks.Failures.{IsRetryable, process-IsRetryable}
use open_aipoject.Webhooks.Histories.{commit_units-Evolves}
use open_aipoject.Webhooks.Events.{
  StripeEvent, Lifecycle, UnitOfWork, processed, duplicate, stale, receives, synchronizes, fails,
}
use open_aipoject.Webhooks.Work.{in_uow, ◌>>=◌, ◌>>◌}
use open_aipoject.Webhooks.Store.{
  Outcome, Store, create_webhook_event_if_absent, mark_webhook_event_processed,
  mark_webhook_event_failed, upsert_subscription_snapshot, processing_error, provider_error, done,
  fault,
}
use open_aipoject.Prelude.Text.{is_space, lstrip, rstrip, strip, has_prefix, lower}

abbrev sample_state : String → StripeSubscriptionState
sample_state status = record {
  subscription_id = "sub_1";
  customer_id = "cus_1";
  billing_account_id = some 7;
  price_id = "price_1";
  plan_code = "pro";
  status = status;
  current_period_start = some 100;
  current_period_end = some 200;
  cancel_at_period_end = false;
  canceled_at = none;
  trial_end = none;
  latest_invoice_id = none;
}

-- The account has no customer yet, and no event has come.
abbrev sample_store : Store ℕ
sample_store = record {
  accounts =
      record { account_id = 7; owner_type = "user"; owner_id = 3; stripe_customer_id = none } ∷ [];
  subscriptions = [];
  events = [];
  usage = 0;
}

abbrev sample_event : String → ℕ → String → StripeEvent
sample_event id created_at status = record {
  event_id = id;
  kind = "customer.subscription.updated";
  created_at = created_at;
  digest = "d1";
  object = subscription_object (done (sample_state status));
}

-- The resolution counts its calls.
abbrev counting : ℕ → ℕ → ℕ → Outcome ℕ
counting owner now n = done (n + 1)

abbrev no_gateway : String → Outcome Retrieved
no_gateway id = fault provider_error

abbrev first_delivery : Outcome Lifecycle × Store ℕ
first_delivery =
    process_stripe_webhook counting 3 [] [] [] no_gateway (sample_event "evt_1" 50 "active") 60
      sample_store

first_processed :
    (first_delivery.0 ≡ done processed)
    × (map (λ s. s.last_provider_event_at) first_delivery.1.subscriptions ≡ some 50 ∷ [])
    × (map (λ a. a.stripe_customer_id) first_delivery.1.accounts ≡ some "cus_1" ∷ [])
    × (first_delivery.1.usage ≡ 1)
unfolding process_stripe_webhook check_event synchronize_event dispatch_event
    apply_subscription_state resolve_billing_account upsert_subscription_snapshot
    create_webhook_event_if_absent mark_webhook_event_processed mark_webhook_event_failed
    mark_failed in_uow ◌>>=◌ ◌>>◌ strip lstrip rstrip is_space lower has_prefix
first_processed = (refl, refl, refl, refl)

first_done : first_delivery ≡ (done processed, first_delivery.1)
unfolding process_stripe_webhook check_event synchronize_event dispatch_event
    apply_subscription_state resolve_billing_account upsert_subscription_snapshot
    create_webhook_event_if_absent mark_webhook_event_processed mark_webhook_event_failed
    mark_failed in_uow ◌>>=◌ ◌>>◌ strip lstrip rstrip is_space lower has_prefix
first_done = refl

process-once_example :
    process_stripe_webhook counting 3 [] [] [] no_gateway
      (sample_event "evt_1" 50 "active")
      90
      (commit_units counting 3 (fails "evt_1" provider_error ∷ []) first_delivery.1)
    ≡ (done duplicate, commit_units counting 3 (fails "evt_1" provider_error ∷ []) first_delivery.1)
process-once_example =
    process-once counting 3 (sample_event "evt_1" 50 "active") [] [] [] [] [] []
      (fails "evt_1" provider_error ∷ []) no_gateway no_gateway 60 90 sample_store first_delivery.1
      processed first_done

-- An older snapshot comes late: it is stale, and the newer one stays.
late_is_stale :
    let late =
      process_stripe_webhook counting 3 [] [] [] no_gateway
        (sample_event "evt_0" 40 "past_due")
        95
        first_delivery.1 in
    (late.0 ≡ done stale) × (late.1.subscriptions ≡ first_delivery.1.subscriptions)
unfolding process_stripe_webhook check_event synchronize_event dispatch_event
    apply_subscription_state resolve_billing_account upsert_subscription_snapshot
    create_webhook_event_if_absent mark_webhook_event_processed mark_webhook_event_failed
    mark_failed in_uow ◌>>=◌ ◌>>◌ strip lstrip rstrip is_space lower has_prefix
late_is_stale = (refl, refl)

abbrev sample_units : List UnitOfWork
sample_units =
    receives (sample_event "evt_1" 50 "active")
    ∷ synchronizes (sample_event "evt_1" 50 "active") none 60
    ∷ []

commit_units-Evolves_example :
    Evolves sample_store (commit_units counting 3 sample_units sample_store)
commit_units-Evolves_example = commit_units-Evolves counting 3 sample_units sample_store

-- A checkout whose subscription cannot be retrieved.
abbrev checkout_event : StripeEvent
checkout_event = record {
  event_id = "evt_2";
  kind = "checkout.session.completed";
  created_at = 50;
  digest = "d2";
  object = checkout true "cus_1" (some 7) "sub_1";
}

abbrev failed_delivery : Outcome Lifecycle × Store ℕ
failed_delivery =
    process_stripe_webhook counting 3 [] [] [] no_gateway checkout_event 60 sample_store

failed_fault : failed_delivery ≡ (fault processing_error, failed_delivery.1)
unfolding process_stripe_webhook check_event synchronize_event dispatch_event
    apply_subscription_state resolve_billing_account upsert_subscription_snapshot
    create_webhook_event_if_absent mark_webhook_event_processed mark_webhook_event_failed
    mark_failed in_uow ◌>>=◌ ◌>>◌ strip lstrip rstrip is_space lower has_prefix
failed_fault = refl

process-IsRetryable_example : IsRetryable checkout_event sample_store failed_delivery.1
process-IsRetryable_example =
    process-IsRetryable counting 3 checkout_event no_gateway 60 sample_store failed_delivery.1
      processing_error tt failed_fault
