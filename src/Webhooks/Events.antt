-- ===== src/Webhooks/Events.antt =====
-- server/billing/webhook_service.py: the verified events, what is retrieved for them, and the units
-- of work that deliveries commit.
use open_aipoject.Prelude.{
  String, Bool, true, false, ◌||◌, Option, some, ◌∷◌, str_eq, if◌then◌else◌, [], none, ℕ, any,
}
use open_aipoject.Webhooks.Service.{Applied, was_applied, was_stale}
use open_aipoject.Webhooks.Dispatch.{Retrieved, EventObject, checkout, invoice}
use open_aipoject.Webhooks.Store.{
  Fault, Outcome, EventStatus, processing_error, done, fault, configuration_error, provider_error,
  event_received, event_processed, event_ignored, event_failed, value_error,
}

-- A verified event, with the digest of its payload.
pub record StripeEvent : Type 0 where
  pub event_id : String
  pub kind : String
  pub created_at : ℕ
  pub digest : String
  pub object : EventObject

-- The `outcome` of a `WebhookLifecycleResult`.
pub data Lifecycle : Type 0 where
  processed ignored duplicate stale : Lifecycle

-- `_REQUIRED_EVENT_TYPES`
abbrev pub is_required : String → Bool
is_required event_type =
    any (λ t. str_eq t event_type)
      ("checkout.session.completed" ∷ "customer.subscription.created"
        ∷ "customer.subscription.updated" ∷ "customer.subscription.deleted" ∷ "invoice.paid"
        ∷ "invoice.payment_failed" ∷ [])

-- `_TERMINAL_EVENT_STATUSES`
abbrev pub is_terminal : EventStatus → Bool
is_terminal event_received = false
is_terminal event_failed = false
is_terminal event_processed = true
is_terminal event_ignored = true

abbrev pub retrieve_mode : Bool → Outcome Retrieved → Outcome (Option Retrieved)
retrieve_mode false answer = fault processing_error
retrieve_mode true (done r) = done (some r)
retrieve_mode true (fault f) = fault f

abbrev pub retrieve_invoice :
    (String → Outcome Retrieved) → Option String → Outcome (Option Retrieved)
retrieve_invoice gateway none = fault processing_error
retrieve_invoice gateway (some id) = retrieve_mode true (gateway id)

abbrev pub retrieve_checkout_object :
    (String → Outcome Retrieved) → EventObject → Outcome (Option Retrieved)
retrieve_checkout_object gateway (checkout mode customer account subscription) =
    retrieve_mode mode (gateway subscription)
retrieve_checkout_object gateway _ = fault processing_error

abbrev pub retrieve_invoice_object :
    (String → Outcome Retrieved) → EventObject → Outcome (Option Retrieved)
retrieve_invoice_object gateway (invoice id subscription customer) =
    retrieve_invoice gateway subscription
retrieve_invoice_object gateway _ = fault processing_error

-- `_retrieve_event_subscription`
abbrev pub retrieve_event_subscription :
    (String → Outcome Retrieved) → String → EventObject → Outcome (Option Retrieved)
retrieve_event_subscription gateway event_type object =
    if str_eq event_type "checkout.session.completed"
    then retrieve_checkout_object gateway object
    else if str_eq event_type "invoice.paid" || str_eq event_type "invoice.payment_failed"
    then retrieve_invoice_object gateway object
    else done none

-- The `error_code` of an exception, and the exception that is raised in its place.
abbrev pub error_code : Fault → String
error_code provider_error = "provider_unavailable"
error_code _ = "lifecycle_synchronization_failed"

abbrev pub reraised : Fault → Fault
reraised configuration_error = configuration_error
reraised _ = processing_error

-- `except ValueError` around the first unit of work.
abbrev pub as_conflict : Fault → Fault
as_conflict value_error = processing_error
as_conflict f = f

abbrev pub lifecycle_of : Applied → Lifecycle
lifecycle_of was_applied = processed
lifecycle_of was_stale = stale

-- A unit of work of any delivery, and what it commits.
pub data UnitOfWork : Type 0 where
  receives : StripeEvent → UnitOfWork
  checks : StripeEvent → UnitOfWork
  synchronizes : StripeEvent → Option Retrieved → ℕ → UnitOfWork
  fails : String → Fault → UnitOfWork
