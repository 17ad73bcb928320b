-- ===== src/Webhooks/Dispatch.antt =====
-- server/billing/webhook_service.py: what the object of an event, or the subscription retrieved for
-- it, changes. `malformed` is an object that the parsing refuses.
use open_aipoject.Prelude.{String, Bool, true, Option, none, some, str_eq, if◌then◌else◌, ℕ}
use open_aipoject.Webhooks.Service.{
  StripeSubscriptionState, Applied, resolve_billing_account, apply_subscription_state,
}
use open_aipoject.Webhooks.Work.{◌>>=◌, ◌>>◌, Work, raise, lift, or_raise, require}
use open_aipoject.Webhooks.Store.{Outcome, processing_error}
use open_aipoject.Prelude.Text.{has_prefix}

-- A subscription that the gateway returns: its id, and its state if it parses.
pub record Retrieved : Type 0 where
  pub retrieved_id : String
  pub parsed : Outcome StripeSubscriptionState

pub data EventObject : Type 0 where
  checkout :
      (is_subscription : Bool) (customer : String) (account : Option ℕ) (subscription : String)
      → EventObject
  subscription_object : Outcome StripeSubscriptionState → EventObject
  invoice :
      (invoice_id : String) (subscription : Option String) (customer : Option String) → EventObject
  malformed : EventObject

module _ {U : Type 0} (resolve : ℕ → ℕ → U → Outcome U) (grace : ℕ) where
  abbrev pub default_account : StripeSubscriptionState → Option ℕ → StripeSubscriptionState
  default_account state account = elim state.billing_account_id [
    | none ↦ record state { billing_account_id = account }
    | some id ↦ state
  ]

  -- `_process_checkout_completed`
  abbrev pub process_checkout_completed :
      Bool → String → Option ℕ → String → Retrieved → ℕ → Work U Applied
  process_checkout_completed is_subscription customer account subscription retrieved effective_at =
      do
        require is_subscription processing_error
        resolve_billing_account resolve grace account customer
        require (str_eq retrieved.retrieved_id subscription) processing_error
        state ← lift retrieved.parsed
        require (str_eq state.customer_id customer) processing_error
        apply_subscription_state resolve grace (default_account state account) effective_at
            effective_at none none

  -- A deleted subscription is canceled, whatever its status says.
  abbrev pub with_deletion : String → StripeSubscriptionState → StripeSubscriptionState
  with_deletion event_type state =
      if str_eq event_type "customer.subscription.deleted"
      then record state { status = "canceled" }
      else state

  abbrev pub matches_customer : Option String → String → Bool
  matches_customer none customer_id = true
  matches_customer (some c) customer_id = str_eq c customer_id

  abbrev pub failed_payment : String → ℕ → Option ℕ
  failed_payment event_type created_at =
      if str_eq event_type "invoice.payment_failed" then some created_at else none

  -- `_process_invoice_event`
  abbrev pub process_invoice_event :
      String → String → Option String → Option String → Retrieved → ℕ → ℕ → Work U Applied
  process_invoice_event event_type invoice_id subscription customer retrieved created_at
        effective_at =
      do
        subscription_id ← or_raise processing_error subscription
        require (str_eq retrieved.retrieved_id subscription_id) processing_error
        state ← lift retrieved.parsed
        require (matches_customer customer state.customer_id) processing_error
        apply_subscription_state resolve grace state created_at effective_at (some invoice_id)
            (failed_payment event_type created_at)

  abbrev pub dispatch_checkout : EventObject → Option Retrieved → ℕ → Work U Applied
  dispatch_checkout (checkout mode customer account subscription) (some retrieved) effective_at =
      process_checkout_completed mode customer account subscription retrieved effective_at
  dispatch_checkout _ _ effective_at = raise processing_error

  -- `_process_subscription_event`
  abbrev pub process_subscription_event :
      String → Outcome StripeSubscriptionState → ℕ → ℕ → Work U Applied
  process_subscription_event event_type parsed created_at effective_at = do
    state ← lift parsed
    apply_subscription_state resolve grace (with_deletion event_type state) created_at effective_at
        none none

  abbrev pub dispatch_subscription : String → EventObject → ℕ → ℕ → Work U Applied
  dispatch_subscription event_type (subscription_object parsed) created_at effective_at =
      process_subscription_event event_type parsed created_at effective_at
  dispatch_subscription event_type _ created_at effective_at = raise processing_error

  abbrev pub dispatch_invoice : String → EventObject → Option Retrieved → ℕ → ℕ → Work U Applied
  dispatch_invoice event_type (invoice id subscription customer) (some retrieved) created_at
        effective_at =
      process_invoice_event event_type id subscription customer retrieved created_at effective_at
  dispatch_invoice event_type _ _ created_at effective_at = raise processing_error

  -- `_dispatch_event`
  unfoldable pub dispatch_event : String → EventObject → ℕ → Option Retrieved → ℕ → Work U Applied
  dispatch_event event_type object created_at retrieved effective_at =
      if str_eq event_type "checkout.session.completed"
      then dispatch_checkout object retrieved effective_at
      else if has_prefix "customer.subscription." event_type
      then dispatch_subscription event_type object created_at effective_at
      else dispatch_invoice event_type object retrieved created_at effective_at
