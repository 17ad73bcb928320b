-- ===== src/Webhooks/Rules.antt =====
-- What every write keeps, the code of the service keeps: a relation between the tables before and
-- after is followed through the code.
use open_aipoject.Prelude.{
  String, ◌≡◌, Bool, true, false, Option, some, str_eq, none, ℕ, refl, if◌then◌else◌,
}
use open_aipoject.Webhooks.Work.{
  Work, pure, or_raise, in_uow, continue_with, ◌>>=◌, ◌>>◌, require, committed,
}
use open_aipoject.Webhooks.Store.{
  Fault, Outcome, Account, Subscription, Store, processing_error, done, fault, is_customer,
}
use open_aipoject.Prelude.Text.{has_prefix}
use open_aipoject.Webhooks.Service.{
  StripeSubscriptionState, Applied, claim_stripe_customer_id, verified_customer,
  resolve_billing_account, is_outdated, snapshot_of, upsert, resolved, unless_stale,
  apply_subscription_state, checked_customer,
}
use open_aipoject.Webhooks.Dispatch.{
  Retrieved, EventObject, dispatch_checkout, dispatch_subscription, dispatch_invoice,
  dispatch_event, subscription_object, malformed, checkout, invoice,
}

module _ {U : Type 0} (R : Store U → Store U → Type 0) (same : (s : Store U) → R s s)
    (trans : (s t u : Store U) → R s t → R t u → R s u) where
  abbrev pub Keeps : {A : Type 0} → Work U A → Type 0
  Keeps m = (s : Store U) → R s (m s).1

  continue_with-Keeps :
      {A B : Type 0} (s : Store U) (o : Outcome A × Store U) (f : A → Work U B)
      → R s o.1
      → ((a : A) → Keeps (f a))
      → R s (continue_with o f).1
  continue_with-Keeps s (done a, t) f h k = trans s t (f a t).1 h (k a t)
  continue_with-Keeps s (fault e, t) f h k = h

  pub bind-Keeps :
      {A B : Type 0} (m : Work U A) (f : A → Work U B)
      → Keeps m
      → ((a : A) → Keeps (f a))
      → Keeps (m >>= f)
  unfolding ◌>>=◌
  bind-Keeps m f h k s = continue_with-Keeps s (m s) f (h s) k

  pub then-Keeps : {A B : Type 0} (m : Work U A) (k : Work U B) → Keeps m → Keeps k → Keeps (m >> k)
  unfolding ◌>>◌
  then-Keeps m k h g = bind-Keeps m (λ _. k) h (λ _. g)

  pub require-Keeps : (b : Bool) (f : Fault) → Keeps (require b f)
  require-Keeps true f s = same s
  require-Keeps false f s = same s

  pub or_raise-Keeps : {A : Type 0} (f : Fault) (o : Option A) → Keeps (or_raise f o)
  or_raise-Keeps f none s = same s
  or_raise-Keeps f (some a) s = same s

  committed-Keeps :
      {A : Type 0} (s : Store U) (o : Outcome A × Store U) → R s o.1 → R s (committed s o).1
  committed-Keeps s (done a, t) h = h
  committed-Keeps s (fault f, t) h = same s

  pub in_uow-Keeps : {A : Type 0} (m : Work U A) → Keeps m → Keeps (in_uow m)
  unfolding in_uow
  in_uow-Keeps m h s = committed-Keeps s (m s) (h s)

  pub either-Keeps :
      {A : Type 0} (b : Bool) (m k : Work U A) → Keeps m → Keeps k → Keeps (if b then m else k)
  either-Keeps true m k h g = h
  either-Keeps false m k h g = g

  -- The three writes of the service: the customer of an account, a snapshot with the time that it
  -- was taken at, and what the resolution of the subscription writes.
  module _ (resolve : ℕ → ℕ → U → Outcome U) (grace : ℕ)
      (claim : (account : Account) (customer_id : String)
        → Keeps (claim_stripe_customer_id resolve grace account customer_id))
      (write : (snapshot : Subscription) (at : ℕ)
        → snapshot.last_provider_event_at ≡ some at
        → Keeps (upsert resolve grace snapshot at))
      (use_period : (s : Store U) (usage : U) → R s (record s { usage = usage })) where
    resolve_billing_account-Keeps :
        (id : Option ℕ) (customer_id : String)
        → Keeps (resolve_billing_account resolve grace id customer_id)
    unfolding resolve_billing_account
    resolve_billing_account-Keeps id customer_id = bind-Keeps _ _ same (λ by_id.
        bind-Keeps _ _ same (λ by_customer. then-Keeps _ _ (require-Keeps _ _) (
          then-Keeps _ _ (require-Keeps _ _) (
            bind-Keeps _ _ (or_raise-Keeps _ _) (λ account.
              then-Keeps _ _ (require-Keeps _ _) (verified account account.stripe_customer_id))))))
      where
        checked : (account : Account) → Keeps (checked_customer resolve grace customer_id account)
        checked account =
            then-Keeps
              (require (is_customer customer_id account.stripe_customer_id) processing_error)
              (pure account) (require-Keeps _ _) same

        verified :
            (account : Account) (o : Option String)
            → Keeps (verified_customer resolve grace account customer_id o)
        verified account none = bind-Keeps _ _ (claim account customer_id) checked
        verified account (some persisted) = checked account

    unless_stale-Keeps :
        (b : Bool) (m : Work U Applied) → Keeps m → Keeps (unless_stale resolve grace b m)
    unless_stale-Keeps true m h = same
    unless_stale-Keeps false m h = h

    resolved-Keeps : (s : Store U) (o : Outcome U) → R s (resolved resolve grace s o).1
    resolved-Keeps s (done usage) = use_period s usage
    resolved-Keeps s (fault f) = same s

    pub apply-Keeps :
        (state : StripeSubscriptionState) (observed_at effective_at : ℕ)
        (invoice_id : Option String) (payment_failed_at : Option ℕ)
        → Keeps (
            apply_subscription_state resolve grace state observed_at effective_at invoice_id
              payment_failed_at)
    unfolding apply_subscription_state
    apply-Keeps state observed_at effective_at invoice_id payment_failed_at =
        bind-Keeps _ _ (resolve_billing_account-Keeps state.billing_account_id state.customer_id)
          (λ account. bind-Keeps _ _ same (λ existing. then-Keeps _ _ (require-Keeps _ _) (
            unless_stale-Keeps (is_outdated resolve grace existing observed_at) _ (
              bind-Keeps _ _
                (write
                  (snapshot_of resolve grace state account observed_at invoice_id payment_failed_at
                    existing)
                  observed_at refl)
                (λ persisted.
                  unless_stale-Keeps (is_outdated resolve grace (some persisted) observed_at) _
                    (λ s. resolved-Keeps s (resolve account.owner_id effective_at s.usage)))))))

    checkout-Keeps :
        (object : EventObject) (retrieved : Option Retrieved) (effective_at : ℕ)
        → Keeps (dispatch_checkout resolve grace object retrieved effective_at)
    checkout-Keeps (checkout mode customer account subscription) (some retrieved) effective_at =
        then-Keeps _ _ (require-Keeps _ _) (
          then-Keeps _ _ (resolve_billing_account-Keeps account customer) (
            then-Keeps _ _ (require-Keeps _ _) (
              bind-Keeps _ _ same
                (λ state. then-Keeps _ _ (require-Keeps _ _) (apply-Keeps _ _ _ _ _)))))
    checkout-Keeps (checkout mode customer account subscription) none effective_at = same
    checkout-Keeps (subscription_object parsed) retrieved effective_at = same
    checkout-Keeps (invoice id subscription customer) retrieved effective_at = same
    checkout-Keeps malformed retrieved effective_at = same

    subscription-Keeps :
        (event_type : String) (object : EventObject) (created_at effective_at : ℕ)
        → Keeps (dispatch_subscription resolve grace event_type object created_at effective_at)
    subscription-Keeps event_type (subscription_object parsed) created_at effective_at =
        bind-Keeps _ _ same (λ state. apply-Keeps _ _ _ _ _)
    subscription-Keeps event_type (checkout mode customer account id) created_at effective_at = same
    subscription-Keeps event_type (invoice id subscription customer) created_at effective_at = same
    subscription-Keeps event_type malformed created_at effective_at = same

    invoice-Keeps :
        (event_type : String) (object : EventObject) (retrieved : Option Retrieved)
        (created_at effective_at : ℕ)
        → Keeps (dispatch_invoice resolve grace event_type object retrieved created_at effective_at)
    invoice-Keeps event_type (invoice id subscription customer) (some retrieved) created_at
          effective_at =
        bind-Keeps _ _ (or_raise-Keeps _ _) (λ subscription_id. then-Keeps _ _ (require-Keeps _ _) (
          bind-Keeps _ _ same
            (λ state. then-Keeps _ _ (require-Keeps _ _) (apply-Keeps _ _ _ _ _))))
    invoice-Keeps event_type (invoice id subscription customer) none created_at effective_at = same
    invoice-Keeps event_type (checkout mode customer account id) retrieved created_at effective_at =
        same
    invoice-Keeps event_type (subscription_object parsed) retrieved created_at effective_at = same
    invoice-Keeps event_type malformed retrieved created_at effective_at = same

    pub dispatch_event-Keeps :
        (event_type : String) (object : EventObject) (created_at : ℕ) (retrieved : Option Retrieved)
        (effective_at : ℕ)
        → Keeps (dispatch_event resolve grace event_type object created_at retrieved effective_at)
    unfolding dispatch_event
    dispatch_event-Keeps event_type object created_at retrieved effective_at =
        either-Keeps (str_eq event_type "checkout.session.completed") _ _
          (checkout-Keeps object retrieved effective_at)
          (either-Keeps (has_prefix "customer.subscription." event_type) _ _
            (subscription-Keeps event_type object created_at effective_at)
            (invoice-Keeps event_type object retrieved created_at effective_at))
