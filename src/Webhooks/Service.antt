-- ===== src/Webhooks/Service.antt =====
-- server/billing/webhook_service.py: what one event changes, inside a database session. The fields
-- of an event's object come parsed; an identifier is what the parsing leaves of it. `resolve` is
-- `resolve_effective_subscription` on the usage periods and grants, `grace` the grace time after a
-- failed payment.
use open_aipoject.Prelude.{
  ℕ, String, Bool, true, false, Option, none, some, List, ◌||◌, ◌==◌, ◌+◌, not, is_some, str_eq,
  if◌then◌else◌, ◌&&◌,
}
use open_aipoject.Webhooks.Store.{
  Store, Outcome, done, fault, processing_error, Account, Subscription,
  get_subscription_by_provider_id, upsert_subscription_snapshot, get_billing_account_by_id,
  get_billing_account_by_stripe_customer_id, claim_accounts, claim_row, is_not_after, is_customer,
  is_customer_taken, integrity_error,
}
use open_aipoject.Webhooks.Work.{Work, pure, gets, or_raise, require, ◌>>=◌, ◌>>◌}

-- `_StripeSubscriptionState`
pub record StripeSubscriptionState : Type 0 where
  pub subscription_id : String
  pub customer_id : String
  pub billing_account_id : Option ℕ
  pub price_id : String
  pub plan_code : String
  pub status : String
  pub current_period_start : Option ℕ
  pub current_period_end : Option ℕ
  pub cancel_at_period_end : Bool
  pub canceled_at : Option ℕ
  pub trial_end : Option ℕ
  pub latest_invoice_id : Option String

pub data Applied : Type 0 where
  was_applied was_stale : Applied

module _ {U : Type 0} (resolve : ℕ → ℕ → U → Outcome U) (grace : ℕ) where
  -- `claim_stripe_customer_id` of an account that was read in the same transaction.
  abbrev pub claim_stripe_customer_id : Account → String → Work U Account
  claim_stripe_customer_id account customer_id s =
      if not (is_some account.stripe_customer_id)
        && is_customer_taken account.account_id customer_id s.accounts
      then (fault integrity_error, s)
      else (
        done (claim_row customer_id account account.stripe_customer_id),
        record s { accounts = claim_accounts account.account_id customer_id s.accounts },
      )

  -- `if persisted_customer != customer_id: raise ...`
  abbrev pub checked_customer : String → Account → Work U Account
  checked_customer customer_id account =
      require (is_customer customer_id account.stripe_customer_id) processing_error >> pure account

  abbrev pub verified_customer : Account → String → Option String → Work U Account
  verified_customer account customer_id none =
      claim_stripe_customer_id account customer_id >>= checked_customer customer_id
  verified_customer account customer_id (some persisted) = checked_customer customer_id account

  abbrev pub same_account : Option Account → Option Account → Bool
  same_account (some a) (some b) = a.account_id == b.account_id
  same_account _ _ = true

  abbrev pub first_account : Option Account → Option Account → Option Account
  first_account none b = b
  first_account (some a) b = some a

  abbrev pub by_metadata : Option ℕ → List Account → Option Account
  by_metadata none accounts = none
  by_metadata (some id) accounts = get_billing_account_by_id id accounts

  -- `_resolve_billing_account`
  unfoldable pub resolve_billing_account : Option ℕ → String → Work U Account
  resolve_billing_account billing_account_id customer_id = do
    by_id ← gets (λ s. by_metadata billing_account_id s.accounts)
    by_customer ← gets (λ s. get_billing_account_by_stripe_customer_id customer_id s.accounts)
    require (is_some by_id || not (is_some billing_account_id)) processing_error
    require (same_account by_id by_customer) processing_error
    account ← or_raise processing_error (first_account by_id by_customer)
    require (str_eq account.owner_type "user") processing_error
    verified_customer account customer_id account.stripe_customer_id

  -- `previous_event_at is not None and observed_at < previous_event_at`
  abbrev pub is_outdated : Option Subscription → ℕ → Bool
  is_outdated none observed_at = false
  is_outdated (some existing) observed_at =
      not (is_not_after existing.last_provider_event_at observed_at)

  abbrev pub is_owned : Option Subscription → Account → Bool
  is_owned none account = true
  is_owned (some existing) account = existing.owner_account == account.account_id

  abbrev pub stored_grace : Option Subscription → Option ℕ
  stored_grace none = none
  stored_grace (some existing) = existing.grace_until

  -- `grace_until`: only a past due subscription has one, counted from the failed payment.
  abbrev pub grace_until_of : String → Option ℕ → Option Subscription → Option ℕ
  grace_until_of status none existing =
      if str_eq status "past_due" then stored_grace existing else none
  grace_until_of status (some failed_at) existing =
      if str_eq status "past_due" then some (failed_at + grace) else none

  abbrev pub stored_invoice : Option Subscription → Option String
  stored_invoice none = none
  stored_invoice (some existing) = existing.latest_invoice_id

  abbrev pub or_else : Option String → Option String → Option String
  or_else none b = b
  or_else (some a) b = some a

  abbrev pub snapshot_of :
      StripeSubscriptionState
      → Account
      → ℕ
      → Option String
      → Option ℕ
      → Option Subscription
      → Subscription
  snapshot_of state account observed_at invoice_id payment_failed_at existing = record {
    subscription_id = state.subscription_id;
    owner_account = account.account_id;
    price_id = state.price_id;
    plan_code = state.plan_code;
    subscription_status = state.status;
    current_period_start = state.current_period_start;
    current_period_end = state.current_period_end;
    cancel_at_period_end = state.cancel_at_period_end;
    canceled_at = state.canceled_at;
    trial_end = state.trial_end;
    grace_until = grace_until_of state.status payment_failed_at existing;
    latest_invoice_id =
        or_else invoice_id (or_else state.latest_invoice_id (stored_invoice existing));
    last_provider_event_at = some observed_at;
  }

  abbrev pub upsert : Subscription → ℕ → Work U Subscription
  upsert snapshot at s =
      let written = upsert_subscription_snapshot snapshot at s.subscriptions in
      (written.0, record s { subscriptions = written.1 })

  abbrev pub resolved : Store U → Outcome U → Outcome Applied × Store U
  resolved s (done usage) = (done was_applied, record s { usage = usage })
  resolved s (fault f) = (fault f, s)

  -- `resolve_effective_subscription`, and the answer "processed".
  abbrev pub resolve_effective : ℕ → ℕ → Work U Applied
  resolve_effective owner_id now s = resolved s (resolve owner_id now s.usage)

  abbrev pub unless_stale : Bool → Work U Applied → Work U Applied
  unless_stale true m = pure was_stale
  unless_stale false m = m

  -- `_apply_subscription_state`
  unfoldable pub apply_subscription_state :
      StripeSubscriptionState → ℕ → ℕ → Option String → Option ℕ → Work U Applied
  apply_subscription_state state observed_at effective_at invoice_id payment_failed_at = do
    account ← resolve_billing_account state.billing_account_id state.customer_id
    existing ← gets (λ s. get_subscription_by_provider_id state.subscription_id s.subscriptions)
    require (is_owned existing account) processing_error
    unless_stale (is_outdated existing observed_at) do
      persisted ←
          upsert (snapshot_of state account observed_at invoice_id payment_failed_at existing)
            observed_at
      unless_stale (is_outdated (some persisted) observed_at)
          (resolve_effective account.owner_id effective_at)
