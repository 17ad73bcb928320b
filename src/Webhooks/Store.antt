-- ===== src/Webhooks/Store.antt =====
-- db/billing_repository.py: the rows of billing_accounts, subscriptions and billing_webhook_events,
-- and the statements on them that the Stripe webhooks use. The provider is always "stripe".
-- The unique indexes are those of db/migrations/20260718_add_b2c_billing_foundation.sql.
use open_aipoject.Prelude.{
  ℕ, String, Bool, true, false, Option, none, some, List, [], ◌∷◌, ◌++◌, ◌&&◌, ◌==◌, leb, str_eq,
  if◌then◌else◌, any, not,
}
use open_aipoject.Prelude.Text.{strip, is_empty, lower}

pub data Fault : Type 0 where
  processing_error configuration_error provider_error : Fault
  value_error runtime_error integrity_error : Fault

pub data Outcome {ℓ} (A : Type ℓ) : Type ℓ where
  done : A → Outcome A
  fault : Fault → Outcome A

pub record Account : Type 0 where
  pub account_id : ℕ
  pub owner_type : String
  pub owner_id : ℕ
  pub stripe_customer_id : Option String

pub record Subscription : Type 0 where
  pub subscription_id : String
  pub owner_account : ℕ
  pub price_id : String
  pub plan_code : String
  pub subscription_status : String
  pub current_period_start : Option ℕ
  pub current_period_end : Option ℕ
  pub cancel_at_period_end : Bool
  pub canceled_at : Option ℕ
  pub trial_end : Option ℕ
  pub grace_until : Option ℕ
  pub latest_invoice_id : Option String
  pub last_provider_event_at : Option ℕ

pub data EventStatus : Type 0 where
  event_received event_processed event_ignored event_failed : EventStatus

pub record EventRow : Type 0 where
  pub provider_event_id : String
  pub event_type : String
  pub payload_hash : String
  pub processing_status : EventStatus
  pub error_message : Option String

-- The tables; `usage` is what the resolution of the effective subscription writes.
pub record Store (U : Type 0) : Type 0 where
  pub accounts : List Account
  pub subscriptions : List Subscription
  pub events : List EventRow
  pub usage : U

-- `_required_text`
abbrev pub nonempty : String → Outcome String
nonempty text = if is_empty text then fault value_error else done text

abbrev pub required_text_of : String → Outcome String
required_text_of text = nonempty (strip text)

abbrev pub find_event : String → List EventRow → Option EventRow
find_event id [] = none
find_event id (e ∷ es) = if str_eq e.provider_event_id id then some e else find_event id es

-- `UPDATE billing_webhook_events ... WHERE id = ...`, the row found by the event's id at Stripe.
abbrev pub set_event : String → EventStatus → Option String → List EventRow → List EventRow
set_event id status message [] = []
set_event id status message (e ∷ es) =
    let rest = set_event id status message es in
    if str_eq e.provider_event_id id
    then record e { processing_status = status; error_message = message } ∷ es
    else e ∷ rest

abbrev pub same_payload : String → Option EventRow → Outcome Bool
same_payload digest none = fault runtime_error
same_payload digest (some e) =
    if str_eq e.payload_hash digest then done false else fault value_error

abbrev pub unless_present :
    String → String → String → List EventRow → Option EventRow → Outcome Bool × List EventRow
unless_present id event_type digest events (some e) = (same_payload digest (some e), events)
unless_present id event_type digest events none = (
  done true,
  events
      ++ (record {
        provider_event_id = id;
        event_type = event_type;
        payload_hash = digest;
        processing_status = event_received;
        error_message = none;
      }
          ∷ []),
)

-- Whether the row is new; `ON CONFLICT DO NOTHING` and the look at the row that is there.
unfoldable pub create_webhook_event_if_absent :
    String → String → String → List EventRow → Outcome Bool × List EventRow
create_webhook_event_if_absent id event_type digest events =
    unless_present id event_type digest events (find_event id events)

abbrev pub ignored_or_processed : Bool → EventStatus
ignored_or_processed true = event_ignored
ignored_or_processed false = event_processed

unfoldable pub mark_webhook_event_processed : String → Bool → List EventRow → List EventRow
mark_webhook_event_processed id ignored events =
    set_event id (ignored_or_processed ignored) none events

unfoldable pub mark_webhook_event_failed : String → String → List EventRow → List EventRow
mark_webhook_event_failed id message events = set_event id event_failed (some message) events

abbrev pub get_subscription_by_provider_id : String → List Subscription → Option Subscription
get_subscription_by_provider_id id [] = none
get_subscription_by_provider_id id (s ∷ ss) =
    if str_eq s.subscription_id id then some s else get_subscription_by_provider_id id ss

-- `last_provider_event_at IS NULL OR last_provider_event_at <= ...`
abbrev pub is_not_after : Option ℕ → ℕ → Bool
is_not_after none at = true
is_not_after (some stored) at = leb stored at

abbrev pub replace_subscription : Subscription → List Subscription → List Subscription
replace_subscription new [] = []
replace_subscription new (s ∷ ss) =
    let rest = replace_subscription new ss in
    if str_eq s.subscription_id new.subscription_id then new ∷ ss else s ∷ rest

-- What is returned where the condition of the update does not hold.
abbrev pub refused_upsert : Subscription → ℕ → Subscription → Outcome Subscription
refused_upsert snapshot at existing =
    if existing.owner_account == snapshot.owner_account
    then if is_not_after existing.last_provider_event_at at
      then fault runtime_error
      else done existing
    else fault value_error

-- `WHERE` of the index uq_subscriptions_one_live_per_account.
abbrev pub is_live : String → Bool
is_live status =
    any (λ live. str_eq live status)
      ("trialing" ∷ "active" ∷ "past_due" ∷ "unpaid" ∷ "paused" ∷ "incomplete" ∷ [])

-- Whether another live subscription of the account stands in the way of the row.
abbrev pub has_other_live : Subscription → List Subscription → Bool
has_other_live new subscriptions =
    is_live new.subscription_status
    && any
        (λ s.
          s.owner_account == new.owner_account
          && (is_live s.subscription_status && not (str_eq s.subscription_id new.subscription_id)))
        subscriptions

-- A write of the row, unless the index refuses it.
abbrev pub written_if_unique :
    Subscription → List Subscription → List Subscription → Outcome Subscription × List Subscription
written_if_unique new subscriptions after =
    if has_other_live new subscriptions
    then (fault integrity_error, subscriptions)
    else (done new, after)

abbrev pub upsert_found :
    Subscription
    → ℕ
    → List Subscription
    → Option Subscription
    → Outcome Subscription × List Subscription
upsert_found snapshot at subscriptions none =
    written_if_unique snapshot subscriptions (subscriptions ++ (snapshot ∷ []))
upsert_found snapshot at subscriptions (some existing) =
    if (existing.owner_account == snapshot.owner_account)
      && is_not_after existing.last_provider_event_at at
    then written_if_unique snapshot subscriptions (replace_subscription snapshot subscriptions)
    else (refused_upsert snapshot at existing, subscriptions)

abbrev pub with_status : Subscription → String → Outcome String → Outcome Subscription
with_status snapshot plan (fault f) = fault f
with_status snapshot plan (done status) =
    done (record snapshot { plan_code = lower plan; subscription_status = lower status })

abbrev pub with_plan : Subscription → Outcome String → Outcome Subscription
with_plan snapshot (fault f) = fault f
with_plan snapshot (done plan) =
    with_status snapshot plan (required_text_of snapshot.subscription_status)

abbrev pub upsert_normalized :
    Outcome Subscription → ℕ → List Subscription → Outcome Subscription × List Subscription
upsert_normalized (fault f) at subscriptions = (fault f, subscriptions)
upsert_normalized (done snapshot) at subscriptions =
    upsert_found snapshot at subscriptions
      (get_subscription_by_provider_id snapshot.subscription_id subscriptions)

-- `upsert_subscription_snapshot` of a snapshot that was taken at the time `at`.
unfoldable pub upsert_subscription_snapshot :
    Subscription → ℕ → List Subscription → Outcome Subscription × List Subscription
upsert_subscription_snapshot snapshot at subscriptions =
    upsert_normalized (with_plan snapshot (required_text_of snapshot.plan_code)) at subscriptions

abbrev pub get_billing_account_by_id : ℕ → List Account → Option Account
get_billing_account_by_id id [] = none
get_billing_account_by_id id (a ∷ rest_of) =
    if a.account_id == id then some a else get_billing_account_by_id id rest_of

abbrev pub is_customer : String → Option String → Bool
is_customer customer_id none = false
is_customer customer_id (some c) = str_eq c customer_id

abbrev pub get_billing_account_by_stripe_customer_id : String → List Account → Option Account
get_billing_account_by_stripe_customer_id customer_id [] = none
get_billing_account_by_stripe_customer_id customer_id (a ∷ rest_of) =
    if is_customer customer_id a.stripe_customer_id
    then some a
    else get_billing_account_by_stripe_customer_id customer_id rest_of

abbrev pub claim_row : String → Account → Option String → Account
claim_row customer_id a none = record a { stripe_customer_id = some customer_id }
claim_row customer_id a (some c) = a

abbrev pub claim_accounts : ℕ → String → List Account → List Account
claim_accounts id customer_id [] = []
claim_accounts id customer_id (a ∷ rest_of) =
    let rest = claim_accounts id customer_id rest_of in
    if a.account_id == id then claim_row customer_id a a.stripe_customer_id ∷ rest_of else a ∷ rest

-- Whether another account has the customer, which UNIQUE (stripe_customer_id) excludes.
abbrev pub is_customer_taken : ℕ → String → List Account → Bool
is_customer_taken id customer_id accounts =
    any (λ a. not (a.account_id == id) && is_customer customer_id a.stripe_customer_id) accounts
