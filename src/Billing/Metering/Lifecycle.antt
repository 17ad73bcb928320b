-- ===== src/Billing/Metering/Lifecycle.antt =====
-- The operations of server/billing/metering_service.py. Each runs in a session whose row locks make
-- its reads and writes one step; only the wait for the account's lock lets other transactions in.
-- `now` is the database's clock. The `meter` argument is left at its default, "ai_credits", by
-- every caller.
use open_aipoject.Prelude.{ℕ, String, Bool, true, false, not, Option, none, some, List}
use open_aipoject.Prelude.Text.{lower}
use open_aipoject.Prelude.PyInt.{PyValue}
use open_aipoject.Billing.Errors.{
  BillingError, value_error, configuration, conflict, state_error, allowance_exceeded,
}
use open_aipoject.Billing.Quantities.{
  Quantities, record_quantities, same_quantities, normalize_quantities,
}
use open_aipoject.Billing.Store.{Db, State, reserved, settled, Reservation}
use open_aipoject.Billing.Session.{
  Session, raise, lift, or_configuration, or_configuration_unless, guard, ◌>>=◌, ◌>>◌,
}
use open_aipoject.Billing.Repository.Counters.{
  exceeds, reserve_usage_quantities, settle_usage_quantities,
}
use open_aipoject.Billing.Repository.Reservations.{
  lock_billing_account, get_usage_reservation, create_usage_reservation, stored,
  settle_usage_reservation,
}
use open_aipoject.Billing.Metering.Checks.{
  UsageReservation, EffectiveSubscription, required_text, to_reservation, matching_reservation,
  lock_and_validate_counters, locked_reservation, validate_reserved_counters,
}

abbrev is_exceeded : BillingError → Bool
is_exceeded (allowance_exceeded e) = true
is_exceeded _ = false

-- The claim on the plan's capacity, once no reservation was found under the account's lock.
unfoldable pub reserve_new :
    ℕ → ℕ → EffectiveSubscription → String → String → Quantities → Session UsageReservation
reserve_new now new_id effective request_id operation quantities = do
  lock_and_validate_counters effective.period quantities (some effective) true
  created ← or_configuration_unless is_exceeded do
    reserve_usage_quantities effective.period quantities
    create_usage_reservation now new_id effective.account effective.period request_id operation
        quantities
  to_reservation created

-- `if existing is not None: return _matching_reservation(...)`, and else what follows it.
abbrev pub unless_found :
    Option Reservation → String → Quantities → Session UsageReservation → Session UsageReservation
unless_found (some r) operation quantities rest = matching_reservation r operation quantities
unless_found none operation quantities rest = rest

-- From the account's lock on, with the second look for a reservation while it is held.
unfoldable pub reserve_locked :
    (Db → Db)
    → ℕ
    → ℕ
    → EffectiveSubscription
    → String
    → String
    → Quantities
    → Session UsageReservation
reserve_locked others now new_id effective request_id operation quantities = do
  found ← lock_billing_account others effective.account
  guard (not found) configuration
  existing ← get_usage_reservation effective.account request_id
  unless_found existing operation quantities
      (reserve_new now new_id effective request_id operation quantities)

-- The part of `reserve_usage` after its texts and quantities are normalized.
unfoldable pub reserve_normalized :
    (Db → Db)
    → ℕ
    → ℕ
    → EffectiveSubscription
    → String
    → String
    → Quantities
    → Session UsageReservation
reserve_normalized others now new_id effective request_id operation quantities = do
  existing ← get_usage_reservation effective.account request_id
  unless_found existing operation quantities
      (reserve_locked others now new_id effective request_id operation quantities)

-- `reserve_usage`. `others` is what other transactions do before the account's lock is granted.
unfoldable pub reserve_usage :
    (Db → Db)
    → ℕ
    → ℕ
    → EffectiveSubscription
    → String
    → String
    → List (String × PyValue)
    → Session UsageReservation
reserve_usage others now new_id effective request_id operation_type requested_quantities = do
  normalized_request_id ← lift (required_text 255 request_id)
  operation ← lift (required_text 64 operation_type)
  quantities ← lift (normalize_quantities false requested_quantities)
  reserve_normalized others now new_id effective normalized_request_id (lower operation) quantities

-- Out of the counters and into the row, as both settlements end.
unfoldable pub persist_settlement : ℕ → Reservation → Quantities → Quantities → Session Reservation
persist_settlement now r requested successful = or_configuration do
  settle_usage_quantities r.period requested successful
  settle_usage_reservation now r.account r.request_id successful

-- `settle_usage` on each state of the locked reservation.
unfoldable pub settle_by_state :
    ℕ → Quantities → Quantities → State → Reservation → Session UsageReservation
settle_by_state now successful requested settled r = do
  recorded ← lift (record_quantities true (stored r.settled))
  guard (not (same_quantities recorded successful)) conflict
  to_reservation r
settle_by_state now successful requested reserved r = do
  counters ← lock_and_validate_counters r.period requested none false
  validate_reserved_counters counters requested
  persisted ← persist_settlement now r requested successful
  to_reservation persisted
settle_by_state now successful requested _ r = raise state_error

unfoldable pub settle_usage : ℕ → ℕ → List (String × PyValue) → Session UsageReservation
settle_usage now id successful_quantities = do
  successful ← lift (normalize_quantities true successful_quantities)
  r ← locked_reservation id
  requested ← lift (record_quantities false r.requested)
  guard (exceeds requested successful) value_error
  settle_by_state now successful requested r.state r
