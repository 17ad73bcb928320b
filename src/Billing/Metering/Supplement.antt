-- ===== src/Billing/Metering/Supplement.antt =====
-- The operations of server/billing/metering_service.py that enlarge a reservation, release it or
-- let it expire.
use open_aipoject.Prelude.{
  ℕ, ◌+◌, ◌-◌, String, Bool, true, false, not, ◌&&◌, none, List, [], ◌∷◌, ltb, leb, min,
  if◌then◌else◌, length,
}
use open_aipoject.Prelude.PyInt.{ℤ, pos, negsuc}
use open_aipoject.Billing.Errors.{
  Result, ok, err, BillingError, value_error, configuration, state_error, runtime_error,
}
use open_aipoject.Billing.Quantities.{
  ai_credits, Quantities, lookup, get_or_zero, insert, sum_values, record_quantities,
}
use open_aipoject.Billing.Store.{State, reserved, settled, released, Counter, Reservation}
use open_aipoject.Billing.Session.{
  Session, pure, raise, lift, or_raise, or_configuration, or_configuration_unless, guard, ◌>>=◌,
  ◌>>◌,
}
use open_aipoject.Billing.Repository.Counters.{reserve_usage_quantities, release_usage_quantities}
use open_aipoject.Billing.Repository.Reservations.{
  stored, lock_stale_usage_reservations, update_usage_reservation_requested_quantities,
  release_usage_reservation, expire_usage_reservation,
}
use open_aipoject.Billing.Metering.Checks.{
  UsageReservation, required_text, to_reservation, by_meter, lock_and_validate_counters,
  locked_reservation, validate_reserved_counters,
}
use open_aipoject.Billing.Metering.Lifecycle.{persist_settlement}

-- `SupplementalSettlement`
pub record SupplementalSettlement : Type 0 where
  pub reservation : UsageReservation
  pub actual : ℕ
  pub billed : ℕ
  pub supplemented : ℕ
  pub unbilled : ℕ

-- `if isinstance(value, bool) or value < 0: raise ValueError`, for the `int` that is passed.
abbrev nonnegative : ℤ → Result ℕ
nonnegative (pos n) = ok n
nonnegative (negsuc n) = err value_error

-- What a supplement leaves: the row, its quantities and the quantity added.
pub record Supplemented : Type 0 where
  pub row : Reservation
  pub requested : Quantities
  pub added : ℕ

-- `max(0, limit - used - reserved)` is truncated subtraction.
abbrev pub remaining : ℕ → Counter → ℕ
remaining limit c = limit - c.used - c.reserved

-- The supplement of a settlement: all that is missing if it fits, or nothing.
unfoldable pub supplement_if_fits :
    ℕ → ℕ → ℕ → Reservation → Quantities → ℕ → ℕ → Session Supplemented
supplement_if_fits now id limit r requested additional left =
    if ltb 0 additional && leb additional left
    then or_configuration (do
      reserve_usage_quantities r.period ((ai_credits, additional) ∷ [])
      let enlarged = insert ai_credits (get_or_zero ai_credits requested + additional) requested
      row ← update_usage_reservation_requested_quantities now id enlarged
      pure (record { row = row; requested = enlarged; added = additional }))
    else pure (record { row = r; requested = requested; added = 0 })

-- `{meter: billed} if billed else {}`
abbrev pub successful_of : ℕ → Quantities
successful_of billed = if ltb 0 billed then (ai_credits, billed) ∷ [] else []

-- `settle_usage_with_supplement` on each state of the locked reservation.
unfoldable pub supplement_by_state :
    ℕ → ℕ → ℕ → ℕ → Quantities → State → Reservation → Session SupplementalSettlement
supplement_by_state now id actual limit requested settled r = do
  recorded ← lift (record_quantities true (stored r.settled))
  let billed = get_or_zero ai_credits recorded
  reservation ← to_reservation r
  pure (record {
    reservation = reservation;
    actual = actual;
    billed = billed;
    supplemented = get_or_zero ai_credits requested - get_or_zero ai_credits requested;
    unbilled = actual - billed;
  })
supplement_by_state now id actual limit requested reserved r = do
  originally_reserved ← or_raise configuration (lookup ai_credits requested)
  counters ← lock_and_validate_counters r.period requested none false
  validate_reserved_counters counters requested
  counter ← or_raise runtime_error (by_meter ai_credits counters)
  supplement ←
      supplement_if_fits now id limit r requested (actual - originally_reserved)
        (remaining limit counter)
  let billed = min actual (get_or_zero ai_credits supplement.requested)
  persisted ← persist_settlement now supplement.row supplement.requested (successful_of billed)
  reservation ← to_reservation persisted
  pure (record {
    reservation = reservation;
    actual = actual;
    billed = billed;
    supplemented = supplement.added;
    unbilled = actual - billed;
  })
supplement_by_state now id actual limit requested _ r = raise state_error

unfoldable pub settle_usage_with_supplement : ℕ → ℕ → ℤ → ℤ → Session SupplementalSettlement
settle_usage_with_supplement now id actual_quantity allowance_limit = do
  actual ← lift (nonnegative actual_quantity)
  limit ← lift (nonnegative allowance_limit)
  r ← locked_reservation id
  requested ← lift (record_quantities false r.requested)
  supplement_by_state now id actual limit requested r.state r

abbrev positive : ℤ → Result ℕ
positive (pos n) = if ltb 0 n then ok n else err value_error
positive (negsuc n) = err value_error

abbrev pub is_active : State → Bool
is_active reserved = true
is_active _ = false

-- The writes of `supplement_usage_reservation`.
unfoldable pub enlarge : ℕ → ℕ → Reservation → Quantities → ℕ → ℕ → Session Bool
enlarge now id r requested additional target = or_configuration do
  reserve_usage_quantities r.period ((ai_credits, additional) ∷ [])
  update_usage_reservation_requested_quantities now id (insert ai_credits target requested)
  pure true

-- The part of `supplement_usage_reservation` for a target above what is reserved.
unfoldable pub enlarge_if_fits : ℕ → ℕ → ℕ → ℕ → Quantities → Reservation → Session Bool
enlarge_if_fits now id target limit requested r = do
  counters ← lock_and_validate_counters r.period requested none false
  validate_reserved_counters counters requested
  counter ← or_raise runtime_error (by_meter ai_credits counters)
  let additional = target - get_or_zero ai_credits requested
  if ltb (remaining limit counter) additional
      then pure false
      else enlarge now id r requested additional target

unfoldable pub supplement_usage_reservation : ℕ → ℕ → ℤ → ℕ → Session Bool
supplement_usage_reservation now id target_quantity limit = do
  target ← lift (positive target_quantity)
  r ← locked_reservation id
  guard (not (is_active r.state)) state_error
  requested ← lift (record_quantities false r.requested)
  if leb target (get_or_zero ai_credits requested)
      then pure true
      else enlarge_if_fits now id target limit requested r

-- `release_usage` on each state of the locked reservation.
unfoldable pub release_by_state : ℕ → String → State → Reservation → Session UsageReservation
release_by_state now reason released r = to_reservation r
release_by_state now reason reserved r = do
  requested ← lift (record_quantities false r.requested)
  counters ← lock_and_validate_counters r.period requested none false
  validate_reserved_counters counters requested
  persisted ← or_configuration do
    release_usage_quantities r.period requested
    release_usage_reservation now r.account r.request_id reason
  to_reservation persisted
release_by_state now reason _ r = raise state_error

unfoldable pub release_usage : ℕ → ℕ → String → Session UsageReservation
release_usage now id reason = do
  normalized_reason ← lift (required_text 255 reason)
  r ← locked_reservation id
  release_by_state now normalized_reason r.state r

-- `StaleReservationExpiry`
pub record StaleReservationExpiry : Type 0 where
  pub inspected : ℕ
  pub released : ℕ
  pub credits_released : ℕ

-- One round of the loop of `expire_stale_reservations`, with the credits that it released.
unfoldable pub expire_one : ℕ → Reservation → Session ℕ
expire_one now r = do
  requested ← lift (record_quantities false r.requested)
  counters ← lock_and_validate_counters r.period requested none false
  validate_reserved_counters counters requested
  release_usage_quantities r.period requested
  expire_usage_reservation now r.id "stale_reservation_expired"
  pure (sum_values requested)

unfoldable pub expire_each : ℕ → List Reservation → ℕ → ℕ → Session (ℕ × ℕ)
expire_each now [] count credits_released = pure (count, credits_released)
expire_each now (r ∷ rs) count credits_released =
    expire_one now r >>= λ n. expire_each now rs (count + 1) (credits_released + n)

abbrev is_value_or_state_error : BillingError → Bool
is_value_or_state_error value_error = true
is_value_or_state_error state_error = true
is_value_or_state_error _ = false

-- `expire_stale_reservations`; the test that the threshold has a time zone has no counterpart.
unfoldable pub expire_stale_reservations :
    (Reservation → Bool) → ℕ → ℕ → Session StaleReservationExpiry
expire_stale_reservations is_locked now older_than =
    or_configuration_unless is_value_or_state_error do
      stale ← lock_stale_usage_reservations is_locked older_than
      counts ← expire_each now stale 0 0
      pure (record { inspected = length stale; released = counts.0; credits_released = counts.1 })
