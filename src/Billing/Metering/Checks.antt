-- ===== src/Billing/Metering/Checks.antt =====
-- The validations of server/billing/metering_service.py, and the values that its functions return.
use open_aipoject.Prelude.{
  ℕ, ◌+◌, String, Bool, true, false, not, ◌||◌, Option, none, some, List, [], ◌∷◌, ltb, str_eq,
  if◌then◌else◌,
}
use open_aipoject.Prelude.Text.{strip, lower, text_length, is_empty}
use open_aipoject.Prelude.PyInt.{PyValue, int_value, bool_value, other_value, pos, negsuc}
use open_aipoject.Billing.Errors.{
  Exceeded, Result, ok, err, value_error, configuration, conflict, not_found, allowance_exceeded,
}
use open_aipoject.Billing.Quantities.{
  Meter, meter_eq, ai_credits, Quantities, meter_keys, record_quantities, same_quantities,
}
use open_aipoject.Billing.Store.{State, Counter, Reservation}
use open_aipoject.Billing.Session.{
  Session, pure, lift, or_raise, or_configuration, guard, ◌>>=◌, ◌>>◌,
}
use open_aipoject.Billing.Repository.Counters.{get_or_create_usage_counter, lock_usage_counters}
use open_aipoject.Billing.Repository.Reservations.{get_usage_reservation_by_id}

-- `UsageReservation`
pub record UsageReservation : Type 0 where
  pub id : ℕ
  pub account : ℕ
  pub period : ℕ
  pub request_id : String
  pub operation : String
  pub state : State
  pub requested : Quantities
  pub settled : Option Quantities
  pub release_reason : Option String
  pub created_at : ℕ
  pub settled_at : Option ℕ
  pub released_at : Option ℕ

-- The fields of `EffectiveSubscription` that metering reads; `ai_credits` is the plan's allowance.
pub record EffectiveSubscription : Type 0 where
  pub account : ℕ
  pub period : ℕ
  pub plan_code : String
  pub allowance : PyValue
  pub period_end : ℕ

-- `_required_text`
unfoldable pub required_text : ℕ → String → Result String
unfolding text_length strip
required_text max_length value =
    let normalized = strip value in
    if is_empty normalized
    then err value_error
    else if ltb max_length (text_length normalized)
    then err value_error
    else ok normalized

abbrev kept_some : Result Quantities → Result (Option Quantities)
kept_some (ok q) = ok (some q)
kept_some (err e) = err e

-- `_record_quantities(record, "settled_quantities")` unless the column is null.
abbrev pub settled_part : Option Quantities → Result (Option Quantities)
settled_part none = ok none
settled_part (some q) = kept_some (record_quantities true q)

-- `_to_reservation`
unfoldable pub to_reservation : Reservation → Session UsageReservation
unfolding record_quantities
to_reservation r = do
  requested ← lift (record_quantities false r.requested)
  settled ← lift (settled_part r.settled)
  pure (record {
    id = r.id;
    account = r.account;
    period = r.period;
    request_id = r.request_id;
    operation = r.operation;
    state = r.state;
    requested = requested;
    settled = settled;
    release_reason = r.release_reason;
    created_at = r.created_at;
    settled_at = r.settled_at;
    released_at = r.released_at;
  })

-- `_matching_reservation`: the same request ID must come with the same operation and quantities.
unfoldable pub matching_reservation : Reservation → String → Quantities → Session UsageReservation
unfolding to_reservation
matching_reservation r operation requested = do
  persisted ← lift (record_quantities false r.requested)
  guard
      (not (str_eq (lower (strip r.operation)) operation)
        || not (same_quantities persisted requested))
      conflict
  to_reservation r

abbrev nonnegative_limit : PyValue → Result ℕ
nonnegative_limit (int_value (pos n)) = ok n
nonnegative_limit (int_value (negsuc n)) = err configuration
nonnegative_limit (bool_value b) = err configuration
nonnegative_limit other_value = err configuration

-- `_allowance_limit`
abbrev pub allowance_limit : EffectiveSubscription → Meter → Result ℕ
allowance_limit effective ai_credits = nonnegative_limit effective.allowance

unfoldable pub create_each : ℕ → List Meter → Session (Unit {0})
create_each p [] = pure tt
create_each p (m ∷ ms) = get_or_create_usage_counter p m >> create_each p ms

-- `by_meter.get(meter)`
abbrev pub by_meter : Meter → List Counter → Option Counter
by_meter m [] = none
by_meter m (c ∷ cs) = if meter_eq c.meter m then some c else by_meter m cs

abbrev pub exceeded : EffectiveSubscription → ℕ → ℕ → Counter → Exceeded
exceeded effective limit requested c = record {
  requested = requested;
  used = c.used;
  reserved = c.reserved;
  limit = limit;
  plan_code = effective.plan_code;
  reset_at = effective.period_end;
}

-- The limit test of one meter. The source's `requested > limit - used - reserved` is over signed
-- integers, so it is written with sums.
abbrev check_limit : EffectiveSubscription → ℕ → Counter → Result ℕ → Result (Unit {0})
check_limit effective requested c (err e) = err e
check_limit effective requested c (ok limit) =
    if ltb limit (requested + c.used + c.reserved)
    then err (allowance_exceeded (exceeded effective limit requested c))
    else ok tt

-- `enforce_limits` comes with the effective subscription, `none` stands for `False`.
abbrev pub check_counter :
    Option EffectiveSubscription → Meter → ℕ → Option Counter → Result (Unit {0})
check_counter effective m n none = err configuration
check_counter none m n (some c) = ok tt
check_counter (some effective) m n (some c) =
    check_limit effective n c (allowance_limit effective m)

unfoldable pub check_each :
    Option EffectiveSubscription → List Counter → Quantities → Session (Unit {0})
check_each effective counters [] = pure tt
check_each effective counters ((m, n) ∷ q) =
    lift (check_counter effective m n (by_meter m counters)) >> check_each effective counters q

-- `_lock_and_validate_counters`
unfoldable pub lock_and_validate_counters :
    ℕ → Quantities → Option EffectiveSubscription → Bool → Session (List Counter)
unfolding create_each check_each
lock_and_validate_counters p quantities effective create_missing = do
  counters ← or_configuration do
    (if create_missing then create_each p (meter_keys quantities) else pure tt)
    lock_usage_counters p (meter_keys quantities)
  check_each effective counters quantities
  pure counters

-- `_locked_reservation`
unfoldable pub locked_reservation : ℕ → Session Reservation
locked_reservation id = do or_raise not_found (← get_usage_reservation_by_id id)

abbrev pub holds : Option Counter → ℕ → Bool
holds none n = false
holds (some c) n = not (ltb c.reserved n)

-- `_validate_reserved_counters`
unfoldable pub validate_reserved_counters : List Counter → Quantities → Session (Unit {0})
validate_reserved_counters counters [] = pure tt
validate_reserved_counters counters ((m, n) ∷ q) =
    guard (not (holds (by_meter m counters) n)) configuration
    >> validate_reserved_counters counters q
