-- ===== src/Billing/Cleanup/Tests.antt =====
-- The theorems on server/billing/reservation_cleanup.py at concrete tables.
use open_aipoject.Billing.Session.{◌>>=◌, or_configuration_unless, or_configuration}
use open_aipoject.Billing.Repository.Reservations.{
  lock_stale_usage_reservations, touched, touch_usage_reservation_activity,
  expire_usage_reservation,
}
use open_aipoject.Billing.Metering.Supplement.{expire_each, expire_one, expire_stale_reservations}
use open_aipoject.Billing.Quantities.{record_quantities, ai_credits}
use open_aipoject.Billing.Repository.Counters.{lock_usage_counters, release_usage_quantities}
use open_aipoject.Billing.Metering.Checks.{lock_and_validate_counters, validate_reserved_counters}
use open_aipoject.Prelude.{◌≡◌, refl, false, none, some, List, [], ◌∷◌, arith}
use open_aipoject.Prelude.PyInt.{pos}
use open_aipoject.Billing.Store.{reserved, Counter, Reservation, Db, find_id}
use open_aipoject.Billing.Cleanup.{
  heartbeat_active_reservations, run_cleanup_cycle, ReservationCleanupStats, in_own_session,
}
use open_aipoject.Billing.Metering.Invariant.Sums.{IsBalanced}
use open_aipoject.Billing.Cleanup.Outcomes.{IsReport, run_cleanup_cycle-IsReport}
use open_aipoject.Billing.Cleanup.Leases.{
  Registration, active_after, run_cleanup_cycle-heartbeat_active_reservations, registering,
  unregistering,
}
use open_aipoject.Billing.Errors.{ok}

abbrev idle_row : Reservation
idle_row = record {
  id = 10;
  account = 7;
  period = 1;
  request_id = "first";
  operation = "chat";
  state = reserved;
  requested = (ai_credits, 3) ∷ [];
  settled = none;
  release_reason = none;
  created_at = 100;
  settled_at = none;
  released_at = none;
  last_activity = 100;
}

abbrev working_row : Reservation
working_row = record idle_row { id = 11; request_id = "second"; requested = (ai_credits, 5) ∷ [] }

abbrev two_counter : Counter
two_counter = record { period = 1; meter = ai_credits; used = 0; reserved = 8 }

abbrev two_rows : Db
two_rows = record {
  accounts = 7 ∷ [];
  counters = two_counter ∷ [];
  reservations = idle_row ∷ working_row ∷ [];
}

two_rows-IsBalanced : IsBalanced two_rows
two_rows-IsBalanced = record {
  rows = ground arith;
  unique = (refl, refl, (refl, refl, tt));
  held_exact = λ p. ground arith;
  used_exact = λ p. ground arith;
}

-- The second reservation has an owner, the first one's is gone.
abbrev registrations : List Registration
registrations = unregistering 10 ∷ registering 11 ∷ registering 10 ∷ []

run_cleanup_cycle-heartbeat_active_reservations_example :
    find_id 11
      (run_cleanup_cycle
        (λ r. false)
        2000000
        (pos 1)
        (heartbeat_active_reservations 1500000
          (active_after registrations)
          two_rows).1).1.reservations
    ≡ some (touched 1500000 (active_after registrations) working_row)
run_cleanup_cycle-heartbeat_active_reservations_example =
    run_cleanup_cycle-heartbeat_active_reservations (λ r. false) 1500000 2000000 1 11 registrations
      two_rows working_row two_rows-IsBalanced refl refl (omega arith)

run_cleanup_cycle-IsReport_example :
    IsReport
      (λ r. false)
      2000000
      (pos 1)
      two_rows
      (run_cleanup_cycle (λ r. false) 2000000 (pos 1) two_rows)
run_cleanup_cycle-IsReport_example =
    run_cleanup_cycle-IsReport (λ r. false) 2000000 (pos 1) two_rows two_rows-IsBalanced

-- The cycle after the heartbeat returns: it expires the reservation without an owner.
abbrev swept_stats : ReservationCleanupStats
swept_stats = record { inspected = 1; released = 1; credits_released = 3; errors = 0 }

cycle_returns :
    (run_cleanup_cycle
      (λ r. false)
      2000000
      (pos 1)
      (heartbeat_active_reservations 1500000 (11 ∷ []) two_rows).1).0
    ≡ ok swept_stats
unfolding run_cleanup_cycle expire_stale_reservations touch_usage_reservation_activity
    expire_usage_reservation lock_and_validate_counters validate_reserved_counters
    release_usage_quantities heartbeat_active_reservations in_own_session ◌>>=◌
    or_configuration_unless lock_stale_usage_reservations expire_each expire_one record_quantities
    or_configuration lock_usage_counters
cycle_returns = refl
