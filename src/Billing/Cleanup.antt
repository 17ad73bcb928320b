-- ===== src/Billing/Cleanup.antt =====
-- server/billing/reservation_cleanup.py: the leases of the reservations that this process owns, and
-- the cycle that expires those without one. The set under `_active_lock` is a list of IDs, each
-- once.
pub mod Leases
pub mod Outcomes
mod Tests
use open_aipoject.Prelude.PyInt.{negsuc, pos, ℤ}
use open_aipoject.Prelude.{
  ℕ, suc, ◌-◌, ◌*◌, Bool, ◌&&◌, List, [], ◌∷◌, ◌==◌, if◌then◌else◌, length, filter, not,
}
use open_aipoject.Billing.Session.{◌>>=◌, ◌>>◌, Session, pure, raise, gets}
use open_aipoject.Billing.Errors.{Result, ok, err, value_error}
use open_aipoject.Billing.Store.{is_reserved, Reservation, Db, contains_account}
use open_aipoject.Billing.Repository.Reservations.{touch_usage_reservation_activity}
use open_aipoject.Billing.Metering.Supplement.{StaleReservationExpiry, expire_stale_reservations}

-- `ReservationCleanupStats`
pub record ReservationCleanupStats : Type 0 where
  pub inspected : ℕ
  pub released : ℕ
  pub credits_released : ℕ
  pub errors : ℕ

unfoldable pub register_active_reservation : ℕ → List ℕ → List ℕ
register_active_reservation id active = if contains_account id active then active else id ∷ active

unfoldable pub unregister_active_reservation : ℕ → List ℕ → List ℕ
unregister_active_reservation id active = filter (λ i. not (i == id)) active

module _ {A : Type 0} where
  abbrev closed : Db → Result A × Db → Result A × Db
  closed before (ok a, db) = (ok a, db)
  closed before (err e, db) = (err e, before)

  -- A session of one's own: commit at the end, roll back and raise again on an exception.
  unfoldable pub in_own_session : Session A → Session A
  in_own_session m db = closed db (m db)

-- The rows that `touch_usage_reservation_activity` updates.
abbrev pub is_touched : List ℕ → Reservation → Bool
is_touched ids r = contains_account r.id ids && is_reserved r.state

unfoldable pub heartbeat_active_reservations : ℕ → List ℕ → Session ℕ
heartbeat_active_reservations now [] = pure 0
heartbeat_active_reservations now (id ∷ ids) = in_own_session do
  n ← gets (λ db. length (filter (is_touched (id ∷ ids)) db.reservations))
  touch_usage_reservation_activity now (id ∷ ids)
  pure n

-- A timestamp counts microseconds. A cutoff before the first timestamp is 0: no row is older.
abbrev pub stale_cutoff : ℕ → ℕ → ℕ
stale_cutoff now stale_after_seconds = now - 1000000 * stale_after_seconds

abbrev pub stats_of : StaleReservationExpiry → ReservationCleanupStats
stats_of outcome = record {
  inspected = outcome.inspected;
  released = outcome.released;
  credits_released = outcome.credits_released;
  errors = 0;
}

unfoldable pub run_cleanup_cycle : (Reservation → Bool) → ℕ → ℤ → Session ReservationCleanupStats
run_cleanup_cycle is_locked now (negsuc n) = raise value_error
run_cleanup_cycle is_locked now (pos n) =
    if n == 0
    then raise value_error
    else in_own_session do
      outcome ← expire_stale_reservations is_locked now (stale_cutoff now n)
      pure (stats_of outcome)
