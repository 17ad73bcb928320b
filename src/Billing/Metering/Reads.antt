-- ===== src/Billing/Metering/Reads.antt =====
-- The steps of the service that read and leave the session as it is.
use open_aipoject.Billing.Session.{db_uow, pure, ◌>>◌, Session, ◌>>=◌}
use open_aipoject.Billing.Session.Ensures.{
  gets-bind, Ensures, Ensures-mono, Ensures-bind, Ensures-or_raise, Ensures-or_configuration,
  lift-bind, reads-bind, guard-bind,
}
use open_aipoject.Billing.Repository.Reservations.{get_usage_reservation_by_id}
use open_aipoject.Billing.Metering.Checks.{
  locked_reservation, to_reservation, lock_and_validate_counters, validate_reserved_counters,
  check_each,
}
use open_aipoject.Billing.Store.{find_id, Db, Reservation}
use open_aipoject.Billing.Errors.{err, ok, Result}
use open_aipoject.Prelude.{ℕ, ◌≡◌, refl, sym, false, none, List, [], ◌∷◌, arith, some}
use mathlib.Core.Path.{subst}
use open_aipoject.Billing.Quantities.{Meter, Quantities, meter_keys, record_quantities}
use open_aipoject.Billing.Repository.Counters.{lock_usage_counters}
use open_aipoject.Billing.Metering.Invariant.Sums.{IsBalanced, IsClaim}

-- A session that is left as it was.
abbrev pub Same : {A : Type 0} → Db → A → Db → Type 0
Same db a db' = db' ≡ db

pub to_reservation-Same : (r : Reservation) (db : Db) → Ensures (Same db) (to_reservation r db)
unfolding to_reservation
to_reservation-Same r db = lift-bind _ _ _ db (λ q _. lift-bind _ _ _ db (λ s _. refl))

-- The row that is returned leaves the session as it is.
pub after_reading :
    (r : Reservation) (db : Db) → IsBalanced db → Ensures (λ _. IsBalanced) (to_reservation r db)
after_reading r db b =
    Ensures-mono (Same db) (λ _. IsBalanced) (to_reservation r db)
      (λ _ db' e. subst IsBalanced (sym e) b) (to_reservation-Same r db)

pub validate-Same :
    (cs : List _) (q : Quantities) (db : Db)
    → Ensures (Same db) (validate_reserved_counters cs q db)
unfolding validate_reserved_counters
validate-Same cs [] db = refl
validate-Same cs (e ∷ q) db = guard-bind _ _ _ _ db (λ _. validate-Same cs q db)

pub check_each-Same :
    (eff : _) (cs : List _) (q : Quantities) (db : Db) → Ensures (Same db) (check_each eff cs q db)
unfolding check_each
check_each-Same eff cs [] db = refl
check_each-Same eff cs (e ∷ q) db = lift-bind _ _ _ db (λ _ _. check_each-Same eff cs q db)

pub locked_rows-Same :
    (p : ℕ) (ms : List Meter) (db : Db)
    → Ensures (Same db) ((pure tt >> lock_usage_counters p ms) db)
unfolding lock_usage_counters
locked_rows-Same p ms db = Ensures-bind (Same db) _ (pure tt) _ db refl (λ _ db' e.
    subst (λ d. Ensures (Same db) (lock_usage_counters p ms d)) (sym e)
      (reads-bind _ _ _ db refl (λ o. Ensures-or_raise _ _ o db (λ _ _. refl))))

pub lock_and_validate-Same :
    (p : ℕ) (q : Quantities) (db : Db)
    → Ensures (Same db) (lock_and_validate_counters p q none false db)
unfolding lock_and_validate_counters
lock_and_validate-Same p q db =
    reads-bind _ _ _ db (Ensures-or_configuration _ _ db (locked_rows-Same p (meter_keys q) db))
      (λ cs. reads-bind _ _ _ db (check_each-Same none cs q db) (λ _. refl))

-- The rows' claims pass through `_record_quantities` unchanged.
pub record_quantities-claim : (q : Quantities) → IsClaim q → record_quantities false q ≡ ok q
unfolding record_quantities
record_quantities-claim [] h = absurd h
record_quantities-claim ((m, n) ∷ []) h = ground arith
record_quantities-claim (e ∷ f ∷ q) h = absurd h

locked-Same :
    (i : ℕ) (db : Db)
    → Ensures (λ r db'. (db' ≡ db) × (find_id i db.reservations ≡ some r)) (locked_reservation i db)
unfolding locked_reservation get_usage_reservation_by_id
locked-Same i db =
    gets-bind _ _ _ db (Ensures-or_raise _ _ (find_id i db.reservations) db (λ r e. (refl, e)))

-- What follows the lock on a reservation goes on with the row that has its ID.
pub locked-bind :
    {A : Type 0} (Q : A → Db → Type 0) (i : ℕ) (k : Reservation → Session A) (db : Db)
    → ((r : Reservation) → find_id i db.reservations ≡ some r → Ensures Q (k r db))
    → Ensures Q ((locked_reservation i >>= k) db)
locked-bind Q i k db h =
    Ensures-bind (λ r db'. (db' ≡ db) × (find_id i db.reservations ≡ some r)) Q
      (locked_reservation i) k db (locked-Same i db)
      (λ r db' e. subst (λ d. Ensures Q (k r d)) (sym e.0) (h r e.1))

-- A unit of work that keeps the invariant when it returns keeps it always.
pub db_uow-IsBalanced :
    {A : Type 0} (before : Db) (r : Result A × Db)
    → IsBalanced before
    → Ensures (λ _. IsBalanced) r
    → IsBalanced (db_uow before r)
unfolding db_uow
db_uow-IsBalanced before (ok a, db) b h = h
db_uow-IsBalanced before (err e, db) b h = b
