-- ===== src/Billing/Metering/Keeps/Release.antt =====
-- `release_usage` keeps the invariant when it returns.
use open_aipoject.Prelude.{String, ◌≡◌, refl, sym, Option, some, ◌∷◌, arith, ℕ, []}
use open_aipoject.Billing.Session.{or_configuration, ◌>>◌}
use open_aipoject.Billing.Quantities.{Quantities, ai_credits}
use open_aipoject.Billing.Store.{State, Reservation, find_id, Db, reserved, released}
use open_aipoject.Billing.Session.Ensures.{
  Ensures, Ensures-mono, Ensures-or_configuration, Ensures-bind, lift-bind, or_raise-bind,
  gets-bind, reads-bind,
}
use open_aipoject.Billing.Repository.Counters.{release_usage_quantities}
use open_aipoject.Billing.Repository.Reservations.{
  mark_released, release_found, release_usage_reservation,
}
use open_aipoject.Billing.Metering.Effects.{Moves, Rewrites, release_usage_quantities-Moves}
use open_aipoject.Billing.Metering.Supplement.{release_by_state, release_usage}
use open_aipoject.Billing.Metering.Rebalance.{
  rebalanced, IsLocked, updated_row, moved_lock, held_claim, charged_claim, recorded_claim,
}
use open_aipoject.Billing.Metering.Reads.{
  after_reading, validate-Same, lock_and_validate-Same, locked-bind,
}
use open_aipoject.Billing.Metering.Invariant.Sums.{
  held_by, charged_by, IsClaim, HasUniqueKeys, IsBalanced,
}
use open_aipoject.Billing.Metering.Invariant.RowUpdates.{KeepsKeys, find_request_of_find_id}
use mathlib.Core.Path.{subst}

pub mark_released-KeepsKeys :
    (now : ℕ) (s : State) (reason : String) → KeepsKeys (mark_released now s reason)
mark_released-KeepsKeys now s reason = record {
  id = λ r. refl;
  account = λ r. refl;
  request_id = λ r. refl;
  period = λ r. refl;
}

-- What a release returns to the period is what the row claims.
pub given_back :
    (now i n : ℕ) (s : State) (reason : String) (r : Reservation) {db db' db'' : Db}
    → ((q : Quantities) → held_by s q ≡ 0)
    → ((q : Option Quantities) → charged_by s q ≡ 0)
    → IsBalanced db
    → IsLocked i r n db
    → Moves r.period 0 n 0 db db'
    → Rewrites (mark_released now s reason) r db' db''
    → IsBalanced db''
given_back now i n s reason r {db} held charged b l m w =
    rebalanced (mark_released now s reason) r b m w refl
      (subst IsClaim (sym l.2) l.3, omega (arith, charged r.settled))
      (omega (arith, held r.requested, held_claim r n l.1 l.2))
      (omega (arith, charged r.settled, charged_claim r l.1))

release_found-Rewrites :
    (now i n : ℕ) (reason : String) (st : State) (r : Reservation) (db : Db)
    → IsLocked i r n db
    → st ≡ reserved
    → Ensures
        (λ _ db'. Rewrites (mark_released now released reason) r db db')
        (release_found now reason st r db)
unfolding release_found
release_found-Rewrites now i n reason reserved r db l e =
    updated_row i _ r db (mark_released-KeepsKeys now released reason) l
release_found-Rewrites now i n reason _ r db l e = cc

release_usage_reservation-Rewrites :
    (now i n : ℕ) (reason : String) (r : Reservation) (db : Db)
    → IsLocked i r n db
    → HasUniqueKeys db.reservations
    → Ensures
        (λ _ db'. Rewrites (mark_released now released reason) r db db')
        (release_usage_reservation now r.account r.request_id reason db)
unfolding release_usage_reservation
release_usage_reservation-Rewrites now i n reason r db l u = gets-bind _ _ _ db (
    or_raise-bind _ _ _ _ db (λ existing e.
      let same : existing ≡ r = cc (find_request_of_find_id i db.reservations u l.0) in
      rw same (release_found-Rewrites now i n reason r.state r db l l.1)))

release_both-IsBalanced :
    (now i n : ℕ) (reason : String) (r : Reservation) (db : Db)
    → IsLocked i r n db
    → IsBalanced db
    → Ensures
        (λ _. IsBalanced)
        (or_configuration
          (release_usage_quantities r.period ((ai_credits, n) ∷ [])
            >> release_usage_reservation now r.account r.request_id reason)
          db)
release_both-IsBalanced now i n reason r db l b = Ensures-or_configuration _ _ db (
    Ensures-bind (λ _. Moves r.period 0 n 0 db) _ _ _ db
      (release_usage_quantities-Moves r.period n db l.3)
      (λ _ db' m.
        Ensures-mono (λ _ db''. Rewrites (mark_released now released reason) r db' db'')
          (λ _. IsBalanced) (release_usage_reservation now r.account r.request_id reason db')
          (λ _ db'' w. given_back now i n released reason r (λ _. refl) (λ _. refl) b l m w)
          (release_usage_reservation-Rewrites now i n reason r db' (moved_lock i n m l)
            (subst (λ rs. HasUniqueKeys rs) (sym m.rows) b.unique))))

release_by_state-IsBalanced :
    (now i : ℕ) (reason : String) (st : State) (r : Reservation) (db : Db)
    → IsBalanced db
    → find_id i db.reservations ≡ some r
    → r.state ≡ st
    → Ensures (λ _. IsBalanced) (release_by_state now reason st r db)
unfolding release_by_state
release_by_state-IsBalanced now i reason released r db b found st = after_reading r db b
release_by_state-IsBalanced now i reason reserved r db b found st =
    lift-bind _ _ _ db (λ requested e.
      let (n, q, c, pos) = recorded_claim i r db b found e in
      reads-bind _ _ _ db (lock_and_validate-Same r.period requested db) (λ counters.
        reads-bind _ _ _ db (validate-Same counters requested db) (λ _.
          Ensures-bind (λ _. IsBalanced) _ _ _ db
            (rw q (release_both-IsBalanced now i n reason r db (found, st, c, pos) b))
            (λ row db' b'. after_reading row db' b'))))
release_by_state-IsBalanced now i reason _ r db b found st = tt

-- A release that returns keeps every sum.
pub release_usage-IsBalanced :
    (now i : ℕ) (reason : String) (db : Db)
    → IsBalanced db
    → Ensures (λ _. IsBalanced) (release_usage now i reason db)
unfolding release_usage
release_usage-IsBalanced now i reason db b = lift-bind _ _ _ db (λ text _.
    locked-bind _ i _ db
      (λ r found. release_by_state-IsBalanced now i text r.state r db b found refl))
