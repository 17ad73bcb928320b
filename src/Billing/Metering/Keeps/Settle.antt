-- ===== src/Billing/Metering/Keeps/Settle.antt =====
-- `settle_usage` keeps the invariant when it returns.
use open_aipoject.Prelude.{ℕ, ◌≡◌, refl, sym, ap, ◌∙◌, false, some, [], ◌∷◌, arith, String, List}
use mathlib.Core.Path.{subst}
use open_aipoject.Prelude.PyInt.{PyValue}
use open_aipoject.Billing.Metering.Lifecycle.{settle_usage, settle_by_state, persist_settlement}
use open_aipoject.Billing.Metering.Reads.{
  locked-bind, after_reading, validate-Same, lock_and_validate-Same,
}
use open_aipoject.Billing.Errors.{ok}
use open_aipoject.Billing.Quantities.{ai_credits, Quantities, record_quantities, sum_values}
use open_aipoject.Billing.Store.{Db, State, reserved, settled, Reservation, find_id}
use open_aipoject.Billing.Session.Ensures.{
  Ensures, Ensures-mono, Ensures-bind, Ensures-or_configuration, lift-bind, or_raise-bind,
  gets-bind, reads-bind, guard-bind,
}
use open_aipoject.Billing.Repository.Counters.{nonzero_entries, exceeds}
use open_aipoject.Billing.Repository.Reservations.{
  mark_settled, settle_found, settle_usage_reservation,
}
use open_aipoject.Billing.Metering.Invariant.Sums.{IsBalanced, IsRow, IsClaim, HasUniqueKeys}
use open_aipoject.Billing.Metering.Invariant.RowUpdates.{KeepsKeys, find_request_of_find_id}
use open_aipoject.Billing.Metering.Effects.{Moves, Rewrites, settle_usage_quantities-Moves}
use open_aipoject.Billing.Metering.Invariant.Singles.{charge_of, sum_values-charge, charge-le}
use open_aipoject.Billing.Metering.Rebalance.{
  rebalanced, IsLocked, updated_row, moved_lock, held_claim, charged_claim, recorded_claim,
}

pub mark_settled-KeepsKeys : (now : ℕ) (q : Quantities) → KeepsKeys (mark_settled now q)
mark_settled-KeepsKeys now q = record {
  id = λ r. refl;
  account = λ r. refl;
  request_id = λ r. refl;
  period = λ r. refl;
}

pub settle_found-Rewrites :
    (now i n : ℕ) (q : Quantities) (st : State) (r : Reservation) (db : Db)
    → IsLocked i r n db
    → st ≡ reserved
    → Ensures (λ _ db'. Rewrites (mark_settled now q) r db db') (settle_found now q st r db)
unfolding settle_found
settle_found-Rewrites now i n q reserved r db l e =
    updated_row i _ r db (mark_settled-KeepsKeys now q) l
settle_found-Rewrites now i n q _ r db l e = cc

pub settle_usage_reservation-Rewrites :
    (now i n : ℕ) (successful : Quantities) (r : Reservation) (db : Db)
    → IsLocked i r n db
    → HasUniqueKeys db.reservations
    → Ensures
        (λ _ db'.
          Rewrites (mark_settled now (nonzero_entries successful [])) r db db'
          × (exceeds r.requested (nonzero_entries successful []) ≡ false))
        (settle_usage_reservation now r.account r.request_id successful db)
unfolding settle_usage_reservation
settle_usage_reservation-Rewrites now i n successful r db l u = gets-bind _ _ _ db (
    or_raise-bind _ _ _ _ db (λ existing e.
      let same : existing ≡ r = cc (find_request_of_find_id i db.reservations u l.0) in
      rw same (
        guard-bind _ _ _ _ db (λ within.
          Ensures-mono (λ _. Rewrites (mark_settled now (nonzero_entries successful [])) r db) _
            (settle_found now (nonzero_entries successful []) r.state r db) (λ _ _ w. (w, within))
            (settle_found-Rewrites now i n _ r.state r db l l.1)))))

-- The row of a settlement, which was locked with the claim `n`.
pub settled_row :
    (now i n : ℕ) (r : Reservation) (q : Quantities) (db : Db)
    → IsLocked i r n db
    → exceeds r.requested (nonzero_entries q []) ≡ false
    → IsRow (mark_settled now (nonzero_entries q []) r)
settled_row now i n r q db l within = (
  subst IsClaim (sym l.2) l.3,
  omega (
    arith,
    sum_values-charge q,
    charge-le n q (ap (λ c. exceeds c (nonzero_entries q [])) (sym l.2) ∙ within),
    ap sum_values l.2,
  ),
)

pub persist_settlement-IsBalanced :
    (now i n : ℕ) (r : Reservation) (successful : Quantities) (db : Db)
    → IsLocked i r n db
    → IsBalanced db
    → Ensures (λ _. IsBalanced) (persist_settlement now r ((ai_credits, n) ∷ []) successful db)
unfolding persist_settlement
persist_settlement-IsBalanced now i n r successful db l b = Ensures-or_configuration _ _ db (
    Ensures-bind (λ _. Moves r.period 0 n (charge_of successful) db) _ _ _ db
      (settle_usage_quantities-Moves r.period n successful db l.3)
      (λ _ db' m.
        Ensures-mono
          (λ _ db''.
            Rewrites (mark_settled now (nonzero_entries successful [])) r db' db''
            × (exceeds r.requested (nonzero_entries successful []) ≡ false))
          (λ _. IsBalanced) (settle_usage_reservation now r.account r.request_id successful db')
          (λ _ db'' w.
            rebalanced (mark_settled now (nonzero_entries successful [])) r b m w.0 refl
              (settled_row now i n r successful db' (moved_lock i n m l) w.1)
              (held_claim r n l.1 l.2)
              (omega (arith, sum_values-charge successful, charged_claim r l.1)))
          (settle_usage_reservation-Rewrites now i n successful r db' (moved_lock i n m l)
            (subst (λ rs. HasUniqueKeys rs) (sym m.rows) b.unique))))

pub settle_by_state-IsBalanced :
    (now i : ℕ) (successful requested : Quantities) (st : State) (r : Reservation) (db : Db)
    → IsBalanced db
    → find_id i db.reservations ≡ some r
    → r.state ≡ st
    → record_quantities false r.requested ≡ ok requested
    → Ensures (λ _. IsBalanced) (settle_by_state now successful requested st r db)
unfolding settle_by_state
settle_by_state-IsBalanced now i successful requested reserved r db b found st e =
    let (n, q, c, pos) = recorded_claim i r db b found e in
    reads-bind _ _ _ db (lock_and_validate-Same r.period requested db) (λ counters.
      reads-bind _ _ _ db (validate-Same counters requested db) (λ _.
        Ensures-bind (λ _. IsBalanced) _ _ _ db
          (rw q (persist_settlement-IsBalanced now i n r successful db (found, st, c, pos) b))
          (λ row db' b'. after_reading row db' b')))
settle_by_state-IsBalanced now i successful requested settled r db b found st e =
    lift-bind _ _ _ db (λ recorded _. guard-bind _ _ _ _ db (λ _. after_reading r db b))
settle_by_state-IsBalanced now i successful requested _ r db b found st e = tt

-- A settlement that returns keeps every sum, whatever quantities it is given.
pub settle_usage-IsBalanced :
    (now i : ℕ) (quantities : List (String × PyValue)) (db : Db)
    → IsBalanced db
    → Ensures (λ _. IsBalanced) (settle_usage now i quantities db)
unfolding settle_usage
settle_usage-IsBalanced now i quantities db b = lift-bind _ _ _ db (λ successful _.
    locked-bind _ i _ db (λ r found. lift-bind _ _ _ db (λ requested e.
      guard-bind _ _ _ _ db
        (λ _. settle_by_state-IsBalanced now i successful requested r.state r db b found refl e))))
