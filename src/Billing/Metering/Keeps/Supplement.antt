-- ===== src/Billing/Metering/Keeps/Supplement.antt =====
-- The two supplements of a reservation keep the invariant when they return.
use open_aipoject.Prelude.{
  ℕ, ◌+◌, ◌<◌, ◌≡◌, refl, sym, ◌-◌, false, ◌&&◌, some, arith, ltb, leb, min, not, Bool, true,
}
use mathlib.Core.Path.{subst}
use open_aipoject.Billing.Metering.Keeps.Settle.{persist_settlement-IsBalanced}
use open_aipoject.Billing.Quantities.{Quantities, ai_credits, record_quantities, get_or_zero}
use open_aipoject.Billing.Store.{Reservation, Db, find_id, State, reserved, settled}
use open_aipoject.Billing.Metering.Rebalance.{IsLocked, recorded_claim}
use open_aipoject.Billing.Metering.Invariant.Sums.{IsBalanced}
use open_aipoject.Billing.Session.Ensures.{
  Ensures, Ensures-bind, Ensures-or_configuration, lift-bind, or_raise-bind, reads-bind, Ensures-if,
  guard-bind,
}
use open_aipoject.Billing.Session.{pure}
use open_aipoject.Billing.Metering.Supplement.{
  Supplemented, remaining, supplement_if_fits, supplement_by_state, successful_of,
  settle_usage_with_supplement, is_active, enlarge, enlarge_if_fits, supplement_usage_reservation,
}
use open_aipoject.Billing.Metering.Reads.{
  to_reservation-Same, validate-Same, lock_and_validate-Same, locked-bind,
}
use open_aipoject.Billing.Errors.{ok}
use open_aipoject.Billing.Metering.Lifecycle.{persist_settlement}
use open_aipoject.Prelude.PyInt.{ℤ}
use open_aipoject.Billing.Metering.Keeps.Enlarge.{claim, enlargement}

-- After a supplement the row is still locked, and its claim is what the caller goes on with.
record IsSupplemented (i : ℕ) (sup : Supplemented) (db : Db) : Type 0 where
  balanced : IsBalanced db
  quantity : ℕ
  locked : IsLocked i sup.row quantity db
  requested : sup.requested ≡ claim quantity

supplement_if_fits-IsSupplemented :
    (now i n limit a left : ℕ) (r : Reservation) (db : Db)
    → IsBalanced db
    → IsLocked i r n db
    → Ensures (IsSupplemented i) (supplement_if_fits now i limit r (claim n) a left db)
unfolding supplement_if_fits
supplement_if_fits-IsSupplemented now i n limit a left r db b l =
    Ensures-if _ (ltb 0 a && leb a left) _ _ db
      (λ fits. Ensures-or_configuration _ _ db (
        enlargement now i n a r db _ _ b l (ground arith) (λ s db' b' l'. record {
          balanced = b';
          quantity = n + a;
          locked = l';
          requested = refl;
        })))
      (λ _. record { balanced = b; quantity = n; locked = l; requested = refl })

supplement_by_state-IsBalanced :
    (now i actual limit : ℕ) (requested : Quantities) (st : State) (r : Reservation) (db : Db)
    → IsBalanced db
    → find_id i db.reservations ≡ some r
    → r.state ≡ st
    → record_quantities false r.requested ≡ ok requested
    → Ensures (λ _. IsBalanced) (supplement_by_state now i actual limit requested st r db)
unfolding supplement_by_state
supplement_by_state-IsBalanced now i actual limit requested reserved r db b found st e =
    let (n, q, c, pos) = recorded_claim i r db b found e in
    or_raise-bind _ _ _ _ db (λ originally _.
      reads-bind _ _ _ db (lock_and_validate-Same r.period requested db) (λ counters.
        reads-bind _ _ _ db (validate-Same counters requested db) (λ _.
          or_raise-bind _ _ _ _ db (λ counter _.
            Ensures-bind (IsSupplemented i) _ _ _ db
              (rw q (
                supplement_if_fits-IsSupplemented now i n limit (actual - originally)
                  (remaining limit counter) r db b (found, st, c, pos)))
              (λ sup db' s.
                Ensures-bind (λ _. IsBalanced) _ _ _ db'
                  (subst
                    (λ t.
                      Ensures (λ _. IsBalanced)
                        (persist_settlement now sup.row t
                          (successful_of (min actual (get_or_zero ai_credits t))) db'))
                    (sym s.requested)
                    (persist_settlement-IsBalanced now i s.quantity sup.row _ db' s.locked
                      s.balanced))
                  (λ row db'' b''.
                    reads-bind _ _ _ db'' (to_reservation-Same row db'') (λ _. b'')))))))
supplement_by_state-IsBalanced now i actual limit requested settled r db b found st e =
    lift-bind _ _ _ db (λ recorded _. reads-bind _ _ _ db (to_reservation-Same r db) (λ _. b))
supplement_by_state-IsBalanced now i actual limit requested _ r db b found st e = tt

-- A settlement with a supplement that returns keeps every sum.
pub settle_usage_with_supplement-IsBalanced :
    (now i : ℕ) (actual limit : ℤ) (db : Db)
    → IsBalanced db
    → Ensures (λ _. IsBalanced) (settle_usage_with_supplement now i actual limit db)
unfolding settle_usage_with_supplement
settle_usage_with_supplement-IsBalanced now i actual limit db b = lift-bind _ _ _ db (λ a _.
    lift-bind _ _ _ db (λ m _. locked-bind _ i _ db (λ r found. lift-bind _ _ _ db (λ requested e.
      supplement_by_state-IsBalanced now i a m requested r.state r db b found refl e))))

enlarge-IsBalanced :
    (now i n a : ℕ) (r : Reservation) (db : Db)
    → IsBalanced db
    → IsLocked i r n db
    → 0 < a
    → Ensures (λ _. IsBalanced) (enlarge now i r (claim n) a (n + a) db)
unfolding enlarge
enlarge-IsBalanced now i n a r db b l h =
    Ensures-or_configuration _ _ db (enlargement now i n a r db _ _ b l h (λ s db' b' l'. b'))

-- The target is what was reserved and what is added.
reached : (n target : ℕ) → leb target n ≡ false → (0 < target - n) × (n + (target - n) ≡ target)
reached n target h = ground arith

enlarge_if_fits-IsBalanced :
    (now i n target limit : ℕ) (r : Reservation) (db : Db)
    → IsBalanced db
    → IsLocked i r n db
    → leb target n ≡ false
    → Ensures (λ _. IsBalanced) (enlarge_if_fits now i target limit (claim n) r db)
unfolding enlarge_if_fits
enlarge_if_fits-IsBalanced now i n target limit r db b l above =
    reads-bind _ _ _ db (lock_and_validate-Same r.period (claim n) db) (λ counters.
      reads-bind _ _ _ db (validate-Same counters (claim n) db) (λ _.
        or_raise-bind _ _ _ _ db (λ counter _.
          Ensures-if {A = Bool} (λ _. IsBalanced) (ltb (remaining limit counter) (target - n))
            (pure false) (enlarge now i r (claim n) (target - n) target) db (λ _. b)
            (λ _.
              subst (λ t. Ensures (λ _. IsBalanced) (enlarge now i r (claim n) (target - n) t db))
                (reached n target above).1
                (enlarge-IsBalanced now i n (target - n) r db b l (reached n target above).0)))))

-- A supplement that returns keeps every sum, whether the target fitted or not.
pub supplement_usage_reservation-IsBalanced :
    (now i : ℕ) (target : ℤ) (limit : ℕ) (db : Db)
    → IsBalanced db
    → Ensures (λ _. IsBalanced) (supplement_usage_reservation now i target limit db)
unfolding supplement_usage_reservation
supplement_usage_reservation-IsBalanced now i target limit db b = lift-bind _ _ _ db (λ t _.
    locked-bind _ i _ db (λ r found. guard-bind _ _ _ _ db (λ active.
      lift-bind _ _ _ db (λ requested e.
        let (n, q, c, h) = recorded_claim i r db b found e in
        Ensures-if {A = Bool} (λ _. IsBalanced) (leb t (get_or_zero ai_credits requested))
          (pure true) (enlarge_if_fits now i t limit requested r) db (λ _. b)
          (λ above.
            subst (λ c. Ensures (λ _. IsBalanced) (enlarge_if_fits now i t limit c r db)) (sym q)
              (enlarge_if_fits-IsBalanced now i n t limit r db b
                (found, active_state r.state active, c, h)
                (subst (λ c. leb t (get_or_zero ai_credits c) ≡ false) q above)))))))
  where
    active_state : (st : State) → not (is_active st) ≡ false → st ≡ reserved
    active_state reserved e = refl
    active_state _ e = cc
