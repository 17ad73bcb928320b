-- ===== src/Billing/Metering/Keeps/Enlarge.antt =====
-- A larger claim of a row keeps the invariant.
use open_aipoject.Prelude.{ℕ, ◌+◌, ◌∷◌, [], ◌<◌, ◌≡◌, refl, sym, ◌∙◌, arith}
use mathlib.Core.Path.{subst, ap₂, ap}
use open_aipoject.Billing.Quantities.{Quantities, ai_credits}
use open_aipoject.Billing.Repository.Reservations.{
  update_usage_reservation_requested_quantities, expand,
}
use open_aipoject.Billing.Store.{Reservation, Db, is_reserved, find_id}
use open_aipoject.Billing.Metering.Invariant.RowUpdates.{KeepsKeys, find_id-id}
use open_aipoject.Billing.Metering.Rebalance.{IsLocked, rebalanced, moved_lock, charged_claim}
use open_aipoject.Billing.Metering.Invariant.Sums.{IsBalanced, held_by}
use open_aipoject.Billing.Metering.Effects.{
  Moves, Rewrites, after_normalization, reserve_usage_quantities-Moves, update_reservation-Rewrites,
}
use open_aipoject.Billing.Session.Ensures.{Ensures, Ensures-bind}
use open_aipoject.Billing.Session.{◌>>◌, Session, ◌>>=◌}
use open_aipoject.Billing.Repository.Counters.{reserve_usage_quantities}

pub expand-KeepsKeys : (now : ℕ) (q : Quantities) → KeepsKeys (expand now q)
expand-KeepsKeys now q = record {
  id = λ r. refl;
  account = λ r. refl;
  request_id = λ r. refl;
  period = λ r. refl;
}

abbrev pub claim : ℕ → Quantities
claim n = (ai_credits, n) ∷ []

expanded :
    (now i n m : ℕ) (r : Reservation) (db : Db)
    → IsLocked i r n db
    → 0 < m
    → Ensures
        (λ s db'. (s ≡ expand now (claim m) r) × Rewrites (expand now (claim m)) r db db')
        (update_usage_reservation_requested_quantities now i (claim m) db)
unfolding update_usage_reservation_requested_quantities
expanded now i n m r db l pos = after_normalization _ m _ db pos (
    update_reservation-Rewrites i (expand now (claim m)) db (expand-KeepsKeys now (claim m)) l.0
      (ap is_reserved l.1))

-- More is reserved in the period, and the row claims as much more.
enlarged :
    (now i n a : ℕ) (r : Reservation) {db db' db'' : Db}
    → IsBalanced db
    → IsLocked i r n db
    → Moves r.period a 0 0 db db'
    → Rewrites (expand now (claim (n + a))) r db' db''
    → IsBalanced db''
enlarged now i n a r {db} b l m w =
    rebalanced (expand now (claim (n + a))) r b m w refl
      (omega (arith, l.3), omega (arith, charged_claim r l.1))
      (omega (arith, ap (λ st. held_by st (claim (n + a))) l.1, ap₂ held_by l.1 l.2)) (omega arith)

-- The row is locked as before, with the larger claim.
enlarged_lock :
    (now i n m : ℕ) (r : Reservation) (db : Db) {db' : Db} (db'' : Db)
    → IsLocked i r n db
    → 0 < m
    → Rewrites (expand now (claim m)) r db' db''
    → IsLocked i (expand now (claim m) r) m db''
enlarged_lock now i n m r db db'' l pos w = (
  ap (λ j. find_id j db''.reservations) (sym (find_id-id i db.reservations l.0)) ∙ w.found,
  l.1,
  refl,
  pos,
)

-- What follows the two writes of a supplement goes on with the larger claim.
pub enlargement :
    (now i n a : ℕ) (r : Reservation) (db : Db) {A : Type 0} (Q : A → Db → Type 0)
    (k : Reservation → Session A)
    → IsBalanced db
    → IsLocked i r n db
    → 0 < a
    → ((s : Reservation) (db' : Db)
        → IsBalanced db'
        → IsLocked i s (n + a) db'
        → Ensures Q (k s db'))
    → Ensures Q (
        (reserve_usage_quantities r.period (claim a)
            >> (update_usage_reservation_requested_quantities now i (claim (n + a)) >>= k))
          db)
enlargement now i n a r db Q k b l pos h =
    Ensures-bind (λ _. Moves r.period a 0 0 db) Q (reserve_usage_quantities r.period (claim a)) _ db
      (reserve_usage_quantities-Moves r.period a db pos)
      (λ _ db' m.
        Ensures-bind
          (λ s db''.
            (s ≡ expand now (claim (n + a)) r) × Rewrites (expand now (claim (n + a))) r db' db'')
          Q (update_usage_reservation_requested_quantities now i (claim (n + a))) k db'
          (expanded now i n (n + a) r db' (moved_lock i n m l) (omega (arith, l.3)))
          (λ s db'' w. h s db'' (enlarged now i n a r b l m w.1) (
            subst (λ t. IsLocked i t (n + a) db'') (sym w.0)
              (enlarged_lock now i n (n + a) r db db'' l (omega (arith, l.3)) w.1))))
