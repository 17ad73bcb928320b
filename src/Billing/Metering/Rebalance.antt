-- ===== src/Billing/Metering/Rebalance.antt =====
-- A change of the counters and the matching change of a row keep the invariant.
use open_aipoject.Prelude.{ℕ, ◌+◌, ◌<◌, ◌≡◌, refl, sym, ap, ◌∙◌, false, some, [], ◌∷◌, arith, All}
use mathlib.Core.Path.{subst, ap₂}
use open_aipoject.Billing.Errors.{ok}
use open_aipoject.Billing.Quantities.{ai_credits, Quantities, record_quantities}
use open_aipoject.Billing.Store.{Db, reserved, Reservation, find_id, is_reserved}
use open_aipoject.Billing.Session.Ensures.{Ensures, Ensures-mono}
use open_aipoject.Billing.Repository.Reservations.{update_reservation}
use open_aipoject.Billing.Metering.Invariant.Sums.{
  IsBalanced, IsRow, IsClaim, HasUniqueKeys, held_row, charged_row, held_at, charged_at, in_period,
  held_by, charged_by, reserved_in, used_in, total,
}
use open_aipoject.Billing.Metering.Invariant.RowUpdates.{KeepsKeys, find_id-id, find_id-IsRow}
use open_aipoject.Billing.Metering.Effects.{Moves, Rewrites, update_reservation-Rewrites}
use open_aipoject.Billing.Metering.Reads.{record_quantities-claim}

pub in_period_sum :
    (p q a b c d : ℕ)
    → a + b ≡ c + d
    → in_period p q a + in_period p q b ≡ in_period p q c + in_period p q d
in_period_sum p q a b c d h = ground arith

pub in_period_zero : (p q : ℕ) → in_period p q 0 ≡ 0
in_period_zero p q = ground arith

-- The tables after a change of the counters and a change of the row `r` that match.
pub rebalanced :
    {db db' db'' : Db} {inn out s : ℕ} (f : Reservation → Reservation) (r : Reservation)
    → IsBalanced db
    → Moves r.period inn out s db db'
    → Rewrites f r db' db''
    → (f r).period ≡ r.period
    → IsRow (f r)
    → held_row (f r) + out ≡ held_row r + inn
    → charged_row (f r) ≡ charged_row r + s
    → IsBalanced db''
rebalanced {db} {db'} {db''} {inn} {out} {s} f r b m w same row held charged = record {
  rows = w.rows row (subst (λ rs. All IsRow rs) (sym m.rows) b.rows);
  unique = w.unique (subst (λ rs. HasUniqueKeys rs) (sym m.rows) b.unique);
  held_exact = λ p. omega (
    arith,
    ap (reserved_in p) w.counters,
    m.reserved p,
    b.held_exact p,
    w.sums (held_at p),
    ap (total (held_at p)) m.rows,
    ap (λ t. in_period t p (held_row (f r))) same,
    in_period_sum r.period p (held_row (f r)) out (held_row r) inn held,
  );
  used_exact = λ p. omega (
    arith,
    ap (used_in p) w.counters,
    m.used p,
    b.used_exact p,
    w.sums (charged_at p),
    ap (total (charged_at p)) m.rows,
    ap (λ t. in_period t p (charged_row (f r))) same,
    in_period_sum r.period p (charged_row (f r)) 0 (charged_row r) s (omega (arith, charged)),
    in_period_zero r.period p,
  );
}

-- The row of a reservation that is locked and still reserved.
abbrev pub IsLocked : ℕ → Reservation → ℕ → Db → Type 0
IsLocked i r n db =
    (find_id i db.reservations ≡ some r)
    × (r.state ≡ reserved)
    × (r.requested ≡ (ai_credits, n) ∷ [])
    × (0 < n)

pub updated_row :
    (i : ℕ) (f : Reservation → Reservation) (r : Reservation) (db : Db) {n : ℕ}
    → KeepsKeys f
    → IsLocked i r n db
    → Ensures (λ _ db'. Rewrites f r db db') (update_reservation r.id f db)
updated_row i f r db keeps l =
    Ensures-mono (λ s db'. (s ≡ f r) × Rewrites f r db db') (λ _. Rewrites f r db)
      (update_reservation r.id f db) (λ _ _ w. w.1)
      (update_reservation-Rewrites r.id f db keeps
        (ap (λ j. find_id j db.reservations) (find_id-id i db.reservations l.0) ∙ l.0)
        (ap is_reserved l.1))

-- The lock outlasts a change of the counters.
pub moved_lock :
    (i n : ℕ) {db db' : Db} {p inn out s : ℕ} {r : Reservation}
    → Moves p inn out s db db'
    → IsLocked i r n db
    → IsLocked i r n db'
moved_lock i n m l = (ap (find_id i) m.rows ∙ l.0, l.1, l.2, l.3)

pub held_claim :
    (r : Reservation) (n : ℕ)
    → r.state ≡ reserved
    → r.requested ≡ (ai_credits, n) ∷ []
    → 0 + n ≡ held_row r + 0
held_claim r n e q = omega (arith, ap₂ held_by e q)

pub charged_claim : (r : Reservation) → r.state ≡ reserved → charged_row r ≡ 0
charged_claim r e = ap (λ st. charged_by st r.settled) e

-- The claim of a row, as `_record_quantities` returns it.
pub recorded_claim :
    (i : ℕ) (r : Reservation) (db : Db) {q : Quantities}
    → IsBalanced db
    → find_id i db.reservations ≡ some r
    → record_quantities false r.requested ≡ ok q
    → (n : ℕ) × (q ≡ (ai_credits, n) ∷ []) × (r.requested ≡ (ai_credits, n) ∷ []) × (0 < n)
recorded_claim i r db b found e =
    of_claim r.requested (find_id-IsRow i db.reservations found b.rows).0 e
  where
    of_claim :
        (c : Quantities) {q : Quantities}
        → IsClaim c
        → record_quantities false c ≡ ok q
        → (n : ℕ) × (q ≡ (ai_credits, n) ∷ []) × (c ≡ (ai_credits, n) ∷ []) × (0 < n)
    of_claim [] h k = absurd h
    of_claim ((ai_credits, n) ∷ []) h k =
        (n, cc (k, record_quantities-claim ((ai_credits, n) ∷ []) h), refl, h)
    of_claim (x ∷ y ∷ c) h k = absurd h
