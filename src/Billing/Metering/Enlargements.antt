-- ===== src/Billing/Metering/Enlargements.antt =====
-- What the supplement of a settlement writes.
use open_aipoject.Prelude.{
  ℕ, some, true, false, refl, ◌&&◌, ◌+◌, ◌<◌, ◌≡◌, ◌∙◌, Bool, List, arith, ltb, leb, if◌then◌else◌,
  ap,
}
use open_aipoject.Billing.Store.{
  is_reserved, Counter, Reservation, find_counter, update_reserved, Db,
}
use open_aipoject.Billing.Session.{pure, ◌>>=◌, ◌>>◌, or_configuration}
use open_aipoject.Billing.Quantities.{ai_credits}
use open_aipoject.Billing.Session.Steps.{bind_ok, or_configuration_ok}
use open_aipoject.Billing.Repository.Counters.{add_reserved, reserve_usage_quantities}
use open_aipoject.Billing.Repository.Reservations.{
  expand, update_usage_reservation_requested_quantities,
}
use open_aipoject.Billing.Metering.Charges.{written_row}
use open_aipoject.Billing.Metering.Effects.{positive_quantities-claim}
use open_aipoject.Billing.Metering.Supplement.{Supplemented, supplement_if_fits}
use open_aipoject.Billing.Metering.Grants.{updated_counter, reserve_quantities_ok}
use open_aipoject.Billing.Metering.Rebalance.{IsLocked}
use open_aipoject.Billing.Metering.Invariant.Sums.{HasUniqueKeys, After_use}
use open_aipoject.Billing.Metering.Invariant.RowUpdates.{update_reserved-HasUniqueKeys}
use open_aipoject.Billing.Errors.{ok}
use open_aipoject.Billing.Metering.Keeps.Enlarge.{expand-KeepsKeys, claim}

-- The supplement: all that is missing if it fits what is left of the allowance, or nothing.
abbrev pub added_of : (additional left : ℕ) → ℕ
added_of additional left = if ltb 0 additional && leb additional left then additional else 0

-- The row `s` and the tables after the supplement `a`.
pub record IsEnlarged (i n a : ℕ) (r s : Reservation) (c : Counter) (db : Db) : Type 0 where
  pub locked : IsLocked i s (n + a) db
  pub unique : HasUniqueKeys db.reservations
  pub period : s.period ≡ r.period
  pub counter : Counter
  pub found : find_counter r.period ai_credits db.counters ≡ some counter
  pub used : counter.used ≡ c.used
  pub held : counter.reserved ≡ c.reserved + a

abbrev pub outcome_of : Reservation → ℕ → ℕ → Supplemented
outcome_of s n a = record { row = s; requested = claim (n + a); added = a }

expanded_ok :
    (now i n : ℕ) (r : Reservation) (db : Db) {rs : List Reservation}
    → 0 < n
    → update_reserved i (expand now (claim n)) db.reservations ≡ some (expand now (claim n) r, rs)
    → update_usage_reservation_requested_quantities now i (claim n) db
      ≡ (ok (expand now (claim n) r), record db { reservations = rs })
unfolding update_usage_reservation_requested_quantities ◌>>=◌
expanded_ok now i n r db above h = rw (positive_quantities-claim n above) (rw h refl)

supplement_fits :
    (now i n limit a left : ℕ) (r : Reservation) (c : Counter) (db : Db)
    → IsLocked i r n db
    → HasUniqueKeys db.reservations
    → find_counter r.period ai_credits db.counters ≡ some c
    → 0 < a
    → (s : Reservation) × (db' : Db) × IsEnlarged i n a r s c db'
      × (or_configuration
            (reserve_usage_quantities r.period (claim a)
              >> (update_usage_reservation_requested_quantities now i (claim (n + a)) >>= λ row.
                  pure (outcome_of row n a)))
            db
          ≡ (ok (outcome_of s n a), db'))
supplement_fits now i n limit a left r c db l u found above =
    let (ds, counted, now_found) = updated_counter r.period a db.counters found in
    let more : 0 < n + a = omega (arith, above) in
    let keeps = expand-KeepsKeys now (claim (n + a)) in
    let ((t, rs), updated, (is_row, is_found)) =
      written_row i (expand now (claim (n + a))) db.reservations keeps l.0 (ap is_reserved l.1) in
    let written : update_reserved i (expand now (claim (n + a))) db.reservations
        ≡ some (expand now (claim (n + a)) r, rs) =
      updated ∙ ap (λ w. some (w, rs)) is_row in
    (
      expand now (claim (n + a)) r,
      record db { counters = ds; reservations = rs },
      record {
        locked = (is_found, l.1, refl, more);
        unique =
            After_use (λ w. HasUniqueKeys w.1)
              (update_reserved i (expand now (claim (n + a))) db.reservations)
              (update_reserved-HasUniqueKeys i (expand now (claim (n + a))) keeps db.reservations u)
              written;
        period = refl;
        counter = add_reserved a c;
        found = now_found;
        used = refl;
        held = refl;
      },
      or_configuration_ok _ db (
          bind_ok _ _ db (reserve_quantities_ok r.period a db above counted)
          ∙ bind_ok _ _ (record db { counters = ds })
              (expanded_ok now i (n + a) r (record db { counters = ds }) more written)),
    )

pub supplement_ok :
    (now i n limit a left : ℕ) (r : Reservation) (c : Counter) (db : Db)
    → IsLocked i r n db
    → HasUniqueKeys db.reservations
    → find_counter r.period ai_credits db.counters ≡ some c
    → (s : Reservation) × (db' : Db) × IsEnlarged i n (added_of a left) r s c db'
      × (supplement_if_fits now i limit r (claim n) a left db
          ≡ (ok (outcome_of s n (added_of a left)), db'))
unfolding supplement_if_fits
supplement_ok now i n limit a left r c db l u found = of_test (ltb 0 a && leb a left) refl
  where
    of_test :
        (b : Bool)
        → (ltb 0 a && leb a left) ≡ b
        → (s : Reservation) × (db' : Db) × IsEnlarged i n (if b then a else 0) r s c db'
          × ((if b
                  then or_configuration (
                      reserve_usage_quantities r.period (claim a)
                      >> (update_usage_reservation_requested_quantities now i (claim (n + a))
                          >>= λ row. pure (outcome_of row n a)))
                  else pure (record { row = r; requested = claim n; added = 0 }))
                db
              ≡ (ok (outcome_of s n (if b then a else 0)), db'))
    of_test true e = supplement_fits now i n limit a left r c db l u found (ground arith)
    of_test false e =
        let same : n ≡ n + 0 = omega arith in
        (
          r,
          db,
          record {
            locked = (l.0, l.1, l.2 ∙ ap claim same, omega (arith, l.3));
            unique = u;
            period = refl;
            counter = c;
            found = found;
            used = refl;
            held = omega arith;
          },
          ap (λ k. (ok (record { row = r; requested = claim k; added = 0 }), db)) same,
        )
