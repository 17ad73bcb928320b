-- ===== src/Billing/Metering/Effects.antt =====
-- What the repository's statements do to the sums of a period, when they return.
use open_aipoject.Prelude.{
  ℕ, ◌+◌, ◌<◌, ◌≡◌, refl, Bool, true, false, Option, none, some, List, [], ◌∷◌, arith, All, leb,
  ◌==◌, ◌∙◌,
}
use open_aipoject.Billing.Errors.{ok}
use open_aipoject.Billing.Quantities.{Meter, ai_credits, Quantities}
use open_aipoject.Billing.Store.{
  Db, Counter, Reservation, is_reserved, find_id, update_counter, update_reserved, find_counter,
}
use open_aipoject.Billing.Session.{Session, pure, lift, ◌>>=◌, ◌>>◌}
use open_aipoject.Billing.Session.Ensures.{Ensures, Ensures-bind, guard-bind}
use open_aipoject.Billing.Repository.Counters.{
  add_reserved, finish, positive_quantities, update_usage_counter, write_counter,
  reserve_usage_quantities, settle_usage_quantities, release_usage_quantities,
  get_or_create_usage_counter, found_or_new,
}
use open_aipoject.Billing.Repository.Reservations.{update_reservation, written}
use open_aipoject.Billing.Metering.Invariant.Sums.{
  in_period, reserved_in, used_in, total, IsRow, HasUniqueKeys, After_use, add_reserved_sums,
  finish_sums,
}
use open_aipoject.Billing.Metering.Invariant.Singles.{charge_of}
use open_aipoject.Billing.Metering.Invariant.RowUpdates.{
  KeepsKeys, update_reserved_row, update_reserved-found, update_reserved-total, update_reserved-All,
  update_reserved-HasUniqueKeys, update_reserved-others,
}

-- In the period `p`, `inn` has come into what is reserved and `out` has left it, `s` has come into
-- what is used, and nothing else has changed.
pub record Moves (p inn out s : ℕ) (db db' : Db) : Type 0 where
  pub rows : db'.reservations ≡ db.reservations
  pub reserved :
      (q : ℕ)
      → reserved_in q db'.counters + in_period p q out
        ≡ reserved_in q db.counters + in_period p q inn
  pub used : (q : ℕ) → used_in q db'.counters ≡ used_in q db.counters + in_period p q s

-- The row `r` has become `f r`, and no counter has changed.
pub record Rewrites (f : Reservation → Reservation) (r : Reservation) (db db' : Db) : Type 0 where
  pub counters : db'.counters ≡ db.counters
  pub found : find_id r.id db'.reservations ≡ some (f r)
  pub others :
      (j : ℕ) → (r.id == j) ≡ false → find_id j db'.reservations ≡ find_id j db.reservations
  pub sums :
      (w : Reservation → ℕ) → total w db'.reservations + w r ≡ total w db.reservations + w (f r)
  pub rows : IsRow (f r) → All IsRow db.reservations → All IsRow db'.reservations
  pub unique : HasUniqueKeys db.reservations → HasUniqueKeys db'.reservations

module _ (Q : Db → Type 0) (p : ℕ) (m : Meter) (test : Counter → Bool) (f : Counter → Counter) where
  write_counter-Ensures :
      (o : Option (List Counter)) (db : Db)
      → ((cs : List Counter) → o ≡ some cs → Q (record db { counters = cs }))
      → Ensures (λ _. Q) (write_counter p m test f o db)
  write_counter-Ensures none db h = tt
  write_counter-Ensures (some cs) db h = h cs refl

reserve_one :
    (p n : ℕ) (m : Meter) (db : Db)
    → Ensures (λ _. Moves p n 0 0 db) (update_usage_counter p m (λ _. true) (add_reserved n) db)
reserve_one p n m db =
    write_counter-Ensures (Moves p n 0 0 db) p m (λ _. true) (add_reserved n)
      (update_counter p m (λ _. true) (add_reserved n) db.counters) db
      (λ cs e. record {
        rows = refl;
        reserved = λ q. ground (arith, After_use _ _ (add_reserved_sums q p m n db.counters) e);
        used = λ q. ground (arith, After_use _ _ (add_reserved_sums q p m n db.counters) e);
      })

finish_one :
    (p n s : ℕ) (m : Meter) (db : Db)
    → Ensures
        (λ _. Moves p 0 n s db)
        (update_usage_counter p m (λ c. leb n c.reserved) (finish n s) db)
finish_one p n s m db =
    write_counter-Ensures (Moves p 0 n s db) p m (λ c. leb n c.reserved) (finish n s)
      (update_counter p m (λ c. leb n c.reserved) (finish n s) db.counters) db
      (λ cs e. record {
        rows = refl;
        reserved = λ q. ground (arith, After_use _ _ (finish_sums q p m n s db.counters) e);
        used = λ q. (After_use _ _ (finish_sums q p m n s db.counters) e).1;
      })

-- One positive quantity passes the repository's normalization.
pub positive_quantities-claim :
    (n : ℕ) → 0 < n → positive_quantities ((ai_credits, n) ∷ []) ≡ ok ((ai_credits, n) ∷ [])
unfolding positive_quantities
positive_quantities-claim n h = ground arith

-- A block that begins by normalizing a claim, and goes on with the claim.
pub after_normalization :
    {A : Type 0} (Q : A → Db → Type 0) (n : ℕ) (k : Quantities → Session A) (db : Db)
    → 0 < n
    → Ensures Q (k ((ai_credits, n) ∷ []) db)
    → Ensures Q ((lift (positive_quantities ((ai_credits, n) ∷ [])) >>= k) db)
unfolding ◌>>=◌
after_normalization Q n k db h e = rw (positive_quantities-claim n h) e

-- A statement and the end of its loop.
last_round :
    (Q : Db → Type 0) (m : Session (Unit {0})) (db : Db)
    → Ensures (λ _. Q) (m db)
    → Ensures (λ _. Q) ((m >> pure tt) db)
last_round Q m db h = Ensures-bind (λ _. Q) (λ _. Q) m (λ _. pure tt) db h (λ a db' q. q)

pub reserve_usage_quantities-Moves :
    (p n : ℕ) (db : Db)
    → 0 < n
    → Ensures (λ _. Moves p n 0 0 db) (reserve_usage_quantities p ((ai_credits, n) ∷ []) db)
unfolding reserve_usage_quantities
reserve_usage_quantities-Moves p n db h =
    after_normalization _ n _ db h (last_round _ _ db (reserve_one p n ai_credits db))

pub release_usage_quantities-Moves :
    (p n : ℕ) (db : Db)
    → 0 < n
    → Ensures (λ _. Moves p 0 n 0 db) (release_usage_quantities p ((ai_credits, n) ∷ []) db)
unfolding release_usage_quantities
release_usage_quantities-Moves p n db h =
    after_normalization _ n _ db h (last_round _ _ db (finish_one p n 0 ai_credits db))

pub settle_usage_quantities-Moves :
    (p n : ℕ) (successful : Quantities) (db : Db)
    → 0 < n
    → Ensures
        (λ _. Moves p 0 n (charge_of successful) db)
        (settle_usage_quantities p ((ai_credits, n) ∷ []) successful db)
unfolding settle_usage_quantities
settle_usage_quantities-Moves p n successful db h =
    after_normalization _ n _ db h
      (guard-bind _ _ _ _ db (λ _. last_round _ _ db (finish_one p n _ ai_credits db)))

written-Ensures :
    (Q : Reservation → Db → Type 0) (o : Option (Reservation × List Reservation)) (db : Db)
    → ((r : Reservation) (rs : List Reservation)
        → o ≡ some (r, rs)
        → Q r (record db { reservations = rs }))
    → Ensures Q (written o db)
written-Ensures Q none db h = tt
written-Ensures Q (some (r, rs)) db h = h r rs refl

pub update_reservation-Rewrites :
    (i : ℕ) (f : Reservation → Reservation) (db : Db) {r : Reservation}
    → KeepsKeys f
    → find_id i db.reservations ≡ some r
    → is_reserved r.state ≡ true
    → Ensures (λ s db'. (s ≡ f r) × Rewrites f r db db') (update_reservation i f db)
unfolding update_reservation
update_reservation-Rewrites i f db {r} keeps h e =
    written-Ensures _ (update_reserved i f db.reservations) db (λ s rs eq. (
      After_use _ _ (update_reserved_row i f db.reservations h e) eq,
      record {
        counters = refl;
        found = After_use _ _ (update_reserved-found i f keeps db.reservations h e) eq;
        others = λ j d. After_use _ _ (update_reserved-others i f keeps j db.reservations h e d) eq;
        sums = λ w. After_use _ _ (update_reserved-total i f w db.reservations h e) eq;
        rows = λ k a. After_use _ _ (update_reserved-All i f db.reservations k h e a) eq;
        unique = λ u. After_use _ _ (update_reserved-HasUniqueKeys i f keeps db.reservations u) eq;
      },
    ))

pub nothing_moved : (p : ℕ) (db : Db) → Moves p 0 0 0 db db
nothing_moved p db = record { rows = refl; reserved = λ q. refl; used = λ q. ground arith }

-- A change after one that moved nothing.
pub then_moved :
    {p n : ℕ} {db db' db'' : Db}
    → Moves p 0 0 0 db db'
    → Moves p n 0 0 db' db''
    → Moves p n 0 0 db db''
then_moved {p} {n} k k' = record {
  rows = k'.rows ∙ k.rows;
  reserved = λ q. ground (arith, k.reserved q, k'.reserved q);
  used = λ q. ground (arith, k.used q, k'.used q);
}

-- A new counter adds nothing to the sums.
found_or_new-Moves :
    (p : ℕ) (m : Meter) (o : Option Counter) (db : Db)
    → Ensures (λ _. Moves p 0 0 0 db) (found_or_new p m o db)
found_or_new-Moves p m (some c) db = nothing_moved p db
found_or_new-Moves p m none db = record {
  rows = refl;
  reserved = λ q. ground arith;
  used = λ q. ground arith;
}

pub get_or_create-Moves :
    (p : ℕ) (m : Meter) (db : Db)
    → Ensures (λ _. Moves p 0 0 0 db) (get_or_create_usage_counter p m db)
unfolding get_or_create_usage_counter
get_or_create-Moves p m db = found_or_new-Moves p m (find_counter p m db.counters) db
