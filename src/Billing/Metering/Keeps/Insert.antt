-- ===== src/Billing/Metering/Keeps/Insert.antt =====
-- A new row of `create_usage_reservation` keeps the invariant.
use open_aipoject.Prelude.{
  [], ◌∷◌, ℕ, ◌<◌, String, ◌≡◌, refl, sym, Bool, true, false, ◌||◌, Option, none, some, arith,
  is_some, All,
}
use open_aipoject.Billing.Metering.Rebalance.{in_period_zero, held_claim, charged_claim}
use open_aipoject.Billing.Session.{◌>>◌, ◌>>=◌, pure, modify}
use open_aipoject.Billing.Quantities.{ai_credits}
use open_aipoject.Billing.Store.{Reservation, find_id, find_request, Db, reserved}
use open_aipoject.Billing.Session.Ensures.{Ensures, Ensures-mono, gets-bind, guard-bind}
use open_aipoject.Billing.Repository.Reservations.{
  insert_reservation, create_usage_reservation, violates_unique,
}
use open_aipoject.Billing.Metering.Effects.{Moves, after_normalization}
use open_aipoject.Billing.Metering.Invariant.Sums.{
  in_period, reserved_in, used_in, held_row, total, held_at, charged_at, IsClaim, IsRow,
  HasUniqueKeys, IsBalanced,
}
use mathlib.Core.Path.{subst, ap}

-- The row `r` has come into the table, where its keys were new.
record Inserts (r : Reservation) (db db' : Db) : Type 0 where
  counters : db'.counters ≡ db.counters
  rows : db'.reservations ≡ r ∷ db.reservations
  new_id : find_id r.id db.reservations ≡ none
  new_request : find_request r.account r.request_id db.reservations ≡ none

neither : (a b : Bool) → a || b ≡ false → (a ≡ false) × (b ≡ false)
neither false b e = (refl, e)
neither true b e = cc

not_some : (o : Option Reservation) → is_some o ≡ false → o ≡ none
not_some none e = refl
not_some (some r) e = cc

appended :
    (r : Reservation) (db : Db)
    → violates_unique r db.reservations ≡ false
    → Ensures
        (λ _. Inserts r db)
        ((modify (λ d. record d { reservations = r ∷ d.reservations }) >> pure r) db)
unfolding ◌>>=◌
appended r db e = record {
  counters = refl;
  rows = refl;
  new_id =
      not_some _ (neither _ (is_some (find_request r.account r.request_id db.reservations)) e).0;
  new_request = not_some _ (neither (is_some (find_id r.id db.reservations)) _ e).1;
}

insert_reservation-Inserts :
    (r : Reservation) (db : Db) → Ensures (λ _. Inserts r db) (insert_reservation r db)
unfolding insert_reservation
insert_reservation-Inserts r db = gets-bind _ _ _ db (guard-bind _ _ _ _ db (appended r db))

-- More is reserved in the period, and a new row claims as much.
inserted :
    {db db' db'' : Db} (n : ℕ) (r : Reservation)
    → 0 < n
    → r.state ≡ reserved
    → r.requested ≡ (ai_credits, n) ∷ []
    → IsBalanced db
    → Moves r.period n 0 0 db db'
    → Inserts r db' db''
    → IsBalanced db''
inserted {db} {db'} {db''} n r pos st q b m w = record {
  rows =
      subst (λ rs. All IsRow rs) (sym w.rows) (row, subst (λ rs. All IsRow rs) (sym m.rows) b.rows);
  unique =
      subst (λ rs. HasUniqueKeys rs) (sym w.rows)
        (w.new_id, w.new_request, subst (λ rs. HasUniqueKeys rs) (sym m.rows) b.unique);
  held_exact = λ p. omega (
    arith,
    ap (reserved_in p) w.counters,
    m.reserved p,
    b.held_exact p,
    ap (total (held_at p)) w.rows,
    ap (total (held_at p)) m.rows,
    ap (in_period r.period p) held,
    in_period_zero r.period p,
  );
  used_exact = λ p. omega (
    arith,
    ap (used_in p) w.counters,
    m.used p,
    b.used_exact p,
    ap (total (charged_at p)) w.rows,
    ap (total (charged_at p)) m.rows,
    ap (in_period r.period p) (charged_claim r st),
    in_period_zero r.period p,
  );
}
  where
    row : IsRow r
    row = (subst IsClaim (sym q) pos, omega (arith, charged_claim r st))

    held : held_row r ≡ n
    held = omega (arith, held_claim r n st q)

pub create_usage_reservation-Ensures :
    (now new_id account p n : ℕ) (request_id operation : String) {db : Db} (db' : Db)
    → 0 < n
    → IsBalanced db
    → Moves p n 0 0 db db'
    → Ensures
        (λ _. IsBalanced)
        (create_usage_reservation now new_id account p request_id operation
          ((ai_credits, n) ∷ [])
          db')
unfolding create_usage_reservation
create_usage_reservation-Ensures now new_id account p n request_id operation db' pos b m =
    after_normalization _ n _ db' pos (
      Ensures-mono (λ _. Inserts _ db') (λ _. IsBalanced) _
        (λ _ _ w. inserted n _ pos refl refl b m w) (insert_reservation-Inserts _ db'))
