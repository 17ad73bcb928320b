-- ===== src/Billing/Metering/Bills.antt =====
-- What `settle_usage_with_supplement` bills for a reservation that is still reserved.
use open_aipoject.Prelude.{
  [], ◌∷◌, ℕ, some, false, refl, ◌-◌, min, ◌+◌, ◌≡◌, ◌∙◌, arith, ap, ◌≤◌, sym,
}
use open_aipoject.Prelude.PyInt.{pos}
use open_aipoject.Billing.Store.{
  settled, reserved, Counter, Reservation, find_counter, Db, State, find_id,
}
use open_aipoject.Billing.Session.{or_raise}
use open_aipoject.Billing.Quantities.{ai_credits, record_quantities}
use open_aipoject.Billing.Session.Steps.{bind_ok}
use open_aipoject.Billing.Repository.Counters.{finish}
use open_aipoject.Billing.Repository.Reservations.{mark_settled}
use open_aipoject.Billing.Metering.Supplement.{
  SupplementalSettlement, successful_of, supplement_by_state, settle_usage_with_supplement,
  remaining,
}
use open_aipoject.Billing.Metering.Rebalance.{IsLocked}
use open_aipoject.Billing.Metering.Invariant.Sums.{HasUniqueKeys}
use open_aipoject.Billing.Errors.{ok, runtime_error}
use open_aipoject.Billing.Metering.Limits.{meter_eq-true}
use open_aipoject.Billing.Metering.Checks.{by_meter}
use open_aipoject.Billing.Metering.Settlements.{
  persist_ok, read_locked, validated, row_returned, lifted_ok, locked_ok,
}
use open_aipoject.Billing.Metering.Reads.{record_quantities-claim}
use open_aipoject.Billing.Metering.Enlargements.{added_of, supplement_ok}
use open_aipoject.Billing.Metering.Keeps.Enlarge.{claim}

by_meter_ok : (c : Counter) → by_meter ai_credits (c ∷ []) ≡ some c
by_meter_ok c = rw (meter_eq-true c.meter ai_credits) refl

-- What the caller is told, and what is left in the tables: `b` is billed and the supplement is `a`.
pub record IsBilled (now i n actual a b : ℕ) (r : Reservation) (c : Counter)
    (s : SupplementalSettlement) (db : Db) : Type 0 where
  pub actual_is : s.actual ≡ actual
  pub billed_is : s.billed ≡ b
  pub supplemented_is : s.supplemented ≡ a
  pub unbilled_is : s.unbilled ≡ actual - b
  pub row : Reservation
  pub row_found : find_id i db.reservations ≡ some row
  pub row_settled : (row.state ≡ settled) × (row.settled ≡ some (successful_of b))
  pub counter : Counter
  pub counter_found : find_counter r.period ai_credits db.counters ≡ some counter
  pub counter_used : counter.used ≡ c.used + b
  pub counter_reserved : counter.reserved + n ≡ c.reserved

IsBilled-reserved :
    (now i n actual limit : ℕ) (st : State) (r : Reservation) (c : Counter) (db : Db)
    → st ≡ reserved
    → IsLocked i r n db
    → HasUniqueKeys db.reservations
    → find_counter r.period ai_credits db.counters ≡ some c
    → n ≤ c.reserved
    → let a = added_of (actual - n) (remaining limit c) in
      (s : SupplementalSettlement) × (db' : Db) × IsBilled now i n actual a
        (min actual (n + a))
        r
        c
        s
        db'
      × (supplement_by_state now i actual limit (claim n) st r db ≡ (ok s, db'))
unfolding supplement_by_state
IsBilled-reserved now i n actual limit reserved r c db e l u found enough =
    let a = added_of (actual - n) (remaining limit c) in
    let (s, db1, g, run) =
      supplement_ok now i n limit (actual - n) (remaining limit c) r c db l u found in
    let b = min actual (n + a) in
    let (ds, rs, counted, is_found, settle) =
      persist_ok now i (n + a) b s g.counter db1 g.locked g.unique
        (ap (λ p. find_counter p ai_credits db1.counters) g.period ∙ g.found)
        (omega (arith, g.held, enough)) (omega arith) in
    let db2 = record db1 { counters = ds; reservations = rs } in
    let (v, back) = row_returned now (n + a) b s db2 g.locked.2 g.locked.3 in
    (
      record {
        reservation = v;
        actual = actual;
        billed = b;
        supplemented = a;
        unbilled = actual - b;
      },
      db2,
      record {
        actual_is = refl;
        billed_is = refl;
        supplemented_is = refl;
        unbilled_is = refl;
        row = mark_settled now (successful_of b) s;
        row_found = is_found;
        row_settled = (refl, refl);
        counter = finish (n + a) b g.counter;
        counter_found = ap (λ p. find_counter p ai_credits ds) (sym g.period) ∙ counted;
        counter_used = omega (arith, g.used);
        counter_reserved = omega (arith, g.held, enough);
      },
      bind_ok _ _ db (λ k. (ok n, db))
          ∙ bind_ok _ _ db (read_locked r.period n c db found)
          ∙ bind_ok _ _ db (validated n c db enough)
          ∙ bind_ok _ _ db (ap (λ o. or_raise runtime_error o db) (by_meter_ok c))
          ∙ bind_ok _ _ db run
          ∙ bind_ok _ _ db1 settle
          ∙ bind_ok _ _ db2 back
          ∙ refl,
    )
IsBilled-reserved now i n actual limit _ r c db e l u found enough = cc

-- A settlement with a supplement of a reserved row returns, where no two rows share a key and the
-- period's counter holds the claim. What the reservation lacks is added if all of it fits the rest
-- of the allowance, or else nothing; billed is the actual quantity up to what is then reserved,
-- and unbilled is the rest; the counter loses the row's claim and is charged what is billed, and
-- the row is settled with it.
pub settle_usage_with_supplement-bills :
    (now i n actual limit : ℕ) (r : Reservation) (c : Counter) (db : Db)
    → IsLocked i r n db
    → HasUniqueKeys db.reservations
    → find_counter r.period ai_credits db.counters ≡ some c
    → n ≤ c.reserved
    → let a = added_of (actual - n) (remaining limit c) in
      (s : SupplementalSettlement) × (db' : Db) × IsBilled now i n actual a
        (min actual (n + a))
        r
        c
        s
        db'
      × (settle_usage_with_supplement now i (pos actual) (pos limit) db ≡ (ok s, db'))
unfolding settle_usage_with_supplement
settle_usage_with_supplement-bills now i n actual limit r c db l u found enough =
    let (s, db', billed, run) =
      IsBilled-reserved now i n actual limit r.state r c db l.1 l u found enough in
    (
      s,
      db',
      billed,
      bind_ok _ _ db (lifted_ok db refl)
          ∙ bind_ok _ _ db (lifted_ok db refl)
          ∙ bind_ok _ _ db (locked_ok i db l.0)
          ∙ bind_ok _ _ db (
              lifted_ok db (
                ap (record_quantities false) l.2
                ∙ record_quantities-claim ((ai_credits, n) ∷ []) l.3))
          ∙ run,
    )
