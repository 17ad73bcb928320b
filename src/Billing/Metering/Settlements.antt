-- ===== src/Billing/Metering/Settlements.antt =====
-- What `settle_usage` does with a reservation that is still reserved.
use open_aipoject.Prelude.{
  [], ◌∷◌, ℕ, none, some, true, false, refl, ◌≤◌, ◌<◌, ◌≡◌, sym, ◌∙◌, Bool, List, arith, ltb, ap,
  not, String, ◌+◌, ◌-◌, if◌then◌else◌,
}
use open_aipoject.Billing.Store.{
  is_reserved, Counter, Reservation, find_counter, find_id, update_reserved, Db, State, reserved,
  settled,
}
use open_aipoject.Billing.Session.{Session, pure, lift, ◌>>=◌, ◌>>◌, guard, or_raise}
use open_aipoject.Billing.Quantities.{record_quantities, ai_credits, normalize_quantities}
use open_aipoject.Billing.Errors.{Result, configuration, ok, BillingError, not_found}
use open_aipoject.Billing.Session.Steps.{bind_ok, or_configuration_ok}
use open_aipoject.Billing.Repository.Counters.{finish}
use open_aipoject.Billing.Repository.Reservations.{mark_settled, get_usage_reservation_by_id}
use open_aipoject.Billing.Metering.Limits.{meter_eq-true, locked_one}
use open_aipoject.Billing.Metering.Charges.{
  settle_quantities_ok, settle_reservation_ok, finished_counter, written_row, settled_read,
  successful-within,
}
use open_aipoject.Billing.Metering.Supplement.{successful_of}
use open_aipoject.Billing.Metering.Lifecycle.{persist_settlement, settle_by_state, settle_usage}
use open_aipoject.Billing.Metering.Checks.{
  UsageReservation, to_reservation, check_each, lock_and_validate_counters,
  validate_reserved_counters, locked_reservation,
}
use open_aipoject.Billing.Metering.Rebalance.{IsLocked}
use open_aipoject.Billing.Metering.Reads.{record_quantities-claim}
use open_aipoject.Billing.Metering.Keeps.Settle.{mark_settled-KeepsKeys}
use open_aipoject.Billing.Metering.Invariant.Sums.{HasUniqueKeys}
use open_aipoject.Billing.Metering.Invariant.RowUpdates.{find_id-id, find_request_of_find_id}
use open_aipoject.Prelude.PyInt.{PyValue}
use open_aipoject.Context.Conversation.Trimming.{counted}

pub persist_ok :
    (now i n m : ℕ) (r : Reservation) (c : Counter) (db : Db)
    → IsLocked i r n db
    → HasUniqueKeys db.reservations
    → find_counter r.period ai_credits db.counters ≡ some c
    → n ≤ c.reserved
    → m ≤ n
    → (ds : List Counter) × (rs : List Reservation) × (find_counter r.period ai_credits ds
        ≡ some (finish n m c))
      × (find_id i rs ≡ some (mark_settled now (successful_of m) r))
      × (persist_settlement now r ((ai_credits, n) ∷ []) (successful_of m) db ≡ (
        ok (mark_settled now (successful_of m) r),
        record db { counters = ds; reservations = rs },
      ))
unfolding persist_settlement
persist_ok now i n m r c db l u found enough within =
    let (ds, counted, now_found) = finished_counter r.period n m db.counters found enough in
    let same : r.id ≡ i = find_id-id i db.reservations l.0 in
    let here : find_id r.id db.reservations ≡ some r =
      ap (λ j. find_id j db.reservations) same ∙ l.0 in
    let ((s, rs), updated, (is_row, is_found)) =
      written_row r.id (mark_settled now (successful_of m)) db.reservations
        (mark_settled-KeepsKeys now (successful_of m)) here (ap is_reserved l.1) in
    let written : update_reserved r.id (mark_settled now (successful_of m)) db.reservations
        ≡ some (mark_settled now (successful_of m) r, rs) =
      updated ∙ ap (λ t. some (t, rs)) is_row in
    (
      ds,
      rs,
      now_found,
      ap (λ j. find_id j rs) (sym same) ∙ is_found,
      or_configuration_ok _ db (
          bind_ok _ _ db (settle_quantities_ok r.period n m db l.3 within counted)
          ∙ settle_reservation_ok now n m r (record db { counters = ds }) l.1 l.2 within
              (find_request_of_find_id i db.reservations u l.0) written),
    )

after_pure :
    {A : Type 0} (m : Session A) (db : Db) {r : Result A × Db} → m db ≡ r → (pure tt >> m) db ≡ r
unfolding ◌>>=◌
after_pure m db e = e

unchecked :
    (n : ℕ) (c : Counter) (db : Db)
    → check_each none (c ∷ []) ((ai_credits, n) ∷ []) db ≡ (ok tt, db)
unfolding check_each ◌>>=◌
unchecked n c db = rw (meter_eq-true c.meter ai_credits) refl

pub read_locked :
    (p n : ℕ) (c : Counter) (db : Db)
    → find_counter p ai_credits db.counters ≡ some c
    → lock_and_validate_counters p ((ai_credits, n) ∷ []) none false db ≡ (ok (c ∷ []), db)
unfolding lock_and_validate_counters
read_locked p n c db found =
    bind_ok _ _ db (or_configuration_ok _ db (after_pure _ db (locked_one p c db found)))
    ∙ bind_ok _ _ db (unchecked n c db)

pub validated :
    (n : ℕ) (c : Counter) (db : Db)
    → n ≤ c.reserved
    → validate_reserved_counters (c ∷ []) ((ai_credits, n) ∷ []) db ≡ (ok tt, db)
unfolding validate_reserved_counters ◌>>=◌
validated n c db enough =
    rw (meter_eq-true c.meter ai_credits) (held (ltb c.reserved n) (ground arith))
  where
    held :
        (b : Bool)
        → b ≡ false
        → ((guard (not (not b)) configuration >>= λ _. pure tt) db) ≡ (ok tt, db)
    held false e = refl
    held true e = cc

-- The row of a settlement can be returned.
pub row_returned :
    (now n m : ℕ) (r : Reservation) (db : Db)
    → r.requested ≡ (ai_credits, n) ∷ []
    → 0 < n
    → (u : UsageReservation) × (to_reservation (mark_settled now (successful_of m) r) db
        ≡ (ok u, db))
unfolding to_reservation
row_returned now n m r db q pos = (
  _,
  bind_ok _ _ db (
        lifted
          (ap (record_quantities false) q ∙ record_quantities-claim ((ai_credits, n) ∷ []) pos))
      ∙ bind_ok _ _ db (lifted (settled_read m)),
)
  where
    lifted : {A : Type 0} {x : Result A} {a : A} → x ≡ ok a → lift x db ≡ (ok a, db)
    lifted e = ap (λ y. (y, db)) e

pub lifted_ok : {A : Type 0} {x : Result A} {a : A} (db : Db) → x ≡ ok a → lift x db ≡ (ok a, db)
lifted_ok db e = ap (λ y. (y, db)) e

pub locked_ok :
    (i : ℕ) (db : Db) {r : Reservation}
    → find_id i db.reservations ≡ some r
    → locked_reservation i db ≡ (ok r, db)
unfolding locked_reservation get_usage_reservation_by_id ◌>>=◌
locked_ok i db found = ap (λ o. or_raise not_found o db) found

pub guard_ok :
    {B : Type 0} (b : Bool) (e : BillingError) (k : Unit {0} → Session B) (db : Db)
    → b ≡ false
    → (guard b e >>= k) db ≡ k tt db
unfolding ◌>>=◌
guard_ok false e k db h = refl
guard_ok true e k db h = cc

-- The tables after a settlement of `m` of the `n` that the row claims.
pub record IsSettled (now i n m : ℕ) (r : Reservation) (c : Counter) (db db' : Db) : Type 0 where
  pub counter :
      find_counter r.period ai_credits db'.counters
      ≡ some (record c { used = c.used + m; reserved = c.reserved - n })
  pub row :
      find_id i db'.reservations
      ≡ some (record r {
        state = settled;
        settled = some (if ltb 0 m then (ai_credits, m) ∷ [] else []);
        settled_at = some now;
        release_reason = none;
      })
  pub accounts : db'.accounts ≡ db.accounts

IsSettled-reserved :
    (now i n m : ℕ) (st : State) (r : Reservation) (c : Counter) (db : Db)
    → st ≡ reserved
    → IsLocked i r n db
    → HasUniqueKeys db.reservations
    → find_counter r.period ai_credits db.counters ≡ some c
    → n ≤ c.reserved
    → m ≤ n
    → (u : UsageReservation) × (db' : Db) × IsSettled now i n m r c db db'
      × (settle_by_state now (successful_of m) ((ai_credits, n) ∷ []) st r db ≡ (ok u, db'))
unfolding settle_by_state
IsSettled-reserved now i n m reserved r c db e l u found enough within =
    let (ds, rs, counted, is_found, run) = persist_ok now i n m r c db l u found enough within in
    let db' = record db { counters = ds; reservations = rs } in
    let (v, back) = row_returned now n m r db' l.2 l.3 in
    (
      v,
      db',
      record { counter = counted; row = is_found; accounts = refl },
      bind_ok _ _ db (read_locked r.period n c db found)
          ∙ bind_ok _ _ db (validated n c db enough)
          ∙ bind_ok _ _ db run
          ∙ back,
    )
IsSettled-reserved now i n m _ r c db e l u found enough within = cc

-- A settlement of a reserved row returns, for every successful quantity up to what the row claims,
-- where no two rows share a key and the period's counter holds the claim. What is reserved in the
-- counter falls by the whole claim and what is used grows by what was successful; the row's state,
-- settled quantity and time of settlement are set, its release reason is cleared, and the rest of
-- the counter, the row and the accounts is as it was.
pub settle_usage-settles :
    (now i n m : ℕ) (quantities : List (String × PyValue)) (r : Reservation) (c : Counter) (db : Db)
    → normalize_quantities true quantities ≡ ok (successful_of m)
    → IsLocked i r n db
    → HasUniqueKeys db.reservations
    → find_counter r.period ai_credits db.counters ≡ some c
    → n ≤ c.reserved
    → m ≤ n
    → (u : UsageReservation) × (db' : Db) × IsSettled now i n m r c db db'
      × (settle_usage now i quantities db ≡ (ok u, db'))
unfolding settle_usage
settle_usage-settles now i n m quantities r c db kept l u found enough within =
    let (v, db', s, run) =
      IsSettled-reserved now i n m r.state r c db l.1 l u found enough within in
    (
      v,
      db',
      s,
      bind_ok _ _ db (lifted_ok db kept)
          ∙ bind_ok _ _ db (locked_ok i db l.0)
          ∙ bind_ok _ _ db (
              lifted_ok db (
                ap (record_quantities false) l.2
                ∙ record_quantities-claim ((ai_credits, n) ∷ []) l.3))
          ∙ guard_ok _ _ _ db (successful-within n m within)
          ∙ run,
    )
