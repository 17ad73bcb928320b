-- ===== src/Billing/Cleanup/Outcomes.antt =====
-- What a cleanup cycle does and reports.
use open_aipoject.Prelude.{
  ℕ, ◌<◌, ◌≡◌, List, [], ◌∷◌, arith, length, filter, not, ltb, ◌+◌, ◌-◌, ◌*◌, refl, sym, ◌∙◌, Bool,
  true, false, ◌&&◌, some, ◌==◌, if◌then◌else◌,
}
use open_aipoject.Prelude.PyInt.{ℤ, pos, negsuc}
use open_aipoject.Billing.Errors.{ok, err, Result, value_error}
use open_aipoject.Billing.Session.{raise, Session}
use open_aipoject.Billing.Store.{
  Db, Reservation, State, reserved, settled, released, expired, find_id, is_reserved,
}
use open_aipoject.Billing.Cleanup.{
  ReservationCleanupStats, in_own_session, stale_cutoff, run_cleanup_cycle,
}
use open_aipoject.Billing.Session.Ensures.{Ensures, Ensures-bind}
use open_aipoject.Billing.Repository.Reservations.{
  is_stale, insert_by_activity, stale_rows, unlocked_rows,
}
use open_aipoject.Billing.Metering.Keeps.Expire.{
  expired_of, claim_total, IsSwept, expire_stale_reservations-IsSwept,
}
use open_aipoject.Billing.Metering.Keeps.Stale.{stale-present, fresh-absent, locked-absent}
use open_aipoject.Billing.Metering.Invariant.Sums.{total, HasUniqueKeys, IsBalanced}

-- A row that a cycle has to release: reserved, without activity since `cutoff`, and not locked.
abbrev in_reserved : State → Bool → Bool
in_reserved reserved b = b
in_reserved _ b = false

abbrev pub is_due : (Reservation → Bool) → ℕ → Reservation → Bool
is_due is_locked cutoff r = in_reserved r.state (ltb r.last_activity cutoff && not (is_locked r))

in_reserved-is_reserved : (s : State) (b : Bool) → in_reserved s b ≡ is_reserved s && b
in_reserved-is_reserved reserved b = refl
in_reserved-is_reserved settled b = refl
in_reserved-is_reserved released b = refl
in_reserved-is_reserved expired b = refl

-- The sweep looks at the rows that are due.
insert-length :
    (r : Reservation) (rs : List Reservation) → length (insert_by_activity r rs) ≡ 1 + length rs
insert-length r [] = refl
insert-length r (s ∷ rs) = ground (arith, insert-length r rs)

insert-total :
    (w : Reservation → ℕ) (r : Reservation) (rs : List Reservation)
    → total w (insert_by_activity r rs) ≡ w r + total w rs
insert-total w r [] = refl
insert-total w r (s ∷ rs) = ground (arith, insert-total w r rs)

module _ (is_locked : Reservation → Bool) (t : ℕ) where
  stale_rows-length :
      (rs : List Reservation)
      → length (stale_rows t (unlocked_rows is_locked rs)) ≡ length (filter (is_due is_locked t) rs)
  stale_rows-length [] = refl
  stale_rows-length (r ∷ rs) = ground (
    arith,
    stale_rows-length rs,
    in_reserved-is_reserved r.state (ltb r.last_activity t && not (is_locked r)),
    insert-length r (stale_rows t (unlocked_rows is_locked rs)),
  )

  stale_rows-total :
      (w : Reservation → ℕ) (rs : List Reservation)
      → total w (stale_rows t (unlocked_rows is_locked rs))
        ≡ total w (filter (is_due is_locked t) rs)
  stale_rows-total w [] = refl
  stale_rows-total w (r ∷ rs) = ground (
    arith,
    stale_rows-total w rs,
    in_reserved-is_reserved r.state (ltb r.last_activity t && not (is_locked r)),
    insert-total w r (stale_rows t (unlocked_rows is_locked rs)),
  )

  -- A row is expired if it is due, and else as it was.
  swept-row :
      (now : ℕ) (db db' : Db) (freed credits : ℕ)
      → HasUniqueKeys db.reservations
      → IsSwept now (stale_rows t (unlocked_rows is_locked db.reservations)) freed credits db db'
      → (j : ℕ) (r : Reservation) → find_id j db.reservations ≡ some r
      → find_id j db'.reservations ≡ some (if is_due is_locked t r then expired_of now r else r)
  swept-row now db db' freed credits u swept j r h =
      of_locked (is_stale t r) (is_locked r) refl refl
        (in_reserved-is_reserved r.state (ltb r.last_activity t && not (is_locked r)))
    where
      of_locked :
          (a b : Bool)
          → is_stale t r ≡ a
          → is_locked r ≡ b
          → is_due is_locked t r
            ≡ is_reserved r.state && (ltb r.last_activity t && not (is_locked r))
          → find_id j db'.reservations ≡ some (if is_due is_locked t r then expired_of now r else r)
      of_locked true false e f d =
          let due : is_due is_locked t r ≡ true = ground (arith, d, e, f) in
          rw due
            (swept.expired_all j r (stale-present is_locked t j db.reservations {r = r} h e f u))
      of_locked false b e f d =
          let due : is_due is_locked t r ≡ false = ground (arith, d, e) in
          rw due (swept.spared j (fresh-absent is_locked t j db.reservations {r = r} h e u) ∙ h)
      of_locked true true e f d =
          let due : is_due is_locked t r ≡ false = ground (arith, d, f) in
          rw due (swept.spared j (locked-absent is_locked t j db.reservations {r = r} h f u) ∙ h)

-- What a cycle leaves and reports when it returns.
pub record IsReported (is_locked : Reservation → Bool) (now n : ℕ) (before after : Db)
    (stats : ReservationCleanupStats) : Type 0 where
  pub positive_age : 0 < n
  pub inspected_is :
      stats.inspected ≡ length (filter (is_due is_locked (now - 1000000 * n)) before.reservations)
  pub released_is : stats.released ≡ stats.inspected
  pub credits_are :
      stats.credits_released
      ≡ total claim_total (filter (is_due is_locked (now - 1000000 * n)) before.reservations)
  pub rows :
      (j : ℕ) (r : Reservation)
      → find_id j before.reservations ≡ some r
      → find_id j after.reservations
        ≡ some (if is_due is_locked (now - 1000000 * n) r then expired_of now r else r)
  pub balanced : IsBalanced after

abbrev pub IsReport :
    (Reservation → Bool) → ℕ → ℤ → Db → Result ReservationCleanupStats × Db → Type 0
IsReport is_locked now age before (err e, after) = after ≡ before
IsReport is_locked now (pos n) before (ok stats, after) =
    IsReported is_locked now n before after stats
IsReport is_locked now (negsuc n) before (ok stats, after) = ⊥

module _ (is_locked : Reservation → Bool) (now n : ℕ) where
  own_session-IsReport :
      (before : Db) (r : Result ReservationCleanupStats × Db)
      → Ensures (λ stats after. IsReported is_locked now n before after stats) r
      → IsReport is_locked now (pos n) before (in_own_session (λ _. r) before)
  unfolding in_own_session
  own_session-IsReport before (ok a, db) h = h
  own_session-IsReport before (err e, db) h = refl

  in_own_session-IsReport :
      (m : Session ReservationCleanupStats) (db : Db)
      → Ensures (λ stats after. IsReported is_locked now n db after stats) (m db)
      → IsReport is_locked now (pos n) db (in_own_session m db)
  unfolding in_own_session
  in_own_session-IsReport m db h = own_session-IsReport db (m db) h

  unless_zero :
      (c : Bool) (m : Session ReservationCleanupStats) (db : Db)
      → (n == 0) ≡ c
      → (0 < n → IsReport is_locked now (pos n) db (m db))
      → IsReport is_locked now (pos n) db ((if c then raise value_error else m) db)
  unless_zero true m db e h = refl
  unless_zero false m db e h = h (ground arith)

-- A cleanup cycle over balanced tables, for every age and whichever rows are locked: when it
-- returns, the age was positive, exactly the rows that are reserved, not locked and without activity
-- for that age have expired, all other rows are as they were, the counters hold what the rows still
-- claim, and the report counts the expired rows and their credits; when it raises, on an age that is
-- not positive or in the sweep, the tables are as they were.
pub run_cleanup_cycle-IsReport :
    (is_locked : Reservation → Bool) (now : ℕ) (stale_after_seconds : ℤ) (db : Db)
    → IsBalanced db
    → IsReport is_locked now stale_after_seconds db
        (run_cleanup_cycle is_locked now stale_after_seconds db)
unfolding run_cleanup_cycle
run_cleanup_cycle-IsReport is_locked now (negsuc n) db b = refl
run_cleanup_cycle-IsReport is_locked now (pos n) db b =
    let t = stale_cutoff now n in
    let rs = stale_rows t (unlocked_rows is_locked db.reservations) in
    unless_zero is_locked now n (n == 0) _ db refl (λ positive.
      in_own_session-IsReport is_locked now n _ db (
        Ensures-bind
          (λ outcome after.
            (outcome.inspected ≡ length rs)
            × IsSwept now rs outcome.released outcome.credits_released db after)
          _ _ _ db (expire_stale_reservations-IsSwept is_locked now t db b)
          (λ outcome after k. record {
            positive_age = positive;
            inspected_is = k.0 ∙ stale_rows-length is_locked t db.reservations;
            released_is = k.1.released_is ∙ sym k.0;
            credits_are = k.1.credits_is ∙ stale_rows-total is_locked t claim_total db.reservations;
            rows =
                swept-row is_locked t now db after outcome.released outcome.credits_released
                  b.unique k.1;
            balanced = k.1.balanced;
          })))
