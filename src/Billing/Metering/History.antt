-- ===== src/Billing/Metering/History.antt =====
-- The transactions of server/billing/metering_service.py, one after another. Each runs in its own
-- `db_uow` of server/persistence.py; while a reservation waits for its account's lock, a history
-- of other transactions commits.
use open_aipoject.Prelude.{ℕ, String, Bool, List}
use open_aipoject.Prelude.PyInt.{PyValue, ℤ}
use open_aipoject.Billing.Session.{db_uow}
use open_aipoject.Billing.Store.{Reservation, Db}
use open_aipoject.Billing.Repository.Reservations.{touch_usage_reservation_activity}
use open_aipoject.Billing.Metering.Supplement.{
  settle_usage_with_supplement, supplement_usage_reservation, release_usage,
  expire_stale_reservations,
}
use open_aipoject.Billing.Metering.Lifecycle.{reserve_usage, settle_usage}
use open_aipoject.Billing.Metering.Checks.{EffectiveSubscription}

mutual
  pub data Transaction : Type 0 where
    reserving :
        History
        → (now : ℕ) (new_id : ℕ) → EffectiveSubscription
        → (request_id : String) (operation_type : String) → List (String × PyValue)
        → Transaction
    settling : (now : ℕ) (id : ℕ) → List (String × PyValue) → Transaction
    settling_with_supplement : (now : ℕ) (id : ℕ) (actual : ℤ) (limit : ℤ) → Transaction
    supplementing : (now : ℕ) (id : ℕ) (target : ℤ) (limit : ℕ) → Transaction
    releasing : (now : ℕ) (id : ℕ) (reason : String) → Transaction
    expiring : (Reservation → Bool) → (now : ℕ) (older_than : ℕ) → Transaction
    touching : (now : ℕ) → List ℕ → Transaction

  pub data History : Type 0 where
    nothing : History
    next : Transaction → History → History

-- The database after a transaction: what it wrote if it returned, nothing of it if it raised. A
-- reservation that raises leaves what the others committed.
unfoldable mutual
  pub commit : Transaction → Db → Db
  commit (reserving during now new_id effective request_id operation_type quantities) db =
      let others = commits during in
      db_uow (others db)
        (reserve_usage others now new_id effective request_id operation_type quantities db)
  commit (settling now id quantities) db = db_uow db (settle_usage now id quantities db)
  commit (settling_with_supplement now id actual limit) db =
      db_uow db (settle_usage_with_supplement now id actual limit db)
  commit (supplementing now id target limit) db =
      db_uow db (supplement_usage_reservation now id target limit db)
  commit (releasing now id reason) db = db_uow db (release_usage now id reason db)
  commit (expiring is_locked now older_than) db =
      db_uow db (expire_stale_reservations is_locked now older_than db)
  commit (touching now ids) db = db_uow db (touch_usage_reservation_activity now ids db)

  pub commits : History → Db → Db
  commits nothing db = db
  commits (next t h) db = commits h (commit t db)
