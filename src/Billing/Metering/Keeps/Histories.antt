-- ===== src/Billing/Metering/Keeps/Histories.antt =====
-- The invariant holds after every history of transactions.
use open_aipoject.Billing.Metering.History.{
  reserving, settling, settling_with_supplement, supplementing, releasing, expiring, touching,
  Transaction, History, commit, commits, nothing, next,
}
use open_aipoject.Billing.Metering.Reads.{db_uow-IsBalanced}
use open_aipoject.Billing.Metering.Keeps.Expire.{expire_stale_reservations-IsBalanced}
use open_aipoject.Billing.Metering.Keeps.Supplement.{
  settle_usage_with_supplement-IsBalanced, supplement_usage_reservation-IsBalanced,
}
use open_aipoject.Billing.Metering.Keeps.Release.{release_usage-IsBalanced}
use open_aipoject.Billing.Metering.Keeps.Touch.{touch-IsBalanced}
use open_aipoject.Billing.Metering.Keeps.Reserve.{reserve_usage-IsBalanced}
use open_aipoject.Billing.Metering.Keeps.Settle.{settle_usage-IsBalanced}
use open_aipoject.Billing.Metering.Invariant.Sums.{IsBalanced}
use open_aipoject.Billing.Store.{Db}

mutual
  unfolding commit commits

  commit_kept : (t : Transaction) (db : Db) → IsBalanced db → IsBalanced (commit t db)
  commit_kept (reserving during now new_id effective request_id operation quantities) db b =
      let b' = commits_kept during db b in
      db_uow-IsBalanced _ _ b' (
        reserve_usage-IsBalanced (commits during) now new_id effective request_id operation
          quantities db b b')
  commit_kept (settling now id quantities) db b =
      db_uow-IsBalanced db _ b (settle_usage-IsBalanced now id quantities db b)
  commit_kept (settling_with_supplement now id actual limit) db b =
      db_uow-IsBalanced db _ b (settle_usage_with_supplement-IsBalanced now id actual limit db b)
  commit_kept (supplementing now id target limit) db b =
      db_uow-IsBalanced db _ b (supplement_usage_reservation-IsBalanced now id target limit db b)
  commit_kept (releasing now id reason) db b =
      db_uow-IsBalanced db _ b (release_usage-IsBalanced now id reason db b)
  commit_kept (expiring is_locked now older_than) db b =
      db_uow-IsBalanced db _ b (expire_stale_reservations-IsBalanced is_locked now older_than db b)
  commit_kept (touching now ids) db b = db_uow-IsBalanced db _ b (touch-IsBalanced now ids db b)

  commits_kept : (h : History) (db : Db) → IsBalanced db → IsBalanced (commits h db)
  commits_kept nothing db b = b
  commits_kept (next t h) db b = commits_kept h (commit t db) (commit_kept t db b)

-- After every history of transactions on balanced tables, what a period's counters hold is
-- exactly what its reserved rows claim, and what they count as used is what its settled rows
-- were charged; every row claims one positive quantity and was charged at most that, and no two
-- rows share an ID or a request ID of an account.
pub commits-IsBalanced : (h : History) (db : Db) → IsBalanced db → IsBalanced (commits h db)
commits-IsBalanced h db b = commits_kept h db b
