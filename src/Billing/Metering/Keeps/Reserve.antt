-- ===== src/Billing/Metering/Keeps/Reserve.antt =====
-- `reserve_usage` keeps the invariant when it returns.
use open_aipoject.Prelude.{[], ◌∷◌, ℕ, ◌<◌, String, refl, sym, true, Option, none, some, List}
use open_aipoject.Billing.Session.{◌>>◌, Session, ◌>>=◌}
use open_aipoject.Billing.Quantities.{Meter, Quantities, meter_keys, ai_credits}
use open_aipoject.Billing.Store.{Reservation, find_request, Db, Counter}
use open_aipoject.Billing.Session.Ensures.{
  Ensures, Ensures-mono, Ensures-or_raise, Ensures-or_configuration,
  Ensures-or_configuration_unless, Ensures-bind, lift-bind, gets-bind, reads-bind, guard-bind,
}
use open_aipoject.Billing.Repository.Counters.{get_or_create_usage_counter, lock_usage_counters}
use open_aipoject.Billing.Repository.Reservations.{lock_billing_account, get_usage_reservation}
use open_aipoject.Billing.Metering.Effects.{
  Moves, reserve_usage_quantities-Moves, nothing_moved, then_moved, get_or_create-Moves,
}
use open_aipoject.Billing.Metering.Lifecycle.{
  reserve_new, reserve_locked, reserve_normalized, unless_found, reserve_usage,
}
use open_aipoject.Billing.Metering.Checks.{
  EffectiveSubscription, matching_reservation, create_each, lock_and_validate_counters,
  UsageReservation,
}
use open_aipoject.Billing.Metering.Reads.{after_reading, check_each-Same}
use open_aipoject.Billing.Metering.Invariant.Sums.{IsBalanced}
use mathlib.Core.Path.{subst}
use open_aipoject.Prelude.PyInt.{PyValue}
use open_aipoject.Billing.Errors.{lookup_error}
use open_aipoject.Billing.Quantities.Normalized.{normalize_quantities-claim}
use open_aipoject.Prelude.Text.{lower}
use open_aipoject.Billing.Metering.Keeps.Insert.{create_usage_reservation-Ensures}

-- A counter that is created adds nothing to the sums.
create_each-Moves :
    (p : ℕ) (ms : List Meter) (db : Db) → Ensures (λ _. Moves p 0 0 0 db) (create_each p ms db)
unfolding create_each
create_each-Moves p [] db = nothing_moved p db
create_each-Moves p (m ∷ ms) db =
    Ensures-bind (λ _. Moves p 0 0 0 db) _ (get_or_create_usage_counter p m) (λ _. create_each p ms)
      db (get_or_create-Moves p m db)
      (λ _ db' k.
        Ensures-mono (λ _. Moves p 0 0 0 db') _ (create_each p ms db') (λ _ _ k'. then_moved k k')
          (create_each-Moves p ms db'))

locked_counters :
    (p : ℕ) (ms : List Meter) {db : Db} (db' : Db)
    → Moves p 0 0 0 db db'
    → Ensures (λ _. Moves p 0 0 0 db) (lock_usage_counters p ms db')
unfolding lock_usage_counters
locked_counters p ms {db} db' k =
    reads-bind _ _ _ db' refl (λ o.
      Ensures-or_raise {A = List Counter} (λ _. Moves p 0 0 0 db) lookup_error o db' (λ _ _. k))

created_counters :
    (p : ℕ) (ms : List Meter) (db : Db)
    → Ensures (λ _. Moves p 0 0 0 db) ((create_each p ms >> lock_usage_counters p ms) db)
created_counters p ms db =
    Ensures-bind (λ _. Moves p 0 0 0 db) _ (create_each p ms) (λ _. lock_usage_counters p ms) db
      (create_each-Moves p ms db) (λ _ db' k. locked_counters p ms db' k)

lock_and_validate-Moves :
    (p : ℕ) (q : Quantities) (e : Option EffectiveSubscription) (db : Db)
    → Ensures (λ _. Moves p 0 0 0 db) (lock_and_validate_counters p q e true db)
unfolding lock_and_validate_counters
lock_and_validate-Moves p q e db =
    Ensures-bind (λ _. Moves p 0 0 0 db) _ _ _ db
      (Ensures-or_configuration _ _ db (created_counters p (meter_keys q) db))
      (λ cs db' k. reads-bind _ _ _ db' (check_each-Same e cs q db') (λ _. k))

reserve_new-IsBalanced :
    (now new_id n : ℕ) (e : EffectiveSubscription) (request_id operation : String) (db : Db)
    → 0 < n
    → IsBalanced db
    → Ensures
        (λ _. IsBalanced)
        (reserve_new now new_id e request_id operation ((ai_credits, n) ∷ []) db)
unfolding reserve_new
reserve_new-IsBalanced now new_id n e request_id operation db pos b =
    Ensures-bind (λ _. Moves e.period 0 0 0 db) _ _ _ db
      (lock_and_validate-Moves e.period ((ai_credits, n) ∷ []) (some e) db)
      (λ _ db1 k.
        Ensures-bind (λ _. IsBalanced) _ _ _ db1
          (Ensures-or_configuration_unless _ _ _ db1 (
            Ensures-bind (λ _. Moves e.period n 0 0 db1) _ _ _ db1
              (reserve_usage_quantities-Moves e.period n db1 pos)
              (λ _ db2 k'.
                create_usage_reservation-Ensures now new_id e.account e.period n request_id
                  operation db2 pos b (then_moved k k'))))
          (λ row db3 b'. after_reading row db3 b'))

matching-IsBalanced :
    (r : Reservation) (operation : String) (q : Quantities) (db : Db)
    → IsBalanced db
    → Ensures (λ _. IsBalanced) (matching_reservation r operation q db)
unfolding matching_reservation
matching-IsBalanced r operation q db b =
    lift-bind _ _ _ db (λ persisted _. guard-bind _ _ _ _ db (λ _. after_reading r db b))

unless_found-IsBalanced :
    (o : Option Reservation) (operation : String) (q : Quantities) (rest : Session UsageReservation)
    (db : Db)
    → IsBalanced db
    → Ensures (λ _. IsBalanced) (rest db)
    → Ensures (λ _. IsBalanced) (unless_found o operation q rest db)
unless_found-IsBalanced (some r) operation q rest db b h = matching-IsBalanced r operation q db b
unless_found-IsBalanced none operation q rest db b h = h

locked_account :
    (others : Db → Db) (account : ℕ) (db : Db)
    → IsBalanced (others db)
    → Ensures (λ _. IsBalanced) (lock_billing_account others account db)
unfolding lock_billing_account ◌>>=◌
locked_account others account db b = b

module _ (now new_id n : ℕ) (e : EffectiveSubscription) (request_id operation : String) where
  found_again :
      (db : Db)
      → 0 < n
      → IsBalanced db
      → Ensures
          (λ _. IsBalanced)
          ((get_usage_reservation e.account request_id >>= λ o.
              unless_found o operation
                ((ai_credits, n) ∷ [])
                (reserve_new now new_id e request_id operation ((ai_credits, n) ∷ [])))
            db)
  unfolding get_usage_reservation
  found_again db pos b = gets-bind _ _ _ db (
      unless_found-IsBalanced (find_request e.account request_id db.reservations) operation
        ((ai_credits, n) ∷ [])
        (reserve_new now new_id e request_id operation ((ai_credits, n) ∷ [])) db b
        (reserve_new-IsBalanced now new_id n e request_id operation db pos b))

  reserve_locked-IsBalanced :
      (others : Db → Db) (db : Db)
      → IsBalanced (others db)
      → 0 < n
      → Ensures
          (λ _. IsBalanced)
          (reserve_locked others now new_id e request_id operation ((ai_credits, n) ∷ []) db)
  unfolding reserve_locked
  reserve_locked-IsBalanced others db b pos =
      Ensures-bind (λ _. IsBalanced) _ (lock_billing_account others e.account) _ db
        (locked_account others e.account db b)
        (λ found db' b'. guard-bind _ _ _ _ db' (λ _. found_again db' pos b'))

  reserve_normalized-IsBalanced :
      (others : Db → Db) (db : Db)
      → IsBalanced db
      → IsBalanced (others db)
      → 0 < n
      → Ensures
          (λ _. IsBalanced)
          (reserve_normalized others now new_id e request_id operation ((ai_credits, n) ∷ []) db)
  unfolding reserve_normalized get_usage_reservation
  reserve_normalized-IsBalanced others db b b' pos = gets-bind _ _ _ db (
      unless_found-IsBalanced (find_request e.account request_id db.reservations) operation
        ((ai_credits, n) ∷ [])
        (reserve_locked others now new_id e request_id operation ((ai_credits, n) ∷ [])) db b
        (reserve_locked-IsBalanced others db b' pos))

-- A reservation that returns keeps every sum, if what other transactions did while it waited for
-- the account's lock kept them.
pub reserve_usage-IsBalanced :
    (others : Db → Db) (now new_id : ℕ) (e : EffectiveSubscription) (request_id operation : String)
    (quantities : List (String × PyValue)) (db : Db)
    → IsBalanced db
    → IsBalanced (others db)
    → Ensures
        (λ _. IsBalanced)
        (reserve_usage others now new_id e request_id operation quantities db)
unfolding reserve_usage
reserve_usage-IsBalanced others now new_id e request_id operation quantities db b b' =
    lift-bind _ _ _ db (λ request _. lift-bind _ _ _ db (λ name _.
      lift-bind _ _ _ db (λ q normalized.
        let (n, same, pos) = normalize_quantities-claim quantities normalized in
        subst
          (λ c.
            Ensures (λ _. IsBalanced)
              (reserve_normalized others now new_id e request (lower name) c db))
          (sym same)
          (reserve_normalized-IsBalanced now new_id n e request (lower name) others db b b' pos))))
