-- ===== src/Billing/Metering/Races.antt =====
-- Two requests with one ID that reach the account's lock together.
use open_aipoject.Prelude.{ℕ, String, ◌≡◌, false, none, some, List, not}
use open_aipoject.Prelude.PyInt.{PyValue}
use open_aipoject.Billing.Quantities.{Quantities, normalize_quantities}
use open_aipoject.Billing.Store.{Reservation, find_request, Db, contains_account}
use open_aipoject.Billing.Session.Silent.{Silent-guard, Silent, Silent-gets}
use open_aipoject.Billing.Repository.Reservations.{lock_billing_account, get_usage_reservation}
use open_aipoject.Billing.Metering.Replays.{unless_found-Silent}
use open_aipoject.Billing.Metering.Lifecycle.{
  reserve_new, reserve_locked, reserve_normalized, reserve_usage, unless_found,
}
use open_aipoject.Billing.Metering.Checks.{EffectiveSubscription, required_text, UsageReservation}
use open_aipoject.Billing.Session.{◌>>=◌}
use open_aipoject.Billing.Errors.{ok, configuration}
use open_aipoject.Prelude.Text.{lower}

found_again :
    (now new_id : ℕ) (e : EffectiveSubscription) (id operation : String) (q : Quantities) (db : Db)
    {r : Reservation}
    → find_request e.account id db.reservations ≡ some r
    → Silent
        (get_usage_reservation e.account id >>= λ o.
          unless_found o operation q (reserve_new now new_id e id operation q))
        db
unfolding get_usage_reservation
found_again now new_id e id operation q db {r} found =
    Silent-gets _ _ db
      (rw found (unless_found-Silent r operation q (reserve_new now new_id e id operation q) db))

second_look :
    (others : Db → Db) (now new_id : ℕ) (e : EffectiveSubscription) (id operation : String)
    (q : Quantities) (db : Db) {r : Reservation}
    → find_request e.account id (others db).reservations ≡ some r
    → (reserve_locked others now new_id e id operation q db).1 ≡ others db
unfolding reserve_locked lock_billing_account ◌>>=◌
second_look others now new_id e id operation q db {r} found =
    Silent-guard {B = UsageReservation} (not (contains_account e.account (others db).accounts))
      configuration
      (λ _. get_usage_reservation e.account id >>= λ o.
        unless_found o operation q (reserve_new now new_id e id operation q))
      (others db) (λ _. found_again now new_id e id operation q (others db) found)

unless_none :
    (others : Db → Db) (now new_id : ℕ) (e : EffectiveSubscription) (id operation : String)
    (q : Quantities) (db : Db) {r : Reservation}
    → find_request e.account id db.reservations ≡ none
    → find_request e.account id (others db).reservations ≡ some r
    → (reserve_normalized others now new_id e id operation q db).1 ≡ others db
unfolding reserve_normalized get_usage_reservation ◌>>=◌
unless_none others now new_id e id operation q db none_yet found =
    rw none_yet (second_look others now new_id e id operation q db found)

-- If another transaction has reserved for the same request while this one waited for the account's
-- lock, this one writes nothing to what the other has left, whether it returns or raises.
pub reserve_usage-race :
    (others : Db → Db) (now new_id : ℕ) (e : EffectiveSubscription) (request_id operation : String)
    (quantities : List (String × PyValue)) (db : Db) {id name : String} {q : Quantities}
    {r : Reservation}
    → required_text 255 request_id ≡ ok id
    → required_text 64 operation ≡ ok name
    → normalize_quantities false quantities ≡ ok q
    → find_request e.account id db.reservations ≡ none
    → find_request e.account id (others db).reservations ≡ some r
    → (reserve_usage others now new_id e request_id operation quantities db).1 ≡ others db
unfolding reserve_usage ◌>>=◌
reserve_usage-race others now new_id e request_id operation quantities db {id} {name} {q} {r} text
      word kept none_yet found =
    rw text
      (rw word (rw kept (unless_none others now new_id e id (lower name) q db none_yet found)))
