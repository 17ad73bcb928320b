-- ===== src/Billing/Metering/Replays.antt =====
-- Requests that come again, and operations on a reservation that is over, write nothing.
use open_aipoject.Prelude.{ℕ, String, ◌≡◌, refl, false, some, List, not}
use open_aipoject.Billing.Store.{
  released, State, settled, reserved, is_reserved, Reservation, find_id, find_request, Db,
}
use open_aipoject.Prelude.PyInt.{PyValue, ℤ}
use open_aipoject.Billing.Session.{Session, ◌>>=◌}
use open_aipoject.Billing.Quantities.{Quantities}
use open_aipoject.Billing.Session.Silent.{
  Silent, Silent-bind, Silent-lift, Silent-guard, Silent-gets,
}
use open_aipoject.Billing.Repository.Reservations.{
  get_usage_reservation_by_id, get_usage_reservation,
}
use open_aipoject.Billing.Metering.Supplement.{
  supplement_by_state, settle_usage_with_supplement, supplement_usage_reservation, release_by_state,
  release_usage, is_active,
}
use open_aipoject.Billing.Metering.Lifecycle.{
  settle_by_state, settle_usage, unless_found, reserve_locked, reserve_normalized, reserve_usage,
}
use open_aipoject.Billing.Metering.Checks.{
  to_reservation, locked_reservation, UsageReservation, EffectiveSubscription, required_text,
  matching_reservation,
}
use open_aipoject.Billing.Errors.{ok}
use mathlib.Core.Path.{subst}
use open_aipoject.Prelude.Text.{lower}

pub to_reservation-Silent : (r : Reservation) (db : Db) → Silent (to_reservation r) db
unfolding to_reservation
to_reservation-Silent r db = Silent-lift _ _ db (λ q _. Silent-lift _ _ db (λ s _. refl))

locked-Silent :
    {A : Type 0} (i : ℕ) (k : Reservation → Session A) (db : Db) {r : Reservation}
    → find_id i db.reservations ≡ some r
    → Silent (k r) db
    → Silent (locked_reservation i >>= k) db
unfolding locked_reservation get_usage_reservation_by_id ◌>>=◌
locked-Silent i k db h s = rw h s

-- A reservation that is settled, released or expired.
abbrev pub IsOver : ℕ → Db → Type 0
IsOver i db =
    (r : Reservation) × (find_id i db.reservations ≡ some r) × (is_reserved r.state ≡ false)

settle_by_state-Silent :
    (now : ℕ) (successful requested : Quantities) (st : State) (r : Reservation) (db : Db)
    → is_reserved st ≡ false
    → Silent (settle_by_state now successful requested st r) db
unfolding settle_by_state
settle_by_state-Silent now successful requested settled r db e =
    Silent-lift _ _ db (λ recorded _. Silent-guard _ _ _ db (λ _. to_reservation-Silent r db))
settle_by_state-Silent now successful requested reserved r db e = cc
settle_by_state-Silent now successful requested _ r db e = refl

supplement_by_state-Silent :
    (now i actual limit : ℕ) (requested : Quantities) (st : State) (r : Reservation) (db : Db)
    → is_reserved st ≡ false
    → Silent (supplement_by_state now i actual limit requested st r) db
unfolding supplement_by_state
supplement_by_state-Silent now i actual limit requested settled r db e =
    Silent-lift _ _ db (λ recorded _. Silent-bind _ _ db (to_reservation-Silent r db) (λ _. refl))
supplement_by_state-Silent now i actual limit requested reserved r db e = cc
supplement_by_state-Silent now i actual limit requested _ r db e = refl

release_by_state-Silent :
    (now : ℕ) (reason : String) (st : State) (r : Reservation) (db : Db)
    → is_reserved st ≡ false
    → Silent (release_by_state now reason st r) db
unfolding release_by_state
release_by_state-Silent now reason released r db e = to_reservation-Silent r db
release_by_state-Silent now reason reserved r db e = cc
release_by_state-Silent now reason _ r db e = refl

active_over : (st : State) → not (is_active st) ≡ false → is_reserved st ≡ false → ⊥
active_over reserved a e = cc
active_over _ a e = cc

-- A settlement, a settlement with a supplement, a supplement and a release of a reservation that
-- is settled, released or expired write nothing, whether they return or raise.
pub over-Silent :
    (now i : ℕ) (quantities : List (String × PyValue)) (actual limit target : ℤ) (bound : ℕ)
    (reason : String) (db : Db)
    → IsOver i db
    → Silent (settle_usage now i quantities) db
      × Silent (settle_usage_with_supplement now i actual limit) db
      × Silent (supplement_usage_reservation now i target bound) db
      × Silent (release_usage now i reason) db
unfolding settle_usage settle_usage_with_supplement supplement_usage_reservation release_usage
over-Silent now i quantities actual limit target bound reason db (r, found, over) = (
  Silent-lift _ _ db (λ successful _. locked-Silent i _ db found (
      Silent-lift _ _ db (λ requested _.
        Silent-guard _ _ _ db
          (λ _. settle_by_state-Silent now successful requested r.state r db over)))),
  Silent-lift _ _ db (λ a _. Silent-lift _ _ db (λ m _. locked-Silent i _ db found (
      Silent-lift _ _ db
        (λ requested _. supplement_by_state-Silent now i a m requested r.state r db over)))),
  Silent-lift _ _ db (λ t _.
      locked-Silent i _ db found
        (Silent-guard _ _ _ db (λ active. absurd (active_over r.state active over)))),
  Silent-lift _ _ db
      (λ text _. locked-Silent i _ db found (release_by_state-Silent now text r.state r db over)),
)

pub unless_found-Silent :
    (r : Reservation) (operation : String) (q : Quantities) (rest : Session UsageReservation)
    (db : Db)
    → Silent (unless_found (some r) operation q rest) db
unfolding matching_reservation
unless_found-Silent r operation q rest db =
    Silent-lift _ _ db (λ persisted _. Silent-guard _ _ _ db (λ _. to_reservation-Silent r db))

found_first :
    (others : Db → Db) (now new_id : ℕ) (e : EffectiveSubscription) (id operation : String)
    (q : Quantities) (db : Db) {r : Reservation}
    → find_request e.account id db.reservations ≡ some r
    → Silent (reserve_normalized others now new_id e id operation q) db
unfolding reserve_normalized get_usage_reservation
found_first others now new_id e id operation q db {r} found = Silent-gets _ _ db (
    rw found
      (unless_found-Silent r operation q (reserve_locked others now new_id e id operation q) db))

ok_injective : {A : Type 0} {a b : A} → ok a ≡ ok b → a ≡ b
ok_injective h = cc

-- A request whose ID the account has used already writes nothing: it returns the reservation that
-- there is, or raises.
pub reserve_usage-Silent :
    (others : Db → Db) (now new_id : ℕ) (e : EffectiveSubscription) (request_id operation : String)
    (quantities : List (String × PyValue)) (db : Db) {id : String} {r : Reservation}
    → required_text 255 request_id ≡ ok id
    → find_request e.account id db.reservations ≡ some r
    → Silent (reserve_usage others now new_id e request_id operation quantities) db
unfolding reserve_usage
reserve_usage-Silent others now new_id e request_id operation quantities db {id} {r} text found =
    rw text (
      Silent-lift _ _ db (λ id' same. Silent-lift _ _ db (λ name _. Silent-lift _ _ db (λ q _.
        subst (λ i. Silent (reserve_normalized others now new_id e i (lower name) q) db)
          (ok_injective same) (found_first others now new_id e id (lower name) q db found)))))
