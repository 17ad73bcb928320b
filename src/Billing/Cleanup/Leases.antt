-- ===== src/Billing/Cleanup/Leases.antt =====
-- A reservation whose owner is alive is not expired under it.
use open_aipoject.Prelude.{
  ℕ, ◌+◌, ◌*◌, ◌≤◌, ◌≡◌, ◌∙◌, Bool, true, false, some, List, [], ◌∷◌, arith, ◌==◌, if◌then◌else◌,
  refl,
}
use open_aipoject.Billing.Errors.{Result, ok, err}
use open_aipoject.Billing.Cleanup.{
  in_own_session, heartbeat_active_reservations, stale_cutoff, run_cleanup_cycle,
  register_active_reservation, unregister_active_reservation,
}
use open_aipoject.Billing.Store.{Reservation, Db, find_id, contains_account}
use open_aipoject.Billing.Session.Ensures.{Ensures, Ensures-mono, Ensures-bind}
use open_aipoject.Billing.Repository.Reservations.{
  is_stale, touched, touch_rows, touch_usage_reservation_activity,
}
use open_aipoject.Billing.Metering.Keeps.Expire.{expire_stale_reservations-IsSwept}
use open_aipoject.Billing.Metering.Keeps.Stale.{fresh-absent}
use open_aipoject.Billing.Metering.Keeps.Touch.{touch-IsBalanced}
use open_aipoject.Billing.Metering.Invariant.Sums.{IsBalanced}
use open_aipoject.Prelude.PyInt.{pos}
use open_aipoject.Billing.Session.{Session, ◌>>=◌}

own_session-state :
    {A : Type 0} (Q : Db → Type 0) (before : Db) (r : Result A × Db)
    → Q before
    → Ensures (λ _. Q) r
    → Q (in_own_session (λ _. r) before).1
unfolding in_own_session
own_session-state Q before (ok a, db) b h = h
own_session-state Q before (err e, db) b h = b

in_own_session-state :
    {A : Type 0} (Q : Db → Type 0) (m : Session A) (db : Db)
    → Q db
    → Ensures (λ _. Q) (m db)
    → Q (in_own_session m db).1
unfolding in_own_session
in_own_session-state Q m db b h = own_session-state Q db (m db) b h

touched-found :
    (t : ℕ) (ids : List ℕ) (j : ℕ) (rs : List Reservation) {r : Reservation}
    → find_id j rs ≡ some r
    → find_id j (touch_rows t ids rs) ≡ some (touched t ids r)
touched-found t ids j [] h = ground arith
touched-found t ids j (s ∷ rs) {r} h = ground (arith, touched-found t ids j rs {r = r})

found-id :
    (j : ℕ) (rs : List Reservation) {r : Reservation} → find_id j rs ≡ some r → (r.id == j) ≡ true
found-id j [] h = ground arith
found-id j (s ∷ rs) {r} h = ground (arith, found-id j rs {r = r})

touched-fresh :
    (t now n j : ℕ) (ids : List ℕ) (r : Reservation)
    → (r.id == j) ≡ true
    → contains_account j ids ≡ true
    → now ≤ t + 1000000 * n
    → is_stale (stale_cutoff now n) (touched t ids r) ≡ false
touched-fresh t now n j ids r e c h = ground arith

-- What a cycle leaves: the sums, and every row that was not stale.
abbrev IsSpared : ℕ → ℕ → Db → Db → Type 0
IsSpared older_than j db db' =
    IsBalanced db'
    × ((r : Reservation)
        → find_id j db.reservations ≡ some r
        → is_stale older_than r ≡ false
        → find_id j db'.reservations ≡ some r)

if-state :
    {A : Type 0} (Q : Db → Type 0) (c : Bool) (m k : Session A) (db : Db)
    → Q (m db).1
    → Q (k db).1
    → Q ((if c then m else k) db).1
if-state Q true m k db h g = h
if-state Q false m k db h g = g

run_cleanup_cycle-IsSpared :
    (is_locked : Reservation → Bool) (now n j : ℕ) (db : Db)
    → IsBalanced db
    → IsSpared (stale_cutoff now n) j db (run_cleanup_cycle is_locked now (pos n) db).1
unfolding run_cleanup_cycle
run_cleanup_cycle-IsSpared is_locked now n j db b =
    if-state (IsSpared (stale_cutoff now n) j db) (n == 0) _ _ db (b, λ r h f. h)
      (in_own_session-state (IsSpared (stale_cutoff now n) j db) _ db (b, λ r h f. h)
        (Ensures-bind (λ _. IsSpared (stale_cutoff now n) j db) _ _ _ db
          (Ensures-mono _ (λ _. IsSpared (stale_cutoff now n) j db) _
            (λ _ db' k. (
              k.1.balanced,
              λ r h f.
                  k.1.spared j (
                    fresh-absent is_locked (stale_cutoff now n) j db.reservations {r = r} h f
                      b.unique)
                  ∙ h,
            ))
            (expire_stale_reservations-IsSwept is_locked now (stale_cutoff now n) db b))
          (λ _ db' k. k)))

spared_after_heartbeat :
    (is_locked : Reservation → Bool) (t now stale_after_seconds j : ℕ) (active : List ℕ) (db : Db)
    (r : Reservation)
    → IsBalanced db
    → find_id j db.reservations ≡ some r
    → contains_account j active ≡ true
    → now ≤ t + 1000000 * stale_after_seconds
    → find_id j
        (run_cleanup_cycle is_locked now
          (pos stale_after_seconds)
          (heartbeat_active_reservations t active db).1).1.reservations
      ≡ some (touched t active r)
unfolding heartbeat_active_reservations in_own_session ◌>>=◌ touch_usage_reservation_activity
spared_after_heartbeat is_locked t now n j [] db r b h c l = ground arith
spared_after_heartbeat is_locked t now n j (i ∷ ids) db r b h c l =
    (run_cleanup_cycle-IsSpared is_locked now n j
        (record db { reservations = touch_rows t (i ∷ ids) db.reservations })
        (touch-IsBalanced t (i ∷ ids) db b)).1
      (touched t (i ∷ ids) r) (touched-found t (i ∷ ids) j db.reservations h)
      (touched-fresh t now n j (i ∷ ids) r (found-id j db.reservations h) c l)

-- What happens to the set of active reservations, the latest first.
pub data Registration : Type 0 where
  registering : ℕ → Registration
  unregistering : ℕ → Registration

abbrev pub active_after : List Registration → List ℕ
active_after [] = []
active_after (registering id ∷ es) = register_active_reservation id (active_after es)
active_after (unregistering id ∷ es) = unregister_active_reservation id (active_after es)

-- The latest of them that is about `j` registered it.
abbrev pub is_leased : ℕ → List Registration → Bool
is_leased j [] = false
is_leased j (registering id ∷ es) = if id == j then true else is_leased j es
is_leased j (unregistering id ∷ es) = if id == j then false else is_leased j es

contains-unregister :
    (i j : ℕ) (active : List ℕ)
    → contains_account j (unregister_active_reservation i active)
      ≡ (if i == j then false else contains_account j active)
unfolding unregister_active_reservation
contains-unregister i j [] = ground arith
contains-unregister i j (a ∷ active) = ground (arith, contains-unregister i j active)

contains-register :
    (i j : ℕ) (active : List ℕ)
    → contains_account j (register_active_reservation i active)
      ≡ (if i == j then true else contains_account j active)
unfolding register_active_reservation
contains-register i j active = ground arith

owned-active :
    (j : ℕ) (es : List Registration) → contains_account j (active_after es) ≡ is_leased j es
owned-active j [] = refl
owned-active j (registering i ∷ es) =
    ground (arith, contains-register i j (active_after es), owned-active j es)
owned-active j (unregistering i ∷ es) =
    ground (arith, contains-unregister i j (active_after es), owned-active j es)

-- Let a process have registered a reservation of balanced tables, not unregistered it since, and
-- then sent a heartbeat. Until `stale_after_seconds` have passed since the heartbeat, a cleanup
-- cycle, which may skip any rows, leaves the reservation as the heartbeat wrote it.
pub run_cleanup_cycle-heartbeat_active_reservations :
    (is_locked : Reservation → Bool) (t now stale_after_seconds j : ℕ) (es : List Registration)
    (db : Db) (r : Reservation)
    → IsBalanced db
    → find_id j db.reservations ≡ some r
    → is_leased j es ≡ true
    → now ≤ t + 1000000 * stale_after_seconds
    → find_id j
        (run_cleanup_cycle is_locked now
          (pos stale_after_seconds)
          (heartbeat_active_reservations t (active_after es) db).1).1.reservations
      ≡ some (touched t (active_after es) r)
run_cleanup_cycle-heartbeat_active_reservations is_locked t now n j es db r b h o l =
    spared_after_heartbeat is_locked t now n j (active_after es) db r b h (owned-active j es ∙ o) l
