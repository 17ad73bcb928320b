-- ===== src/Billing/Repository/Reservations.antt =====
-- The statements on `usage_reservations`, and the lock on a billing account. `now` stands for
-- `func.now()`, and `new_id` for the fresh UUID. The service passes request IDs and reasons
-- already stripped and not empty, so that `_required_text` leaves them as they are.
use open_aipoject.Prelude.{
  ℕ, String, Bool, not, ◌&&◌, ◌||◌, Option, none, some, List, [], ◌∷◌, ltb, if◌then◌else◌, is_some,
}
use open_aipoject.Prelude.Text.{lower, strip}
use open_aipoject.Billing.Errors.{
  ok, err, value_error, lookup_error, runtime_error, integrity_error,
}
use open_aipoject.Billing.Quantities.{Quantities, same_quantities}
use open_aipoject.Billing.Store.{
  Db, State, reserved, settled, released, expired, is_reserved, Reservation, find_id, find_request,
  update_reserved, contains_account,
}
use open_aipoject.Billing.Session.{
  Session, pure, raise, lift, gets, or_raise, guard, modify, ◌>>=◌, ◌>>◌,
}
use open_aipoject.Billing.Repository.Counters.{positive_quantities, nonzero_entries, exceeds}

-- `select ... for update` of the account. Other transactions run while it waits for the lock:
-- `others` is what they do to the database.
unfoldable pub lock_billing_account : (Db → Db) → ℕ → Session Bool
lock_billing_account others account = do
  modify others
  gets (λ db. contains_account account db.accounts)

unfoldable pub get_usage_reservation : ℕ → String → Session (Option Reservation)
get_usage_reservation account request_id =
    gets (λ db. find_request account request_id db.reservations)

unfoldable pub get_usage_reservation_by_id : ℕ → Session (Option Reservation)
get_usage_reservation_by_id id = gets (λ db. find_id id db.reservations)

-- The primary key and the unique constraint on (billing_account_id, request_id).
abbrev pub violates_unique : Reservation → List Reservation → Bool
violates_unique r rs = is_some (find_id r.id rs) || is_some (find_request r.account r.request_id rs)

unfoldable pub insert_reservation : Reservation → Session Reservation
insert_reservation r = do
  guard (← gets (λ db. violates_unique r db.reservations)) integrity_error
  modify (λ db. record db { reservations = r ∷ db.reservations })
  pure r

unfoldable pub create_usage_reservation :
    ℕ → ℕ → ℕ → ℕ → String → String → Quantities → Session Reservation
unfolding insert_reservation positive_quantities lower strip
create_usage_reservation now new_id account period request_id operation_type quantities = do
  normalized ← lift (positive_quantities quantities)
  insert_reservation (record {
    id = new_id;
    account = account;
    period = period;
    request_id = request_id;
    operation = lower (strip operation_type);
    state = reserved;
    requested = normalized;
    settled = none;
    release_reason = none;
    created_at = now;
    settled_at = none;
    released_at = none;
    last_activity = now;
  })

-- `update usage_reservations ... where id = id and state = 'reserved' returning *`
abbrev pub written : Option (Reservation × List Reservation) → Session Reservation
written none db = (err runtime_error, db)
written (some (r, rs)) db = (ok r, record db { reservations = rs })

unfoldable pub update_reservation : ℕ → (Reservation → Reservation) → Session Reservation
update_reservation id f db = written (update_reserved id f db.reservations) db

abbrev pub is_stale : ℕ → Reservation → Bool
is_stale older_than r = is_reserved r.state && ltb r.last_activity older_than

-- `order_by(activity_column, id)`: an insertion sort on (last_activity, id).
abbrev pub is_before : Reservation → Reservation → Bool
is_before a b =
    ltb a.last_activity b.last_activity
    || (not (ltb b.last_activity a.last_activity) && ltb a.id b.id)

abbrev pub insert_by_activity : Reservation → List Reservation → List Reservation
insert_by_activity r [] = r ∷ []
insert_by_activity r (s ∷ rs) = if is_before r s then r ∷ s ∷ rs else s ∷ insert_by_activity r rs

abbrev pub stale_rows : ℕ → List Reservation → List Reservation
stale_rows older_than [] = []
stale_rows older_than (r ∷ rs) =
    let rest = stale_rows older_than rs in
    if is_stale older_than r then insert_by_activity r rest else rest

-- Rows that another worker has locked are skipped: `is_locked` says which.
abbrev pub unlocked_rows : (Reservation → Bool) → List Reservation → List Reservation
unlocked_rows is_locked [] = []
unlocked_rows is_locked (r ∷ rs) =
    let rest = unlocked_rows is_locked rs in if is_locked r then rest else r ∷ rest

unfoldable pub lock_stale_usage_reservations : (Reservation → Bool) → ℕ → Session (List Reservation)
lock_stale_usage_reservations is_locked older_than =
    gets (λ db. stale_rows older_than (unlocked_rows is_locked db.reservations))

abbrev pub touched : ℕ → List ℕ → Reservation → Reservation
touched now ids r =
    if contains_account r.id ids && is_reserved r.state then record r { last_activity = now } else r

abbrev pub touch_rows : ℕ → List ℕ → List Reservation → List Reservation
touch_rows now ids [] = []
touch_rows now ids (r ∷ rs) = touched now ids r ∷ touch_rows now ids rs

-- `touch_usage_reservation_activity`, without its count of rows.
unfoldable pub touch_usage_reservation_activity : ℕ → List ℕ → Session (Unit {0})
touch_usage_reservation_activity now ids =
    modify (λ db. record db { reservations = touch_rows now ids db.reservations })

abbrev pub expand : ℕ → Quantities → Reservation → Reservation
expand now q r = record r { requested = q; last_activity = now }

unfoldable pub update_usage_reservation_requested_quantities :
    ℕ → ℕ → Quantities → Session Reservation
unfolding update_reservation positive_quantities
update_usage_reservation_requested_quantities now id requested_quantities = do
  quantities ← lift (positive_quantities requested_quantities)
  update_reservation id (expand now quantities)

abbrev pub mark_settled : ℕ → Quantities → Reservation → Reservation
mark_settled now q r = record r {
  state = settled;
  settled = some q;
  settled_at = some now;
  release_reason = none;
}

-- `dict(existing["settled_quantities"] or {})`
abbrev pub stored : Option Quantities → Quantities
stored none = []
stored (some q) = q

-- The branches on the state of the row that was found.
unfoldable pub settle_found : ℕ → Quantities → State → Reservation → Session Reservation
unfolding update_reservation
settle_found now q settled existing = do
  guard (not (same_quantities (stored existing.settled) q)) value_error
  pure existing
settle_found now q reserved existing = update_reservation existing.id (mark_settled now q)
settle_found now q _ existing = raise value_error

unfoldable pub settle_usage_reservation : ℕ → ℕ → String → Quantities → Session Reservation
unfolding settle_found nonzero_entries
settle_usage_reservation now account request_id settled_quantities = do
  let quantities = nonzero_entries settled_quantities []
  existing ← or_raise lookup_error (← gets (λ db. find_request account request_id db.reservations))
  guard (exceeds existing.requested quantities) value_error
  settle_found now quantities existing.state existing

abbrev pub mark_released : ℕ → State → String → Reservation → Reservation
mark_released now s reason r = record r {
  state = s;
  release_reason = some reason;
  released_at = some now;
}

unfoldable pub release_found : ℕ → String → State → Reservation → Session Reservation
unfolding update_reservation
release_found now reason released existing = pure existing
release_found now reason reserved existing =
    update_reservation existing.id (mark_released now released reason)
release_found now reason _ existing = raise value_error

unfoldable pub release_usage_reservation : ℕ → ℕ → String → String → Session Reservation
unfolding release_found
release_usage_reservation now account request_id reason = do
  existing ← or_raise lookup_error (← gets (λ db. find_request account request_id db.reservations))
  release_found now reason existing.state existing

unfoldable pub expire_usage_reservation : ℕ → ℕ → String → Session Reservation
unfolding update_reservation
expire_usage_reservation now id reason = update_reservation id (mark_released now expired reason)
