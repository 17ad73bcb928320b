-- ===== src/Billing/Metering/Charges.antt =====
-- What a settlement writes: a run of the writes of server/billing/metering_service.py that
-- succeeds, for a row that is reserved.
use open_aipoject.Prelude.{
  [], ◌∷◌, ℕ, none, some, true, false, refl, ◌≤◌, ◌<◌, ◌≡◌, ◌∙◌, Bool, Option, List, arith, leb, ap,
}
use open_aipoject.Billing.Store.{
  reserved, State, is_reserved, Counter, Reservation, find_counter, update_counter, find_id,
  find_request, update_reserved, Db,
}
use open_aipoject.Billing.Session.{◌>>=◌, guard}
use open_aipoject.Billing.Quantities.{Quantities, get_or_zero, ai_credits, record_quantities}
use open_aipoject.Billing.Errors.{value_error, ok}
use open_aipoject.Billing.Repository.Counters.{
  nonzero_entries, exceeds, finish, settle_usage_quantities,
}
use open_aipoject.Billing.Repository.Reservations.{
  mark_settled, settle_found, settle_usage_reservation,
}
use open_aipoject.Billing.Metering.Effects.{positive_quantities-claim}
use open_aipoject.Billing.Metering.Supplement.{successful_of}
use open_aipoject.Billing.Metering.Invariant.RowUpdates.{KeepsKeys}
use open_aipoject.Billing.Metering.Checks.{settled_part}

abbrev Yields : {A : Type 0} → (A → Type 0) → Option A → Type 0
Yields Q none = ⊥
Yields Q (some a) = Q a

value_of : {A : Type 0} (Q : A → Type 0) (o : Option A) → Yields Q o → (a : A) × (o ≡ some a) × Q a
value_of Q none h = absurd h
value_of Q (some a) h = (a, refl, h)

finished-Yields :
    (p n m : ℕ) (cs : List Counter) {c : Counter}
    → find_counter p ai_credits cs ≡ some c
    → n ≤ c.reserved
    → Yields
        (λ ds. find_counter p ai_credits ds ≡ some (finish n m c))
        (update_counter p ai_credits (λ c. leb n c.reserved) (finish n m) cs)
finished-Yields p n m [] h k = cc
finished-Yields p n m (d ∷ cs) {c} h k = ground (arith, finished-Yields p n m cs {c = c})

written-Yields :
    (i : ℕ) (f : Reservation → Reservation) (rs : List Reservation) {r : Reservation}
    → KeepsKeys f
    → find_id i rs ≡ some r
    → is_reserved r.state ≡ true
    → Yields (λ u. (u.0 ≡ f r) × (find_id i u.1 ≡ some (f r))) (update_reserved i f rs)
written-Yields i f [] keeps h e = cc
written-Yields i f (s ∷ rs) {r} keeps h e =
    ground (arith, written-Yields i f rs {r = r} keeps, keeps.id s)

pub successful-within : (n m : ℕ) → m ≤ n → exceeds ((ai_credits, n) ∷ []) (successful_of m) ≡ false
successful-within n m h = ground arith

successful-nonzero : (m : ℕ) → nonzero_entries (successful_of m) [] ≡ successful_of m
unfolding nonzero_entries
successful-nonzero m = ground arith

successful-charge : (m : ℕ) → get_or_zero ai_credits (successful_of m) ≡ m
successful-charge m = ground arith

pub settle_quantities_ok :
    (p n m : ℕ) (db : Db) {ds : List Counter}
    → 0 < n
    → m ≤ n
    → update_counter p ai_credits (λ c. leb n c.reserved) (finish n m) db.counters ≡ some ds
    → settle_usage_quantities p ((ai_credits, n) ∷ []) (successful_of m) db
      ≡ (ok tt, record db { counters = ds })
unfolding settle_usage_quantities ◌>>=◌
settle_quantities_ok p n m db pos within h = rw (positive_quantities-claim n pos) (
    rw (successful-nonzero m)
      (rw (successful-within n m within) (rw (successful-charge m) (rw h refl))))

settle_found_ok :
    (now : ℕ) (q : Quantities) (st : State) (r : Reservation) (db : Db) {rs : List Reservation}
    → st ≡ reserved
    → update_reserved r.id (mark_settled now q) db.reservations ≡ some (mark_settled now q r, rs)
    → settle_found now q st r db ≡ (ok (mark_settled now q r), record db { reservations = rs })
unfolding settle_found
settle_found_ok now q reserved r db e h = rw h refl
settle_found_ok now q _ r db e h = cc

pub settle_reservation_ok :
    (now n m : ℕ) (r : Reservation) (db : Db) {rs : List Reservation}
    → r.state ≡ reserved
    → r.requested ≡ (ai_credits, n) ∷ []
    → m ≤ n
    → find_request r.account r.request_id db.reservations ≡ some r
    → update_reserved r.id (mark_settled now (successful_of m)) db.reservations
      ≡ some (mark_settled now (successful_of m) r, rs)
    → settle_usage_reservation now r.account r.request_id (successful_of m) db
      ≡ (ok (mark_settled now (successful_of m) r), record db { reservations = rs })
unfolding settle_usage_reservation ◌>>=◌
settle_reservation_ok now n m r db {rs} st q within found h = rw (successful-nonzero m) (
    rw found (
      guarded (exceeds r.requested (successful_of m))
        (ap (λ c. exceeds c (successful_of m)) q ∙ successful-within n m within)))
  where
    guarded :
        (b : Bool)
        → b ≡ false
        → ((guard b value_error >>= λ _. settle_found now (successful_of m) r.state r) db)
          ≡ (ok (mark_settled now (successful_of m) r), record db { reservations = rs })
    guarded false e = settle_found_ok now (successful_of m) r.state r db st h
    guarded true e = cc

pub finished_counter :
    (p n m : ℕ) (cs : List Counter) {c : Counter}
    → find_counter p ai_credits cs ≡ some c
    → n ≤ c.reserved
    → (ds : List Counter) × (update_counter p ai_credits (λ c. leb n c.reserved) (finish n m) cs
        ≡ some ds)
      × (find_counter p ai_credits ds ≡ some (finish n m c))
finished_counter p n m cs {c} h k =
    value_of (λ ds. find_counter p ai_credits ds ≡ some (finish n m c)) _
      (finished-Yields p n m cs h k)

pub written_row :
    (i : ℕ) (f : Reservation → Reservation) (rs : List Reservation) {r : Reservation}
    → KeepsKeys f
    → find_id i rs ≡ some r
    → is_reserved r.state ≡ true
    → (u : Reservation × List Reservation) × (update_reserved i f rs ≡ some u)
      × ((u.0 ≡ f r) × (find_id i u.1 ≡ some (f r)))
written_row i f rs {r} keeps h e =
    value_of (λ u. (u.0 ≡ f r) × (find_id i u.1 ≡ some (f r))) _ (written-Yields i f rs keeps h e)

-- What was settled is read back.
pub settled_read : (m : ℕ) → settled_part (some (successful_of m)) ≡ ok (some (successful_of m))
unfolding record_quantities
settled_read m = ground arith
