-- ===== src/Billing/Metering/Invariant/RowUpdates.antt =====
-- How one update of a reservation's row moves the sums and keeps the rows' conditions.
use open_aipoject.Prelude.{
  ℕ, ◌+◌, ◌≡◌, String, true, false, none, some, List, [], ◌∷◌, arith, ◌==◌, eq_iff, All,
}
use open_aipoject.Billing.Store.{Reservation, is_reserved, find_id, find_request, update_reserved}
use open_aipoject.Billing.Metering.Invariant.Sums.{total, IsRow, HasUniqueKeys, After}

-- `f` leaves the columns that identify a row.
pub record KeepsKeys (f : Reservation → Reservation) : Type 0 where
  pub id : (r : Reservation) → (f r).id ≡ r.id
  pub account : (r : Reservation) → (f r).account ≡ r.account
  pub request_id : (r : Reservation) → (f r).request_id ≡ r.request_id
  pub period : (r : Reservation) → (f r).period ≡ r.period

module _ (i : ℕ) (f : Reservation → Reservation) {r : Reservation} where
  -- The locked row is the one that is updated.
  pub update_reserved_row :
      (rs : List Reservation)
      → find_id i rs ≡ some r
      → is_reserved r.state ≡ true
      → After (λ u. u.0 ≡ f r) (update_reserved i f rs)
  update_reserved_row [] h e = tt
  update_reserved_row (s ∷ rs) h e = ground (arith, update_reserved_row rs)

  -- A sum over the rows, with the row's own part on both sides.
  pub update_reserved-total :
      (w : Reservation → ℕ) (rs : List Reservation)
      → find_id i rs ≡ some r
      → is_reserved r.state ≡ true
      → After (λ u. total w u.1 + w r ≡ total w rs + w (f r)) (update_reserved i f rs)
  update_reserved-total w [] h e = tt
  update_reserved-total w (s ∷ rs) h e = ground (arith, update_reserved-total w rs)

  pub update_reserved-All :
      (rs : List Reservation)
      → IsRow (f r)
      → find_id i rs ≡ some r
      → is_reserved r.state ≡ true
      → All IsRow rs
      → After (λ u. All IsRow u.1) (update_reserved i f rs)
  update_reserved-All [] k h e a = tt
  update_reserved-All (s ∷ rs) k h e a = ground (arith, update_reserved-All rs k)

module _ (i : ℕ) (f : Reservation → Reservation) (keeps : KeepsKeys f) where
  update_reserved-find_id :
      (j : ℕ) (rs : List Reservation)
      → find_id j rs ≡ none
      → After (λ u. find_id j u.1 ≡ none) (update_reserved i f rs)
  update_reserved-find_id j [] h = tt
  update_reserved-find_id j (s ∷ rs) h = ground (arith, update_reserved-find_id j rs, keeps.id s)

  update_reserved-find_request :
      (a : ℕ) (q : String) (rs : List Reservation)
      → find_request a q rs ≡ none
      → After (λ u. find_request a q u.1 ≡ none) (update_reserved i f rs)
  update_reserved-find_request a q [] h = tt
  update_reserved-find_request a q (s ∷ rs) h =
      ground (arith, update_reserved-find_request a q rs, keeps.account s, keeps.request_id s)

  pub update_reserved-HasUniqueKeys :
      (rs : List Reservation)
      → HasUniqueKeys rs
      → After (λ u. HasUniqueKeys u.1) (update_reserved i f rs)
  update_reserved-HasUniqueKeys [] h = tt
  update_reserved-HasUniqueKeys (s ∷ rs) h = ground (
    arith,
    update_reserved-HasUniqueKeys rs,
    update_reserved-find_id s.id rs,
    update_reserved-find_request s.account s.request_id rs,
    keeps.id s,
    keeps.account s,
    keeps.request_id s,
  )

pub find_id-id :
    (i : ℕ) (rs : List Reservation) {r : Reservation} → find_id i rs ≡ some r → r.id ≡ i
find_id-id i [] h = cc
find_id-id i (s ∷ rs) {r} h = ground (arith, find_id-id i rs {r = r})

-- The updated row is found under its ID.
pub update_reserved-found :
    (i : ℕ) (f : Reservation → Reservation) {r : Reservation}
    → KeepsKeys f
    → (rs : List Reservation) → find_id i rs ≡ some r
    → is_reserved r.state ≡ true
    → After (λ u. find_id r.id u.1 ≡ some (f r)) (update_reserved i f rs)
update_reserved-found i f keeps [] h e = tt
update_reserved-found i f {r} keeps (s ∷ rs) h e =
    ground (arith, update_reserved-found i f {r = r} keeps rs, keeps.id s, find_id-id i rs {r = r})

-- With unique keys, a row that is found by its ID is found by its account and request ID.
pub find_request_of_find_id :
    (i : ℕ) (rs : List Reservation) {r : Reservation}
    → HasUniqueKeys rs
    → find_id i rs ≡ some r
    → find_request r.account r.request_id rs ≡ some r
find_request_of_find_id i [] u h = cc
find_request_of_find_id i (s ∷ rs) {r} u h = ground (
  arith,
  find_request_of_find_id i rs {r = r} u.2,
  eq_iff s.request_id r.request_id,
  eq_iff s.request_id s.request_id,
)

pub find_id-IsRow :
    (i : ℕ) (rs : List Reservation) {r : Reservation}
    → find_id i rs ≡ some r
    → All IsRow rs
    → IsRow r
find_id-IsRow i [] h a = cc
find_id-IsRow i (s ∷ rs) {r} h a = ground (arith, find_id-IsRow i rs {r = r})

-- Every other row is found as before.
pub update_reserved-others :
    (i : ℕ) (f : Reservation → Reservation) {r : Reservation}
    → KeepsKeys f
    → (j : ℕ) (rs : List Reservation) → find_id i rs ≡ some r
    → is_reserved r.state ≡ true
    → (r.id == j) ≡ false
    → After (λ u. find_id j u.1 ≡ find_id j rs) (update_reserved i f rs)
update_reserved-others i f keeps j [] h e d = tt
update_reserved-others i f {r} keeps j (s ∷ rs) h e d =
    ground
      (arith, update_reserved-others i f {r = r} keeps j rs, keeps.id s, find_id-id i rs {r = r})
