-- ===== src/Billing/Metering/Keeps/Touch.antt =====
-- `touch_usage_reservation_activity` keeps the invariant.
use open_aipoject.Prelude.{[], ◌∷◌, ℕ, arith, String, ◌≡◌, refl, sym, ◌∙◌, none, List, All}
use open_aipoject.Billing.Store.{Reservation, find_id, find_request, Db}
use open_aipoject.Billing.Session.Ensures.{Ensures}
use open_aipoject.Billing.Repository.Reservations.{
  touched, touch_rows, touch_usage_reservation_activity,
}
use open_aipoject.Billing.Metering.Invariant.Sums.{
  total, held_at, charged_at, IsRow, HasUniqueKeys, IsBalanced,
}

-- What a sum over the rows reads is left as it is.
touched-total :
    (now : ℕ) (ids : List ℕ) (w : Reservation → ℕ) (rs : List Reservation)
    → ((r : Reservation) → w (touched now ids r) ≡ w r)
    → total w (touch_rows now ids rs) ≡ total w rs
touched-total now ids w [] h = refl
touched-total now ids w (r ∷ rs) h = ground (arith, h r, touched-total now ids w rs)

touched-IsRow :
    (now : ℕ) (ids : List ℕ) (rs : List Reservation)
    → All IsRow rs
    → All IsRow (touch_rows now ids rs)
touched-IsRow now ids [] a = tt
touched-IsRow now ids (r ∷ rs) a = ground (arith, touched-IsRow now ids rs)

touched-find_id :
    (now : ℕ) (ids : List ℕ) (j : ℕ) (rs : List Reservation)
    → find_id j rs ≡ none
    → find_id j (touch_rows now ids rs) ≡ none
touched-find_id now ids j [] h = refl
touched-find_id now ids j (r ∷ rs) h = ground (arith, touched-find_id now ids j rs)

touched-find_request :
    (now : ℕ) (ids : List ℕ) (a : ℕ) (q : String) (rs : List Reservation)
    → find_request a q rs ≡ none
    → find_request a q (touch_rows now ids rs) ≡ none
touched-find_request now ids a q [] h = refl
touched-find_request now ids a q (r ∷ rs) h = ground (arith, touched-find_request now ids a q rs)

touched-HasUniqueKeys :
    (now : ℕ) (ids : List ℕ) (rs : List Reservation)
    → HasUniqueKeys rs
    → HasUniqueKeys (touch_rows now ids rs)
touched-HasUniqueKeys now ids [] u = tt
touched-HasUniqueKeys now ids (r ∷ rs) u = ground (
  arith,
  touched-HasUniqueKeys now ids rs,
  touched-find_id now ids r.id rs,
  touched-find_request now ids r.account r.request_id rs,
)

pub touch-IsBalanced :
    (now : ℕ) (ids : List ℕ) (db : Db)
    → IsBalanced db
    → Ensures (λ _. IsBalanced) (touch_usage_reservation_activity now ids db)
unfolding touch_usage_reservation_activity
touch-IsBalanced now ids db b = record {
  rows = touched-IsRow now ids db.reservations b.rows;
  unique = touched-HasUniqueKeys now ids db.reservations b.unique;
  held_exact = λ p.
      b.held_exact p ∙ sym (touched-total now ids (held_at p) db.reservations (λ r. ground arith));
  used_exact = λ p.
      b.used_exact p
      ∙ sym (touched-total now ids (charged_at p) db.reservations (λ r. ground arith));
}
