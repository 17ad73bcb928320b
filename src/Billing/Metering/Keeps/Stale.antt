-- ===== src/Billing/Metering/Keeps/Stale.antt =====
-- The rows that `lock_stale_usage_reservations` returns are reserved rows of the table, each once.
use open_aipoject.Prelude.{[], ◌∷◌, ℕ, ◌≡◌, refl, Bool, true, false, none, some, List, arith, ◌==◌}
use open_aipoject.Billing.Store.{is_reserved, Reservation, find_id}
use open_aipoject.Billing.Repository.Reservations.{
  insert_by_activity, stale_rows, unlocked_rows, is_stale,
}
use open_aipoject.Billing.Metering.Invariant.Sums.{HasUniqueKeys}

abbrev pub IsPending : List Reservation → List Reservation → Type 0
IsPending table [] = Unit
IsPending table (r ∷ rs) =
    (find_id r.id table ≡ some r)
    × (is_reserved r.state ≡ true)
    × (find_id r.id rs ≡ none)
    × IsPending table rs

-- A part of the table whose rows are each found by their IDs, each once.
abbrev IsPart : List Reservation → List Reservation → Type 0
IsPart table [] = Unit
IsPart table (r ∷ rs) = (find_id r.id table ≡ some r) × (find_id r.id rs ≡ none) × IsPart table rs

widened :
    (s : Reservation) (table rs : List Reservation)
    → find_id s.id rs ≡ none
    → IsPart table rs
    → IsPart (s ∷ table) rs
widened s table [] h p = tt
widened s table (r ∷ rs) h p = ground (arith, widened s table rs)

whole_table : (table : List Reservation) → HasUniqueKeys table → IsPart table table
whole_table [] u = tt
whole_table (r ∷ rs) u = (ground arith, u.0, widened r rs rs u.0 (whole_table rs u.2))

unlocked_rows-find_id :
    (is_locked : Reservation → Bool) (j : ℕ) (rs : List Reservation)
    → find_id j rs ≡ none
    → find_id j (unlocked_rows is_locked rs) ≡ none
unlocked_rows-find_id is_locked j [] h = refl
unlocked_rows-find_id is_locked j (r ∷ rs) h = ground (arith, unlocked_rows-find_id is_locked j rs)

unlocked_rows-IsPart :
    (is_locked : Reservation → Bool) (table rs : List Reservation)
    → IsPart table rs
    → IsPart table (unlocked_rows is_locked rs)
unlocked_rows-IsPart is_locked table [] p = tt
unlocked_rows-IsPart is_locked table (r ∷ rs) p =
    ground (arith, unlocked_rows-IsPart is_locked table rs, unlocked_rows-find_id is_locked r.id rs)

insert-find_id :
    (r : Reservation) (j : ℕ) (rs : List Reservation)
    → (r.id == j) ≡ false
    → find_id j rs ≡ none
    → find_id j (insert_by_activity r rs) ≡ none
insert-find_id r j [] d h = ground arith
insert-find_id r j (s ∷ rs) d h = ground (arith, insert-find_id r j rs)

insert-IsPending :
    (table : List Reservation) (r : Reservation) (rs : List Reservation)
    → find_id r.id table ≡ some r
    → is_reserved r.state ≡ true
    → find_id r.id rs ≡ none
    → IsPending table rs
    → IsPending table (insert_by_activity r rs)
insert-IsPending table r [] f s h p = (f, s, refl, tt)
insert-IsPending table r (t ∷ rs) f s h p =
    ground (arith, insert-IsPending table r rs, insert-find_id r t.id rs)

stale_rows-find_id :
    (t j : ℕ) (rs : List Reservation) → find_id j rs ≡ none → find_id j (stale_rows t rs) ≡ none
stale_rows-find_id t j [] h = refl
stale_rows-find_id t j (r ∷ rs) h =
    ground (arith, stale_rows-find_id t j rs, insert-find_id r j (stale_rows t rs))

stale_rows-IsPending :
    (t : ℕ) (table rs : List Reservation) → IsPart table rs → IsPending table (stale_rows t rs)
stale_rows-IsPending t table [] p = tt
stale_rows-IsPending t table (r ∷ rs) p = ground (
  arith,
  stale_rows-IsPending t table rs,
  stale_rows-find_id t r.id rs,
  insert-IsPending table r (stale_rows t rs),
)

pub stale-IsPending :
    (is_locked : Reservation → Bool) (t : ℕ) (table : List Reservation)
    → HasUniqueKeys table
    → IsPending table (stale_rows t (unlocked_rows is_locked table))
stale-IsPending is_locked t table u =
    stale_rows-IsPending t table _
      (unlocked_rows-IsPart is_locked table table (whole_table table u))

-- The rows that wait stay as they are while another row is written.
pub still-IsPending :
    (i : ℕ) (table after rs : List Reservation)
    → ((j : ℕ) → (i == j) ≡ false → find_id j after ≡ find_id j table)
    → find_id i rs ≡ none
    → IsPending table rs
    → IsPending after rs
still-IsPending i table after [] o h p = tt
still-IsPending i table after (r ∷ rs) o h p =
    ground (arith, still-IsPending i table after rs o, o r.id)

insert-found :
    (r : Reservation) (j : ℕ) (rs : List Reservation) {s : Reservation}
    → find_id r.id rs ≡ none
    → find_id j (r ∷ rs) ≡ some s
    → find_id j (insert_by_activity r rs) ≡ some s
insert-found r j [] n h = h
insert-found r j (t ∷ rs) {s} n h = ground (arith, insert-found r j rs {s = s})

-- A stale row that is not locked is returned.
pub stale-present :
    (is_locked : Reservation → Bool) (t j : ℕ) (rs : List Reservation) {r : Reservation}
    → find_id j rs ≡ some r
    → is_stale t r ≡ true
    → is_locked r ≡ false
    → HasUniqueKeys rs
    → find_id j (stale_rows t (unlocked_rows is_locked rs)) ≡ some r
stale-present is_locked t j [] h f l u = cc
stale-present is_locked t j (s ∷ rs) {r} h f l u = ground (
  arith,
  stale-present is_locked t j rs {r = r},
  stale_rows-find_id t s.id (unlocked_rows is_locked rs),
  unlocked_rows-find_id is_locked s.id rs,
  insert-found s j (stale_rows t (unlocked_rows is_locked rs)) {s = r},
)

-- A row that is not stale is not returned.
pub fresh-absent :
    (is_locked : Reservation → Bool) (t j : ℕ) (rs : List Reservation) {r : Reservation}
    → find_id j rs ≡ some r
    → is_stale t r ≡ false
    → HasUniqueKeys rs
    → find_id j (stale_rows t (unlocked_rows is_locked rs)) ≡ none
fresh-absent is_locked t j [] h f u = refl
fresh-absent is_locked t j (s ∷ rs) {r} h f u = ground (
  arith,
  fresh-absent is_locked t j rs {r = r},
  stale_rows-find_id t j (unlocked_rows is_locked rs),
  unlocked_rows-find_id is_locked j rs,
  insert-find_id s j (stale_rows t (unlocked_rows is_locked rs)),
)

-- Nor is a locked one.
pub locked-absent :
    (is_locked : Reservation → Bool) (t j : ℕ) (rs : List Reservation) {r : Reservation}
    → find_id j rs ≡ some r
    → is_locked r ≡ true
    → HasUniqueKeys rs
    → find_id j (stale_rows t (unlocked_rows is_locked rs)) ≡ none
locked-absent is_locked t j [] h f u = refl
locked-absent is_locked t j (s ∷ rs) {r} h f u = ground (
  arith,
  locked-absent is_locked t j rs {r = r},
  stale_rows-find_id t j (unlocked_rows is_locked rs),
  unlocked_rows-find_id is_locked j rs,
  insert-find_id s j (stale_rows t (unlocked_rows is_locked rs)),
)
