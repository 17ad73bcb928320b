-- ===== src/Billing/Metering/Invariant/Sums.antt =====
-- The sums over the rows of a period, the invariant, and how one counter update moves the sums.
use open_aipoject.Prelude.{
  ℕ, ◌+◌, ◌≤◌, ◌<◌, ◌≡◌, refl, true, Option, none, some, List, [], ◌∷◌, arith, leb, ◌==◌,
  if◌then◌else◌, All,
}
use mathlib.Core.Path.{subst}
use open_aipoject.Billing.Quantities.{Meter, Quantities, sum_values}
use open_aipoject.Billing.Store.{
  Db, State, reserved, settled, Counter, Reservation, find_id, find_request, update_counter,
}
use open_aipoject.Billing.Repository.Counters.{add_reserved, finish}
use open_aipoject.Billing.Repository.Reservations.{stored}

-- `n` in its own period, nothing in another.
abbrev pub in_period : ℕ → ℕ → ℕ → ℕ
in_period p q n = if p == q then n else 0

-- The reserved and the used quantities of a period's counters.
abbrev pub reserved_in : ℕ → List Counter → ℕ
reserved_in p [] = 0
reserved_in p (c ∷ cs) = in_period c.period p c.reserved + reserved_in p cs

abbrev pub used_in : ℕ → List Counter → ℕ
used_in p [] = 0
used_in p (c ∷ cs) = in_period c.period p c.used + used_in p cs

-- What a row claims while it is reserved, and what it was charged once settled.
abbrev pub held_by : State → Quantities → ℕ
held_by reserved q = sum_values q
held_by _ q = 0

abbrev pub charged_by : State → Option Quantities → ℕ
charged_by settled q = sum_values (stored q)
charged_by _ q = 0

abbrev pub held_row : Reservation → ℕ
held_row r = held_by r.state r.requested

abbrev pub charged_row : Reservation → ℕ
charged_row r = charged_by r.state r.settled

-- The sum of a number over the rows.
abbrev pub total : (Reservation → ℕ) → List Reservation → ℕ
total w [] = 0
total w (r ∷ rs) = w r + total w rs

abbrev pub held_at : ℕ → Reservation → ℕ
held_at p r = in_period r.period p (held_row r)

abbrev pub charged_at : ℕ → Reservation → ℕ
charged_at p r = in_period r.period p (charged_row r)

abbrev pub held_in : ℕ → List Reservation → ℕ
held_in p rs = total (held_at p) rs

abbrev pub charged_in : ℕ → List Reservation → ℕ
charged_in p rs = total (charged_at p) rs

-- One positive quantity.
abbrev pub IsClaim : Quantities → Type 0
IsClaim [] = ⊥
IsClaim ((m, n) ∷ []) = 0 < n
IsClaim (e ∷ f ∷ q) = ⊥

-- A row claims a positive quantity, and was charged at most that.
abbrev pub IsRow : Reservation → Type 0
IsRow r = IsClaim r.requested × (charged_row r ≤ sum_values r.requested)

-- No two rows share an ID, or an account and a request ID.
abbrev pub HasUniqueKeys : List Reservation → Type 0
HasUniqueKeys [] = Unit
HasUniqueKeys (r ∷ rs) =
    (find_id r.id rs ≡ none) × (find_request r.account r.request_id rs ≡ none) × HasUniqueKeys rs

pub record IsBalanced (db : Db) : Type 0 where
  pub rows : All IsRow db.reservations
  pub unique : HasUniqueKeys db.reservations
  pub held_exact : (p : ℕ) → reserved_in p db.counters ≡ held_in p db.reservations
  pub used_exact : (p : ℕ) → used_in p db.counters ≡ charged_in p db.reservations

-- A statement about the rows after an update, if a row was updated.
abbrev pub After {ℓ} : {A : Type ℓ} → (A → Type 0) → Option A → Type 0
After Q none = Unit
After Q (some a) = Q a

-- The sums after an increment of `reserved`.
pub add_reserved_sums :
    (q p : ℕ) (m : Meter) (n : ℕ) (cs : List Counter)
    → After
        (λ ds.
          (reserved_in q ds ≡ reserved_in q cs + in_period p q n) × (used_in q ds ≡ used_in q cs))
        (update_counter p m (λ _. true) (add_reserved n) cs)
add_reserved_sums q p m n [] = tt
add_reserved_sums q p m n (c ∷ cs) = ground (arith, add_reserved_sums q p m n cs)

-- The sums after `n` has left `reserved` and `s` has come into `used`.
pub finish_sums :
    (q p : ℕ) (m : Meter) (n s : ℕ) (cs : List Counter)
    → After
        (λ ds.
          (reserved_in q ds + in_period p q n ≡ reserved_in q cs)
          × (used_in q ds ≡ used_in q cs + in_period p q s))
        (update_counter p m (λ c. leb n c.reserved) (finish n s) cs)
finish_sums q p m n s [] = tt
finish_sums q p m n s (c ∷ cs) = ground (arith, finish_sums q p m n s cs)

module _ {ℓ} {A : Type ℓ} (Q : A → Type 0) where
  pub After-intro : (o : Option A) → ((a : A) → o ≡ some a → Q a) → After Q o
  After-intro none h = tt
  After-intro (some a) h = h a refl

  pub After_use : {a : A} (o : Option A) → After Q o → o ≡ some a → Q a
  After_use none h e = cc
  After_use {a} (some b) h e = let p : b ≡ a = cc in subst Q p h
