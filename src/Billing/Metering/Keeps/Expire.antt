-- ===== src/Billing/Metering/Keeps/Expire.antt =====
-- `expire_stale_reservations` keeps the invariant when it returns.
use mathlib.Core.Path.{subst}
use open_aipoject.Prelude.{
  length, if◌then◌else◌, true, false, ==_iff, [], ◌∷◌, ℕ, ◌+◌, ◌≡◌, refl, ◌∙◌, Bool, none, List, ap,
  ◌==◌, arith, sym, some,
}
use open_aipoject.Billing.Store.{State, is_reserved, Reservation, find_id, Db, reserved, expired}
use open_aipoject.Billing.Session.Ensures.{
  Ensures, Ensures-mono, Ensures-or_configuration_unless, Ensures-bind, lift-bind, gets-bind,
  reads-bind,
}
use open_aipoject.Billing.Repository.Reservations.{
  lock_stale_usage_reservations, mark_released, expire_usage_reservation, stale_rows, unlocked_rows,
}
use open_aipoject.Billing.Metering.Effects.{Moves, Rewrites, release_usage_quantities-Moves}
use open_aipoject.Billing.Metering.Supplement.{expire_one, expire_each, expire_stale_reservations}
use open_aipoject.Billing.Metering.Rebalance.{IsLocked, updated_row, moved_lock, recorded_claim}
use open_aipoject.Billing.Metering.Reads.{validate-Same, lock_and_validate-Same}
use open_aipoject.Billing.Metering.Keeps.Stale.{IsPending, stale-IsPending, still-IsPending}
use open_aipoject.Billing.Metering.Keeps.Release.{mark_released-KeepsKeys, given_back}
use open_aipoject.Billing.Metering.Invariant.Sums.{IsBalanced, total}
use open_aipoject.Billing.Quantities.{sum_values}

-- What the loop keeps: the invariant, and that the rows still to come are reserved.

record IsWaiting (rs : List Reservation) (db : Db) : Type 0 where
  balanced : IsBalanced db
  pending : IsPending db.reservations rs

-- Every row but that of `i` is found as it was.
abbrev Spares : ℕ → Db → Db → Type 0
Spares i db db' =
    (j : ℕ) → (i == j) ≡ false → find_id j db'.reservations ≡ find_id j db.reservations

-- The row after its expiry.
abbrev pub expired_of : ℕ → Reservation → Reservation
expired_of now r = record r {
  state = expired;
  release_reason = some "stale_reservation_expired";
  released_at = some now;
}

abbrev pub claim_total : Reservation → ℕ
claim_total r = sum_values r.requested

-- One round expires its row and leaves the other rows as they were.
abbrev IsExpired : ℕ → Reservation → List Reservation → Db → Db → Type 0
IsExpired now r rs db db' =
    IsWaiting rs db'
    × Spares r.id db db'
    × (find_id r.id db'.reservations ≡ some (expired_of now r))

-- The same of every row that is not in a list, and of those that are.
abbrev pub SparesOthers : List Reservation → List Reservation → List Reservation → Type 0
SparesOthers rs before after = (j : ℕ) → find_id j rs ≡ none → find_id j after ≡ find_id j before

abbrev pub ExpiresAll : ℕ → List Reservation → List Reservation → Type 0
ExpiresAll now rs after =
    (j : ℕ) (r : Reservation) → find_id j rs ≡ some r → find_id j after ≡ some (expired_of now r)

-- What a sweep over the rows does, and what it counts.
pub record IsSwept (now : ℕ) (rs : List Reservation) (released credits : ℕ) (db db' : Db)
    : Type 0 where
  pub balanced : IsBalanced db'
  pub spared : SparesOthers rs db.reservations db'.reservations
  pub expired_all : ExpiresAll now rs db'.reservations
  pub released_is : released ≡ length rs
  pub credits_is : credits ≡ total claim_total rs

reserved_state : (s : State) → is_reserved s ≡ true → s ≡ reserved
reserved_state reserved e = refl
reserved_state _ e = cc

expire_row :
    (now n : ℕ) (r : Reservation) (rs : List Reservation) (db db' : Db)
    → IsBalanced db
    → IsLocked r.id r n db
    → find_id r.id rs ≡ none
    → IsPending db.reservations rs
    → Moves r.period 0 n 0 db db'
    → Ensures
        (λ _. IsExpired now r rs db)
        (expire_usage_reservation now r.id "stale_reservation_expired" db')
unfolding expire_usage_reservation
expire_row now n r rs db db' b l once p m =
    Ensures-mono (λ _. Rewrites (mark_released now expired "stale_reservation_expired") r db')
      (λ _. IsExpired now r rs db) _
      (λ _ db'' w. (
        record {
          balanced = given_back now r.id n expired _ r (λ _. refl) (λ _. refl) b l m w;
          pending =
              still-IsPending r.id db.reservations db''.reservations rs
                (λ j d. w.others j d ∙ ap (find_id j) m.rows) once p;
        },
        λ j d. w.others j d ∙ ap (find_id j) m.rows,
        w.found,
      ))
      (updated_row r.id _ r db' (mark_released-KeepsKeys now expired "stale_reservation_expired")
        (moved_lock r.id n m l))

apart_tail :
    (r : Reservation) (j : ℕ) (rs : List Reservation)
    → find_id j (r ∷ rs) ≡ none
    → ((r.id == j) ≡ false) × (find_id j rs ≡ none)
apart_tail r j rs h = (ground arith, ground arith)

expire_one-IsExpired :
    (now : ℕ) (r : Reservation) (rs : List Reservation) (db : Db)
    → IsWaiting (r ∷ rs) db
    → Ensures (λ a db'. IsExpired now r rs db db' × (a ≡ claim_total r)) (expire_one now r db)
unfolding expire_one
expire_one-IsExpired now r rs db w = lift-bind _ _ _ db (λ requested e.
    let (n, q, c, pos) = recorded_claim r.id r db w.balanced w.pending.0 e in
    reads-bind _ _ _ db (lock_and_validate-Same r.period requested db) (λ counters.
      reads-bind _ _ _ db (validate-Same counters requested db) (λ _.
        Ensures-bind (λ _. Moves r.period 0 n 0 db) _ _ _ db
          (rw q (release_usage_quantities-Moves r.period n db pos))
          (λ _ db' m.
            Ensures-bind (λ _. IsExpired now r rs db) _ _ _ db'
              (expire_row now n r rs db db' w.balanced
                (w.pending.0, reserved_state r.state w.pending.1, c, pos) w.pending.2 w.pending.3 m)
              (λ _ db'' h. (h, ap sum_values (q ∙ sym c)))))))

expired_too :
    (now : ℕ) (r : Reservation) (rs mid after : List Reservation)
    → find_id r.id rs ≡ none
    → find_id r.id mid ≡ some (expired_of now r)
    → SparesOthers rs mid after
    → ExpiresAll now rs after
    → ExpiresAll now (r ∷ rs) after
expired_too now r rs mid after once found spares all j s h = of_test (r.id == j) refl h
  where
    of_test :
        (b : Bool)
        → (r.id == j) ≡ b
        → (if b then some r else find_id j rs) ≡ some s
        → find_id j after ≡ some (expired_of now s)
    of_test true e k =
        subst (λ i. find_id i after ≡ some (expired_of now s)) ((==_iff r.id j).0 e)
          (spares r.id once ∙ found ∙ ap (λ x. some (expired_of now x)) (same_row k))
      where
        same_row : {x y : Reservation} → some x ≡ some y → x ≡ y
        same_row q = cc
    of_test false e k = all j s k

-- The same of a sweep that begins with such counts.
abbrev IsCounted : ℕ → List Reservation → ℕ → ℕ → Db → ℕ × ℕ → Db → Type 0
IsCounted now rs count credits_released db counts db' =
    (released : ℕ) × (credits : ℕ) × (counts.0 ≡ count + released)
    × (counts.1 ≡ credits_released + credits)
    × IsSwept now rs released credits db db'

expire_each-IsSwept :
    (now : ℕ) (rs : List Reservation) (count credits_released : ℕ) (db : Db)
    → IsWaiting rs db
    → Ensures
        (IsCounted now rs count credits_released db)
        (expire_each now rs count credits_released db)
unfolding expire_each
expire_each-IsSwept now [] count credits_released db w = (
  0,
  0,
  omega arith,
  omega arith,
  record {
    balanced = w.balanced;
    spared = λ j h. refl;
    expired_all = λ j r h. cc;
    released_is = refl;
    credits_is = refl;
  },
)
expire_each-IsSwept now (r ∷ rs) count credits_released db w =
    Ensures-bind (λ a db'. IsExpired now r rs db db' × (a ≡ claim_total r)) _ _ _ db
      (expire_one-IsExpired now r rs db w)
      (λ n db' h.
        Ensures-mono (IsCounted now rs (count + 1) (credits_released + n) db')
          (IsCounted now (r ∷ rs) count credits_released db) _
          (λ counts db'' k.
            let (released, credits, is_released, is_credits, swept) = k in
            (
              1 + released,
              n + credits,
              omega (arith, is_released),
              omega (arith, is_credits),
              record {
                balanced = swept.balanced;
                spared =
                    λ j e. swept.spared j (apart_tail r j rs e).1 ∙ h.0.1 j (apart_tail r j rs e).0;
                expired_all =
                    expired_too now r rs db'.reservations db''.reservations w.pending.2 h.0.2
                      swept.spared swept.expired_all;
                released_is = omega (arith, swept.released_is);
                credits_is = omega (arith, swept.credits_is, h.1);
              },
            ))
          (expire_each-IsSwept now rs (count + 1) (credits_released + n) db' h.0.0))

-- A sweep that returns keeps every sum, expires the rows that it has to and leaves the others as
-- they were, whichever rows other workers have locked.
pub expire_stale_reservations-IsSwept :
    (is_locked : Reservation → Bool) (now older_than : ℕ) (db : Db)
    → IsBalanced db
    → let rs = stale_rows older_than (unlocked_rows is_locked db.reservations) in
      Ensures
        (λ outcome db'.
          (outcome.inspected ≡ length rs)
          × IsSwept now rs outcome.released outcome.credits_released db db')
        (expire_stale_reservations is_locked now older_than db)
unfolding expire_stale_reservations lock_stale_usage_reservations
expire_stale_reservations-IsSwept is_locked now older_than db b =
    let rs = stale_rows older_than (unlocked_rows is_locked db.reservations) in
    Ensures-or_configuration_unless _ _ _ db (
      gets-bind _ _ _ db (
        Ensures-bind (IsCounted now rs 0 0 db) _ _ _ db
          (expire_each-IsSwept now rs 0 0 db (record {
            balanced = b;
            pending = stale-IsPending is_locked older_than db.reservations b.unique;
          }))
          (λ counts db' k.
            let (released, credits, is_released, is_credits, swept) = k in
            (
              refl,
              record {
                balanced = swept.balanced;
                spared = swept.spared;
                expired_all = swept.expired_all;
                released_is = omega (arith, is_released, swept.released_is);
                credits_is = omega (arith, is_credits, swept.credits_is);
              },
            ))))

pub expire_stale_reservations-IsBalanced :
    (is_locked : Reservation → Bool) (now older_than : ℕ) (db : Db)
    → IsBalanced db
    → Ensures (λ _. IsBalanced) (expire_stale_reservations is_locked now older_than db)
expire_stale_reservations-IsBalanced is_locked now older_than db b =
    Ensures-mono _ (λ _. IsBalanced) _ (λ _ db' h. h.1.balanced)
      (expire_stale_reservations-IsSwept is_locked now older_than db b)
