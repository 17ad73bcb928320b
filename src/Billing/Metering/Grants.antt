-- ===== src/Billing/Metering/Grants.antt =====
-- What `reserve_usage` writes when the plan's allowance suffices.
use open_aipoject.Prelude.{
  [], ◌∷◌, ℕ, ◌+◌, ◌≤◌, ◌<◌, String, ◌≡◌, refl, ◌∙◌, true, none, some, List, arith, Option,
}
use open_aipoject.Prelude.Text.{strip, lower}
use open_aipoject.Billing.Quantities.{ai_credits}
use open_aipoject.Billing.Store.{
  Counter, Reservation, find_counter, update_counter, find_id, find_request, Db, reserved,
}
use open_aipoject.Billing.Session.Steps.{bind_ok, or_configuration_unless_ok}
use open_aipoject.Billing.Repository.Counters.{add_reserved, reserve_usage_quantities}
use open_aipoject.Billing.Repository.Reservations.{
  insert_reservation, create_usage_reservation, written,
}
use open_aipoject.Billing.Metering.Limits.{checked_enough, read_counter, checked_each}
use open_aipoject.Billing.Metering.Effects.{positive_quantities-claim}
use open_aipoject.Billing.Metering.Lifecycle.{reserve_new}
use open_aipoject.Billing.Metering.Checks.{
  UsageReservation, EffectiveSubscription, to_reservation, allowance_limit,
  lock_and_validate_counters,
}
use open_aipoject.Billing.Metering.Reads.{record_quantities-claim}
use open_aipoject.Billing.Session.{◌>>=◌}
use open_aipoject.Billing.Errors.{ok}

abbrev Yields : (List Counter → Type 0) → Option (List Counter) → Type 0
Yields Q none = ⊥
Yields Q (some cs) = Q cs

updated-Yields :
    (p n : ℕ) (cs : List Counter) {c : Counter}
    → find_counter p ai_credits cs ≡ some c
    → Yields
        (λ ds. find_counter p ai_credits ds ≡ some (add_reserved n c))
        (update_counter p ai_credits (λ _. true) (add_reserved n) cs)
updated-Yields p n [] h = cc
updated-Yields p n (d ∷ cs) {c} h = ground (arith, updated-Yields p n cs {c = c})

value_of :
    (Q : List Counter → Type 0) (o : Option (List Counter))
    → Yields Q o
    → (ds : List Counter) × (o ≡ some ds) × Q ds
value_of Q none h = absurd h
value_of Q (some ds) h = (ds, refl, h)

pub updated_counter :
    (p n : ℕ) (cs : List Counter) {c : Counter}
    → find_counter p ai_credits cs ≡ some c
    → (ds : List Counter) × (update_counter p ai_credits (λ _. true) (add_reserved n) cs ≡ some ds)
      × (find_counter p ai_credits ds ≡ some (add_reserved n c))
updated_counter p n cs {c} h =
    value_of (λ ds. find_counter p ai_credits ds ≡ some (add_reserved n c)) _
      (updated-Yields p n cs h)

-- The row that a reservation writes.
abbrev pub fresh_row : ℕ → ℕ → EffectiveSubscription → String → String → ℕ → Reservation
fresh_row now new_id e id operation n = record {
  id = new_id;
  account = e.account;
  period = e.period;
  request_id = id;
  operation = lower (strip operation);
  state = reserved;
  requested = (ai_credits, n) ∷ [];
  settled = none;
  release_reason = none;
  created_at = now;
  settled_at = none;
  released_at = none;
  last_activity = now;
}

-- And the value that it returns.
abbrev pub fresh_reservation :
    ℕ → ℕ → EffectiveSubscription → String → String → ℕ → UsageReservation
fresh_reservation now new_id e id operation n = record {
  id = new_id;
  account = e.account;
  period = e.period;
  request_id = id;
  operation = lower (strip operation);
  state = reserved;
  requested = (ai_credits, n) ∷ [];
  settled = none;
  release_reason = none;
  created_at = now;
  settled_at = none;
  released_at = none;
}

pub reserve_quantities_ok :
    (p n : ℕ) (db : Db) {ds : List Counter}
    → 0 < n
    → update_counter p ai_credits (λ _. true) (add_reserved n) db.counters ≡ some ds
    → reserve_usage_quantities p ((ai_credits, n) ∷ []) db ≡ (ok tt, record db { counters = ds })
unfolding reserve_usage_quantities ◌>>=◌
reserve_quantities_ok p n db pos h = rw (positive_quantities-claim n pos) (rw h refl)

insert_ok :
    (r : Reservation) (db : Db)
    → find_id r.id db.reservations ≡ none
    → find_request r.account r.request_id db.reservations ≡ none
    → insert_reservation r db ≡ (ok r, record db { reservations = r ∷ db.reservations })
unfolding insert_reservation ◌>>=◌
insert_ok r db i q = rw (i, q) refl

create_ok :
    (now new_id n : ℕ) (e : EffectiveSubscription) (id operation : String) (db : Db)
    → 0 < n
    → find_id new_id db.reservations ≡ none
    → find_request e.account id db.reservations ≡ none
    → create_usage_reservation now new_id e.account e.period id operation ((ai_credits, n) ∷ []) db
      ≡ (
        ok (fresh_row now new_id e id operation n),
        record db { reservations = fresh_row now new_id e id operation n ∷ db.reservations },
      )
unfolding create_usage_reservation ◌>>=◌
create_ok now new_id n e id operation db pos i q =
    rw (positive_quantities-claim n pos) (insert_ok (fresh_row now new_id e id operation n) db i q)

returned :
    (now new_id n : ℕ) (e : EffectiveSubscription) (id operation : String) (db : Db)
    → 0 < n
    → to_reservation (fresh_row now new_id e id operation n) db
      ≡ (ok (fresh_reservation now new_id e id operation n), db)
unfolding to_reservation ◌>>=◌
returned now new_id n e id operation db pos =
    rw (record_quantities-claim ((ai_credits, n) ∷ []) pos) refl

-- Where the period's counter exists, the ID is fresh and the account has not used the request ID,
-- a positive request that fits what is left of the plan's allowance is granted: the counter's
-- reserved quantity grows by what is requested and stays within the allowance, and one reserved
-- row that claims it is written.
pub reserve_new-granted :
    (now new_id n l : ℕ) (e : EffectiveSubscription) (id operation : String) (c : Counter) (db : Db)
    → find_counter e.period ai_credits db.counters ≡ some c
    → allowance_limit e ai_credits ≡ ok l
    → 0 < n
    → n + c.used + c.reserved ≤ l
    → find_id new_id db.reservations ≡ none
    → find_request e.account id db.reservations ≡ none
    → (ds : List Counter) × (find_counter e.period ai_credits ds ≡ some (add_reserved n c))
      × ((add_reserved n c).used + (add_reserved n c).reserved ≤ l)
      × (reserve_new now new_id e id operation ((ai_credits, n) ∷ []) db ≡ (
        ok (fresh_reservation now new_id e id operation n),
        record db {
          counters = ds;
          reservations = fresh_row now new_id e id operation n ∷ db.reservations;
        },
      ))
unfolding reserve_new lock_and_validate_counters
reserve_new-granted now new_id n l e id operation c db found limit pos fits fresh new =
    let (ds, written, now_found) = updated_counter e.period n db.counters found in
    let after = record db { counters = ds } in
    (
      ds,
      now_found,
      omega (arith, fits),
      bind_ok _ _ db (
            bind_ok _ _ db (read_counter e.period c db found)
            ∙ bind_ok _ _ db (checked_each e n c db _ (checked_enough e n l c limit fits)))
          ∙ bind_ok _ _ db (
              or_configuration_unless_ok _ _ db (
                bind_ok _ _ db (reserve_quantities_ok e.period n db pos written)
                ∙ create_ok now new_id n e id operation after pos fresh new))
          ∙ returned now new_id n e id operation _ pos,
    )
