-- ===== src/Billing/Metering/Limits.antt =====
-- When `reserve_usage` is allowed, and how it is refused.
use open_aipoject.Billing.Session.{or_raise, or_configuration, ◌>>=◌, pure, lift, ◌>>◌}
use open_aipoject.Prelude.{
  [], ◌∷◌, ℕ, ◌+◌, ◌<◌, String, ◌≡◌, refl, true, some, arith, ltb, ◌∙◌, List, ap, ◌≤◌, false,
}
use open_aipoject.Billing.Quantities.{Meter, meter_eq, ai_credits}
use open_aipoject.Billing.Errors.{allowance_exceeded, err, ok, Result, lookup_error}
use open_aipoject.Billing.Store.{Counter, find_counter, Db}
use open_aipoject.Billing.Repository.Counters.{
  get_or_create_usage_counter, lock_usage_counters, found_counters,
}
use open_aipoject.Billing.Metering.Lifecycle.{reserve_new}
use open_aipoject.Billing.Metering.Checks.{
  EffectiveSubscription, allowance_limit, create_each, exceeded, check_counter, check_each,
  lock_and_validate_counters,
}
use open_aipoject.Billing.Session.Steps.{bind_ok, bind_err, or_configuration_ok}

ltb_of_lt : (a b : ℕ) → a < b → ltb a b ≡ true
ltb_of_lt a b h = ground arith

not_ltb_of_le : (a b : ℕ) → b ≤ a → ltb a b ≡ false
not_ltb_of_le a b h = ground arith

pub meter_eq-true : (m k : Meter) → meter_eq m k ≡ true
meter_eq-true ai_credits ai_credits = refl

checked_too_much :
    (e : EffectiveSubscription) (n l : ℕ) (c : Counter)
    → allowance_limit e ai_credits ≡ ok l
    → l < n + c.used + c.reserved
    → check_counter (some e) ai_credits n (some c) ≡ err (allowance_exceeded (exceeded e l n c))
checked_too_much e n l c limit above =
    rw limit (rw (ltb_of_lt l (n + c.used + c.reserved) above) refl)

pub checked_enough :
    (e : EffectiveSubscription) (n l : ℕ) (c : Counter)
    → allowance_limit e ai_credits ≡ ok l
    → n + c.used + c.reserved ≤ l
    → check_counter (some e) ai_credits n (some c) ≡ ok tt
checked_enough e n l c limit fits =
    rw limit (rw (not_ltb_of_le l (n + c.used + c.reserved) fits) refl)

created_none :
    (p : ℕ) (c : Counter) (db : Db)
    → find_counter p ai_credits db.counters ≡ some c
    → create_each p (ai_credits ∷ []) db ≡ (ok tt, db)
unfolding create_each get_or_create_usage_counter ◌>>=◌
created_none p c db found = rw found refl

found_one :
    (p : ℕ) (c : Counter) (cs : List Counter)
    → find_counter p ai_credits cs ≡ some c
    → found_counters p (ai_credits ∷ []) cs ≡ some (c ∷ [])
found_one p c cs found = rw (found, found_counters) refl

pub locked_one :
    (p : ℕ) (c : Counter) (db : Db)
    → find_counter p ai_credits db.counters ≡ some c
    → lock_usage_counters p (ai_credits ∷ []) db ≡ (ok (c ∷ []), db)
unfolding lock_usage_counters ◌>>=◌
locked_one p c db found = ap (λ o. or_raise lookup_error o db) (found_one p c db.counters found)

-- The counter that is there is locked and read.
pub read_counter :
    (p : ℕ) (c : Counter) (db : Db)
    → find_counter p ai_credits db.counters ≡ some c
    → or_configuration
        (create_each p (ai_credits ∷ []) >> lock_usage_counters p (ai_credits ∷ []))
        db
      ≡ (ok (c ∷ []), db)
read_counter p c db found =
    or_configuration_ok _ db (bind_ok _ _ db (created_none p c db found) ∙ locked_one p c db found)

pub checked_each :
    (e : EffectiveSubscription) (n : ℕ) (c : Counter) (db : Db) (r : Result (Unit {0}))
    → check_counter (some e) ai_credits n (some c) ≡ r
    → check_each (some e) (c ∷ []) ((ai_credits, n) ∷ []) db ≡ (r, db)
unfolding check_each ◌>>=◌
checked_each e n c db r h = rw (meter_eq-true c.meter ai_credits) (rw h (of_result r))
  where
    of_result : (r : Result (Unit {0})) → ((lift r >>= λ _. pure tt) db) ≡ (r, db)
    of_result (ok tt) = refl
    of_result (err x) = refl

-- Where the period's counter exists, a request for more than is left of the plan's allowance is
-- refused with the counter's figures, and nothing is written.
pub reserve_new-denied :
    (now new_id n l : ℕ) (e : EffectiveSubscription) (id operation : String) (c : Counter) (db : Db)
    → find_counter e.period ai_credits db.counters ≡ some c
    → allowance_limit e ai_credits ≡ ok l
    → l < n + c.used + c.reserved
    → reserve_new now new_id e id operation ((ai_credits, n) ∷ []) db
      ≡ (err (allowance_exceeded (exceeded e l n c)), db)
unfolding reserve_new lock_and_validate_counters
reserve_new-denied now new_id n l e id operation c db found limit above = bind_err _ _ db (
    bind_ok _ _ db (read_counter e.period c db found)
    ∙ bind_err _ _ db (checked_each e n c db _ (checked_too_much e n l c limit above)))
