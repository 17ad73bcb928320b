-- ===== src/Billing/Repository/Counters.antt =====
-- The statements on `usage_counters`. There is one meter, so `sorted` leaves a list of meters as
-- it is.
use open_aipoject.Prelude.{
  ℕ, ◌+◌, ◌-◌, Bool, true, false, ◌||◌, Option, none, some, List, [], ◌∷◌, ltb, leb, if◌then◌else◌,
}
use open_aipoject.Billing.Errors.{Result, ok, err, value_error, lookup_error, runtime_error}
use open_aipoject.Billing.Quantities.{Meter, Quantities, lookup, get_or_zero, insert, is_empty_dict}
use open_aipoject.Billing.Store.{Counter, find_counter, update_counter}
use open_aipoject.Billing.Session.{Session, pure, lift, gets, or_raise, guard, ◌>>=◌, ◌>>◌}

-- `_normalize_quantities(..., require_positive=True)`: every quantity is at least 1.
positive_entries : Quantities → Quantities → Result Quantities
positive_entries [] acc = ok acc
positive_entries ((m, n) ∷ q) acc =
    let rest = positive_entries q (insert m n acc) in if ltb n 1 then err value_error else rest

unfoldable pub positive_quantities : Quantities → Result Quantities
unfolding positive_entries
positive_quantities q = if is_empty_dict q then err value_error else positive_entries q []

-- `_normalize_quantities(..., require_positive=False, allow_empty=True)`: zeros are dropped.
unfoldable pub nonzero_entries : Quantities → Quantities → Quantities
nonzero_entries [] acc = acc
nonzero_entries ((m, n) ∷ q) acc = nonzero_entries q (if ltb 0 n then insert m n acc else acc)

-- `any(key not in requested or value > requested[key] for key, value in q.items())`
abbrev pub above : Option ℕ → ℕ → Bool
above none n = true
above (some bound) n = ltb bound n

abbrev pub exceeds : Quantities → Quantities → Bool
exceeds requested [] = false
exceeds requested ((m, n) ∷ q) = above (lookup m requested) n || exceeds requested q

abbrev pub new_counter : ℕ → Meter → Counter
new_counter p m = record { period = p; meter = m; used = 0; reserved = 0 }

-- `insert ... on conflict do nothing returning`, then the existing row.
abbrev pub found_or_new : ℕ → Meter → Option Counter → Session Counter
found_or_new p m (some c) db = (ok c, db)
found_or_new p m none db =
    (ok (new_counter p m), record db { counters = new_counter p m ∷ db.counters })

unfoldable pub get_or_create_usage_counter : ℕ → Meter → Session Counter
get_or_create_usage_counter p m db = found_or_new p m (find_counter p m db.counters) db

abbrev pub found_counters : ℕ → List Meter → List Counter → Option (List Counter)
found_counters p [] cs = some []
found_counters p (m ∷ ms) cs =
    let rest = found_counters p ms cs in
    elim (find_counter p m cs) [
      | none ↦ none
      | some c ↦ elim rest [ none ↦ none | some ds ↦ some (c ∷ ds) ]
    ]

-- The rows are read under their locks; a meter with no row raises `LookupError`.
unfoldable pub lock_usage_counters : ℕ → List Meter → Session (List Counter)
lock_usage_counters p ms = do or_raise lookup_error (← gets (λ db. found_counters p ms db.counters))

-- One `update` statement; no row to update is an error.
abbrev pub write_counter :
    ℕ → Meter → (Counter → Bool) → (Counter → Counter) → Option (List Counter) → Session (Unit {0})
write_counter p m test f none db = (err runtime_error, db)
write_counter p m test f (some cs) db = (ok tt, record db { counters = cs })

abbrev pub update_usage_counter :
    ℕ → Meter → (Counter → Bool) → (Counter → Counter) → Session (Unit {0})
update_usage_counter p m test f db =
    write_counter p m test f (update_counter p m test f db.counters) db

abbrev pub add_reserved : ℕ → Counter → Counter
add_reserved n c = record c { reserved = c.reserved + n }

reserve_each : ℕ → Quantities → Session (Unit {0})
reserve_each p [] = pure tt
reserve_each p ((m, n) ∷ q) =
    update_usage_counter p m (λ _. true) (add_reserved n) >> reserve_each p q

unfoldable pub reserve_usage_quantities : ℕ → Quantities → Session (Unit {0})
unfolding reserve_each positive_quantities
reserve_usage_quantities p quantities = do
  normalized ← lift (positive_quantities quantities)
  reserve_each p normalized

-- Out of `reserved`, and what was successful into `used`.
abbrev pub finish : ℕ → ℕ → Counter → Counter
finish n s c = record c { used = c.used + s; reserved = c.reserved - n }

settle_each : ℕ → Quantities → Quantities → Session (Unit {0})
settle_each p successful [] = pure tt
settle_each p successful ((m, n) ∷ q) =
    update_usage_counter p m (λ c. leb n c.reserved) (finish n (get_or_zero m successful))
    >> settle_each p successful q

unfoldable pub settle_usage_quantities : ℕ → Quantities → Quantities → Session (Unit {0})
unfolding settle_each positive_quantities nonzero_entries
settle_usage_quantities p requested_quantities successful_quantities = do
  requested ← lift (positive_quantities requested_quantities)
  let successful = nonzero_entries successful_quantities []
  guard (exceeds requested successful) value_error
  settle_each p successful requested

release_each : ℕ → Quantities → Session (Unit {0})
release_each p [] = pure tt
release_each p ((m, n) ∷ q) =
    update_usage_counter p m (λ c. leb n c.reserved) (finish n 0) >> release_each p q

unfoldable pub release_usage_quantities : ℕ → Quantities → Session (Unit {0})
unfolding release_each positive_quantities
release_usage_quantities p quantities = do
  normalized ← lift (positive_quantities quantities)
  release_each p normalized
