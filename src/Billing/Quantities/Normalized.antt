-- ===== src/Billing/Quantities/Normalized.antt =====
-- What `_normalize_quantities` of server/billing/metering_service.py returns: a positive quantity.
use open_aipoject.Prelude.{
  ℕ, ◌<◌, ◌≡◌, false, Option, some, none, List, [], ◌∷◌, String, ltb, arith, if◌then◌else◌,
}
use open_aipoject.Prelude.PyInt.{PyValue}
use open_aipoject.Prelude.Text.{strip}
use open_aipoject.Billing.Errors.{Result, ok, err}
use open_aipoject.Billing.Quantities.{
  Meter, ai_credits, Quantities, insert, meter_of, or_raise, checked_quantity, add_entry,
  add_entries, require_entries, normalize_quantities,
}

abbrev IsKept : Quantities → Type 0
IsKept [] = Unit
IsKept ((m, n) ∷ []) = 0 < n
IsKept (e ∷ f ∷ q) = ⊥

insert-IsKept : (m : Meter) (n : ℕ) (q : Quantities) → 0 < n → IsKept q → IsKept (insert m n q)
insert-IsKept m n [] h k = h
insert-IsKept ai_credits n ((ai_credits, v) ∷ []) h k = h
insert-IsKept m n (e ∷ f ∷ q) h k = absurd k

abbrev Kept : Result Quantities → Type 0
Kept (ok q) = IsKept q
Kept (err e) = Unit

Kept-if :
    (m : Meter) (n : ℕ) (acc : Quantities)
    → IsKept acc
    → Kept (if ltb 0 n then ok (insert m n acc) else ok acc)
Kept-if m n acc k = ground (arith, insert-IsKept m n acc)

add_entry-Kept :
    (m : Option Meter) (v : Result ℕ) (acc : Quantities) → IsKept acc → Kept (add_entry m v acc)
unfolding add_entry
add_entry-Kept none v acc k = tt
add_entry-Kept (some m) (err e) acc k = tt
add_entry-Kept (some m) (ok n) acc k = Kept-if m n acc k

continued :
    (r : Result Quantities) (f : Quantities → Result Quantities)
    → Kept r
    → ((q : Quantities) → IsKept q → Kept (f q))
    → Kept (or_raise r f)
continued (ok q) f h k = k q h
continued (err e) f h k = tt

add_entries-Kept :
    (l : List (String × PyValue)) (acc : Quantities) → IsKept acc → Kept (add_entries l acc)
unfolding add_entries
add_entries-Kept [] acc k = k
add_entries-Kept ((raw, v) ∷ l) acc k =
    continued (add_entry (meter_of (strip raw)) (checked_quantity v) acc) (add_entries l)
      (add_entry-Kept (meter_of (strip raw)) (checked_quantity v) acc k)
      (λ q h. add_entries-Kept l q h)

-- Quantities that must not be empty come out as one positive quantity.
pub normalize_quantities-claim :
    (l : List (String × PyValue)) {q : Quantities}
    → normalize_quantities false l ≡ ok q
    → (n : ℕ) × (q ≡ (ai_credits, n) ∷ []) × (0 < n)
unfolding normalize_quantities
normalize_quantities-claim l e = of_kept (add_entries l []) (add_entries-Kept l [] tt) e
  where
    of_kept :
        (r : Result Quantities) {q : Quantities}
        → Kept r
        → or_raise r (require_entries false) ≡ ok q
        → (n : ℕ) × (q ≡ (ai_credits, n) ∷ []) × (0 < n)
    of_kept (err x) h e = cc
    of_kept (ok []) h e = cc
    of_kept (ok ((ai_credits, n) ∷ [])) h e = (n, cc, h)
    of_kept (ok (a ∷ b ∷ q)) h e = absurd h
