-- ===== src/Billing/Quantities.antt =====
-- Usage quantities: `_normalize_quantities` of server/billing/metering_service.py and of
-- db/billing_repository.py. A Python dict is an association list in insertion order.
pub mod Normalized
use open_aipoject.Prelude.{
  ℕ, ◌+◌, String, Bool, true, false, not, ◌&&◌, Option, none, some, List, [], ◌∷◌, ltb, ◌==◌,
  str_eq, if◌then◌else◌,
}
use open_aipoject.Prelude.Text.{strip}
use open_aipoject.Prelude.PyInt.{pos, negsuc, PyValue, int_value, bool_value, other_value}
use open_aipoject.Billing.Errors.{Result, ok, err, value_error, configuration}

-- `ALLOWED_USAGE_METERS = frozenset({"ai_credits"})`
pub data Meter : Type 0 where
  ai_credits : Meter

-- The allowed meter of a name.
unfoldable pub meter_of : String → Option Meter
meter_of name = if str_eq name "ai_credits" then some ai_credits else none

abbrev pub meter_eq : Meter → Meter → Bool
meter_eq ai_credits ai_credits = true

-- A `dict[str, int]` whose keys are allowed meters and whose values are nonnegative.
abbrev pub Quantities : Type 0
Quantities = List (Meter × ℕ)

-- `quantities.get(meter)`
abbrev pub lookup : Meter → Quantities → Option ℕ
lookup m [] = none
lookup m ((k, n) ∷ q) = if meter_eq k m then some n else lookup m q

-- `quantities.get(meter, 0)`
abbrev pub get_or_zero : Meter → Quantities → ℕ
get_or_zero m q = elim (lookup m q) [ none ↦ 0 | some n ↦ n ]

-- `quantities[meter] = n`
abbrev pub insert : Meter → ℕ → Quantities → Quantities
insert m n [] = (m, n) ∷ []
insert m n ((k, v) ∷ q) = if meter_eq k m then (k, n) ∷ q else (k, v) ∷ insert m n q

abbrev pub is_entry : Quantities → Meter × ℕ → Bool
is_entry q (m, n) = elim (lookup m q) [ none ↦ false | some v ↦ v == n ]

abbrev pub all_entries : Quantities → Quantities → Bool
all_entries q [] = true
all_entries q (e ∷ p) = is_entry q e && all_entries q p

-- `p == q` of two dicts: the same keys with the same values.
abbrev pub same_quantities : Quantities → Quantities → Bool
same_quantities p q = all_entries q p && all_entries p q

-- `sum(quantities.values())`
abbrev pub sum_values : Quantities → ℕ
sum_values [] = 0
sum_values ((k, n) ∷ q) = n + sum_values q

abbrev pub meter_keys : Quantities → List Meter
meter_keys [] = []
meter_keys ((k, n) ∷ q) = k ∷ meter_keys q

abbrev pub is_empty_dict : Quantities → Bool
is_empty_dict [] = true
is_empty_dict (e ∷ q) = false

-- The value of an entry: `isinstance` tests, then the sign.
checked_quantity : PyValue → Result ℕ
checked_quantity (int_value (pos n)) = ok n
checked_quantity (int_value (negsuc n)) = err value_error
checked_quantity (bool_value b) = err value_error
checked_quantity other_value = err value_error

-- One round of the loop: an unknown meter and a bad value raise, a zero is skipped.
add_entry : Option Meter → Result ℕ → Quantities → Result Quantities
add_entry none v acc = err value_error
add_entry (some m) (err e) acc = err e
add_entry (some m) (ok n) acc = if ltb 0 n then ok (insert m n acc) else ok acc

abbrev or_raise : Result Quantities → (Quantities → Result Quantities) → Result Quantities
or_raise (ok q) f = f q
or_raise (err e) f = err e

add_entries : List (String × PyValue) → Quantities → Result Quantities
unfolding add_entry checked_quantity
add_entries [] acc = ok acc
add_entries ((raw_meter, v) ∷ rest) acc =
    or_raise (add_entry (meter_of (strip raw_meter)) (checked_quantity v) acc) (add_entries rest)

abbrev require_entries : Bool → Quantities → Result Quantities
require_entries allow_empty [] = if allow_empty then ok [] else err value_error
require_entries allow_empty (e ∷ q) = ok (e ∷ q)

-- `_normalize_quantities(quantities, allow_empty=...)`
unfoldable pub normalize_quantities : Bool → List (String × PyValue) → Result Quantities
unfolding add_entries
normalize_quantities allow_empty quantities =
    or_raise (add_entries quantities []) (require_entries allow_empty)

-- Entries with positive values only, each meter once.
abbrev drop_zeros : Quantities → Quantities → Quantities
drop_zeros [] acc = acc
drop_zeros ((m, n) ∷ q) acc = drop_zeros q (if ltb 0 n then insert m n acc else acc)

-- `_record_quantities` of a column: the same normalization of a stored mapping, whose failure is
-- a configuration error.
unfoldable pub record_quantities : Bool → Quantities → Result Quantities
record_quantities allow_empty q =
    let kept = drop_zeros q [] in
    if is_empty_dict kept && not allow_empty then err configuration else ok kept
