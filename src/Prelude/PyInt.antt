-- ===== src/Prelude/PyInt.antt =====
-- The values that Python code tests by `isinstance(value, bool)` and `isinstance(value, int)`.
use Prim.Native.Nat.{ℕ}
use mathlib.Core.Bool.{Bool}

-- A Python `int` : `negsuc n` is -(n + 1).
pub data ℤ : Type 0 where
  pos : ℕ → ℤ
  negsuc : ℕ → ℤ

-- What stands where an integer is expected: an `int`, a `bool`, or a value of another type.
pub data PyValue : Type 0 where
  int_value : ℤ → PyValue
  bool_value : Bool → PyValue
  other_value : PyValue
