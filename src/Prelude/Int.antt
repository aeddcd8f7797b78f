-- ===== src/Prelude/Int.antt =====
-- Signed integers over the native numbers, under the library's names: the values of a C `long`.
use Prim.Native.Nat.{ℕ, ◌-◌, ◌^◌}
use mathlib.Core.Bool.{Bool, true, false}

-- `negsuc n` is -(n + 1).
pub data ℤ : Type 0 where
  pos : ℕ → ℤ
  negsuc : ℕ → ℤ

abbrev pub is_negative : ℤ → Bool
is_negative (pos n) = false
is_negative (negsuc n) = true

abbrev pub long_max : ℕ
long_max = 2 ^ 63 - 1
