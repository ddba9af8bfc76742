-- ===== src/Prelude/Int.antt =====
-- C's `int` where a result may be negative: `negsuc n` is -(n + 1).
use Prim.Native.Nat.{ℕ, zero, suc, ◌+◌, ◌-◌}
use mathlib.Core.Bool.{Bool, true, false}
use comp.Prelude.Tests.{◌==◌, ltb, if◌then◌else◌}

pub data ℤ : Type 0 where
  pos : ℕ → ℤ
  negsuc : ℕ → ℤ

abbrev pub is_zero : ℤ → Bool
is_zero (pos zero) = true
is_zero (pos (suc n)) = false
is_zero (negsuc n) = false

-- `code == -1`
abbrev pub is_minus_one : ℤ → Bool
is_minus_one (pos n) = false
is_minus_one (negsuc zero) = true
is_minus_one (negsuc (suc n)) = false

unfoldable pub plus : ℤ → ℕ → ℤ
plus (pos a) n = pos (a + n)
plus (negsuc k) n = if ltb k n then pos (n - k - 1) else negsuc (k - n)

unfoldable pub minus : ℤ → ℕ → ℤ
minus (pos a) n = if ltb a n then negsuc (n - a - 1) else pos (a - n)
minus (negsuc k) n = negsuc (k + n)

unfoldable pub same_int : ℤ → ℤ → Bool
same_int (pos a) (pos b) = a == b
same_int (pos a) (negsuc b) = false
same_int (negsuc a) (pos b) = false
same_int (negsuc a) (negsuc b) = a == b
