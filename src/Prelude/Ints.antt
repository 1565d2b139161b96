-- ===== src/Prelude/Ints.antt =====
-- The `int` arguments and results of the C functions: an integer is `pos n` or `negsuc n`, which
-- is -(n + 1). Only the tests that the sources make are here.
use Prim.Native.Nat.{ℕ}
use mathlib.Core.Bool.{Bool, true, false}
use cs537_spring.Prelude.Tests.{ltb, ◌==◌}

pub data ℤ : Type 0 where
  pos : ℕ → ℤ
  negsuc : ℕ → ℤ

-- `-1`, the error result of the system calls.
abbrev pub minus_one : ℤ
minus_one = negsuc 0

-- `i < n` for a number `n`.
abbrev pub lt_nat : ℤ → ℕ → Bool
lt_nat (pos m) n = ltb m n
lt_nat (negsuc m) n = true

-- `n == i` for a number `n`.
abbrev pub eq_int : ℕ → ℤ → Bool
eq_int n (pos m) = n == m
eq_int n (negsuc m) = false

-- The value of an integer that a guard has found not to be negative.
abbrev pub to_nat : ℤ → ℕ
to_nat (pos n) = n
to_nat (negsuc n) = 0
