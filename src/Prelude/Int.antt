-- ===== src/Prelude/Int.antt =====
-- Signed integers, for the `int` codes that the functions return.
use Prim.Native.Nat.{ℕ, ◌-◌, ◌%◌}
use mathlib.Core.Bool.{Bool, true}
use pega_s.Prelude.Tests.{ltb, leb, if◌then◌else◌}

-- `negsuc n` is -(n + 1).
pub data ℤ : Type 0 where
  pos : ℕ → ℤ
  negsuc : ℕ → ℤ

abbrev pub minus_one : ℤ
minus_one = negsuc 0

-- (int)x, of 32 bits: the low 32 bits of an unsigned number, from 2^31 on a negative number.
abbrev pub int_of : ℕ → ℤ
int_of x =
    let low = x % 4294967296 in if ltb low 2147483648 then pos low else negsuc (4294967295 - low)

-- a <= n, for an `int` that is not negative on the right.
abbrev pub leb_int : ℤ → ℕ → Bool
leb_int (pos a) n = leb a n
leb_int (negsuc a) n = true
