-- ===== src/Prelude/Words.antt =====
-- Unsigned machine words as native numbers: the casts, and the bytes of a word.
use Prim.Native.Nat.{ℕ, ◌%◌}

-- (uint8_t)x, (uint16_t)x, (uint32_t)x, and `size_t` (64 bits).
abbrev pub u8 : ℕ → ℕ
u8 x = x % 256

abbrev pub u16 : ℕ → ℕ
u16 x = x % 65536

abbrev pub u32 : ℕ → ℕ
u32 x = x % 4294967296

abbrev pub u64 : ℕ → ℕ
u64 x = x % 18446744073709551616
