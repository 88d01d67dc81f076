-- ===== src/Base/Words.antt =====
-- Fixed-width words as native numbers: casts, shifts and the arithmetic of uint32_t.
use Prim.Native.Nat.{ℕ, ◌+◌, ◌-◌, ◌/◌, ◌%◌, ◌^◌}

abbrev pub u8 : ℕ → ℕ
u8 n = n % 2 ^ 8

abbrev pub u32 : ℕ → ℕ
u32 n = n % 2 ^ 32

abbrev pub u64 : ℕ → ℕ
u64 n = n % 2 ^ 64

-- The bits from `lo` on, `width` of them.
abbrev pub bits : ℕ → ℕ → ℕ → ℕ
bits lo width w = w / 2 ^ lo % 2 ^ width

-- a - b in uint32_t.
abbrev pub sub32 : ℕ → ℕ → ℕ
sub32 a b = u32 (u32 a + 2 ^ 32 - u32 b)

-- -a in uint32_t.
abbrev pub neg32 : ℕ → ℕ
neg32 a = u32 (2 ^ 32 - u32 a)

-- ~a in uint32_t.
abbrev pub not32 : ℕ → ℕ
not32 a = 2 ^ 32 - 1 - u32 a
