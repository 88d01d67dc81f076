-- ===== src/Exec/Products.antt =====
-- The two halves of a product: MUL, MULH, MULHSU and MULHU.
use native.Mathlib.Nat.{mul-le-mul, mul-add, add-mul}
use mathlib.Core.Path.{ap₂}
use risc_v_simulator.Base.{
  ℕ, ◌+◌, ◌-◌, ◌*◌, ◌/◌, ◌%◌, ◌^◌, ◌<◌, ◌≤◌, ◌≡◌, ◌⊎◌, sym, ◌∙◌, ap, arith, inl, inr, u32, u64, ℤ,
  pos, negsuc, signed32, ◌*ℤ◌, ◌+ℤ◌, abs_ℕ,
}
use risc_v_simulator.Exec.Operand.{of_ℤ64}
use risc_v_simulator.Exec.Mul.{mulh_value, mulhsu_value}

-- A 64-bit pattern is its high half, read as an int32_t, and its low half.
halves :
    (p : ℤ)
    → abs_ℕ p ≤ 2 ^ 63 - 1
    → signed32 (of_ℤ64 p / 2 ^ 32) *ℤ pos (2 ^ 32) +ℤ pos (of_ℤ64 p % 2 ^ 32) ≡ p
unfolding ◌*ℤ◌ ◌+ℤ◌
halves (pos n) h = ground arith
halves (negsuc n) h = ground arith

-- The products of words and of their complements, and their bounds.
record Complements (a b : ℕ) : Type 0 where
  mixed : a * (2 ^ 32 - b) + a * b ≡ a * 2 ^ 32
  mixed' : (2 ^ 32 - a) * b + a * b ≡ 2 ^ 32 * b
  both : (2 ^ 32 - a) * (2 ^ 32 - b) + (2 ^ 32 - a) * b ≡ (2 ^ 32 - a) * 2 ^ 32

complements : (a b : ℕ) → a < 2 ^ 32 → b < 2 ^ 32 → Complements a b
complements a b h k =
    let sum_b : 2 ^ 32 - b + b ≡ 2 ^ 32 = omega arith in
    let sum_a : 2 ^ 32 - a + a ≡ 2 ^ 32 = omega arith in
    record {
      mixed = sym (mul-add a (2 ^ 32 - b) b) ∙ ap (λ (t : ℕ). a * t) sum_b;
      mixed' = sym (add-mul (2 ^ 32 - a) a b) ∙ ap (λ (t : ℕ). t * b) sum_a;
      both = sym (mul-add (2 ^ 32 - a) (2 ^ 32 - b) b) ∙ ap (λ (t : ℕ). (2 ^ 32 - a) * t) sum_b;
    }

bounded : (x y : ℕ) → x ≤ 2 ^ 31 → y ≤ 2 ^ 31 → x * y ≤ 2 ^ 62
bounded x y h k = mul-le-mul h k

module _ (a b : ℕ) (h : a < 2 ^ 32) (k : b < 2 ^ 32) where
  product_small : abs_ℕ (signed32 a *ℤ signed32 b) ≤ 2 ^ 63 - 1
  unfolding ◌*ℤ◌
  product_small = ground (
    arith,
    bounded a b,
    bounded a (2 ^ 32 - b),
    bounded (2 ^ 32 - a) b,
    bounded (2 ^ 32 - a) (2 ^ 32 - b),
  )

  product_low : of_ℤ64 (signed32 a *ℤ signed32 b) % 2 ^ 32 ≡ u32 (a * b)
  unfolding ◌*ℤ◌
  product_low =
      let c = complements a b h k in
      ground (
        arith,
        c.mixed,
        c.mixed',
        c.both,
        bounded a b,
        bounded a (2 ^ 32 - b),
        bounded (2 ^ 32 - a) b,
        bounded (2 ^ 32 - a) (2 ^ 32 - b),
      )

-- MULH and MUL compute the two halves of the signed product of two words: 2^32 times the high half,
-- read as an int32_t, plus the low half is the product.
pub mulh-mul :
    (a b : ℕ)
    → a < 2 ^ 32
    → b < 2 ^ 32
    → signed32 (mulh_value a b) *ℤ pos (2 ^ 32) +ℤ pos (u32 (a * b)) ≡ signed32 a *ℤ signed32 b
unfolding mulh_value
mulh-mul a b h k =
    ap (λ (t : ℕ). signed32 (mulh_value a b) *ℤ pos (2 ^ 32) +ℤ pos t) (sym (product_low a b h k))
    ∙ halves (signed32 a *ℤ signed32 b) (product_small a b h k)

bounded_unsigned : (x y : ℕ) → x ≤ 2 ^ 31 → y ≤ 2 ^ 32 - 1 → x * y ≤ 2 ^ 63 - 2 ^ 31
bounded_unsigned x y h k = mul-le-mul h k

lt-cases : (a : ℕ) → (a < 2 ^ 31) ⊎ (2 ^ 31 ≤ a)
lt-cases a = omega arith

extended : (a b : ℕ) → a ≤ 2 ^ 32 → (2 ^ 64 - (2 ^ 32 - a)) * b + (2 ^ 32 - a) * b ≡ 2 ^ 64 * b
extended a b h =
    let sum : 2 ^ 64 - (2 ^ 32 - a) + (2 ^ 32 - a) ≡ 2 ^ 64 = omega arith in
    sym (add-mul (2 ^ 64 - (2 ^ 32 - a)) (2 ^ 32 - a) b) ∙ ap (λ (t : ℕ). t * b) sum

module _ (a b : ℕ) (h : a < 2 ^ 32) (k : b < 2 ^ 32) where
  extend_large : 2 ^ 31 ≤ a → of_ℤ64 (signed32 a) ≡ 2 ^ 64 - (2 ^ 32 - a)
  extend_large g = ground arith

  unsigned_product :
      (abs_ℕ (signed32 a *ℤ pos b) ≤ 2 ^ 63 - 1)
      × (of_ℤ64 (signed32 a *ℤ pos b) ≡ u64 (of_ℤ64 (signed32 a) * b))
      × (of_ℤ64 (signed32 a *ℤ pos b) % 2 ^ 32 ≡ u32 (a * b))
  unfolding ◌*ℤ◌
  unsigned_product = elim (lt-cases a) [
    | inl small ↦ ground (arith, bounded_unsigned a b (omega arith) (omega arith))
    | inr large ↦ ground (
      arith,
      ap (λ (t : ℕ). t * b) (extend_large large),
      extended a b (omega arith),
      (complements a b h k).mixed',
      bounded_unsigned (2 ^ 32 - a) b (omega arith) (omega arith),
    )
  ]

-- MULHSU and MUL compute the two halves of the product of a signed and an unsigned word.
pub mulhsu-mul :
    (a b : ℕ)
    → a < 2 ^ 32
    → b < 2 ^ 32
    → signed32 (mulhsu_value a b) *ℤ pos (2 ^ 32) +ℤ pos (u32 (a * b)) ≡ signed32 a *ℤ pos b
unfolding mulhsu_value
mulhsu-mul a b h k =
    let (small, same, low) = unsigned_product a b h k in
    ap₂ (λ (x y : ℕ). signed32 (x / 2 ^ 32) *ℤ pos (2 ^ 32) +ℤ pos y) (sym same) (sym low)
    ∙ halves (signed32 a *ℤ pos b) small
