-- ===== src/Base/Masks.antt =====
-- Fields and masks: `|` of disjoint fields is a sum, `&` with a mask of low bits is a remainder.
use native.Mathlib.Nat.{one-le-pow}
use risc_v_simulator.Base.{
  ℕ, zero, suc, ◌+◌, ◌-◌, ◌*◌, ◌/◌, ◌%◌, ◌^◌, ◌≤◌, ◌<◌, bit_or, bit_and, ◌≡◌, refl, ap, arith, ◌∙◌,
}
use risc_v_simulator.Base.Bits.{bit_or_step, bit_and_step, bit_or_blocks, bit_and_blocks}

bit_or-zero_upto : (n a : ℕ) → a ≤ n → bit_or a 0 ≡ a
bit_or-zero_upto n zero h = refl
bit_or-zero_upto zero (suc a) h = absurd (omega arith)
bit_or-zero_upto (suc n) (suc a) h =
    omega (arith, bit_or_step (suc a) 0, bit_or-zero_upto n (suc a / 2) (omega arith))

pub bit_or-zero : (a : ℕ) → bit_or a 0 ≡ a
bit_or-zero a = bit_or-zero_upto a a (omega arith)

zero-bit_or_upto : (n a : ℕ) → a ≤ n → bit_or 0 a ≡ a
zero-bit_or_upto n zero h = refl
zero-bit_or_upto zero (suc a) h = absurd (omega arith)
zero-bit_or_upto (suc n) (suc a) h =
    omega (arith, bit_or_step 0 (suc a), zero-bit_or_upto n (suc a / 2) (omega arith))

pub zero-bit_or : (a : ℕ) → bit_or 0 a ≡ a
zero-bit_or a = zero-bit_or_upto a a (omega arith)

bit_and-zero_upto : (bound w : ℕ) → w ≤ bound → bit_and w 0 ≡ 0
bit_and-zero_upto (suc bound) (suc w) h =
    omega (arith, bit_and-zero_upto bound (suc w / 2) (omega arith), bit_and_step (suc w) 0)
bit_and-zero_upto zero (suc w) h = absurd (omega arith)
bit_and-zero_upto bound zero h = refl

pub bit_and-zero : (w : ℕ) → bit_and w 0 ≡ 0
bit_and-zero w = bit_and-zero_upto w w (omega arith)

-- (q << k) | r.
pub bit_or_high_low : (k q r : ℕ) → r < 2 ^ k → bit_or (q * 2 ^ k) r ≡ q * 2 ^ k + r
bit_or_high_low k q r h =
    let e : q * 2 ^ k ≡ q * 2 ^ k + 0 = omega arith in
    let f : r ≡ 0 * 2 ^ k + r = omega arith in
    ap (λ t. bit_or t r) e
    ∙ ap (bit_or (q * 2 ^ k + 0)) f
    ∙ bit_or_blocks k q 0 0 r (one-le-pow k 2 (omega arith)) h
    ∙ omega (arith, ap (λ (t : ℕ). t * 2 ^ k) (bit_or-zero q), zero-bit_or r)

-- r | (q << k).
pub bit_or_low_high : (k q r : ℕ) → r < 2 ^ k → bit_or r (q * 2 ^ k) ≡ q * 2 ^ k + r
bit_or_low_high k q r h =
    let e : q * 2 ^ k ≡ q * 2 ^ k + 0 = omega arith in
    let f : r ≡ 0 * 2 ^ k + r = omega arith in
    ap (bit_or r) e
    ∙ ap (λ t. bit_or t (q * 2 ^ k + 0)) f
    ∙ bit_or_blocks k 0 r q 0 h (one-le-pow k 2 (omega arith))
    ∙ omega (arith, ap (λ (t : ℕ). t * 2 ^ k) (zero-bit_or q), bit_or-zero r)

bit_and_ones : (k r : ℕ) → r < 2 ^ k → bit_and r (2 ^ k - 1) ≡ r
bit_and_ones zero zero h = refl
bit_and_ones zero (suc r) h = absurd (omega arith)
bit_and_ones (suc k) r h =
    let e : (2 ^ suc k - 1) / 2 ≡ 2 ^ k - 1 = omega (arith, one-le-pow k 2 (omega arith)) in
    let f : (2 ^ suc k - 1) % 2 ≡ 1 = omega (arith, one-le-pow k 2 (omega arith)) in
    rw (bit_and_step r (2 ^ suc k - 1), e, f, bit_and_ones k (r / 2) (omega arith)) (omega arith)

-- A mask of k low bits is the remainder by 2 ^ k.
pub bit_and_mask : (k a : ℕ) → bit_and a (2 ^ k - 1) ≡ a % 2 ^ k
bit_and_mask k a =
    let pos = one-le-pow k 2 (omega arith) in
    let e : a ≡ a / 2 ^ k * 2 ^ k + a % 2 ^ k = omega (arith, pos) in
    let f : 2 ^ k - 1 ≡ 0 * 2 ^ k + (2 ^ k - 1) = omega arith in
    ap (λ t. bit_and t (2 ^ k - 1)) e
    ∙ ap (bit_and (a / 2 ^ k * 2 ^ k + a % 2 ^ k)) f
    ∙ bit_and_blocks k (a / 2 ^ k) (a % 2 ^ k) 0 (2 ^ k - 1) (omega (arith, pos))
        (omega (arith, pos))
    ∙ omega (
      arith,
      ap (λ (t : ℕ). t * 2 ^ k) (bit_and-zero (a / 2 ^ k)),
      bit_and_ones k (a % 2 ^ k) (omega (arith, pos)),
    )

-- A test of the bit of number k.
pub bit_and_bit : (k a : ℕ) → bit_and a (2 ^ k) ≡ a / 2 ^ k % 2 * 2 ^ k
bit_and_bit k a =
    let pos = one-le-pow k 2 (omega arith) in
    let e : a ≡ a / 2 ^ k * 2 ^ k + a % 2 ^ k = omega (arith, pos) in
    let f : 2 ^ k ≡ 1 * 2 ^ k + 0 = omega arith in
    ap (bit_and a) f
    ∙ ap (λ t. bit_and t (1 * 2 ^ k + 0)) e
    ∙ bit_and_blocks k (a / 2 ^ k) (a % 2 ^ k) 1 0 (omega (arith, pos)) pos
    ∙ omega
        (arith, bit_and-zero (a % 2 ^ k), ap (λ (t : ℕ). t * 2 ^ k) (bit_and_mask 1 (a / 2 ^ k)))
