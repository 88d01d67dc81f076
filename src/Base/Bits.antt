-- ===== src/Base/Bits.antt =====
-- `bit_or`, `bit_and` and `bit_xor` at variables: one binary digit at a time, and block by block.
use Prim.Native.Nat.{min, max, digits, differ, bit_or-bitwise, bit_and-bitwise, bit_xor-bitwise}
use native.Mathlib.Nat.{pow-suc}
use risc_v_simulator.Base.{
  ℕ, zero, suc, ◌+◌, ◌*◌, ◌/◌, ◌%◌, ◌^◌, ◌≤◌, ◌<◌, bit_or, bit_and, bit_xor, ◌≡◌, refl, ap, arith,
}

module _ (rest : ℕ → ℕ) (digit : ℕ → ℕ → ℕ) where
  -- A count of digits that covers the first number is enough.
  digits_enough : (n m a b : ℕ) → a ≤ n → a ≤ m → digits rest digit n a b ≡ digits rest digit m a b
  digits_enough (suc n) (suc m) (suc a) b h k =
      rw (digits_enough n m (suc a / 2) (b / 2) (omega arith) (omega arith))
  digits_enough zero (suc m) (suc a) b h k = absurd (omega arith)
  digits_enough (suc n) zero (suc a) b h k = absurd (omega arith)
  digits_enough zero zero a b h k = refl
  digits_enough (suc n) zero zero b h k = refl
  digits_enough zero (suc m) zero b h k = refl
  digits_enough (suc n) (suc m) zero b h k = refl

  digits_low :
      (a b : ℕ)
      → digits rest digit (suc a) (suc a) b
        ≡ digits rest digit (suc a / 2) (suc a / 2) (b / 2) * 2 + digit (suc a % 2) (b % 2)
  digits_low a b =
      omega (arith, digits_enough a (suc a / 2) (suc a / 2) (b / 2) (omega arith) (omega arith))

pub bit_xor_step : (p q : ℕ) → bit_xor p q ≡ bit_xor (p / 2) (q / 2) * 2 + differ (p % 2) (q % 2)
bit_xor_step (suc p) q = simp bit_xor-bitwise (digits_low (λ y. y) differ p q)
bit_xor_step zero q = simp bit_xor-bitwise (omega arith)

pub bit_and_step : (p q : ℕ) → bit_and p q ≡ bit_and (p / 2) (q / 2) * 2 + min (p % 2) (q % 2)
bit_and_step (suc p) q = simp bit_and-bitwise (digits_low (λ _. 0) min p q)
bit_and_step zero q = simp bit_and-bitwise (omega arith)

pub bit_or_step : (p q : ℕ) → bit_or p q ≡ bit_or (p / 2) (q / 2) * 2 + max (p % 2) (q % 2)
bit_or_step (suc p) q = simp bit_or-bitwise (digits_low (λ y. y) max p q)
bit_or_step zero q = simp bit_or-bitwise (omega arith)

differ_lt : (a b : ℕ) → a < 2 → b < 2 → differ a b < 2
differ_lt zero b h k = k
differ_lt (suc zero) zero h k = h
differ_lt (suc zero) (suc b) h k = omega arith
differ_lt (suc (suc a)) b h k = absurd (omega arith)

half_lt : (k a : ℕ) → a < 2 ^ suc k → a / 2 < 2 ^ k
half_lt k a h = omega (arith, pow-suc 2 k)

-- Numbers of k digits stay of k digits.
pub bit_or-lt : (k a b : ℕ) → a < 2 ^ k → b < 2 ^ k → bit_or a b < 2 ^ k
bit_or-lt zero zero zero h g = omega arith
bit_or-lt zero (suc a) b h g = absurd (omega arith)
bit_or-lt zero zero (suc b) h g = absurd (omega arith)
bit_or-lt (suc k) a b h g = omega (
  arith,
  pow-suc 2 k,
  bit_or_step a b,
  bit_or-lt k (a / 2) (b / 2) (half_lt k a h) (half_lt k b g),
)

pub bit_and-lt : (k a b : ℕ) → a < 2 ^ k → b < 2 ^ k → bit_and a b < 2 ^ k
bit_and-lt zero zero zero h g = omega arith
bit_and-lt zero (suc a) b h g = absurd (omega arith)
bit_and-lt zero zero (suc b) h g = absurd (omega arith)
bit_and-lt (suc k) a b h g = omega (
  arith,
  pow-suc 2 k,
  bit_and_step a b,
  bit_and-lt k (a / 2) (b / 2) (half_lt k a h) (half_lt k b g),
)

pub bit_xor-lt : (k a b : ℕ) → a < 2 ^ k → b < 2 ^ k → bit_xor a b < 2 ^ k
bit_xor-lt zero zero zero h g = omega arith
bit_xor-lt zero (suc a) b h g = absurd (omega arith)
bit_xor-lt zero zero (suc b) h g = absurd (omega arith)
bit_xor-lt (suc k) a b h g = omega (
  arith,
  pow-suc 2 k,
  bit_xor_step a b,
  differ_lt (a % 2) (b % 2) (omega arith) (omega arith),
  bit_xor-lt k (a / 2) (b / 2) (half_lt k a h) (half_lt k b g),
)

pub double_block : (q k : ℕ) → q * 2 ^ suc k ≡ 2 * (q * 2 ^ k)
double_block q k = omega (arith, ap (λ (t : ℕ). q * t) (pow-suc 2 k))

-- Both operations act on the block above the k low digits and on the low digits apart.
pub bit_or_blocks :
    (k q r p s : ℕ)
    → r < 2 ^ k
    → s < 2 ^ k
    → bit_or (q * 2 ^ k + r) (p * 2 ^ k + s) ≡ bit_or q p * 2 ^ k + bit_or r s
bit_or_blocks zero q zero p zero h g =
    let e : q * 2 ^ 0 + 0 ≡ q = omega arith in
    let f : p * 2 ^ 0 + 0 ≡ p = omega arith in rw (e, f) (omega arith)
bit_or_blocks zero q (suc r) p s h g = absurd (omega arith)
bit_or_blocks zero q zero p (suc s) h g = absurd (omega arith)
bit_or_blocks (suc k) q r p s h g =
    let e : (q * 2 ^ suc k + r) / 2 ≡ q * 2 ^ k + r / 2 = omega (arith, double_block q k) in
    let f : (p * 2 ^ suc k + s) / 2 ≡ p * 2 ^ k + s / 2 = omega (arith, double_block p k) in
    let e' : (q * 2 ^ suc k + r) % 2 ≡ r % 2 = omega (arith, double_block q k) in
    let f' : (p * 2 ^ suc k + s) % 2 ≡ s % 2 = omega (arith, double_block p k) in
    rw
      (
        bit_or_step (q * 2 ^ suc k + r) (p * 2 ^ suc k + s),
        e,
        f,
        e',
        f',
        bit_or_blocks k q (r / 2) p (s / 2) (half_lt k r h) (half_lt k s g),
      )
      (omega (arith, bit_or_step r s, double_block (bit_or q p) k))

pub bit_and_blocks :
    (k q r p s : ℕ)
    → r < 2 ^ k
    → s < 2 ^ k
    → bit_and (q * 2 ^ k + r) (p * 2 ^ k + s) ≡ bit_and q p * 2 ^ k + bit_and r s
bit_and_blocks zero q zero p zero h g =
    let e : q * 2 ^ 0 + 0 ≡ q = omega arith in
    let f : p * 2 ^ 0 + 0 ≡ p = omega arith in rw (e, f) (omega arith)
bit_and_blocks zero q (suc r) p s h g = absurd (omega arith)
bit_and_blocks zero q zero p (suc s) h g = absurd (omega arith)
bit_and_blocks (suc k) q r p s h g =
    let e : (q * 2 ^ suc k + r) / 2 ≡ q * 2 ^ k + r / 2 = omega (arith, double_block q k) in
    let f : (p * 2 ^ suc k + s) / 2 ≡ p * 2 ^ k + s / 2 = omega (arith, double_block p k) in
    let e' : (q * 2 ^ suc k + r) % 2 ≡ r % 2 = omega (arith, double_block q k) in
    let f' : (p * 2 ^ suc k + s) % 2 ≡ s % 2 = omega (arith, double_block p k) in
    rw
      (
        bit_and_step (q * 2 ^ suc k + r) (p * 2 ^ suc k + s),
        e,
        f,
        e',
        f',
        bit_and_blocks k q (r / 2) p (s / 2) (half_lt k r h) (half_lt k s g),
      )
      (omega (arith, bit_and_step r s, double_block (bit_and q p) k))
