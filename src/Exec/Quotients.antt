-- ===== src/Exec/Quotients.antt =====
-- DIV and REM.
use native.Mathlib.Nat.{div-add-mod', div-le_self, div-lt_iff_lt-mul}
use mathlib.Core.Path.{ap₂, subst}
use risc_v_simulator.Base.{
  Bool-cases, ==_iff, false, pos_part, neg_part, ℕ, zero, suc, ◌+◌, ◌-◌, ◌*◌, ◌/◌, ◌^◌, ◌<◌, ◌≤◌,
  ◌≡◌, ◌≢◌, ◌⊎◌, refl, sym, ◌∙◌, ap, arith, inl, inr, ℤ, pos, negsuc, signed32, ◌*ℤ◌, ◌+ℤ◌, abs_ℕ,
  ◌==◌, ◌&&◌,
}
use risc_v_simulator.Exec.Operand.{of_ℤ32}
use risc_v_simulator.Exec.Mul.{div_value, rem_value, quotient, remainder}

-- Division of integers rounds towards zero: the quotient times the divisor plus the remainder is
-- the dividend, and the remainder is smaller than the divisor.
quotient-remainder :
    (x y : ℤ)
    → y ≢ pos 0
    → (quotient x y *ℤ y +ℤ remainder x y ≡ x) × (abs_ℕ (remainder x y) < abs_ℕ y)
unfolding quotient remainder ◌*ℤ◌ ◌+ℤ◌
quotient-remainder (pos a) (pos zero) h = absurd (h refl)
quotient-remainder (pos a) (pos (suc b)) h = ground (arith, div-add-mod' a (suc b))
quotient-remainder (pos a) (negsuc b) h = ground (arith, div-add-mod' a (suc b))
quotient-remainder (negsuc a) (pos zero) h = absurd (h refl)
quotient-remainder (negsuc a) (pos (suc b)) h = ground (arith, div-add-mod' (a + 1) (suc b))
quotient-remainder (negsuc a) (negsuc b) h = ground (arith, div-add-mod' (a + 1) (suc b))

-- An int32_t.
abbrev InRange : ℤ → Type 0
InRange z = (pos_part z < 2 ^ 31) × (neg_part z ≤ 2 ^ 31)

signed32-of_ℤ32 : (z : ℤ) → InRange z → signed32 (of_ℤ32 z) ≡ z
signed32-of_ℤ32 (pos n) h = ground arith
signed32-of_ℤ32 (negsuc n) h = ground arith

signed32-InRange : (a : ℕ) → a < 2 ^ 32 → InRange (signed32 a)
signed32-InRange a h = ground arith

halved : (a b : ℕ) → a ≤ 2 ^ 31 → 0 < b → a / (b + 1) < 2 ^ 31
halved a b h k =
    let small : 2 ^ 31 < 2 ^ 31 * (b + 1) = omega arith in
    (div-lt_iff_lt-mul {k = b + 1} {x = a} {y = 2 ^ 31} (omega arith)).1 (omega (arith, small))

below-cases : (a : ℕ) → suc a ≤ 2 ^ 31 → (a < 2 ^ 31 - 1) ⊎ (a ≡ 2 ^ 31 - 1)
below-cases a h = omega arith

quotient-InRange :
    (x y : ℤ) → InRange x → ¬ ((x ≡ negsuc (2 ^ 31 - 1)) × (y ≡ negsuc 0)) → InRange (quotient x y)
unfolding quotient
quotient-InRange (pos a) (pos b) h k = ground (arith, div-le_self a b)
quotient-InRange (pos a) (negsuc b) h k = ground (arith, div-le_self a (b + 1))
quotient-InRange (negsuc a) (pos b) h k = ground (arith, div-le_self (a + 1) b)
quotient-InRange (negsuc a) (negsuc zero) h k = elim (below-cases a h.1) [
  | inl small ↦ (omega arith, omega arith)
  | inr e ↦ absurd (k (ap negsuc e, refl))
]
quotient-InRange (negsuc a) (negsuc (suc b)) h k =
    ground (arith, halved (a + 1) (suc b) (omega arith) (omega arith))

remainder-InRange : (z : ℤ) (y : ℕ) → abs_ℕ z < y → y ≤ 2 ^ 31 → InRange z
remainder-InRange (pos n) y h k = ground arith
remainder-InRange (negsuc n) y h k = ground arith

signed32-ne-zero : (b : ℕ) → b < 2 ^ 32 → b ≢ 0 → signed32 b ≢ pos 0
signed32-ne-zero b h k e = ground arith

abs-signed32 : (b : ℕ) → b < 2 ^ 32 → abs_ℕ (signed32 b) ≤ 2 ^ 31
abs-signed32 b h = ground arith

signed32-minimum : (a : ℕ) → a < 2 ^ 32 → signed32 a ≡ negsuc (2 ^ 31 - 1) → a ≡ 2 ^ 31
signed32-minimum a h e = ground arith

signed32-minus_one : (b : ℕ) → b < 2 ^ 32 → signed32 b ≡ negsuc 0 → b ≡ 2 ^ 32 - 1
signed32-minus_one b h e = ground arith

not-== : (a b : ℕ) → a ≢ b → (a == b) ≡ false
not-== a b h = elim (Bool-cases (a == b)) [ inl e ↦ absurd (h ((==_iff a b).0 e)) | inr e ↦ e ]

not-special :
    (a b : ℕ) → ¬ ((a ≡ 2 ^ 31) × (b ≡ 2 ^ 32 - 1)) → (b == 2 ^ 32 - 1 && a == 2 ^ 31) ≡ false
not-special a b h = elim (Bool-cases (b == 2 ^ 32 - 1)) [
  | inr p ↦ rw p refl
  | inl p ↦ elim (Bool-cases (a == 2 ^ 31)) [
    | inl q ↦ absurd (h ((==_iff a (2 ^ 31)).0 q, (==_iff b (2 ^ 32 - 1)).0 p))
    | inr q ↦ rw (p, q) refl
  ]
]

general :
    (a b : ℕ)
    → b ≢ 0
    → ¬ ((a ≡ 2 ^ 31) × (b ≡ 2 ^ 32 - 1))
    → (div_value a b ≡ of_ℤ32 (quotient (signed32 a) (signed32 b)))
      × (rem_value a b ≡ of_ℤ32 (remainder (signed32 a) (signed32 b)))
unfolding div_value rem_value
general a b b≢0 fits =
    let zero-test : (b == 0) ≡ false = not-== b 0 b≢0 in
    let special-test : (b == 2 ^ 32 - 1 && a == 2 ^ 31) ≡ false = not-special a b fits in
    (rw (zero-test, special-test) refl, rw (zero-test, special-test) refl)

-- Whatever the words, except for a zero divisor and for -2^31 over -1, the quotient that DIV gives
-- times the divisor plus the remainder that REM gives is the dividend, all read as int32_t, and the
-- remainder is smaller than the divisor in magnitude.
pub div-rem :
    (a b : ℕ)
    → a < 2 ^ 32
    → b < 2 ^ 32
    → b ≢ 0
    → ¬ ((a ≡ 2 ^ 31) × (b ≡ 2 ^ 32 - 1))
    → (signed32 (div_value a b) *ℤ signed32 b +ℤ signed32 (rem_value a b) ≡ signed32 a)
      × (abs_ℕ (signed32 (rem_value a b)) < abs_ℕ (signed32 b))
div-rem a b h k b≢0 fits =
    let (sum, less) = quotient-remainder (signed32 a) (signed32 b) (signed32-ne-zero b k b≢0) in
    let q : InRange (quotient (signed32 a) (signed32 b)) =
      quotient-InRange (signed32 a) (signed32 b) (signed32-InRange a h)
        (λ (p, q). fits (signed32-minimum a h p, signed32-minus_one b k q)) in
    let r =
      remainder-InRange (remainder (signed32 a) (signed32 b)) (abs_ℕ (signed32 b)) less
        (abs-signed32 b k) in
    let div = signed32-of_ℤ32 (quotient (signed32 a) (signed32 b)) q in
    let rem = signed32-of_ℤ32 (remainder (signed32 a) (signed32 b)) r in
    let (d, m) = general a b b≢0 fits in
    (
      ap₂ (λ x y. signed32 x *ℤ signed32 b +ℤ signed32 y) d m
          ∙ ap₂ (λ x y. x *ℤ signed32 b +ℤ y) div rem
          ∙ sum,
      subst (λ x. abs_ℕ x < abs_ℕ (signed32 b)) (sym (ap signed32 m ∙ rem)) less,
    )
