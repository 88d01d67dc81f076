-- ===== src/Exec/Shifts.antt =====
-- The arithmetic right shifts.
use native.Mathlib.Nat.{
  one-le-pow, div-lt_iff_lt-mul, div-eq_of_lt-le, lt-div-mul-add, div-mul-le_self, add-mul,
  mul_comm, pow-le-pow_right, zero-div, two-pow-succ, div-le_self,
}
use risc_v_simulator.Base.{
  leb, zero, suc, ℕ, ◌+◌, ◌-◌, ◌*◌, ◌/◌, ◌^◌, ◌<◌, ◌≤◌, ◌≡◌, ◌∙◌, ap, arith, ltb, if◌then◌else◌,
  not32, bit_or, ◌&&◌, ℤ, pos, negsuc, signed32,
}
use risc_v_simulator.Base.Bits.{double_block}
use risc_v_simulator.Base.Masks.{bit_or_low_high, bit_or-zero}
use risc_v_simulator.Outcome.{undefined}
use risc_v_simulator.Isa.{Cmd}
use risc_v_simulator.Ir.{Inst, get_cmd_format}
use risc_v_simulator.Lru.{HashMap}
use risc_v_simulator.State.{State}
use risc_v_simulator.Decoder.{decode}
use risc_v_simulator.Decoder.Tables
use risc_v_simulator.Decoder.Tables.{decoder}
use risc_v_simulator.Decoder.Exact.{encode-decode}
use risc_v_simulator.Decoder.Encoding.{IsWellFormed}
use risc_v_simulator.Exec.Arith.{shift_right, shift_right_signed, exec_srai}
use risc_v_simulator.Exec.{exec_func}

-- The quotient by 2 ^ n, rounded down.
abbrev pub floor_shift : ℤ → ℕ → ℤ
floor_shift (pos a) n = pos (a / 2 ^ n)
floor_shift (negsuc a) n = negsuc (a / 2 ^ n)

srai_immediate : (i : Inst) → i.cmd ≡ Cmd.srai → IsWellFormed i → 0x400 ≤ i.imm
unfolding get_cmd_format
srai_immediate i e h = (rw e at h).3.0

module _ {m : HashMap} where
  -- Every word that the decoder takes for SRAI is executed with an undefined shift.
  pub srai_undefined :
      (w index : ℕ) (inst : Inst) (s : State m)
      → w < 2 ^ 32
      → decode decoder w ≡ Tables.ok inst
      → inst.cmd ≡ Cmd.srai
      → exec_func inst.cmd index inst s ≡ undefined
  unfolding exec_func exec_srai
  srai_undefined w index inst s h d e =
      let large = srai_immediate inst e (encode-decode w h d).1 in rw e (ground arith)

-- The complement within w = q * p, divided by p.
module _ (w p q : ℕ) (e : q * p ≡ w) (p>0 : 0 < p) where
  quotient-lt : (a : ℕ) → a < w → a / p < q
  quotient-lt a h = (div-lt_iff_lt-mul {k = p} {x = a} {y = q} p>0).1 (omega (arith, e))

  complement-div : (a : ℕ) → a < w → (w - a - 1) / p ≡ q - a / p - 1
  complement-div a h =
      let d = q - a / p - 1 in
      let split : q ≡ d + (a / p + 1) = omega (arith, quotient-lt a h) in
      let f : d * p + (a / p * p + p) ≡ w =
        omega
          (arith, add-mul d (a / p + 1) p, add-mul (a / p) 1 p, ap (λ (t : ℕ). t * p) split, e) in
      div-eq_of_lt-le p {m = w - a - 1} (omega (arith, f, lt-div-mul-add {a = a} {b = p} p>0))
        (omega (arith, f, add-mul d 1 p, div-mul-le_self a p))

powers : (n : ℕ) → n ≤ 32 → 2 ^ (32 - n) * 2 ^ n ≡ 2 ^ 32
powers zero h = omega arith
powers (suc n) h =
    let t = 31 - n in
    let before : 32 - n ≡ suc t = omega arith in
    let after : 32 - suc n ≡ t = omega arith in
    omega (
      arith,
      powers n (omega arith),
      ap (λ (k : ℕ). 2 ^ k * 2 ^ n) before,
      ap (λ (k : ℕ). 2 ^ k * 2 ^ suc n) after,
      double_block (2 ^ t) n,
      ap (λ (x : ℕ). x * 2 ^ n) (two-pow-succ t),
      add-mul (2 ^ t) (2 ^ t) (2 ^ n),
    )

high_le : (n : ℕ) → 2 ^ (32 - n) ≤ 2 ^ 32
high_le n = pow-le-pow_right {n = 2} (omega arith) {i = 32 - n} {j = 32} (omega arith)

-- The mask of the n high bits, and what it adds to the quotient.
high_mask :
    (a n : ℕ)
    → a < 2 ^ 32
    → n ≤ 32
    → bit_or (a / 2 ^ n) (not32 ((2 ^ 32 - 1) / 2 ^ n)) ≡ 2 ^ 32 - 2 ^ (32 - n) + a / 2 ^ n
high_mask a n h k =
    let q = 2 ^ (32 - n) in
    let p>0 = one-le-pow n 2 (omega arith) in
    let split = powers n k in
    let ones : (2 ^ 32 - 1) / 2 ^ n ≡ q - 1 =
      complement-div (2 ^ 32) (2 ^ n) q split p>0 0 (omega arith)
      ∙ omega (arith, zero-div (2 ^ n)) in
    let low = quotient-lt (2 ^ 32) (2 ^ n) q split p>0 a h in
    let q>0 = one-le-pow (32 - n) 2 (omega arith) in
    let more : 2 ^ n ≡ 2 ^ n - 1 + 1 = omega (arith, p>0) in
    let high : (2 ^ n - 1) * q ≡ 2 ^ 32 - q =
      omega
        (arith, split, mul_comm q (2 ^ n), ap (λ (t : ℕ). t * q) more, add-mul (2 ^ n - 1) 1 q) in
    let mask : not32 ((2 ^ 32 - 1) / 2 ^ n) ≡ (2 ^ n - 1) * q =
      omega (arith, ones, high, q>0, high_le n) in
    ap (bit_or (a / 2 ^ n)) mask
    ∙ bit_or_low_high (32 - n) (2 ^ n - 1) (a / 2 ^ n) low
    ∙ ap (λ (t : ℕ). t + a / 2 ^ n) high

shifted :
    (a n : ℕ)
    → a < 2 ^ 32
    → n < 32
    → shift_right_signed a n
      ≡ (if leb (2 ^ 31) a && ltb 0 n then 2 ^ 32 - 2 ^ (32 - n) + a / 2 ^ n else a / 2 ^ n)
unfolding shift_right_signed shift_right
shifted a n h k = ground (arith, bit_or-zero (a / 2 ^ n), high_mask a n h (omega arith))

-- On 32-bit words and shifts below 32 the mask of copied signs makes the shift an arithmetic one:
-- the result, read as an int32_t, is the quotient of the operand by 2 ^ n, rounded down.
pub shift_right_signed_floor :
    (a n : ℕ) → a < 2 ^ 32 → n < 32 → signed32 (shift_right_signed a n) ≡ floor_shift (signed32 a) n
shift_right_signed_floor a zero h k =
    let one : a / 2 ^ 0 ≡ a = omega arith in
    let all : (2 ^ 32 - a - 1) / 2 ^ 0 ≡ 2 ^ 32 - a - 1 = omega arith in
    rw (shifted a zero h k) (ground (arith, one, all))
shift_right_signed_floor a (suc n) h k =
    let q = 2 ^ (32 - suc n) in
    let p>0 = one-le-pow (suc n) 2 (omega arith) in
    let split = powers (suc n) (omega arith) in
    let low = quotient-lt (2 ^ 32) (2 ^ suc n) q split p>0 a h in
    let down = complement-div (2 ^ 32) (2 ^ suc n) q split p>0 a h in
    let half : q ≤ 2 ^ 31 =
      pow-le-pow_right {n = 2} (omega arith) {i = 32 - suc n} {j = 31} (omega arith) in
    rw (shifted a (suc n) h k) (ground (arith, low, down, half, div-le_self a (2 ^ suc n)))
