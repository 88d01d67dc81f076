-- ===== src/Jit/Values.antt =====
-- The operations of the host against those of the handlers in sim/exec_inst.cpp.
use native.Mathlib.Nat.{div-le_self}
use risc_v_simulator.Base.{
  ℕ, ◌+◌, ◌*◌, ◌/◌, ◌%◌, ◌^◌, ◌<◌, ◌≡◌, refl, ap, sym, ◌∙◌, arith, u32, signed32,
}
use risc_v_simulator.Base.Bits.{bit_or-lt}
use risc_v_simulator.Outcome.{Outcome, ok}
use risc_v_simulator.Exec.Operand.{of_ℤ32, of_ℤ64, Flow}
use risc_v_simulator.Exec.Arith.{shift_left, shift_right, shift_right_signed}
use risc_v_simulator.Exec.Shifts.{floor_shift, shift_right_signed_floor}
use risc_v_simulator.Jit.Host.{Op}
use risc_v_simulator.Jit.Machine.{apply}

-- Imm(IMM) as a 32-bit operand.
pub u32-of_ℤ64 : (n : ℕ) → n < 2 ^ 32 → u32 (of_ℤ64 (signed32 n)) ≡ n
u32-of_ℤ64 n h = ground arith

of_ℤ32-signed32 : (w : ℕ) → w < 2 ^ 32 → of_ℤ32 (signed32 w) ≡ w
of_ℤ32-signed32 w h = ground arith

shift_right_signed-lt : (a n : ℕ) → a < 2 ^ 32 → shift_right_signed a n < 2 ^ 32
unfolding shift_right_signed shift_right
shift_right_signed-lt a n h = bit_or-lt 32 _ _ (omega (arith, div-le_self a (2 ^ n))) (ground arith)

small_count : (n : ℕ) → n < 32 → n % 32 ≡ n
small_count n h = omega arith

pub apply-add : (a b : ℕ) → apply Op.add a b ≡ u32 (a + b)
unfolding apply
apply-add a b = refl

pub apply-shl : (a n : ℕ) → n < 32 → apply Op.shl a n ≡ shift_left a n
unfolding apply shift_left
apply-shl a n h = ap (λ k. u32 (a * 2 ^ k)) (small_count n h)

pub apply-shr : (a n : ℕ) → n < 32 → apply Op.shr a n ≡ shift_right a n
unfolding apply shift_right
apply-shr a n h = ap (λ k. a / 2 ^ k) (small_count n h)

pub apply-sar : (a n : ℕ) → a < 2 ^ 32 → n < 32 → apply Op.sar a n ≡ shift_right_signed a n
unfolding apply
apply-sar a n l h =
    ap (λ k. of_ℤ32 (floor_shift (signed32 a) k)) (small_count n h)
    ∙ ap of_ℤ32 (sym (shift_right_signed_floor a n l h))
    ∙ of_ℤ32-signed32 (shift_right_signed a n) (shift_right_signed-lt a n l)

abbrev ok_next : {S : Type 0} → S → Outcome S Flow
ok_next s = ok Flow.next_inst s

pub next-injective : {S : Type 0} (s s' : S) → ok_next s ≡ ok_next s' → s ≡ s'
next-injective s s' e = ground arith
