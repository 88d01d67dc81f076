-- ===== src/Jit/Effects.antt =====
-- What the common templates of sim/translate_inst.cpp do to the operands.
use mathlib.Core.Path.{subst}
use risc_v_simulator.Base.{
  ℕ, ◌≡◌, refl, ap, sym, ◌∙◌, inl, inr, Bool, true, false, not, ◌&&◌, ◌||◌, [], ◌∷◌, Bool-cases,
  and_left, and_right, arith,
}
use risc_v_simulator.Lru.{HashMap}
use risc_v_simulator.Jit.Host.{Gp, Operand, Op, HostInst, same_gp, same, is_reg, is_mem}
use risc_v_simulator.Jit.Registers.{tmp1, tmp2}
use risc_v_simulator.Jit.Machine.{Machine, read32, is_form, is_shift, apply}
use risc_v_simulator.Jit.Templates.{translate_move}
use risc_v_simulator.Jit.Operands.{IsWord, IsValue, Sets, Frame, bit_xor_self}
use risc_v_simulator.Jit.Runs.{Runs, op2-Runs, mov-Runs}

abbrev pub is_temp : Operand → Bool
is_temp o = same o tmp1 || same o tmp2

-- The place of a guest register, and what stands for a source register.
abbrev pub IsPlace : Operand → Type 0
IsPlace o = IsWord o × (is_temp o ≡ false)

abbrev pub IsSource : Operand → Type 0
IsSource o = IsValue o × (is_temp o ≡ false)

pub op2-form :
    (op : Op) (d s : Operand)
    → IsWord d
    → IsValue s
    → is_shift op ≡ false
    → (is_mem d && is_mem s) ≡ false
    → is_form (HostInst.op2 op d s) ≡ true
unfolding is_form
op2-form op _ _ (IsWord.reg g) (IsValue.word (IsWord.reg g')) n e = rw n refl
op2-form op _ _ (IsWord.reg g) (IsValue.word (IsWord.slot r)) n e = rw n refl
op2-form op _ _ (IsWord.reg g) (IsValue.imm k) n e = rw n refl
op2-form op _ _ (IsWord.slot r) (IsValue.word (IsWord.reg g')) n e = rw n refl
op2-form op _ _ (IsWord.slot r) (IsValue.word (IsWord.slot r')) n e = cc e
op2-form op _ _ (IsWord.slot r) (IsValue.imm k) n e = rw n refl

pub imm-form :
    (op : Op) (d : Operand) (n : ℕ) → IsWord d → is_form (HostInst.op2 op d (Operand.imm n)) ≡ true
unfolding is_form
imm-form op _ n (IsWord.reg g) = ground arith
imm-form op _ n (IsWord.slot r) = ground arith

-- A word is a register or memory, and no immediate.
pub word_mem : (o : Operand) → IsWord o → is_mem o ≡ not (is_reg o)
word_mem _ (IsWord.reg g) = refl
word_mem _ (IsWord.slot r) = refl

-- Equal registers by the test are equal.
pub same_gp-≡ : (g g' : Gp) → same_gp g g' ≡ true → g ≡ g'
same_gp-≡ Gp.eax Gp.eax e = refl
same_gp-≡ Gp.ecx Gp.ecx e = refl
same_gp-≡ Gp.edx Gp.edx e = refl
same_gp-≡ Gp.esi Gp.esi e = refl
same_gp-≡ Gp.edi Gp.edi e = refl
same_gp-≡ Gp.r8d Gp.r8d e = refl
same_gp-≡ Gp.r9d Gp.r9d e = refl
same_gp-≡ Gp.r10d Gp.r10d e = refl
same_gp-≡ Gp.r11d Gp.r11d e = refl
same_gp-≡ _ _ e = cc e

xor_zero : (a : ℕ) → apply Op.xor a a ≡ 0
unfolding apply
xor_zero a = bit_xor_self a

clear_form : (d : Operand) → IsWord d → is_form (HostInst.op2 Op.xor d d) ≡ not (is_mem d)
unfolding is_form
clear_form _ (IsWord.reg g) = refl
clear_form _ (IsWord.slot r) = refl

module _ {m : HashMap} where
  -- One operand has a new value, and of the others only the temporaries change.
  pub record Writes (d : Operand) (v : ℕ) (h h' : Machine m) : Type 0 where
    pub result : read32 d h' ≡ v
    pub others : (o : Operand) → IsSource o → same o d ≡ false → read32 o h' ≡ read32 o h
    pub frame : Frame h h'

  pub Sets-Writes : (d : Operand) (v : ℕ) (h h' : Machine m) → Sets d v h h' → Writes d v h h'
  Sets-Writes d v h h' s = record {
    result = s.result;
    others = λ o p e. s.others o p.0 e;
    frame = s.frame;
  }

  pub same-read32 :
      (a b : Operand) (h : Machine m)
      → IsValue a
      → IsValue b
      → same a b ≡ true
      → read32 a h ≡ read32 b h
  unfolding read32
  same-read32 _ _ h (IsValue.word (IsWord.reg g)) (IsValue.word (IsWord.reg g')) e =
      ap (λ x. read32 (Operand.gp x) h) (same_gp-≡ g g' e)
  same-read32 _ _ h (IsValue.word (IsWord.slot r)) (IsValue.word (IsWord.slot r')) e = ground arith
  same-read32 _ _ h (IsValue.imm n) (IsValue.imm n') e = ground arith
  same-read32 _ _ h (IsValue.word (IsWord.reg g)) (IsValue.word (IsWord.slot r')) e = cc e
  same-read32 _ _ h (IsValue.word (IsWord.reg g)) (IsValue.imm n) e = cc e
  same-read32 _ _ h (IsValue.word (IsWord.slot r)) (IsValue.word (IsWord.reg g)) e = cc e
  same-read32 _ _ h (IsValue.word (IsWord.slot r)) (IsValue.imm n) e = cc e
  same-read32 _ _ h (IsValue.imm n) (IsValue.word (IsWord.reg g)) e = cc e
  same-read32 _ _ h (IsValue.imm n) (IsValue.word (IsWord.slot r)) e = cc e

  imm_zero :
      (s : Operand) (h : Machine m) → IsValue s → same s (Operand.imm 0) ≡ true → read32 s h ≡ 0
  imm_zero s h v e = same-read32 s (Operand.imm 0) h v (IsValue.imm 0) e ∙ (unfold read32 in refl)

  -- TranslateMove sets its destination, unless both operands are memory.
  pub move-Sets :
      (d s : Operand) (h : Machine m)
      → IsWord d
      → IsValue s
      → (is_mem d && is_mem s) ≡ false
      → Runs (translate_move d s) h (Sets d (read32 s h) h)
  unfolding translate_move
  move-Sets d s h w v e = elim (Bool-cases (is_reg d && same s (Operand.imm 0))) [
    | inl cleared ↦ rw cleared (
        subst (λ v'. Runs (HostInst.op2 Op.xor d d ∷ []) h (Sets d v' h))
          (xor_zero (read32 d h) ∙ sym (imm_zero s h v (and_right (is_reg d) _ cleared)))
          (op2-Runs Op.xor d d h w (IsValue.word w)
            (clear_form d w ∙ rw (word_mem d w, and_left (is_reg d) _ cleared) refl)))
    | inr moved ↦ rw moved (mov-Runs d s h w v e)
  ]
