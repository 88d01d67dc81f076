-- ===== src/Jit/Clash.antt =====
-- The register template of sim/translate_inst.cpp on two memory operands.
use risc_v_simulator.Base.{
  ◌≡◌, refl, sym, ◌∙◌, inl, inr, Bool, true, false, not, ◌&&◌, ◌||◌, ◌==◌, [], ◌∷◌, some,
  Bool-cases, if-false, arith,
}
use risc_v_simulator.Ir.{Inst}
use risc_v_simulator.Lru.{HashMap}
use risc_v_simulator.State.{get_reg, set_reg}
use risc_v_simulator.Jit.Host.{Operand, Op, HostInst, same, is_reg, is_mem}
use risc_v_simulator.Jit.Registers.{Translator}
use risc_v_simulator.Jit.Machine.{Machine, step, read32, is_form}
use risc_v_simulator.Jit.Templates.{
  rs1_of, rs2_of, rd_of, translate_move, reg_type, translate_reg_type,
}
use risc_v_simulator.Jit.Operands.{IsWord, IsValue}
use risc_v_simulator.Jit.Runs.{Runs, Runs-append, Runs-one}
use risc_v_simulator.Jit.Effects.{IsPlace, IsSource, Writes}
use risc_v_simulator.Jit.Arith.{move-Writes}
use risc_v_simulator.Jit.Pairs.{is_clash, not_both}
use risc_v_simulator.Jit.Guest.{
  get_reg-zero, Reaches-code, IsMapped, IsPlace-get_reg, IsSource-get_reg, guest, Reaches,
  Reaches-Writes,
}
use risc_v_simulator.Jit.Combinations.{clashes}

no_form :
    (op : Op) (d s : Operand)
    → IsWord d
    → IsValue s
    → (is_mem d && is_mem s) ≡ true
    → is_form (HostInst.op2 op d s) ≡ false
unfolding is_form
no_form op _ _ (IsWord.reg g) v e = cc e
no_form op _ _ (IsWord.slot r) (IsValue.word (IsWord.reg g)) e = cc e
no_form op _ _ (IsWord.slot r) (IsValue.word (IsWord.slot r')) e = ground arith
no_form op _ _ (IsWord.slot r) (IsValue.imm n) e = cc e

parts :
    (da db r md ma mb : Bool)
    → (not da && not db && md && not ma && mb) ≡ true
    → (da ≡ false) × ((not db && (r || not ma)) ≡ true) × (ma ≡ false) × ((md && mb) ≡ true)
parts da db r md ma mb e = ground arith

no_clash_zero : (t : Translator) (inst : Inst) → (inst.rd == 0) ≡ true → clashes t inst ≡ false
no_clash_zero t inst z = rw (get_reg-zero t inst.rd z) (ground arith)

module _ {m : HashMap} where
  dropped :
      (op : Op) (d s : Operand) (h : Machine m)
      → is_form (HostInst.op2 op d s) ≡ false
      → step (HostInst.op2 op d s) h ≡ some h
  unfolding step
  dropped op d s h e = rw e refl

  reg_type-clash :
      (op : Op) (d a b : Operand) (h : Machine m)
      → IsPlace d
      → IsSource a
      → IsSource b
      → is_clash d a b ≡ true
      → Runs (reg_type op d a b) h (Writes d (read32 a h) h)
  unfolding reg_type
  reg_type-clash op d a b h w v k c =
      let (f, g, n, both) =
        parts (same d a) (same d b) (is_reg d) (is_mem d) (is_mem a) (is_mem b) c in
      rw (f, g)
        (Runs-append (translate_move d a) (HostInst.op2 op d b ∷ []) h
          (move-Writes d a h w.0 v.0 (rw n (not_both (is_mem d))))
          (λ h' p.
            Runs-one (HostInst.op2 op d b) h' h' (dropped op d b h' (no_form op d b w.0 k.0 both))
              p))

  -- Where RD and RS2 are distinct registers in memory, neither is RS1, and RS1 is in a host register
  -- or x0, the code for a register command runs to its end and copies RS1 to RD: RS2 and the
  -- operation have no part in the result.
  pub translate_reg_type-clash :
      (op : Op) (t : Translator) (inst : Inst) (h : Machine m)
      → IsMapped t
      → clashes t inst ≡ true
      → Reaches t
          (translate_reg_type op t inst)
          h
          (set_reg inst.rd (get_reg inst.rs1 (guest t h)) (guest t h))
  unfolding translate_reg_type get_reg
  translate_reg_type-clash op t inst h k c = elim (Bool-cases (inst.rd == 0)) [
    | inl z ↦ cc (sym c ∙ no_clash_zero t inst z)
    | inr n ↦ Reaches-code t _ _ h _ (if-false (inst.rd == 0) _ _ n) (
        Reaches-Writes t inst.rd _ _ _ h k n refl (
          reg_type-clash op (rd_of t inst) (rs1_of t inst) (rs2_of t inst) h
            (IsPlace-get_reg t k inst.rd n) (IsSource-get_reg t k inst.rs1)
            (IsSource-get_reg t k inst.rs2) c))
  ]
