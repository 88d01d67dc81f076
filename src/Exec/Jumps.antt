-- ===== src/Exec/Jumps.antt =====
-- Where JALR goes.
use risc_v_simulator.Base.{
  ℕ, ◌+◌, ◌-◌, ◌*◌, ◌/◌, ◌%◌, ◌^◌, ◌<◌, ◌≡◌, refl, ◌∙◌, ap, arith, ◌==◌, if◌then◌else◌, u32, not32,
  bit_and, ◌&&◌, not,
}
use risc_v_simulator.Base.Bits.{bit_and_blocks}
use risc_v_simulator.Base.Masks.{bit_and_mask, bit_and-zero}
use risc_v_simulator.Outcome.{ok}
use risc_v_simulator.Ir.{Inst}
use risc_v_simulator.Lru.{HashMap}
use risc_v_simulator.State.{State, get_reg, set_reg, set_pc}
use risc_v_simulator.Exec.Operand.{Flow}
use risc_v_simulator.Exec.Control.{exec_jalr}

-- `offset & ~1u`.
pub clear_bit_0 : (w : ℕ) → w < 2 ^ 32 → bit_and w (not32 1) ≡ w / 2 * 2
clear_bit_0 w h =
    let e : w ≡ w / 2 * 2 ^ 1 + w % 2 = omega arith in
    let f : not32 1 ≡ (2 ^ 31 - 1) * 2 ^ 1 + 0 = refl in
    ap (λ t. bit_and t (not32 1)) e
    ∙ ap (bit_and (w / 2 * 2 ^ 1 + w % 2)) f
    ∙ bit_and_blocks 1 (w / 2) (w % 2) (2 ^ 31 - 1) 0 (omega arith) (omega arith)
    ∙ omega (arith, bit_and-zero (w % 2), bit_and_mask 31 (w / 2))

module _ {m : HashMap} where
  -- The address of the instruction that follows.
  abbrev pub link : ℕ → State m → ℕ
  link index s = u32 (u32 (s.pc + index * 4) + 4)

  -- JALR ends the trace and goes to the base plus the immediate with bit 0 cleared. The base is the
  -- source register, except where the source is also the link register and not x0: then it is the
  -- link that was just written.
  pub exec_jalr_lem :
      (index : ℕ) (inst : Inst) (s : State m)
      → (s' : State m) × (exec_jalr index inst s ≡ ok Flow.end_trace s')
        × (s'.regs ≡ (set_reg inst.rd (link index s) s).regs)
        × (s'.pc
            ≡ u32 (
                (if inst.rd == inst.rs1 && not (inst.rd == 0)
                  then link index s
                  else s.regs inst.rs1)
                + inst.imm)
              / 2
              * 2)
  unfolding exec_jalr set_pc get_reg set_reg
  exec_jalr_lem index inst s = (
    set_pc
        (bit_and (u32 (get_reg inst.rs1 (set_reg inst.rd (link index s) s) + inst.imm)) (not32 1))
        (set_reg inst.rd (link index s) s),
    refl,
    refl,
    clear_bit_0 (u32 (get_reg inst.rs1 (set_reg inst.rd (link index s) s) + inst.imm)) (omega arith)
        ∙ ground arith,
  )
