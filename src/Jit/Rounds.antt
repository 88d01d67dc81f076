-- ===== src/Jit/Rounds.antt =====
-- Translated straight-line code against the handlers, one round after the other.
use mathlib.Core.Path.{fun_ext, ap₂}
use risc_v_simulator.Base.{
  ℕ, ◌+◌, ◌*◌, sub32, signed32, ltb_ℤ, ◌≡◌, refl, ap, ◌∙◌, inl, inr, true, ◌||◌, ◌==◌, Bool-cases,
  if◌then◌else◌, u32, bit_and, bit_or, bit_xor, ltb,
}
use risc_v_simulator.Outcome.{Outcome, ok, undefined}
use risc_v_simulator.Isa.{Cmd}
use risc_v_simulator.Ir.{Inst, is_rs1, is_rs2}
use risc_v_simulator.Lru.{HashMap}
use risc_v_simulator.State.{State, get_reg, set_reg}
use risc_v_simulator.Exec.{exec_func}
use risc_v_simulator.Exec.Operand.{Flow}
use risc_v_simulator.Exec.Arith.{
  exec_addi, exec_xori, exec_ori, exec_andi, exec_slli, exec_srli, exec_srai, exec_add, exec_sub,
  exec_xor, exec_or, exec_and, exec_lui, exec_auipc, exec_slti, exec_sltiu, exec_slt, exec_sltu,
  flag, shift_left, shift_right, shift_right_signed,
}
use risc_v_simulator.Jit.Immediates.{is_immediate}
use risc_v_simulator.Jit.Combinations.{is_combination}
use risc_v_simulator.Jit.Comparisons.{is_comparison}
use risc_v_simulator.Jit.Fill.{IsNear, IsReady}

module _ {m : HashMap} where
  abbrev guard : ℕ → State m → Outcome (State m) Flow
  guard n s = if ltb n 32 then ok Flow.next_inst s else undefined

  set_reg-near :
      (d v v' : ℕ) (s s' : State m)
      → IsNear d s s'
      → ((d == 0) ≡ true → s' ≡ s)
      → v' ≡ v
      → set_reg d v' s' ≡ set_reg d v s
  unfolding set_reg
  set_reg-near d v v' s s' n z e = elim (Bool-cases (d == 0)) [
    | inl y ↦ rw y (z y)
    | inr y ↦
        rw (y, e)
          (ap (λ (u : State m). record u { regs = λ r. if r == d then v else s'.regs r })
              n.same_rest
            ∙ ap (λ regs. record s { regs = regs })
                (fun_ext (λ r. elim (Bool-cases (r == d)) [
                  | inl q ↦ rw q refl
                  | inr q ↦ rw q (n.same_regs r q)
                ])))
  ]

  value1 :
      (f : ℕ → ℕ) (inst : Inst) (s s' : State m)
      → IsReady inst s s'
      → is_rs1 inst ≡ true
      → set_reg inst.rd (f (s'.regs inst.rs1)) s' ≡ set_reg inst.rd (f (s.regs inst.rs1)) s
  value1 f inst s s' k p = set_reg-near inst.rd _ _ s s' k.near k.zero_rd (ap f (k.first p))

  value2 :
      (f : ℕ → ℕ → ℕ) (inst : Inst) (s s' : State m)
      → IsReady inst s s'
      → is_rs1 inst ≡ true
      → is_rs2 inst ≡ true
      → set_reg inst.rd (f (s'.regs inst.rs1) (s'.regs inst.rs2)) s'
        ≡ set_reg inst.rd (f (s.regs inst.rs1) (s.regs inst.rs2)) s
  value2 f inst s s' k p q =
      set_reg-near inst.rd _ _ s s' k.near k.zero_rd (ap₂ f (k.first p) (k.second q))

  -- A handler that only computes its destination does not see the difference.
  pub near_by :
      (c : Cmd) (index : ℕ) (inst : Inst) (s s' : State m)
      → inst.cmd ≡ c
      → (is_immediate c || is_combination c || is_comparison c) ≡ true
      → IsReady inst s s'
      → exec_func c index inst s' ≡ exec_func c index inst s
  unfolding exec_func exec_addi exec_xori exec_ori exec_andi exec_slli exec_srli exec_srai exec_add
      exec_sub exec_xor exec_or exec_and exec_lui exec_auipc exec_slti exec_sltiu exec_slt exec_sltu
      get_reg is_immediate is_combination is_comparison is_rs1 is_rs2 shift_left shift_right
      shift_right_signed
  near_by Cmd.addi index inst s s' q i k =
      ap (ok Flow.next_inst) (value1 (λ a. u32 (a + inst.imm)) inst s s' k (rw q refl))
  near_by Cmd.xori index inst s s' q i k =
      ap (ok Flow.next_inst) (value1 (λ a. bit_xor a inst.imm) inst s s' k (rw q refl))
  near_by Cmd.ori index inst s s' q i k =
      ap (ok Flow.next_inst) (value1 (λ a. bit_or a inst.imm) inst s s' k (rw q refl))
  near_by Cmd.andi index inst s s' q i k =
      ap (ok Flow.next_inst) (value1 (λ a. bit_and a inst.imm) inst s s' k (rw q refl))
  near_by Cmd.slli index inst s s' q i k =
      ap (guard inst.imm) (value1 (λ a. shift_left a inst.imm) inst s s' k (rw q refl))
  near_by Cmd.srli index inst s s' q i k =
      ap (guard inst.imm) (value1 (λ a. shift_right a inst.imm) inst s s' k (rw q refl))
  near_by Cmd.srai index inst s s' q i k =
      ap (guard inst.imm) (value1 (λ a. shift_right_signed a inst.imm) inst s s' k (rw q refl))
  near_by Cmd.add index inst s s' q i k =
      ap (ok Flow.next_inst) (value2 (λ a b. u32 (a + b)) inst s s' k (rw q refl) (rw q refl))
  near_by Cmd.sub index inst s s' q i k =
      ap (ok Flow.next_inst) (value2 sub32 inst s s' k (rw q refl) (rw q refl))
  near_by Cmd.xor index inst s s' q i k =
      ap (ok Flow.next_inst) (value2 bit_xor inst s s' k (rw q refl) (rw q refl))
  near_by Cmd.or index inst s s' q i k =
      ap (ok Flow.next_inst) (value2 bit_or inst s s' k (rw q refl) (rw q refl))
  near_by Cmd.and index inst s s' q i k =
      ap (ok Flow.next_inst) (value2 bit_and inst s s' k (rw q refl) (rw q refl))
  near_by Cmd.slt index inst s s' q i k =
      ap (ok Flow.next_inst)
        (value2 (λ a b. flag (ltb_ℤ (signed32 a) (signed32 b))) inst s s' k (rw q refl) (rw q refl))
  near_by Cmd.sltu index inst s s' q i k =
      ap (ok Flow.next_inst) (value2 (λ a b. flag (ltb a b)) inst s s' k (rw q refl) (rw q refl))
  near_by Cmd.slti index inst s s' q i k =
      ap (ok Flow.next_inst)
        (value1 (λ a. flag (ltb_ℤ (signed32 a) (signed32 inst.imm))) inst s s' k (rw q refl))
  near_by Cmd.sltiu index inst s s' q i k =
      ap (ok Flow.next_inst) (value1 (λ a. flag (ltb a inst.imm)) inst s s' k (rw q refl))
  near_by Cmd.lui index inst s s' q i k =
      ap (ok Flow.next_inst) (set_reg-near inst.rd inst.imm inst.imm s s' k.near k.zero_rd refl)
  near_by Cmd.auipc index inst s s' q i k = ap (ok Flow.next_inst) (
      set_reg-near inst.rd _ _ s s' k.near k.zero_rd
        (ap (λ (u : State m). u32 (u32 (u.pc + index * 4) + inst.imm)) k.near.same_rest))
  near_by Cmd.undefined index inst s s' q i k = refl
  near_by _ index inst s s' q i k = cc i
