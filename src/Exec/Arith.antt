-- ===== src/Exec/Arith.antt =====
-- Integer arithmetic of sim/exec_inst.cpp. A shift by 32 or more is undefined.
use risc_v_simulator.Base.{
  ℕ, ◌+◌, ◌-◌, ◌*◌, ◌/◌, ◌^◌, Bool, ◌&&◌, ltb, if◌then◌else◌, u32, sub32, not32, bit_and, bit_or,
  bit_xor, pos, signed32, ltb_ℤ,
}
use risc_v_simulator.Outcome.{Outcome, undefined}
use risc_v_simulator.Ir.{Inst}
use risc_v_simulator.Lru.{HashMap}
use risc_v_simulator.State.{State}
use risc_v_simulator.Exec.Operand.{Flow, Handler, urs1, urs2, rd, cur_pc, next}

-- a << n, a >> n, and the shift with the copies of the sign that ExecSRA and ExecSRAI compute.
unfoldable pub shift_left : ℕ → ℕ → ℕ
shift_left a n = u32 (a * 2 ^ n)

unfoldable pub shift_right : ℕ → ℕ → ℕ
shift_right a n = a / 2 ^ n

unfoldable pub shift_right_signed : ℕ → ℕ → ℕ
unfolding shift_right
shift_right_signed a n =
    let mask = if ltb_ℤ (signed32 a) (pos 0) && ltb 0 n then not32 ((2 ^ 32 - 1) / 2 ^ n) else 0 in
    bit_or (shift_right a n) mask

-- The 0 or 1 of a test.
abbrev pub flag : Bool → ℕ
flag test = if test then 1 else 0

module _ {m : HashMap} where
  abbrev set_shifted : ℕ → Inst → ℕ → State m → Outcome (State m) Flow
  set_shifted n inst val s = if ltb n 32 then next (rd inst val s) else undefined

  unfoldable pub exec_lui : Handler m
  exec_lui index inst s = next (rd inst inst.imm s)

  unfoldable pub exec_auipc : Handler m
  exec_auipc index inst s = next (rd inst (u32 (cur_pc index s + inst.imm)) s)

  unfoldable pub exec_addi : Handler m
  exec_addi index inst s = next (rd inst (u32 (urs1 inst s + inst.imm)) s)

  unfoldable pub exec_slti : Handler m
  exec_slti index inst s =
      next (rd inst (flag (ltb_ℤ (signed32 (urs1 inst s)) (signed32 inst.imm))) s)

  unfoldable pub exec_sltiu : Handler m
  exec_sltiu index inst s = next (rd inst (flag (ltb (urs1 inst s) inst.imm)) s)

  unfoldable pub exec_xori : Handler m
  exec_xori index inst s = next (rd inst (bit_xor (urs1 inst s) inst.imm) s)

  unfoldable pub exec_ori : Handler m
  exec_ori index inst s = next (rd inst (bit_or (urs1 inst s) inst.imm) s)

  unfoldable pub exec_andi : Handler m
  exec_andi index inst s = next (rd inst (bit_and (urs1 inst s) inst.imm) s)

  unfoldable pub exec_slli : Handler m
  exec_slli index inst s = set_shifted inst.imm inst (shift_left (urs1 inst s) inst.imm) s

  unfoldable pub exec_srli : Handler m
  exec_srli index inst s = set_shifted inst.imm inst (shift_right (urs1 inst s) inst.imm) s

  unfoldable pub exec_srai : Handler m
  exec_srai index inst s = set_shifted inst.imm inst (shift_right_signed (urs1 inst s) inst.imm) s

  unfoldable pub exec_add : Handler m
  exec_add index inst s = next (rd inst (u32 (urs1 inst s + urs2 inst s)) s)

  unfoldable pub exec_sub : Handler m
  exec_sub index inst s = next (rd inst (sub32 (urs1 inst s) (urs2 inst s)) s)

  unfoldable pub exec_sll : Handler m
  exec_sll index inst s =
      let n = bit_and (urs2 inst s) 0b11111 in set_shifted n inst (shift_left (urs1 inst s) n) s

  unfoldable pub exec_slt : Handler m
  exec_slt index inst s =
      next (rd inst (flag (ltb_ℤ (signed32 (urs1 inst s)) (signed32 (urs2 inst s)))) s)

  unfoldable pub exec_sltu : Handler m
  exec_sltu index inst s = next (rd inst (flag (ltb (urs1 inst s) (urs2 inst s))) s)

  unfoldable pub exec_xor : Handler m
  exec_xor index inst s = next (rd inst (bit_xor (urs1 inst s) (urs2 inst s)) s)

  unfoldable pub exec_srl : Handler m
  exec_srl index inst s =
      let n = bit_and (urs2 inst s) 0b11111 in set_shifted n inst (shift_right (urs1 inst s) n) s

  unfoldable pub exec_sra : Handler m
  exec_sra index inst s =
      let n = bit_and (urs2 inst s) 0b11111 in
      set_shifted n inst (shift_right_signed (urs1 inst s) n) s

  unfoldable pub exec_or : Handler m
  exec_or index inst s = next (rd inst (bit_or (urs1 inst s) (urs2 inst s)) s)

  unfoldable pub exec_and : Handler m
  exec_and index inst s = next (rd inst (bit_and (urs1 inst s) (urs2 inst s)) s)
