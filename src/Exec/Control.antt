-- ===== src/Exec/Control.antt =====
-- Jumps and branches of sim/exec_inst.cpp. Their immediates are in units of two bytes.
use risc_v_simulator.Base.{
  ◌+◌, ◌*◌, Bool, not, ltb, leb, ◌==◌, if◌then◌else◌, u32, not32, bit_and, signed32, ltb_ℤ,
}
use risc_v_simulator.Lru.{HashMap}
use risc_v_simulator.State.{set_pc}
use risc_v_simulator.Exec.Operand.{Handler, urs1, urs2, rd, cur_pc, stop}

module _ {m : HashMap} where
  unfoldable pub exec_jal : Handler m
  exec_jal index inst s =
      let pc = cur_pc index s in stop (set_pc (u32 (pc + inst.imm * 2)) (rd inst (u32 (pc + 4)) s))

  -- RD is written before RS1 is read.
  unfoldable pub exec_jalr : Handler m
  exec_jalr index inst s =
      let pc = cur_pc index s in
      let s' = rd inst (u32 (pc + 4)) s in
      let offset = u32 (urs1 inst s' + inst.imm) in stop (set_pc (bit_and offset (not32 1)) s')

  -- SET_PC(test ? cur_pc + IMM * 2 : cur_pc + 4).
  unfoldable pub branch : Bool → Handler m
  branch test index inst s =
      let pc = cur_pc index s in
      stop (set_pc (if test then u32 (pc + inst.imm * 2) else u32 (pc + 4)) s)

  unfoldable pub exec_beq : Handler m
  exec_beq index inst s = branch (urs1 inst s == urs2 inst s) index inst s

  unfoldable pub exec_bne : Handler m
  exec_bne index inst s = branch (not (urs1 inst s == urs2 inst s)) index inst s

  unfoldable pub exec_blt : Handler m
  exec_blt index inst s =
      branch (ltb_ℤ (signed32 (urs1 inst s)) (signed32 (urs2 inst s))) index inst s

  unfoldable pub exec_bge : Handler m
  exec_bge index inst s =
      branch (not (ltb_ℤ (signed32 (urs1 inst s)) (signed32 (urs2 inst s)))) index inst s

  unfoldable pub exec_bltu : Handler m
  exec_bltu index inst s = branch (ltb (urs1 inst s) (urs2 inst s)) index inst s

  unfoldable pub exec_bgeu : Handler m
  exec_bgeu index inst s = branch (leb (urs2 inst s) (urs1 inst s)) index inst s
