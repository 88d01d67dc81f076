-- ===== src/Examples/Arithmetic.antt =====
-- Shifts, products, quotients and jumps of concrete words.
use risc_v_simulator.Base.{◌*◌, ◌^◌, ◌<◌, ◌≡◌, refl, arith, pos, signed32, ◌*ℤ◌, ◌+ℤ◌, abs_ℕ, u32}
use risc_v_simulator.Outcome.{ok, undefined}
use risc_v_simulator.Isa.{Cmd}
use risc_v_simulator.Ir.{Inst}
use risc_v_simulator.State.{State, set_reg}
use risc_v_simulator.Decoder.Tests.{srai}
use risc_v_simulator.Exec.{exec_func}
use risc_v_simulator.Exec.Operand.{Flow}
use risc_v_simulator.Exec.Control.{exec_jalr}
use risc_v_simulator.Exec.Arith.{shift_right_signed}
use risc_v_simulator.Exec.Mul.{mulh_value, mulhsu_value, div_value, rem_value}
use risc_v_simulator.Exec.Shifts.{floor_shift, shift_right_signed_floor, srai_undefined}
use risc_v_simulator.Exec.Products.{mulh-mul, mulhsu-mul}
use risc_v_simulator.Exec.Quotients.{div-rem}
use risc_v_simulator.Exec.Jumps.{link, exec_jalr_lem}
use risc_v_simulator.Examples.Setup.{function_map, processor}

-- -7 >> 1.
shift_right_signed_floor_example :
    signed32 (shift_right_signed 0xfffffff9 1) ≡ floor_shift (signed32 0xfffffff9) 1
shift_right_signed_floor_example = shift_right_signed_floor 0xfffffff9 1 (omega arith) (omega arith)

-- -7 * 3, signed, and with an unsigned -1.
mulh-mul_example :
    signed32 (mulh_value 0xfffffff9 3) *ℤ pos (2 ^ 32) +ℤ pos (u32 (0xfffffff9 * 3))
    ≡ signed32 0xfffffff9 *ℤ signed32 3
mulh-mul_example = mulh-mul 0xfffffff9 3 (omega arith) (omega arith)

mulhsu-mul_example :
    signed32 (mulhsu_value 0xfffffff9 0xffffffff) *ℤ pos (2 ^ 32)
      +ℤ pos (u32 (0xfffffff9 * 0xffffffff))
    ≡ signed32 0xfffffff9 *ℤ pos 0xffffffff
mulhsu-mul_example = mulhsu-mul 0xfffffff9 0xffffffff (omega arith) (omega arith)

-- -7 by 2.
div-rem_example :
    (signed32 (div_value 0xfffffff9 2) *ℤ signed32 2 +ℤ signed32 (rem_value 0xfffffff9 2)
      ≡ signed32 0xfffffff9)
    × (abs_ℕ (signed32 (rem_value 0xfffffff9 2)) < abs_ℕ (signed32 2))
div-rem_example =
    div-rem 0xfffffff9 2 (omega arith) (omega arith) (λ e. omega arith) (λ (p, q). omega arith)

-- srai x1, x1, 3.
abbrev srai_inst : Inst
srai_inst = record { imm = 0x403; rs1 = 1; rs2 = 0; rd = 1; cmd = Cmd.srai }

srai_undefined_example : exec_func {m = function_map} Cmd.srai 0 srai_inst processor ≡ undefined
srai_undefined_example = srai_undefined 0x4030d093 0 srai_inst processor (omega arith) srai refl

-- jalr x5, 8(x5).
abbrev jalr_inst : Inst
jalr_inst = record { imm = 8; rs1 = 5; rs2 = 0; rd = 5; cmd = Cmd.jalr }

exec_jalr_lem_example :
    (s' : State function_map) × (exec_jalr 0 jalr_inst processor ≡ ok Flow.end_trace s')
    × (s'.regs ≡ (set_reg 5 (link 0 processor) processor).regs)
    × (s'.pc ≡ 0x10c)
exec_jalr_lem_example = exec_jalr_lem 0 jalr_inst processor
