-- ===== src/Ir.antt =====
-- The intermediate representation: sim/ir.h. Registers and immediates are numbers; the format of an
-- instruction is looked up through the tables, as in the source.
use risc_v_simulator.Base.{ℕ, Bool, true, false, not, ◌&&◌}
use risc_v_simulator.Isa.{Cmd, CmdFormat, Opcode, get_cmd_desc, get_opcode_desc}

pub record Inst : Type 0 where
  pub imm : ℕ
  pub rs1 : ℕ
  pub rs2 : ℕ
  pub rd : ℕ
  pub cmd : Cmd

unfoldable pub get_opcode : Inst → Opcode
unfolding get_cmd_desc
get_opcode inst = (get_cmd_desc inst.cmd).opcode

unfoldable pub get_cmd_format : Inst → CmdFormat
unfolding get_opcode get_opcode_desc
get_cmd_format inst = (get_opcode_desc (get_opcode inst)).format

-- Tests of a format, as the source writes them with == and !=.
abbrev is_r : CmdFormat → Bool
is_r CmdFormat.r = true
is_r _ = false

abbrev is_i : CmdFormat → Bool
is_i CmdFormat.i = true
is_i _ = false

abbrev is_u_or_j : CmdFormat → Bool
is_u_or_j CmdFormat.u = true
is_u_or_j CmdFormat.j = true
is_u_or_j _ = false

abbrev is_s_or_b : CmdFormat → Bool
is_s_or_b CmdFormat.s = true
is_s_or_b CmdFormat.b = true
is_s_or_b _ = false

unfoldable pub is_imm : Inst → Bool
unfolding get_cmd_format
is_imm inst = not (is_r (get_cmd_format inst))

unfoldable pub is_rs1 : Inst → Bool
unfolding get_cmd_format
is_rs1 inst = not (is_u_or_j (get_cmd_format inst))

unfoldable pub is_rs2 : Inst → Bool
unfolding get_cmd_format
is_rs2 inst = not (is_i (get_cmd_format inst)) && not (is_u_or_j (get_cmd_format inst))

unfoldable pub is_rd : Inst → Bool
unfolding get_cmd_format
is_rd inst = not (is_s_or_b (get_cmd_format inst))

abbrev ends_trace : Opcode → Bool
ends_trace Opcode.branch = true
ends_trace Opcode.jalr = true
ends_trace Opcode.jal = true
ends_trace _ = false

abbrev is_fence : Cmd → Bool
is_fence Cmd.fence = true
is_fence _ = false

unfoldable pub is_terminator : Inst → Bool
unfolding get_opcode
is_terminator inst = elim (is_fence inst.cmd) [ true ↦ true | false ↦ ends_trace (get_opcode inst) ]

unfoldable pub is_translation_supported : Inst → Bool
unfolding get_cmd_desc
is_translation_supported inst = (get_cmd_desc inst.cmd).has_translate

-- GenInst of each format: the fields that the format lacks are zero.
unfoldable pub gen_inst_r : Cmd → ℕ → ℕ → ℕ → Inst
gen_inst_r cmd rd rs1 rs2 = record { imm = 0; rs1 = rs1; rs2 = rs2; rd = rd; cmd = cmd }

unfoldable pub gen_inst_i : Cmd → ℕ → ℕ → ℕ → Inst
gen_inst_i cmd rd rs1 imm = record { imm = imm; rs1 = rs1; rs2 = 0; rd = rd; cmd = cmd }

unfoldable pub gen_inst_s : Cmd → ℕ → ℕ → ℕ → Inst
gen_inst_s cmd imm rs1 rs2 = record { imm = imm; rs1 = rs1; rs2 = rs2; rd = 0; cmd = cmd }

unfoldable pub gen_inst_u : Cmd → ℕ → ℕ → Inst
gen_inst_u cmd rd imm = record { imm = imm; rs1 = 0; rs2 = 0; rd = rd; cmd = cmd }

unfoldable pub gen_inst_b : Cmd → ℕ → ℕ → ℕ → Inst
gen_inst_b cmd imm rs1 rs2 = record { imm = imm; rs1 = rs1; rs2 = rs2; rd = 0; cmd = cmd }

unfoldable pub gen_inst_j : Cmd → ℕ → ℕ → Inst
gen_inst_j cmd rd imm = record { imm = imm; rs1 = 0; rs2 = 0; rd = rd; cmd = cmd }
