-- ===== src/Decoder.antt =====
-- Decoder::decode of sim/decoder.cpp. A bit-field of the packed format structs, filled by memcpy on
-- a little-endian machine, is the slice of the command at the same place.
pub mod Tables
pub mod Encoding
pub mod Fields
pub mod Lookup
pub mod Immediate
pub mod Inverse
pub mod Exact
pub mod Encoded
pub mod Complete
pub mod Total
pub mod Tests
use risc_v_simulator.Base.{
  ℕ, ◌-◌, ◌*◌, ◌/◌, ◌%◌, ◌^◌, Bool, true, false, ◌&&◌, ◌||◌, not, leb, ◌==◌, if◌then◌else◌, bits,
  u32, bit_and, bit_or,
}
use risc_v_simulator.Outcome.{SimException}
use risc_v_simulator.Isa.{Cmd, CmdFormat, cmd_number}
use risc_v_simulator.Ir.{
  Inst, gen_inst_r, gen_inst_i, gen_inst_s, gen_inst_u, gen_inst_b, gen_inst_j,
}
use Tables.{Decoder, Decoded, ok, throw, undefined, ◌>>=◌, at, sign_extend, get_cmd, get_cmd_funct7}

-- The SRLI/SRAI case of the I format.
unfoldable pub right_shift_fields : ℕ → Decoded (Cmd × ℕ)
right_shift_fields imm =
    let funct7 = imm / 2 ^ 5 in
    if funct7 == 0b0000000
    then ok (Cmd.srli, imm)
    else if funct7 == 0b0100000
    then ok (Cmd.srai, bit_and imm (2 ^ 6 - 1))
    else throw SimException.shift_right_immediate

-- The first special case of the I format: shifts by an immediate.
unfoldable pub shift_fields : Cmd → ℕ → Decoded (Cmd × ℕ)
unfolding right_shift_fields
shift_fields Cmd.slli imm =
    if imm / 2 ^ 5 == 0 then ok (Cmd.slli, imm) else throw SimException.slli_immediate
shift_fields Cmd.srli imm = right_shift_fields imm
shift_fields Cmd.srai imm = right_shift_fields imm
shift_fields cmd imm = ok (cmd, imm)

-- The switch over the immediate of a SYSTEM instruction.
unfoldable pub system_cmd : ℕ → Decoded Cmd
system_cmd imm =
    if imm == 0x000
    then ok Cmd.ecall
    else if imm == 0x001
    then ok Cmd.ebreak
    else if imm == 0x002
    then ok Cmd.uret
    else if imm == 0x102
    then ok Cmd.sret
    else if imm == 0x302
    then ok Cmd.mret
    else if imm == 0x105
    then ok Cmd.wfi
    else throw SimException.system_immediate

unfoldable pub is_system : Cmd → Bool
unfolding cmd_number
is_system cmd =
    leb (cmd_number Cmd.ecall) (cmd_number cmd) && leb (cmd_number cmd) (cmd_number Cmd.wfi)

unfoldable pub is_fence : Cmd → Bool
unfolding cmd_number
is_fence cmd = cmd_number cmd == cmd_number Cmd.fence

-- The second special case of the I format; `imm` has gone through the first, `raw` is fmt.imm.
unfoldable pub finish_i : Cmd → ℕ → ℕ → ℕ → ℕ → Decoded (Cmd × ℕ)
unfolding is_fence is_system system_cmd
finish_i cmd imm raw rs1 rd =
    if is_fence cmd
    then (if not (imm == 0x0ff) || not (rs1 == 0) || not (rd == 0)
        then throw SimException.fence_operands
        else ok (cmd, imm))
    else if is_system cmd
    then (if not (rs1 == 0) || not (rd == 0)
        then throw SimException.system_operands
        else (do cmd' ← system_cmd imm; ok (cmd', imm)))
    else ok (cmd, sign_extend raw 11)

unfoldable pub decode_r : Decoder → ℕ → ℕ → Decoded Inst
decode_r d opcode command = do
  cmd ← get_cmd_funct7 d opcode (bits 12 3 command) (bits 25 7 command)
  ok (gen_inst_r cmd (bits 7 5 command) (bits 15 5 command) (bits 20 5 command))

unfoldable pub decode_i : Decoder → ℕ → ℕ → Decoded Inst
decode_i d opcode command = do
  let rd = bits 7 5 command
  let rs1 = bits 15 5 command
  let raw = bits 20 12 command
  cmd ← get_cmd d opcode (bits 12 3 command)
  (cmd', imm) ← shift_fields cmd raw
  (cmd'', imm') ← finish_i cmd' imm raw rs1 rd
  ok (gen_inst_i cmd'' rd rs1 imm')

-- The immediate of the S format, from imm1 (5 bits) and imm2 (7 bits).
unfoldable pub s_imm : ℕ → ℕ → ℕ
s_imm imm1 imm2 = sign_extend (bit_or (imm2 * 2 ^ 5) imm1) 11

-- The immediate of the B format, in units of two bytes.
unfoldable pub b_imm : ℕ → ℕ → ℕ
b_imm imm1 imm2 =
    sign_extend
      (bit_or (bit_or (bit_or (imm1 / 2 ^ 1) (bit_and imm2 0x3f * 2 ^ 4)) (bit_and imm1 1 * 2 ^ 10))
        (imm2 / 2 ^ 6 * 2 ^ 11))
      11

-- The immediate of the J format, in units of two bytes.
unfoldable pub j_imm : ℕ → ℕ
j_imm imm =
    sign_extend
      (bit_or
        (bit_or (bit_or (bit_and (imm / 2 ^ 9) 0x3ff) (bit_and (imm / 2 ^ 8) 1 * 2 ^ 10))
          (bit_and imm 0xff * 2 ^ 11))
        (imm / 2 ^ 19 * 2 ^ 19))
      19

unfoldable pub decode_s : Decoder → ℕ → ℕ → Decoded Inst
decode_s d opcode command = do
  cmd ← get_cmd d opcode (bits 12 3 command)
  ok (
      gen_inst_s cmd (s_imm (bits 7 5 command) (bits 25 7 command)) (bits 15 5 command)
        (bits 20 5 command))

unfoldable pub decode_b : Decoder → ℕ → ℕ → Decoded Inst
decode_b d opcode command = do
  cmd ← get_cmd d opcode (bits 12 3 command)
  ok (
      gen_inst_b cmd (b_imm (bits 7 5 command) (bits 25 7 command)) (bits 15 5 command)
        (bits 20 5 command))

-- getCmd(opcode) of the U and J formats takes funct3 = 0.
unfoldable pub decode_u : Decoder → ℕ → ℕ → Decoded Inst
decode_u d opcode command = do
  cmd ← get_cmd d opcode 0
  ok (gen_inst_u cmd (bits 7 5 command) (u32 (bits 12 20 command * 2 ^ 12)))

unfoldable pub decode_j : Decoder → ℕ → ℕ → Decoded Inst
decode_j d opcode command = do
  cmd ← get_cmd d opcode 0
  ok (gen_inst_j cmd (bits 7 5 command) (j_imm (bits 12 20 command)))

-- Step 3 of decode.
unfoldable pub decode_format : Decoder → CmdFormat → ℕ → ℕ → Decoded Inst
unfolding decode_r decode_i decode_s decode_b decode_u decode_j
decode_format d CmdFormat.r opcode command = decode_r d opcode command
decode_format d CmdFormat.i opcode command = decode_i d opcode command
decode_format d CmdFormat.s opcode command = decode_s d opcode command
decode_format d CmdFormat.b opcode command = decode_b d opcode command
decode_format d CmdFormat.u opcode command = decode_u d opcode command
decode_format d CmdFormat.j opcode command = decode_j d opcode command
decode_format d CmdFormat.undefined opcode command = throw SimException.opcode_unsupported

unfoldable pub decode : Decoder → ℕ → Decoded Inst
unfolding at
decode d command =
    if not (bit_and command 0b11 == 0b11)
    then throw SimException.packed_unsupported
    else let opcode = bit_and command (2 ^ 7 - 1) / 2 ^ 2 in
      (do format ← at 32 d.opc_to_fmt opcode; decode_format d format opcode command)
