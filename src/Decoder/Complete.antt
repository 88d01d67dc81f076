-- ===== src/Decoder/Complete.antt =====
-- decode against the encoding, from an instruction to its word and back.
use risc_v_simulator.Base.{ℕ, ◌+◌, ◌*◌, ◌/◌, ◌%◌, ◌^◌, ◌<◌, ◌≡◌, ◌≢◌, refl, arith, bits, ◌∙◌}
use risc_v_simulator.Isa.{CmdFormat}
use risc_v_simulator.Ir.{Inst, get_cmd_format}
use risc_v_simulator.Decoder.{decode, decode_format, s_imm, b_imm, j_imm}
use risc_v_simulator.Decoder.Tables.{ok, decoder}
use risc_v_simulator.Decoder.Encoding.{
  word, encode, encode_format, IsWellFormed, IsShaped, IsSigned, opcode_of, funct3_of, funct7_of,
}
use risc_v_simulator.Decoder.Fields.{s_imm_lem, b_imm_lem, j_imm_lem, b_bits, j_bits}
use risc_v_simulator.Decoder.Lookup.{format_of, look_up, look_up-found}
use risc_v_simulator.Decoder.Immediate.{i_fields-IsImmediate}
use risc_v_simulator.Decoder.Encoded.{
  row_fits, HasRow, word-HasFields, decode_row, look_up_own, defined, at_r, at_i, at_s, at_b, at_u,
  at_j,
}

s_signed : (imm : ℕ) → IsSigned 11 imm → s_imm (imm % 2 ^ 5) (imm % 2 ^ 12 / 2 ^ 5) ≡ imm
s_signed imm h =
    s_imm_lem (imm % 2 ^ 5) (imm % 2 ^ 12 / 2 ^ 5) (omega arith) (omega arith) ∙ ground arith

abbrev b_low : ℕ → ℕ
b_low imm = 2 * (imm % 2 ^ 4) + imm / 2 ^ 10 % 2

abbrev b_high : ℕ → ℕ
b_high imm = 2 ^ 6 * (imm / 2 ^ 11 % 2) + imm / 2 ^ 4 % 2 ^ 6

b_gathered : (imm : ℕ) → b_bits (b_low imm) (b_high imm) ≡ imm % 2 ^ 12
b_gathered imm = omega arith

b_signed : (imm : ℕ) → IsSigned 11 imm → b_imm (b_low imm) (b_high imm) ≡ imm
b_signed imm h =
    b_imm_lem (b_low imm) (b_high imm) (omega arith) (omega arith)
    ∙ rw (b_gathered imm) (ground arith)

abbrev j_field : ℕ → ℕ
j_field imm =
    imm / 2 ^ 11 % 2 ^ 8
    + 2 ^ 8 * (imm / 2 ^ 10 % 2)
    + 2 ^ 9 * (imm % 2 ^ 10)
    + 2 ^ 19 * (imm / 2 ^ 19 % 2)

j_gathered : (imm : ℕ) → j_bits (j_field imm) ≡ imm % 2 ^ 20
j_gathered imm = omega arith

j_signed : (imm : ℕ) → IsSigned 19 imm → j_imm (j_field imm) ≡ imm
j_signed imm h = j_imm_lem (j_field imm) (omega arith) ∙ rw (j_gathered imm) (ground arith)

-- A word with the opcode of a command of format `f` decodes as that format says.
in_format :
    (i : Inst) (f : CmdFormat) (w : ℕ)
    → format_of i.cmd ≡ f
    → f ≢ CmdFormat.undefined
    → w % 4 ≡ 3
    → bits 2 5 w ≡ opcode_of i.cmd
    → decode_format decoder f (opcode_of i.cmd) w ≡ ok i
    → decode decoder w ≡ ok i
in_format i f w e n low o h = decode_row i.cmd w (defined i.cmd (rw e n)) low o ∙ rw e h

module _ (i : Inst) where
  -- The word of an instruction with fields `a` and `b` for rd and funct7.
  fields_of :
      (a b rs2 : ℕ)
      → a < 32
      → b < 128
      → rs2 < 32
      → i.rs1 < 32
      → HasRow (word b rs2 i.rs1 (funct3_of i.cmd) a (opcode_of i.cmd)) i b rs2 i.rs1 a
  fields_of a b rs2 ha hb h2 h1 =
      let (ho, h3, _) = row_fits i.cmd in
      word-HasFields b rs2 i.rs1 (funct3_of i.cmd) a (opcode_of i.cmd) hb h2 h1 h3 ha ho

  own :
      (f : CmdFormat)
      → format_of i.cmd ≡ f
      → f ≢ CmdFormat.i
      → f ≢ CmdFormat.undefined
      → look_up f (opcode_of i.cmd) (funct3_of i.cmd) (funct7_of i.cmd) ≡ ok i.cmd
  own f = look_up_own i.cmd f

  decode-encode_format :
      (f : CmdFormat)
      → format_of i.cmd ≡ f
      → IsShaped f i
      → decode decoder (encode_format f i) ≡ ok i
  unfolding encode_format
  decode-encode_format CmdFormat.r e s =
      let h7 = (row_fits i.cmd).2 in
      let g = fields_of i.rd (funct7_of i.cmd) i.rs2 s.0 h7 s.2 s.1 in
      in_format i CmdFormat.r (encode_format CmdFormat.r i) e (cc) g.0 g.1
        (at_r i (encode_format CmdFormat.r i) g s.3 (own CmdFormat.r e (cc) (cc)))
  decode-encode_format CmdFormat.i e s =
      let g =
        fields_of i.rd (i.imm % 2 ^ 12 / 2 ^ 5) (i.imm % 2 ^ 5) s.0 (omega arith) (omega arith)
          s.1 in
      in_format i CmdFormat.i (encode_format CmdFormat.i i) e (cc) g.0 g.1 (
        at_i i (encode_format CmdFormat.i i) g s.2
          (rw (← e) (look_up-found i.cmd (defined i.cmd (rw e (cc)))))
          (i_fields-IsImmediate i.cmd i.imm i.rs1 i.rd e s.3))
  decode-encode_format CmdFormat.s e s =
      let g =
        fields_of (i.imm % 2 ^ 5) (i.imm % 2 ^ 12 / 2 ^ 5) i.rs2 (omega arith) (omega arith) s.2
          s.1 in
      in_format i CmdFormat.s (encode_format CmdFormat.s i) e (cc) g.0 g.1 (
        at_s i (encode_format CmdFormat.s i) (i.imm % 2 ^ 5) (i.imm % 2 ^ 12 / 2 ^ 5) g s.0
          (s_signed i.imm s.3) (own CmdFormat.s e (cc) (cc)))
  decode-encode_format CmdFormat.b e s =
      let g = fields_of (b_low i.imm) (b_high i.imm) i.rs2 (omega arith) (omega arith) s.2 s.1 in
      in_format i CmdFormat.b (encode_format CmdFormat.b i) e (cc) g.0 g.1 (
        at_b i (encode_format CmdFormat.b i) (b_low i.imm) (b_high i.imm) g s.0 (b_signed i.imm s.3)
          (own CmdFormat.b e (cc) (cc)))
  decode-encode_format CmdFormat.u e s =
      let ho = (row_fits i.cmd).0 in
      let w = encode_format CmdFormat.u i in
      in_format i CmdFormat.u w e (cc) (omega arith) (omega arith)
        (at_u i w (omega arith) (omega arith) s.1 s.2 (own CmdFormat.u e (cc) (cc)))
  decode-encode_format CmdFormat.j e s =
      let ho = (row_fits i.cmd).0 in
      let w = encode_format CmdFormat.j i in
      let field : bits 12 20 w ≡ j_field i.imm = omega arith in
      in_format i CmdFormat.j w e (cc) (omega arith) (omega arith) (
        at_j i w (omega arith) (rw field (j_signed i.imm s.3)) s.1 s.2
          (own CmdFormat.j e (cc) (cc)))
  decode-encode_format CmdFormat.undefined e s = absurd s

-- The word of a well-formed instruction decodes to that instruction.
pub decode-encode : (i : Inst) → IsWellFormed i → decode decoder (encode i) ≡ ok i
unfolding encode get_cmd_format format_of
decode-encode i h = decode-encode_format i (get_cmd_format i) refl h
