-- ===== src/Decoder/Encoded.antt =====
-- Decoding of the word that the encoding gives.
use mathlib.Core.Path.{ap₂}
use risc_v_simulator.Base.{
  ℕ, ◌*◌, ◌/◌, ◌%◌, ◌^◌, ◌<◌, ◌≡◌, ◌≢◌, refl, arith, ap, sym, bits, u32, ◌∙◌,
}
use risc_v_simulator.Isa.{Cmd, CmdFormat}
use risc_v_simulator.Ir.{
  Inst, gen_inst_r, gen_inst_i, gen_inst_s, gen_inst_b, gen_inst_u, gen_inst_j,
}
use risc_v_simulator.Decoder.{decode, decode_format, shift_fields, finish_i, s_imm, b_imm, j_imm}
use risc_v_simulator.Decoder.Tables.{Decoded, ok, throw, undefined, ◌>>=◌, decoder}
use risc_v_simulator.Decoder.Encoding.{word, opcode_of, funct3_of, funct7_of}
use risc_v_simulator.Decoder.Fields.{decode_word}
use risc_v_simulator.Decoder.Lookup.{look_up, look_up-found, found, format_of, opc_to_fmt-opcode_of}
use risc_v_simulator.Decoder.Immediate.{i_fields}

pub row_fits : (c : Cmd) → (opcode_of c < 32) × (funct3_of c < 8) × (funct7_of c < 128)
unfolding opcode_of funct3_of funct7_of
row_fits Cmd.lui = omega arith
row_fits _ = omega arith

-- The slices of a word whose fields are in range.
abbrev pub HasFields : ℕ → ℕ → ℕ → ℕ → ℕ → ℕ → ℕ → Type 0
HasFields w funct7 rs2 rs1 funct3 rd op =
    (w % 4 ≡ 3)
    × (bits 2 5 w ≡ op)
    × (bits 7 5 w ≡ rd)
    × (bits 12 3 w ≡ funct3)
    × (bits 15 5 w ≡ rs1)
    × (bits 20 5 w ≡ rs2)
    × (bits 25 7 w ≡ funct7)

pub word-HasFields :
    (f7 rs2 rs1 f3 rd op : ℕ)
    → f7 < 128
    → rs2 < 32
    → rs1 < 32
    → f3 < 8
    → rd < 32
    → op < 32
    → HasFields (word f7 rs2 rs1 f3 rd op) f7 rs2 rs1 f3 rd op
word-HasFields f7 rs2 rs1 f3 rd op h1 h2 h3 h4 h5 h6 = omega arith

-- A word with the opcode of a command goes to the command's format.
pub decode_row :
    (c : Cmd) (w : ℕ)
    → c ≢ Cmd.undefined
    → w % 4 ≡ 3
    → bits 2 5 w ≡ opcode_of c
    → decode decoder w ≡ decode_format decoder (format_of c) (opcode_of c) w
decode_row c w h low e = decode_word decoder w low ∙ rw (e, opc_to_fmt-opcode_of c h) refl

found_r : (c : Cmd) → format_of c ≢ CmdFormat.i → found c ≡ c
unfolding format_of found
found_r Cmd.srli h = absurd (h refl)
found_r Cmd.ecall h = absurd (h refl)
found_r Cmd.ebreak h = absurd (h refl)
found_r Cmd.uret h = absurd (h refl)
found_r Cmd.sret h = absurd (h refl)
found_r Cmd.mret h = absurd (h refl)
found_r _ h = refl

pub defined : (c : Cmd) → format_of c ≢ CmdFormat.undefined → c ≢ Cmd.undefined
unfolding format_of
defined c h e = h (rw e refl)

-- The look-up of a command of format `f`.
pub look_up_own :
    (c : Cmd) (f : CmdFormat)
    → format_of c ≡ f
    → f ≢ CmdFormat.i
    → f ≢ CmdFormat.undefined
    → look_up f (opcode_of c) (funct3_of c) (funct7_of c) ≡ ok c
look_up_own c f e h g =
    let h' : format_of c ≢ CmdFormat.i = rw e h in
    let g' : format_of c ≢ CmdFormat.undefined = rw e g in
    rw (← e) (look_up-found c (defined c g') ∙ ap ok (found_r c h'))

-- The fields of a word that go with an instruction.
abbrev pub HasRow : ℕ → Inst → ℕ → ℕ → ℕ → ℕ → Type 0
HasRow w i funct7 rs2 rs1 rd = HasFields w funct7 rs2 rs1 (funct3_of i.cmd) rd (opcode_of i.cmd)

pub at_r :
    (i : Inst) (w : ℕ)
    → HasRow w i (funct7_of i.cmd) i.rs2 i.rs1 i.rd
    → i.imm ≡ 0
    → look_up CmdFormat.r (opcode_of i.cmd) (funct3_of i.cmd) (funct7_of i.cmd) ≡ ok i.cmd
    → decode_format decoder CmdFormat.r (opcode_of i.cmd) w ≡ ok i
unfolding decode_format look_up gen_inst_r
at_r i w f z l = rw (f.2, f.3, f.4, f.5, f.6, l) (ap (λ m. ok (record i { imm = m })) (sym z))

pub at_s :
    (i : Inst) (w a b : ℕ)
    → HasRow w i b i.rs2 i.rs1 a
    → i.rd ≡ 0
    → s_imm a b ≡ i.imm
    → look_up CmdFormat.s (opcode_of i.cmd) (funct3_of i.cmd) (funct7_of i.cmd) ≡ ok i.cmd
    → decode_format decoder CmdFormat.s (opcode_of i.cmd) w ≡ ok i
unfolding decode_format look_up gen_inst_s
at_s i w a b f z e l =
    rw (f.2, f.3, f.4, f.5, f.6, l, e) (ap (λ m. ok (record i { rd = m })) (sym z))

pub at_b :
    (i : Inst) (w a b : ℕ)
    → HasRow w i b i.rs2 i.rs1 a
    → i.rd ≡ 0
    → b_imm a b ≡ i.imm
    → look_up CmdFormat.b (opcode_of i.cmd) (funct3_of i.cmd) (funct7_of i.cmd) ≡ ok i.cmd
    → decode_format decoder CmdFormat.b (opcode_of i.cmd) w ≡ ok i
unfolding decode_format look_up gen_inst_b
at_b i w a b f z e l =
    rw (f.2, f.3, f.4, f.5, f.6, l, e) (ap (λ m. ok (record i { rd = m })) (sym z))

pub at_u :
    (i : Inst) (w : ℕ)
    → bits 7 5 w ≡ i.rd
    → u32 (bits 12 20 w * 2 ^ 12) ≡ i.imm
    → i.rs1 ≡ 0
    → i.rs2 ≡ 0
    → look_up CmdFormat.u (opcode_of i.cmd) (funct3_of i.cmd) (funct7_of i.cmd) ≡ ok i.cmd
    → decode_format decoder CmdFormat.u (opcode_of i.cmd) w ≡ ok i
unfolding decode_format look_up gen_inst_u
at_u i w d e z z' l =
    rw (d, l, e) (ap₂ (λ m n. ok (record i { rs1 = m; rs2 = n })) (sym z) (sym z'))

pub at_j :
    (i : Inst) (w : ℕ)
    → bits 7 5 w ≡ i.rd
    → j_imm (bits 12 20 w) ≡ i.imm
    → i.rs1 ≡ 0
    → i.rs2 ≡ 0
    → look_up CmdFormat.j (opcode_of i.cmd) (funct3_of i.cmd) (funct7_of i.cmd) ≡ ok i.cmd
    → decode_format decoder CmdFormat.j (opcode_of i.cmd) w ≡ ok i
unfolding decode_format look_up gen_inst_j
at_j i w d e z z' l =
    rw (d, l, e) (ap₂ (λ m n. ok (record i { rs1 = m; rs2 = n })) (sym z) (sym z'))

bind_after :
    {A B C D E : Type 0} (m : Decoded (A × B)) (k : A → B → Decoded (C × D)) (l : C → D → Decoded E)
    {c : C} {d : D}
    → (m >>= λ (a, b). k a b) ≡ ok (c, d)
    → (m >>= λ (a, b). k a b >>= λ (c, d). l c d) ≡ l c d
bind_after (ok (a, b)) k l h = rw h
bind_after (throw e) k l h = cc
bind_after undefined k l h = cc

pub at_i :
    (i : Inst) (w : ℕ)
    → HasRow w i (i.imm % 2 ^ 12 / 2 ^ 5) (i.imm % 2 ^ 5) i.rs1 i.rd
    → i.rs2 ≡ 0
    → look_up CmdFormat.i (opcode_of i.cmd) (funct3_of i.cmd) (funct7_of i.cmd) ≡ ok (found i.cmd)
    → i_fields (found i.cmd) (i.imm % 2 ^ 12) i.rs1 i.rd ≡ ok (i.cmd, i.imm)
    → decode_format decoder CmdFormat.i (opcode_of i.cmd) w ≡ ok i
unfolding decode_format look_up gen_inst_i i_fields
at_i i w f z l e =
    let raw : bits 20 12 w ≡ i.imm % 2 ^ 12 = omega (arith, f.5, f.6) in
    rw (f.2, f.3, f.4, raw, l)
      (bind_after (shift_fields (found i.cmd) (i.imm % 2 ^ 12))
          (λ c imm. finish_i c imm (i.imm % 2 ^ 12) i.rs1 i.rd)
          (λ c imm. ok (gen_inst_i c i.rd i.rs1 imm)) e
        ∙ ap (λ m. ok (record i { rs2 = m })) (sym z))
