-- ===== src/Decoder/Tables.antt =====
-- The state and the tables of the instruction decoder: sim/decoder.h and the constructor and
-- look-ups of sim/decoder.cpp. A std::array is a function from its index and is read through `at`, a
-- vector is a list and is read through `get_elem?`: an index past the end is undefined. The
-- constructor writes at the indexes of constant rows, which are checked in Decoder/Tests.
-- The decoder changes no state after its construction.
use risc_v_simulator.Base.{
  ℕ, suc, ◌-◌, ◌*◌, ◌^◌, List, [], ◌∷◌, ◌++◌, none, some, length, get_elem?, get_or, set, ◌==◌,
  if◌then◌else◌, ltb, ◌%◌, u32, bit_and, bit_or,
}
use risc_v_simulator.Outcome.{SimException}
use risc_v_simulator.Isa.{
  Cmd, CmdFormat, CmdDesc, OpcodeDesc, opcode_desc, cmd_desc, get_opcode_desc, cmd_number,
  cmd_of_number,
}

pub record Decoder : Type 0 where
  pub opc_to_fmt : ℕ → CmdFormat
  pub opc_funct3_to_cmd : ℕ → ℕ
  pub funct7_to_cmd : List (ℕ → Cmd)

-- What decoding gives: an instruction, a SimException, or undefined behaviour.
pub data Decoded (A : Type 0) : Type 0 where
  ok : A → Decoded A
  throw : SimException → Decoded A
  undefined : Decoded A

infixl 5 ◌>>=◌
abbrev pub ◌>>=◌ : {A B : Type 0} → Decoded A → (A → Decoded B) → Decoded B
ok a >>= k = k a
throw e >>= k = throw e
undefined >>= k = undefined

-- A read of a std::array of a size.
unfoldable pub at : {A : Type 0} → ℕ → (ℕ → A) → ℕ → Decoded A
at size table i = if ltb i size then ok (table i) else undefined

-- A write to an array.
abbrev write {ℓ} : {A : Type ℓ} → (ℕ → A) → ℕ → A → ℕ → A
write table place value i = if i == place then value else table i

-- The first loop of the constructor: opc_to_fmt_ is filled from opcode_desc.
fill_formats : List OpcodeDesc → (ℕ → CmdFormat) → ℕ → CmdFormat
fill_formats [] table = table
fill_formats (d ∷ ds) table = fill_formats ds (write table d.opcode d.format)

-- An R-format row: a new funct7 array at the first use of (opcode, funct3), then a write into it.
add_funct7 : ℕ → ℕ → Cmd → Decoder → Decoder
unfolding cmd_number
add_funct7 opc_funct3 funct7 cmd d =
    let d' =
      if d.opc_funct3_to_cmd opc_funct3 == cmd_number Cmd.undefined
      then record d {
        opc_funct3_to_cmd = write d.opc_funct3_to_cmd opc_funct3 (length d.funct7_to_cmd);
        funct7_to_cmd = d.funct7_to_cmd ++ (λ _. Cmd.undefined) ∷ [];
      }
      else d in
    let slot = d'.opc_funct3_to_cmd opc_funct3 in
    record d' {
      funct7_to_cmd =
          set d'.funct7_to_cmd slot
            (write (get_or d'.funct7_to_cmd slot (λ _. Cmd.undefined)) funct7 cmd);
    }

-- One round of the constructor's second loop: the row of number `i`.
add_cmd : ℕ → CmdDesc → Decoder → Decoder
unfolding add_funct7 get_opcode_desc cmd_of_number
add_cmd i desc d =
    let opcode = (get_opcode_desc desc.opcode).opcode in
    let opc_funct3 = bit_or (desc.funct3 * 2 ^ 5) opcode in
    elim (d.opc_to_fmt opcode) [
      | CmdFormat.r ↦ add_funct7 opc_funct3 desc.funct7 (cmd_of_number i) d
      | _ ↦ record d { opc_funct3_to_cmd = write d.opc_funct3_to_cmd opc_funct3 i }
    ]

add_cmds : ℕ → List CmdDesc → Decoder → Decoder
unfolding add_cmd
add_cmds i [] d = d
add_cmds i (desc ∷ descs) d = add_cmds (suc i) descs (add_cmd i desc d)

-- Decoder::Decoder.
unfoldable pub decoder : Decoder
unfolding add_cmds fill_formats cmd_number
decoder = add_cmds 0 cmd_desc (record {
  opc_to_fmt = fill_formats opcode_desc (λ _. CmdFormat.undefined);
  opc_funct3_to_cmd = λ _. cmd_number Cmd.undefined;
  funct7_to_cmd = [];
})

-- SignExtend(imm, n): the bit of number n fills the bits from n on.
unfoldable pub sign_extend : ℕ → ℕ → ℕ
sign_extend imm n =
    let mask = u32 ((2 ^ 32 - 1) * 2 ^ n) in
    if bit_and imm (2 ^ n) == 0 then imm else bit_or imm mask

-- op_funct3, a uint8_t.
unfoldable pub op_funct3 : ℕ → ℕ → ℕ
op_funct3 opcode funct3 = bit_or (funct3 * 2 ^ 5) opcode % 2 ^ 8

-- Decoder::getCmd(opcode, funct3).
found_cmd : Cmd → Decoded Cmd
found_cmd Cmd.undefined = throw SimException.no_cmd_opcode_funct3
found_cmd cmd = ok cmd

unfoldable pub get_cmd : Decoder → ℕ → ℕ → Decoded Cmd
unfolding found_cmd at op_funct3
get_cmd d opcode funct3 = do
  number ← at 256 d.opc_funct3_to_cmd (op_funct3 opcode funct3)
  found_cmd (cmd_of_number number)

-- A read of a std::vector.
abbrev vector_at : {A : Type 0} → List A → ℕ → Decoded A
vector_at xs i = elim (get_elem? xs i) [ none ↦ undefined | some x ↦ ok x ]

found_funct7 : Cmd → Decoded Cmd
found_funct7 Cmd.undefined = throw SimException.no_cmd_opcode_funct3_funct7
found_funct7 cmd = ok cmd

-- Decoder::getCmd(opcode, funct3, funct7).
unfoldable pub get_cmd_funct7 : Decoder → ℕ → ℕ → ℕ → Decoded Cmd
unfolding found_funct7 at op_funct3
get_cmd_funct7 d opcode funct3 funct7 = do
  slot ← at 256 d.opc_funct3_to_cmd (op_funct3 opcode funct3)
  row ← vector_at d.funct7_to_cmd slot
  cmd ← at 128 row funct7
  found_funct7 cmd
