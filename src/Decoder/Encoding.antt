-- ===== src/Decoder/Encoding.antt =====
-- The instruction formats of the RISC-V manual, written from an instruction to its 32-bit word: what
-- sim/decoder.cpp's decode is compared with. Immediates of branches and jumps are in units of two
-- bytes, as the intermediate representation keeps them.
use risc_v_simulator.Base.{ℕ, ◌+◌, ◌*◌, ◌/◌, ◌%◌, ◌^◌, ◌≤◌, ◌<◌, ◌≡◌, ◌⊎◌}
use risc_v_simulator.Isa.{Cmd, CmdFormat, get_cmd_desc, get_opcode_desc}
use risc_v_simulator.Ir.{Inst, get_cmd_format}

unfoldable pub opcode_of : Cmd → ℕ
unfolding get_cmd_desc get_opcode_desc
opcode_of c = (get_opcode_desc (get_cmd_desc c).opcode).opcode

unfoldable pub funct3_of : Cmd → ℕ
unfolding get_cmd_desc
funct3_of c = (get_cmd_desc c).funct3

unfoldable pub funct7_of : Cmd → ℕ
unfolding get_cmd_desc
funct7_of c = (get_cmd_desc c).funct7

-- funct7 | rs2 | rs1 | funct3 | rd | opcode | 11.
abbrev pub word : ℕ → ℕ → ℕ → ℕ → ℕ → ℕ → ℕ
word funct7 rs2 rs1 funct3 rd opcode =
    3
    + 2 ^ 2 * opcode
    + 2 ^ 7 * rd
    + 2 ^ 12 * funct3
    + 2 ^ 15 * rs1
    + 2 ^ 20 * rs2
    + 2 ^ 25 * funct7

-- The word of a command by its format and fields.
unfoldable pub encode_format : CmdFormat → Inst → ℕ
unfolding opcode_of funct3_of funct7_of
encode_format CmdFormat.r i =
    word (funct7_of i.cmd) i.rs2 i.rs1 (funct3_of i.cmd) i.rd (opcode_of i.cmd)
-- imm[11:0] stands where rs2 and funct7 do.
encode_format CmdFormat.i i =
    word (i.imm % 2 ^ 12 / 2 ^ 5) (i.imm % 2 ^ 5) i.rs1 (funct3_of i.cmd) i.rd (opcode_of i.cmd)
-- imm[11:5] and imm[4:0].
encode_format CmdFormat.s i =
    word (i.imm % 2 ^ 12 / 2 ^ 5) i.rs2 i.rs1 (funct3_of i.cmd) (i.imm % 2 ^ 5) (opcode_of i.cmd)
-- offset[12|10:5] and offset[4:1|11], for offset = 2 * imm.
encode_format CmdFormat.b i =
    word (2 ^ 6 * (i.imm / 2 ^ 11 % 2) + i.imm / 2 ^ 4 % 2 ^ 6) i.rs2 i.rs1 (funct3_of i.cmd)
      (2 * (i.imm % 2 ^ 4) + i.imm / 2 ^ 10 % 2) (opcode_of i.cmd)
-- imm[31:12].
encode_format CmdFormat.u i = 3 + 2 ^ 2 * opcode_of i.cmd + 2 ^ 7 * i.rd + 2 ^ 12 * (i.imm / 2 ^ 12)
-- offset[20|10:1|11|19:12], for offset = 2 * imm.
encode_format CmdFormat.j i =
    3
    + 2 ^ 2 * opcode_of i.cmd
    + 2 ^ 7 * i.rd
    + 2 ^ 12
      * (i.imm / 2 ^ 11 % 2 ^ 8
          + 2 ^ 8 * (i.imm / 2 ^ 10 % 2)
          + 2 ^ 9 * (i.imm % 2 ^ 10)
          + 2 ^ 19 * (i.imm / 2 ^ 19 % 2))
encode_format CmdFormat.undefined i = 0

unfoldable pub encode : Inst → ℕ
unfolding encode_format get_cmd_format
encode i = encode_format (get_cmd_format i) i

-- A word below 2 ^ 32 that extends a number of n + 1 bits by its sign.
abbrev pub IsSigned : ℕ → ℕ → Type 0
IsSigned n w = (w < 2 ^ n) ⊎ ((2 ^ 32 ≤ w + 2 ^ n) × (w < 2 ^ 32))

-- The immediates of the I format. SLLI, SRLI and SRAI shift by 5 bits; SRAI keeps its function
-- bits, 0x400, above them.
abbrev pub IsImmediate : Cmd → ℕ → ℕ → ℕ → Type 0
IsImmediate Cmd.slli imm rs1 rd = imm < 2 ^ 5
IsImmediate Cmd.srli imm rs1 rd = imm < 2 ^ 5
IsImmediate Cmd.srai imm rs1 rd = (0x400 ≤ imm) × (imm < 0x400 + 2 ^ 5)
IsImmediate Cmd.fence imm rs1 rd = (imm ≡ 0xff) × (rs1 ≡ 0) × (rd ≡ 0)
IsImmediate Cmd.ecall imm rs1 rd = (imm ≡ 0x000) × (rs1 ≡ 0) × (rd ≡ 0)
IsImmediate Cmd.ebreak imm rs1 rd = (imm ≡ 0x001) × (rs1 ≡ 0) × (rd ≡ 0)
IsImmediate Cmd.uret imm rs1 rd = (imm ≡ 0x002) × (rs1 ≡ 0) × (rd ≡ 0)
IsImmediate Cmd.sret imm rs1 rd = (imm ≡ 0x102) × (rs1 ≡ 0) × (rd ≡ 0)
IsImmediate Cmd.mret imm rs1 rd = (imm ≡ 0x302) × (rs1 ≡ 0) × (rd ≡ 0)
IsImmediate Cmd.wfi imm rs1 rd = (imm ≡ 0x105) × (rs1 ≡ 0) × (rd ≡ 0)
IsImmediate _ imm rs1 rd = IsSigned 11 imm

-- The fields that a format has are in range, and those that it lacks are zero.
abbrev pub IsShaped : CmdFormat → Inst → Type 0
IsShaped CmdFormat.r i = (i.rd < 32) × (i.rs1 < 32) × (i.rs2 < 32) × (i.imm ≡ 0)
IsShaped CmdFormat.i i =
    (i.rd < 32) × (i.rs1 < 32) × (i.rs2 ≡ 0) × IsImmediate i.cmd i.imm i.rs1 i.rd
IsShaped CmdFormat.s i = (i.rd ≡ 0) × (i.rs1 < 32) × (i.rs2 < 32) × IsSigned 11 i.imm
IsShaped CmdFormat.b i = (i.rd ≡ 0) × (i.rs1 < 32) × (i.rs2 < 32) × IsSigned 11 i.imm
IsShaped CmdFormat.u i =
    (i.rd < 32) × (i.rs1 ≡ 0) × (i.rs2 ≡ 0) × (i.imm < 2 ^ 32) × (i.imm % 2 ^ 12 ≡ 0)
IsShaped CmdFormat.j i = (i.rd < 32) × (i.rs1 ≡ 0) × (i.rs2 ≡ 0) × IsSigned 19 i.imm
IsShaped CmdFormat.undefined i = ⊥

abbrev pub IsWellFormed : Inst → Type 0
unfolding get_cmd_format
IsWellFormed i = IsShaped (get_cmd_format i) i
