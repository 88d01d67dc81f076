-- ===== src/Isa.antt =====
-- The instruction set description: sim/isa_desc.h and sim/isa_desc.cpp. The tables are lists in the
-- order of the source's arrays, and an enumerator's number is its place in its enum.
-- A row of cmd_desc keeps the opcode, the function fields and whether a translator is given; its
-- exec_func is `exec_func` of Exec.antt, and its name serves the log alone.
pub mod Coherence
use risc_v_simulator.Base.{ℕ, List, [], ◌∷◌, Bool, true, false, length, get_or}

pub data CmdFormat : Type 0 where
  r i s u b j undefined : CmdFormat

pub data Opcode : Type 0 where
  load store branch jalr jal op_imm op system auipc lui mscmem undefined : Opcode

pub data Cmd : Type 0 where
  lui auipc jal jalr beq bne blt bge : Cmd
  bltu bgeu lb lh lw lbu lhu sb : Cmd
  sh sw addi slti sltiu xori ori andi : Cmd
  slli srli srai add sub sll slt sltu : Cmd
  xor srl sra or and ecall ebreak uret : Cmd
  sret mret wfi fence csrrw csrrs csrrc csrrwi : Cmd
  csrrsi csrrci mul mulh mulhsu mulhu div divu : Cmd
  rem remu undefined : Cmd

pub record OpcodeDesc : Type 0 where
  pub opcode : ℕ
  pub format : CmdFormat

pub record CmdDesc : Type 0 where
  pub opcode : Opcode
  pub funct3 : ℕ
  pub funct7 : ℕ
  pub has_translate : Bool

-- The numbers of the enumerators (the casts to uint8_t).
unfoldable pub opcode_number : Opcode → ℕ
opcode_number Opcode.load = 0
opcode_number Opcode.store = 1
opcode_number Opcode.branch = 2
opcode_number Opcode.jalr = 3
opcode_number Opcode.jal = 4
opcode_number Opcode.op_imm = 5
opcode_number Opcode.op = 6
opcode_number Opcode.system = 7
opcode_number Opcode.auipc = 8
opcode_number Opcode.lui = 9
opcode_number Opcode.mscmem = 10
opcode_number Opcode.undefined = 11

unfoldable pub cmd_number : Cmd → ℕ
cmd_number Cmd.lui = 0
cmd_number Cmd.auipc = 1
cmd_number Cmd.jal = 2
cmd_number Cmd.jalr = 3
cmd_number Cmd.beq = 4
cmd_number Cmd.bne = 5
cmd_number Cmd.blt = 6
cmd_number Cmd.bge = 7
cmd_number Cmd.bltu = 8
cmd_number Cmd.bgeu = 9
cmd_number Cmd.lb = 10
cmd_number Cmd.lh = 11
cmd_number Cmd.lw = 12
cmd_number Cmd.lbu = 13
cmd_number Cmd.lhu = 14
cmd_number Cmd.sb = 15
cmd_number Cmd.sh = 16
cmd_number Cmd.sw = 17
cmd_number Cmd.addi = 18
cmd_number Cmd.slti = 19
cmd_number Cmd.sltiu = 20
cmd_number Cmd.xori = 21
cmd_number Cmd.ori = 22
cmd_number Cmd.andi = 23
cmd_number Cmd.slli = 24
cmd_number Cmd.srli = 25
cmd_number Cmd.srai = 26
cmd_number Cmd.add = 27
cmd_number Cmd.sub = 28
cmd_number Cmd.sll = 29
cmd_number Cmd.slt = 30
cmd_number Cmd.sltu = 31
cmd_number Cmd.xor = 32
cmd_number Cmd.srl = 33
cmd_number Cmd.sra = 34
cmd_number Cmd.or = 35
cmd_number Cmd.and = 36
cmd_number Cmd.ecall = 37
cmd_number Cmd.ebreak = 38
cmd_number Cmd.uret = 39
cmd_number Cmd.sret = 40
cmd_number Cmd.mret = 41
cmd_number Cmd.wfi = 42
cmd_number Cmd.fence = 43
cmd_number Cmd.csrrw = 44
cmd_number Cmd.csrrs = 45
cmd_number Cmd.csrrc = 46
cmd_number Cmd.csrrwi = 47
cmd_number Cmd.csrrsi = 48
cmd_number Cmd.csrrci = 49
cmd_number Cmd.mul = 50
cmd_number Cmd.mulh = 51
cmd_number Cmd.mulhsu = 52
cmd_number Cmd.mulhu = 53
cmd_number Cmd.div = 54
cmd_number Cmd.divu = 55
cmd_number Cmd.rem = 56
cmd_number Cmd.remu = 57
cmd_number Cmd.undefined = 58

-- The enumerators in order, from which a cast back from uint8_t reads.
abbrev pub all_cmds : List Cmd
all_cmds =
    Cmd.lui ∷ Cmd.auipc ∷ Cmd.jal ∷ Cmd.jalr ∷ Cmd.beq ∷ Cmd.bne ∷ Cmd.blt ∷ Cmd.bge ∷ Cmd.bltu
    ∷ Cmd.bgeu ∷ Cmd.lb ∷ Cmd.lh ∷ Cmd.lw ∷ Cmd.lbu ∷ Cmd.lhu ∷ Cmd.sb ∷ Cmd.sh ∷ Cmd.sw ∷ Cmd.addi
    ∷ Cmd.slti ∷ Cmd.sltiu ∷ Cmd.xori ∷ Cmd.ori ∷ Cmd.andi ∷ Cmd.slli ∷ Cmd.srli ∷ Cmd.srai
    ∷ Cmd.add ∷ Cmd.sub ∷ Cmd.sll ∷ Cmd.slt ∷ Cmd.sltu ∷ Cmd.xor ∷ Cmd.srl ∷ Cmd.sra ∷ Cmd.or
    ∷ Cmd.and ∷ Cmd.ecall ∷ Cmd.ebreak ∷ Cmd.uret ∷ Cmd.sret ∷ Cmd.mret ∷ Cmd.wfi ∷ Cmd.fence
    ∷ Cmd.csrrw ∷ Cmd.csrrs ∷ Cmd.csrrc ∷ Cmd.csrrwi ∷ Cmd.csrrsi ∷ Cmd.csrrci ∷ Cmd.mul ∷ Cmd.mulh
    ∷ Cmd.mulhsu ∷ Cmd.mulhu ∷ Cmd.div ∷ Cmd.divu ∷ Cmd.rem ∷ Cmd.remu ∷ []

unfoldable pub cmd_of_number : ℕ → Cmd
cmd_of_number n = get_or all_cmds n Cmd.undefined

abbrev opc : ℕ → CmdFormat → OpcodeDesc
opc opcode format = record { opcode = opcode; format = format }

abbrev pub opcode_desc : List OpcodeDesc
opcode_desc =
    opc 0b00000 CmdFormat.i
    ∷ opc 0b01000 CmdFormat.s
    ∷ opc 0b11000 CmdFormat.b
    ∷ opc 0b11001 CmdFormat.i
    ∷ opc 0b11011 CmdFormat.j
    ∷ opc 0b00100 CmdFormat.i
    ∷ opc 0b01100 CmdFormat.r
    ∷ opc 0b11100 CmdFormat.i
    ∷ opc 0b00101 CmdFormat.u
    ∷ opc 0b01101 CmdFormat.u
    ∷ opc 0b00011 CmdFormat.i
    ∷ []

abbrev cmd : Opcode → ℕ → ℕ → Bool → CmdDesc
cmd opcode funct3 funct7 has_translate = record {
  opcode = opcode;
  funct3 = funct3;
  funct7 = funct7;
  has_translate = has_translate;
}

abbrev pub cmd_desc : List CmdDesc
cmd_desc =
    cmd Opcode.lui 0b000 0b0000000 true
    ∷ cmd Opcode.auipc 0b000 0b0000000 true
    ∷ cmd Opcode.jal 0b000 0b0000000 true
    ∷ cmd Opcode.jalr 0b000 0b0000000 true
    ∷ cmd Opcode.branch 0b000 0b0000000 true
    ∷ cmd Opcode.branch 0b001 0b0000000 true
    ∷ cmd Opcode.branch 0b100 0b0000000 true
    ∷ cmd Opcode.branch 0b101 0b0000000 true
    ∷ cmd Opcode.branch 0b110 0b0000000 true
    ∷ cmd Opcode.branch 0b111 0b0000000 true
    ∷ cmd Opcode.load 0b000 0b0000000 true
    ∷ cmd Opcode.load 0b001 0b0000000 true
    ∷ cmd Opcode.load 0b010 0b0000000 true
    ∷ cmd Opcode.load 0b100 0b0000000 true
    ∷ cmd Opcode.load 0b101 0b0000000 true
    ∷ cmd Opcode.store 0b000 0b0000000 true
    ∷ cmd Opcode.store 0b001 0b0000000 true
    ∷ cmd Opcode.store 0b010 0b0000000 true
    ∷ cmd Opcode.op_imm 0b000 0b0000000 true
    ∷ cmd Opcode.op_imm 0b010 0b0000000 true
    ∷ cmd Opcode.op_imm 0b011 0b0000000 true
    ∷ cmd Opcode.op_imm 0b100 0b0000000 true
    ∷ cmd Opcode.op_imm 0b110 0b0000000 true
    ∷ cmd Opcode.op_imm 0b111 0b0000000 true
    ∷ cmd Opcode.op_imm 0b001 0b0000000 true
    ∷ cmd Opcode.op_imm 0b101 0b0000000 true
    ∷ cmd Opcode.op_imm 0b101 0b0000000 true
    ∷ cmd Opcode.op 0b000 0b0000000 true
    ∷ cmd Opcode.op 0b000 0b0100000 true
    ∷ cmd Opcode.op 0b001 0b0000000 true
    ∷ cmd Opcode.op 0b010 0b0000000 true
    ∷ cmd Opcode.op 0b011 0b0000000 true
    ∷ cmd Opcode.op 0b100 0b0000000 true
    ∷ cmd Opcode.op 0b101 0b0000000 true
    ∷ cmd Opcode.op 0b101 0b0100000 true
    ∷ cmd Opcode.op 0b110 0b0000000 true
    ∷ cmd Opcode.op 0b111 0b0000000 true
    ∷ cmd Opcode.system 0b000 0b0000000 false
    ∷ cmd Opcode.system 0b000 0b0000000 false
    ∷ cmd Opcode.system 0b000 0b0000000 false
    ∷ cmd Opcode.system 0b000 0b0000000 false
    ∷ cmd Opcode.system 0b000 0b0000000 false
    ∷ cmd Opcode.system 0b000 0b0000000 false
    ∷ cmd Opcode.mscmem 0b000 0b0000000 false
    ∷ cmd Opcode.system 0b001 0b0000000 false
    ∷ cmd Opcode.system 0b010 0b0000000 false
    ∷ cmd Opcode.system 0b011 0b0000000 false
    ∷ cmd Opcode.system 0b101 0b0000000 false
    ∷ cmd Opcode.system 0b110 0b0000000 false
    ∷ cmd Opcode.system 0b111 0b0000000 false
    ∷ cmd Opcode.op 0b000 0b0000001 true
    ∷ cmd Opcode.op 0b001 0b0000001 true
    ∷ cmd Opcode.op 0b010 0b0000001 false
    ∷ cmd Opcode.op 0b011 0b0000001 false
    ∷ cmd Opcode.op 0b100 0b0000001 false
    ∷ cmd Opcode.op 0b101 0b0000001 false
    ∷ cmd Opcode.op 0b110 0b0000001 false
    ∷ cmd Opcode.op 0b111 0b0000001 false
    ∷ []

unfoldable pub get_opcodes_num : ℕ
get_opcodes_num = length opcode_desc

-- Past the end of a table, which the source's assertion excludes, stands a stub row.
unfoldable pub get_opcode_desc : Opcode → OpcodeDesc
unfolding opcode_number
get_opcode_desc o = get_or opcode_desc (opcode_number o) (opc 0 CmdFormat.undefined)

unfoldable pub get_cmds_num : ℕ
get_cmds_num = length cmd_desc

unfoldable pub get_cmd_desc : Cmd → CmdDesc
unfolding cmd_number
get_cmd_desc c = get_or cmd_desc (cmd_number c) (cmd Opcode.undefined 0 0 false)
