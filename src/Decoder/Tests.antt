-- ===== src/Decoder/Tests.antt =====
-- Decoding of single commands, and the indexes at which the decoder's constructor writes.
use risc_v_simulator.Base.{◌≡◌, refl, Bool, true, false, List, [], ◌∷◌, ltb, if◌then◌else◌}
use risc_v_simulator.Isa.{Cmd, CmdDesc, OpcodeDesc, cmd_desc, get_opcode_desc, opcode_desc}
use risc_v_simulator.Ir.{gen_inst_r, gen_inst_i, gen_inst_s, gen_inst_u, gen_inst_b, gen_inst_j}
use risc_v_simulator.Decoder.{decode, decode_format, shift_fields, finish_i, s_imm, b_imm, j_imm}
use risc_v_simulator.Decoder.Tables.{decoder, ok, get_cmd, get_cmd_funct7, sign_extend}

decoding : Unit {0}
unfolding decode decode_format decoder get_cmd get_cmd_funct7 shift_fields finish_i sign_extend
    s_imm b_imm j_imm gen_inst_r gen_inst_i gen_inst_s gen_inst_b gen_inst_u gen_inst_j
decoding = tt

pub addi :
    decode decoder 0xfff10093
    ≡ ok (record { imm = 0xffffffff; rs1 = 2; rs2 = 0; rd = 1; cmd = Cmd.addi })
unfolding decoding
addi = refl

sub : decode decoder 0x405201b3 ≡ ok (record { imm = 0; rs1 = 4; rs2 = 5; rd = 3; cmd = Cmd.sub })
unfolding decoding
sub = refl

-- srai x1, x1, 3: the immediate keeps the function bits.
pub srai :
    decode decoder 0x4030d093
    ≡ ok (record { imm = 0x403; rs1 = 1; rs2 = 0; rd = 1; cmd = Cmd.srai })
unfolding decoding
srai = refl

beq :
    decode decoder 0xfe208ee3
    ≡ ok (record { imm = 0xfffffffe; rs1 = 1; rs2 = 2; rd = 0; cmd = Cmd.beq })
unfolding decoding
beq = refl

pub jal :
    decode decoder 0x0000006f ≡ ok (record { imm = 0; rs1 = 0; rs2 = 0; rd = 0; cmd = Cmd.jal })
unfolding decoding
jal = refl

-- Every opcode lies below 32, every funct3 below 8 and every funct7 below 128.
are_opcodes_in_range : List OpcodeDesc → Bool
are_opcodes_in_range [] = true
are_opcodes_in_range (d ∷ ds) = if ltb d.opcode 32 then are_opcodes_in_range ds else false

are_cmds_in_range : List CmdDesc → Bool
unfolding get_opcode_desc
are_cmds_in_range [] = true
are_cmds_in_range (d ∷ ds) =
    if ltb (get_opcode_desc d.opcode).opcode 32
    then if ltb d.funct3 8 then if ltb d.funct7 128 then are_cmds_in_range ds else false else false
    else false

opcodes : are_opcodes_in_range opcode_desc ≡ true
unfolding are_opcodes_in_range
opcodes = refl

cmds : are_cmds_in_range cmd_desc ≡ true
unfolding are_cmds_in_range
cmds = refl
