-- ===== src/Jit/Commands.antt =====
-- The translators of the commands in sim/translate_inst.cpp. `virtual` is the answer of
-- MMU::isVirtualAddressing when the trace is translated.
use risc_v_simulator.Base.{
  ℕ, ◌+◌, ◌-◌, ◌^◌, Bool, not, ◌||◌, List, [], ◌∷◌, ◌++◌, ◌==◌, if◌then◌else◌, u64,
}
use risc_v_simulator.Ir.{Inst}
use risc_v_simulator.Jit.Host.{Gp, Operand, Op, HostInst, is_reg}
use risc_v_simulator.Jit.Registers.{Translator, tmp1, tmp2, get_pc, get_mem, get_offset}
use risc_v_simulator.Jit.Templates.{
  rs1_of, rs2_of, rd_of, imm_of, imm_twice, translate_move, translate_mmu_load, translate_mmu_store,
  compare_operands, move_between, translate_imm_type, translate_reg_type,
}

-- TMP1.r64() = RS1 + MEM.
unfoldable pub host_address : Translator → Inst → List HostInst
unfolding translate_move
host_address t inst = translate_move tmp1 (rs1_of t inst) ++ HostInst.add64 tmp1 get_mem ∷ []

-- A load without virtual addressing, by an instruction that takes its destination and its source:
-- into RD, or through TMP2.
unfoldable pub load_direct :
    (Operand → Operand → List HostInst) → ℕ → Translator → Inst → List HostInst
unfolding host_address translate_move
load_direct inst_of bits t inst =
    let rd = rd_of t inst in
    let source = Operand.guest bits inst.imm in
    host_address t inst
    ++ (if is_reg rd then inst_of rd source else inst_of tmp2 source ++ translate_move rd tmp2)

abbrev movsx_inst : Operand → Operand → List HostInst
movsx_inst d s = HostInst.movsx d s ∷ []

abbrev movzx_inst : Operand → Operand → List HostInst
movzx_inst d s = HostInst.movzx d s ∷ []

unfoldable pub translate_lb : Bool → Translator → Inst → List HostInst
unfolding translate_mmu_load load_direct
translate_lb virtual t inst =
    if virtual
    then translate_mmu_load 1 t inst ++ HostInst.movsx (rd_of t inst) (Operand.low 8 Gp.eax) ∷ []
    else load_direct movsx_inst 8 t inst

unfoldable pub translate_lh : Bool → Translator → Inst → List HostInst
unfolding translate_mmu_load load_direct
translate_lh virtual t inst =
    if virtual
    then translate_mmu_load 2 t inst ++ HostInst.movsx (rd_of t inst) (Operand.low 16 Gp.eax) ∷ []
    else load_direct movsx_inst 16 t inst

unfoldable pub translate_lw : Bool → Translator → Inst → List HostInst
unfolding translate_mmu_load load_direct translate_move
translate_lw virtual t inst =
    if virtual
    then translate_mmu_load 4 t inst ++ translate_move (rd_of t inst) tmp1
    else load_direct translate_move 32 t inst

unfoldable pub translate_lbu : Bool → Translator → Inst → List HostInst
unfolding translate_mmu_load load_direct translate_move
translate_lbu virtual t inst =
    if virtual
    then translate_mmu_load 1 t inst ++ translate_move (rd_of t inst) (Operand.low 8 Gp.eax)
    else load_direct movzx_inst 8 t inst

unfoldable pub translate_lhu : Bool → Translator → Inst → List HostInst
unfolding translate_mmu_load load_direct translate_move
translate_lhu virtual t inst =
    if virtual
    then translate_mmu_load 2 t inst ++ translate_move (rd_of t inst) (Operand.low 16 Gp.eax)
    else load_direct movzx_inst 16 t inst

-- as<x86::Gp>().r8() and r16(), and the register itself for 32 bits.
abbrev part : ℕ → Operand → Operand
part bits (Operand.gp g) = if bits == 32 then Operand.gp g else Operand.low bits g
part bits o = o

-- A store without virtual addressing, of RS2 or through TMP2.
unfoldable pub store_direct : ℕ → Translator → Inst → List HostInst
unfolding host_address translate_move
store_direct bits t inst =
    let rs2 = rs2_of t inst in
    let target = Operand.guest bits inst.imm in
    host_address t inst
    ++ (if is_reg rs2
        then translate_move target (part bits rs2)
        else translate_move tmp2 rs2 ++ translate_move target (part bits tmp2))

unfoldable pub translate_sb : Bool → Translator → Inst → List HostInst
unfolding translate_mmu_store store_direct
translate_sb virtual t inst =
    if virtual then translate_mmu_store 1 t inst else store_direct 8 t inst

unfoldable pub translate_sh : Bool → Translator → Inst → List HostInst
unfolding translate_mmu_store store_direct
translate_sh virtual t inst =
    if virtual then translate_mmu_store 2 t inst else store_direct 16 t inst

unfoldable pub translate_sw : Bool → Translator → Inst → List HostInst
unfolding translate_mmu_store store_direct
translate_sw virtual t inst =
    if virtual then translate_mmu_store 4 t inst else store_direct 32 t inst

unfoldable pub translate_lui : Translator → Inst → List HostInst
unfolding translate_move
translate_lui t inst = translate_move (rd_of t inst) (Operand.imm inst.imm)

unfoldable pub translate_auipc : Translator → Inst → List HostInst
unfolding translate_move
translate_auipc t inst =
    translate_move tmp1 get_pc
    ++ HostInst.op2 Op.add tmp1 (Operand.imm (get_offset t + inst.imm))
      ∷ translate_move (rd_of t inst) tmp1

unfoldable pub translate_jal : Translator → Inst → List HostInst
unfolding translate_move
translate_jal t inst =
    let target = Operand.imm (u64 (get_offset t + imm_twice inst)) in
    if not (inst.rd == 0)
    then translate_move tmp1 get_pc
      ++ translate_move (rd_of t inst) tmp1
      ++ HostInst.op2 Op.add (rd_of t inst) (Operand.imm (get_offset t + 4))
        ∷ HostInst.op2 Op.add get_pc target
        ∷ []
    else HostInst.op2 Op.add get_pc target ∷ []

unfoldable pub translate_jalr : Translator → Inst → List HostInst
unfolding translate_move
translate_jalr t inst =
    HostInst.op2 Op.add get_pc (Operand.imm (get_offset t + 4)) ∷ translate_move tmp1 get_pc
    ++ translate_move (rd_of t inst) tmp1
    ++ translate_move tmp1 (rs1_of t inst)
    ++ HostInst.op2 Op.add tmp1 (imm_of inst)
      ∷ HostInst.op2 Op.and tmp1 (Operand.imm (2 ^ 32 - 2))
      ∷ translate_move get_pc tmp1

unfoldable pub translate_addi : Translator → Inst → List HostInst
unfolding translate_move move_between translate_imm_type
translate_addi t inst =
    if inst.rs1 == 0
    then translate_move (rd_of t inst) (imm_of inst)
    else if inst.imm == 0
    then move_between (rd_of t inst) (rs1_of t inst)
    else translate_imm_type Op.add t inst

-- RD = 0, and the low byte of RD set to the outcome of the comparison before.
unfoldable pub set_flag : (Operand → HostInst) → Operand → List HostInst
set_flag set rd = HostInst.mov rd (Operand.imm 0) ∷ set rd ∷ []

unfoldable pub translate_slti : Translator → Inst → List HostInst
unfolding set_flag
translate_slti t inst =
    HostInst.cmp (rs1_of t inst) (imm_of inst) ∷ set_flag HostInst.setl (rd_of t inst)

unfoldable pub translate_sltiu : Translator → Inst → List HostInst
unfolding set_flag
translate_sltiu t inst =
    HostInst.cmp (rs1_of t inst) (Operand.imm inst.imm) ∷ set_flag HostInst.setb (rd_of t inst)

unfoldable pub translate_add : Translator → Inst → List HostInst
unfolding move_between translate_reg_type
translate_add t inst =
    (if inst.rs1 == 0 || inst.rs2 == 0
      then move_between (rd_of t inst) (if inst.rs1 == 0 then rs2_of t inst else rs1_of t inst)
      else [])
    ++ translate_reg_type Op.add t inst

unfoldable pub translate_slt : Translator → Inst → List HostInst
unfolding compare_operands set_flag
translate_slt t inst =
    compare_operands (rs1_of t inst) (rs2_of t inst) ++ set_flag HostInst.setl (rd_of t inst)

unfoldable pub translate_sltu : Translator → Inst → List HostInst
unfolding compare_operands set_flag
translate_sltu t inst =
    compare_operands (rs1_of t inst) (rs2_of t inst) ++ set_flag HostInst.setb (rd_of t inst)

unfoldable pub translate_mul : Translator → Inst → List HostInst
unfolding translate_move
translate_mul t inst =
    translate_move tmp1 (rs1_of t inst)
    ++ HostInst.mul (rs2_of t inst) ∷ translate_move (rd_of t inst) tmp1

unfoldable pub translate_mulh : Translator → Inst → List HostInst
unfolding translate_move
translate_mulh t inst =
    translate_move tmp1 (rs1_of t inst)
    ++ HostInst.mul (rs2_of t inst) ∷ translate_move (rd_of t inst) tmp2
