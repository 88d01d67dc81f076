-- ===== src/Jit/Named.antt =====
-- The commands that sim/translate_inst.cpp translates by one template alone.
use risc_v_simulator.Base.{List}
use risc_v_simulator.Ir.{Inst}
use risc_v_simulator.Jit.Host.{Op, Cond, HostInst}
use risc_v_simulator.Jit.Registers.{Translator, Emits}
use risc_v_simulator.Jit.Templates.{
  translate_cond_branch, translate_imm_type, translate_reg_type, translate_shift,
}

abbrev pub translate_beq : Translator → Inst → Emits
translate_beq t inst = translate_cond_branch Cond.je t inst

abbrev pub translate_bne : Translator → Inst → Emits
translate_bne t inst = translate_cond_branch Cond.jne t inst

abbrev pub translate_blt : Translator → Inst → Emits
translate_blt t inst = translate_cond_branch Cond.jl t inst

abbrev pub translate_bge : Translator → Inst → Emits
translate_bge t inst = translate_cond_branch Cond.jge t inst

abbrev pub translate_bltu : Translator → Inst → Emits
translate_bltu t inst = translate_cond_branch Cond.jb t inst

abbrev pub translate_bgeu : Translator → Inst → Emits
translate_bgeu t inst = translate_cond_branch Cond.jae t inst

abbrev pub translate_xori : Translator → Inst → List HostInst
translate_xori t inst = translate_imm_type Op.xor t inst

abbrev pub translate_ori : Translator → Inst → List HostInst
translate_ori t inst = translate_imm_type Op.or t inst

abbrev pub translate_andi : Translator → Inst → List HostInst
translate_andi t inst = translate_imm_type Op.and t inst

abbrev pub translate_slli : Translator → Inst → List HostInst
translate_slli t inst = translate_imm_type Op.shl t inst

abbrev pub translate_srli : Translator → Inst → List HostInst
translate_srli t inst = translate_imm_type Op.shr t inst

abbrev pub translate_srai : Translator → Inst → List HostInst
translate_srai t inst = translate_imm_type Op.sar t inst

abbrev pub translate_sub : Translator → Inst → List HostInst
translate_sub t inst = translate_reg_type Op.sub t inst

abbrev pub translate_xor : Translator → Inst → List HostInst
translate_xor t inst = translate_reg_type Op.xor t inst

abbrev pub translate_or : Translator → Inst → List HostInst
translate_or t inst = translate_reg_type Op.or t inst

abbrev pub translate_and : Translator → Inst → List HostInst
translate_and t inst = translate_reg_type Op.and t inst

abbrev pub translate_sll : Translator → Inst → List HostInst
translate_sll t inst = translate_shift Op.shl t inst

abbrev pub translate_srl : Translator → Inst → List HostInst
translate_srl t inst = translate_shift Op.shr t inst

abbrev pub translate_sra : Translator → Inst → List HostInst
translate_sra t inst = translate_shift Op.sar t inst
