-- ===== src/Jit/Templates.antt =====
-- The helper functions for common templates of sim/translate_inst.cpp. An immediate is a 64-bit
-- pattern. A function that leaves the translator as it is gives the emitted instructions alone.
use risc_v_simulator.Base.{
  ℕ, ◌+◌, ◌*◌, Bool, not, ◌&&◌, ◌||◌, List, [], ◌∷◌, ◌++◌, ◌==◌, if◌then◌else◌, u32, u64, signed32,
}
use risc_v_simulator.Ir.{Inst}
use risc_v_simulator.Exec.Operand.{of_ℤ64}
use risc_v_simulator.Jit.Host.{Gp, Operand, Op, Cond, HostInst, same, is_reg, is_mem, is_imm}
use risc_v_simulator.Jit.Registers.{
  Translator, Emits, tmp1, get_pc, get_reg, get_offset, save_all_regs, restore_all_regs,
  deallocate_all_regs,
}

-- RS1, RS2 and RD.
abbrev pub rs1_of : Translator → Inst → Operand
rs1_of t inst = get_reg inst.rs1 t

abbrev pub rs2_of : Translator → Inst → Operand
rs2_of t inst = get_reg inst.rs2 t

abbrev pub rd_of : Translator → Inst → Operand
rd_of t inst = get_reg inst.rd t

-- Imm(IMM), for an int32_t.
abbrev pub imm_of : Inst → Operand
imm_of inst = Operand.imm (of_ℤ64 (signed32 inst.imm))

-- IMM * 2, added to a size_t.
abbrev pub imm_twice : Inst → ℕ
imm_twice inst = of_ℤ64 (signed32 (u32 (inst.imm * 2)))

unfoldable pub translate_move : Operand → Operand → List HostInst
translate_move dst src =
    if is_reg dst && same src (Operand.imm 0)
    then HostInst.op2 Op.xor dst dst ∷ []
    else HostInst.mov dst src ∷ []

unfoldable pub translate_mmu_load : ℕ → Translator → Inst → List HostInst
translate_mmu_load bytes t inst =
    save_all_regs t
    ++ HostInst.mov (Operand.gp Gp.edi) (rs1_of t inst)
      ∷ HostInst.op2 Op.add (Operand.gp Gp.edi) (imm_of inst)
      ∷ HostInst.call_read bytes
      ∷ restore_all_regs t

unfoldable pub translate_mmu_store : ℕ → Translator → Inst → List HostInst
translate_mmu_store bytes t inst =
    save_all_regs t
    ++ HostInst.mov (Operand.gp Gp.edi) (rs1_of t inst)
      ∷ HostInst.op2 Op.add (Operand.gp Gp.edi) (imm_of inst)
      ∷ HostInst.mov (Operand.gp Gp.esi) (rs2_of t inst)
      ∷ HostInst.call_write bytes
      ∷ restore_all_regs t

-- A first operand of a comparison, moved to TMP1 if it is no register.
unfoldable pub compare_operands : Operand → Operand → List HostInst
unfolding translate_move
compare_operands a b =
    if is_mem a || is_imm a
    then translate_move tmp1 a ++ HostInst.cmp tmp1 b ∷ []
    else HostInst.cmp a b ∷ []

unfoldable pub taken_offset : Translator → Inst → ℕ
taken_offset t inst = u64 (get_offset t + imm_twice inst)

-- The start of the function has label 0.
unfoldable pub translate_cond_branch : Cond → Translator → Inst → Emits
unfolding compare_operands taken_offset deallocate_all_regs
translate_cond_branch cond t inst =
    let compared = compare_operands (rs1_of t inst) (rs2_of t inst) in
    let not_taken = HostInst.op2 Op.add get_pc (Operand.imm (get_offset t + 4)) in
    if not (taken_offset t inst == 0)
    then (
      record t { labels = t.labels + 2 },
      compared
          ++ HostInst.jcc cond t.labels
            ∷ not_taken
            ∷ HostInst.jmp (t.labels + 1)
            ∷ HostInst.bind t.labels
            ∷ HostInst.op2 Op.add get_pc (Operand.imm (taken_offset t inst))
            ∷ HostInst.bind (t.labels + 1)
            ∷ [],
    )
    else let (t', sunk) = deallocate_all_regs t in
      (t', compared ++ sunk ++ HostInst.jcc cond 0 ∷ not_taken ∷ [])

-- dst = src, through TMP1 if both are memory.
unfoldable pub move_between : Operand → Operand → List HostInst
unfolding translate_move
move_between dst src =
    if is_reg dst || is_reg src
    then translate_move dst src
    else translate_move tmp1 src ++ translate_move dst tmp1

-- TranslateImmType for the operands RD, RS1 and Imm(IMM), where RD is not x0.
unfoldable pub imm_type : Op → Operand → Operand → Operand → List HostInst
unfolding move_between
imm_type op d a b = (if same d a then [] else move_between d a) ++ HostInst.op2 op d b ∷ []

unfoldable pub translate_imm_type : Op → Translator → Inst → List HostInst
unfolding imm_type
translate_imm_type op t inst =
    if inst.rd == 0 then [] else imm_type op (rd_of t inst) (rs1_of t inst) (imm_of inst)

-- TranslateRegType for the operands RD, RS1 and RS2, where RD is not x0.
unfoldable pub reg_type : Op → Operand → Operand → Operand → List HostInst
unfolding translate_move
reg_type op d a b =
    if same d a
    then (if is_reg d || is_reg b
        then HostInst.op2 op d b ∷ []
        else translate_move tmp1 b ++ HostInst.op2 op d tmp1 ∷ [])
    else if not (same d b) && (is_reg d || not (is_mem a))
    then translate_move d a ++ HostInst.op2 op d b ∷ []
    else translate_move tmp1 a ++ HostInst.op2 op tmp1 b ∷ translate_move d tmp1

unfoldable pub translate_reg_type : Op → Translator → Inst → List HostInst
unfolding reg_type
translate_reg_type op t inst =
    if inst.rd == 0 then [] else reg_type op (rd_of t inst) (rs1_of t inst) (rs2_of t inst)

abbrev pub ecx : Operand
ecx = Operand.gp Gp.ecx

abbrev pub cl : Operand
cl = Operand.low 8 Gp.ecx

-- TranslateShift for the operands RD, RS1 and RS2, where RD is not x0; `zero` says that RS2 is x0.
unfoldable pub shift_type : Op → Operand → Operand → Operand → Bool → List HostInst
unfolding translate_move
shift_type op d a b zero =
    let dst = if is_mem d then tmp1 else d in
    (if same dst a then [] else translate_move dst a)
    ++ (if is_mem d then translate_move d tmp1 else [])
    ++ (if zero
        then []
        else translate_move tmp1 ecx
          ++ translate_move ecx b
          ++ HostInst.op2 op d cl ∷ translate_move ecx tmp1)

unfoldable pub translate_shift : Op → Translator → Inst → List HostInst
unfolding shift_type
translate_shift op t inst =
    if inst.rd == 0
    then []
    else shift_type op (rd_of t inst) (rs1_of t inst) (rs2_of t inst) (inst.rs2 == 0)
