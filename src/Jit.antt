-- ===== src/Jit.antt =====
-- The just-in-time translator: sim/jit.h, sim/jit.cpp and sim/translate_inst.cpp; here the column
-- translate_func of cmd_desc and the constructor of Translator. asmjit, which encodes the
-- instructions, is not part of the program: the model is the sequence of emit calls. A call with
-- operands that the instruction does not take makes asmjit return an error, which the translator
-- ignores, and adds no code.
pub mod Host
pub mod Machine
pub mod Registers
pub mod Templates
pub mod Named
pub mod Commands
pub mod Liveness
pub mod Operands
pub mod Runs
pub mod Effects
pub mod Pairs
pub mod Arith
pub mod Guest
pub mod Allocation
pub mod Preserved
pub mod Loop
pub mod Sunk
pub mod Spill
pub mod Vacated
pub mod Fill
pub mod Ready
pub mod Rounds
pub mod Fitting
pub mod Straight
pub mod Compared
pub mod Comparisons
pub mod Values
pub mod Immediates
pub mod Combinations
pub mod Clash
use risc_v_simulator.Base.{
  ℕ, suc, ◌+◌, Bool, true, false, not, ◌&&◌, List, [], ◌∷◌, ◌++◌, Option, none, some, length,
  if◌then◌else◌,
}
use risc_v_simulator.Isa.{Cmd}
use risc_v_simulator.Ir.{Inst, is_translation_supported}
use Host.{Gp, Field, Operand, Op, Cond, HostInst}
use Registers.{Translator, Emits, Bitset, ◌>>>◌, reg_mem_op, calc_liveness, pre_work, post_work}
use Templates.{translate_cond_branch, translate_imm_type, translate_reg_type, translate_shift}
use Named.{
  translate_beq, translate_bne, translate_blt, translate_bge, translate_bltu, translate_bgeu,
  translate_xori, translate_ori, translate_andi, translate_slli, translate_srli, translate_srai,
  translate_sub, translate_xor, translate_or, translate_and, translate_sll, translate_srl,
  translate_sra,
}
use Commands.{
  translate_lui, translate_auipc, translate_jal, translate_jalr, translate_lb, translate_lh,
  translate_lw, translate_lbu, translate_lhu, translate_sb, translate_sh, translate_sw,
  translate_addi, translate_slti, translate_sltiu, translate_add, translate_slt, translate_sltu,
  translate_mul, translate_mulh,
}

abbrev pure : (Translator → Inst → List HostInst) → Translator → Inst → Emits
pure f t inst = (t, f t inst)

-- A TranslateFunc; the nullptr of the table is `none`.
abbrev pub TranslateFunc : Type 0
TranslateFunc = Bool → Translator → Inst → Emits

unfoldable pub translate_func : Cmd → Option TranslateFunc
unfolding translate_lui translate_auipc translate_jal translate_jalr translate_lb translate_lh
    translate_lw translate_lbu translate_lhu translate_sb translate_sh translate_sw translate_addi
    translate_slti translate_sltiu translate_add translate_slt translate_sltu translate_mul
    translate_mulh translate_cond_branch translate_imm_type translate_reg_type translate_shift
translate_func Cmd.lui = some (λ _. pure translate_lui)
translate_func Cmd.auipc = some (λ _. pure translate_auipc)
translate_func Cmd.jal = some (λ _. pure translate_jal)
translate_func Cmd.jalr = some (λ _. pure translate_jalr)
translate_func Cmd.beq = some (λ _. translate_beq)
translate_func Cmd.bne = some (λ _. translate_bne)
translate_func Cmd.blt = some (λ _. translate_blt)
translate_func Cmd.bge = some (λ _. translate_bge)
translate_func Cmd.bltu = some (λ _. translate_bltu)
translate_func Cmd.bgeu = some (λ _. translate_bgeu)
translate_func Cmd.lb = some (λ virtual. pure (translate_lb virtual))
translate_func Cmd.lh = some (λ virtual. pure (translate_lh virtual))
translate_func Cmd.lw = some (λ virtual. pure (translate_lw virtual))
translate_func Cmd.lbu = some (λ virtual. pure (translate_lbu virtual))
translate_func Cmd.lhu = some (λ virtual. pure (translate_lhu virtual))
translate_func Cmd.sb = some (λ virtual. pure (translate_sb virtual))
translate_func Cmd.sh = some (λ virtual. pure (translate_sh virtual))
translate_func Cmd.sw = some (λ virtual. pure (translate_sw virtual))
translate_func Cmd.addi = some (λ _. pure translate_addi)
translate_func Cmd.slti = some (λ _. pure translate_slti)
translate_func Cmd.sltiu = some (λ _. pure translate_sltiu)
translate_func Cmd.xori = some (λ _. pure translate_xori)
translate_func Cmd.ori = some (λ _. pure translate_ori)
translate_func Cmd.andi = some (λ _. pure translate_andi)
translate_func Cmd.slli = some (λ _. pure translate_slli)
translate_func Cmd.srli = some (λ _. pure translate_srli)
translate_func Cmd.srai = some (λ _. pure translate_srai)
translate_func Cmd.add = some (λ _. pure translate_add)
translate_func Cmd.sub = some (λ _. pure translate_sub)
translate_func Cmd.sll = some (λ _. pure translate_sll)
translate_func Cmd.slt = some (λ _. pure translate_slt)
translate_func Cmd.sltu = some (λ _. pure translate_sltu)
translate_func Cmd.xor = some (λ _. pure translate_xor)
translate_func Cmd.srl = some (λ _. pure translate_srl)
translate_func Cmd.sra = some (λ _. pure translate_sra)
translate_func Cmd.or = some (λ _. pure translate_or)
translate_func Cmd.and = some (λ _. pure translate_and)
translate_func Cmd.mul = some (λ _. pure translate_mul)
translate_func Cmd.mulh = some (λ _. pure translate_mulh)
translate_func _ = none

-- Inst::translate. The constructor has returned before it comes to a nullptr.
abbrev pub translate_by : Option TranslateFunc → TranslateFunc
translate_by none virtual t inst = (t, [])
translate_by (some f) virtual t inst = f virtual t inst

unfoldable pub translate : Bool → Inst → Translator → Emits
unfolding translate_func
translate virtual inst t = translate_by (translate_func inst.cmd) virtual t inst

-- One round of the constructor's loop.
unfoldable pub translate_round : Bool → Inst → Bitset → Translator → Emits
unfolding translate pre_work post_work
translate_round virtual inst live =
    pre_work inst live >>> translate virtual inst >>> post_work inst live

abbrev pub next_inst : Translator → Translator
next_inst t = record t { cur_inst = suc t.cur_inst }

unfoldable pub translate_loop : Bool → List Inst → List Bitset → Translator → Emits
unfolding translate_round
translate_loop virtual (inst ∷ insts) (live ∷ lives) t =
    let (t', code) = translate_round virtual inst live t in
    let (t'', code') = translate_loop virtual insts lives (next_inst t') in (t'', code ++ code')
translate_loop virtual _ _ t = (t, [])

abbrev pub initial_pool : List Gp
initial_pool = Gp.esi ∷ Gp.ecx ∷ Gp.r8d ∷ Gp.r9d ∷ Gp.r10d ∷ Gp.r11d ∷ []

-- Entry 0 of the mapping, which is never looked at, is as the others.
abbrev pub initial : Translator
initial = record { reg_mapping = reg_mem_op; reg_pool = initial_pool; cur_inst = 0; labels = 1 }

unfoldable pub all_supported : List Inst → Bool
unfolding is_translation_supported
all_supported [] = true
all_supported (inst ∷ insts) = is_translation_supported inst && all_supported insts

-- Translator::Translator: the emitted instructions, or none where func_ stays null.
unfoldable pub translator : Bool → List Inst → Option (List HostInst)
unfolding all_supported translate_loop calc_liveness
translator virtual trace =
    if all_supported trace
    then some (
        HostInst.bind 0
        ∷ HostInst.add64 (Operand.field Field.executed_insts) (Operand.imm (length trace))
        ∷ ((translate_loop virtual trace (calc_liveness trace) initial).1 ++ HostInst.ret ∷ []))
    else none
