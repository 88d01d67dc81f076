-- ===== src/Examples/Translation.antt =====
-- Translated code on a concrete machine.
use risc_v_simulator.Base.{
  ℕ, ◌<◌, ◌≡◌, ◌↔◌, refl, true, false, [], ◌∷◌, none, some, get_elem?, length, arith, u32, signed32,
  ltb_ℤ, ◌+◌,
}
use risc_v_simulator.Outcome.{ok}
use risc_v_simulator.Isa.{Cmd}
use risc_v_simulator.Ir.{Inst, is_rd, is_rs1, is_rs2}
use risc_v_simulator.State.{State, get_reg, set_reg}
use risc_v_simulator.Exec.{exec_func}
use risc_v_simulator.Exec.Operand.{Flow}
use risc_v_simulator.Exec.Arith.{flag, exec_addi, exec_sub, exec_slt}
use risc_v_simulator.Jit.{translate, translate_round, translate_loop, initial}
use risc_v_simulator.Jit.Host.{Op}
use risc_v_simulator.Jit.Registers.{
  Translator, Bitset, reg_mem_op, allocate_reg, deallocate_all_regs, post_work, calc_liveness,
}
use risc_v_simulator.Jit.Templates.{translate_reg_type}
use risc_v_simulator.Jit.Machine.{Machine, read32}
use risc_v_simulator.Jit.Liveness.{IsLive, calc_liveness_iff}
use risc_v_simulator.Jit.Allocation.{IsAllocated, IsAllocated-IsMapped, initial-IsAllocated}
use risc_v_simulator.Jit.Preserved.{allocate_reg-IsAllocated}
use risc_v_simulator.Jit.Loop.{translate_round-IsAllocated}
use risc_v_simulator.Jit.Spill.{Carries, post_work-Carries}
use risc_v_simulator.Jit.Vacated.{IsInMemory, deallocate_all_regs-IsInMemory}
use risc_v_simulator.Jit.Sunk.{translate_loop-sunk}
use risc_v_simulator.Jit.Guest.{guest, Reaches}
use risc_v_simulator.Jit.Immediates.{is_immediate, translate_immediate-exec}
use risc_v_simulator.Jit.Combinations.{is_combination, translate_combination-exec}
use risc_v_simulator.Jit.Comparisons.{is_comparison, compares_zero, translate_comparison-exec}
use risc_v_simulator.Jit.Clash.{translate_reg_type-clash}
use risc_v_simulator.Jit.Registers.{pre_work}
use risc_v_simulator.Jit.Runs.{Runs}
use risc_v_simulator.Jit.Fitting.{fits, all_fit}
use risc_v_simulator.Jit.Straight.{translate_loop-run_all}
use risc_v_simulator.Trace.Run.{run_all}
use risc_v_simulator.Examples.Setup.{function_map, processor}

abbrev machine : Machine function_map
machine = record {
  gp = λ g. 0xfffffffff0000001;
  flags = none;
  mem_base = 0x7f0000000000;
  state = processor;
}

-- Register 5 is in esi, the others in memory.
abbrev one_taken : Translator
one_taken = (allocate_reg 5 true initial).0

one_taken-IsAllocated : IsAllocated one_taken
one_taken-IsAllocated = allocate_reg-IsAllocated 5 true initial initial-IsAllocated

abbrev addi : Inst
addi = record { imm = 0xfffffff9; rs1 = 5; rs2 = 0; rd = 6; cmd = Cmd.addi }

abbrev sub : Inst
sub = record { imm = 0; rs1 = 6; rs2 = 5; rd = 7; cmd = Cmd.sub }

-- sub x7, x0, x6, which negates x6.
abbrev neg : Inst
neg = record { imm = 0; rs1 = 0; rs2 = 6; rd = 7; cmd = Cmd.sub }

addi_state : State function_map
addi_state = set_reg 6 (u32 (0xf0000001 + 0xfffffff9)) (guest one_taken machine)

addi_run : exec_func Cmd.addi 0 addi (guest one_taken machine) ≡ ok Flow.next_inst addi_state
unfolding exec_func exec_addi get_reg read32 addi_state allocate_reg
addi_run = refl

translate_immediate-exec_example :
    Reaches one_taken (translate false addi one_taken).1 machine addi_state
unfolding is_immediate allocate_reg
translate_immediate-exec_example =
    translate_immediate-exec false one_taken addi machine addi_state
      (IsAllocated-IsMapped one_taken one_taken-IsAllocated) (omega arith) refl addi_run

sub_state : State function_map
sub_state = set_reg 7 (u32 (0x600 + 0x0fffffff)) (guest one_taken machine)

sub_run : exec_func Cmd.sub 0 sub (guest one_taken machine) ≡ ok Flow.next_inst sub_state
unfolding exec_func exec_sub get_reg read32 sub_state allocate_reg
sub_run = refl

translate_combination-exec_example :
    Reaches one_taken (translate true sub one_taken).1 machine sub_state
unfolding is_combination allocate_reg
translate_combination-exec_example =
    translate_combination-exec true one_taken sub machine sub_state
      (IsAllocated-IsMapped one_taken one_taken-IsAllocated) refl refl sub_run

-- slt x7, x6, x5, for a positive and a negative number.
abbrev slt : Inst
slt = record { imm = 0; rs1 = 6; rs2 = 5; rd = 7; cmd = Cmd.slt }

slt_state : State function_map
slt_state =
    set_reg 7 (flag (ltb_ℤ (signed32 0x600) (signed32 0xf0000001))) (guest one_taken machine)

slt_run : exec_func Cmd.slt 0 slt (guest one_taken machine) ≡ ok Flow.next_inst slt_state
unfolding exec_func exec_slt get_reg read32 slt_state allocate_reg
slt_run = refl

translate_comparison-exec_example :
    Reaches one_taken (translate true slt one_taken).1 machine slt_state
unfolding is_comparison compares_zero allocate_reg
translate_comparison-exec_example =
    translate_comparison-exec true one_taken slt machine slt_state
      (IsAllocated-IsMapped one_taken one_taken-IsAllocated) (omega arith) refl refl slt_run

-- With both registers in memory the negation leaves 0.
translate_reg_type-clash_example :
    Reaches initial
      (translate_reg_type Op.sub initial neg)
      machine
      (set_reg 7 (get_reg 0 (guest initial machine)) (guest initial machine))
translate_reg_type-clash_example =
    translate_reg_type-clash Op.sub initial neg machine
      (IsAllocated-IsMapped initial initial-IsAllocated) refl

-- Register 6 is written and then read, and nothing is live behind the last instruction.
calc_liveness_iff_example :
    (info : Bitset) × (get_elem? (calc_liveness (addi ∷ sub ∷ [])) (length (addi ∷ [])) ≡ some info)
    × ((r : ℕ) → (info r ≡ true) ↔ IsLive r [])
calc_liveness_iff_example = calc_liveness_iff (addi ∷ []) sub []

translate_round-IsAllocated_example :
    IsAllocated (translate_round false addi (λ r. true) one_taken).0
translate_round-IsAllocated_example =
    translate_round-IsAllocated false addi (λ r. true) one_taken one_taken-IsAllocated

translate_loop-sunk_example :
    (translate_loop false (addi ∷ sub ∷ []) (calc_liveness (addi ∷ sub ∷ [])) initial).0.reg_mapping
      6
    ≡ reg_mem_op 6
translate_loop-sunk_example = translate_loop-sunk false (addi ∷ sub ∷ []) 6

-- Register 5 is moved back.
deallocate_all_regs-IsInMemory_example :
    Carries deallocate_all_regs one_taken machine
    × ((r : ℕ) → 0 < r → r < 32 → IsInMemory r (deallocate_all_regs one_taken).0)
deallocate_all_regs-IsInMemory_example =
    deallocate_all_regs-IsInMemory one_taken machine one_taken-IsAllocated

post_work-Carries_example : Carries (post_work addi (λ r. false)) one_taken machine
post_work-Carries_example =
    post_work-Carries addi (λ r. false) one_taken machine one_taken-IsAllocated

both_state : State function_map
both_state = set_reg 7 (u32 (0xeffffffa + 0x0fffffff)) addi_state

both_run : run_all (addi ∷ sub ∷ []) 0 (guest one_taken machine) ≡ ok tt both_state
unfolding run_all exec_func exec_addi exec_sub get_reg read32 addi_state both_state allocate_reg
    set_reg
both_run = refl

-- Registers 6 and 7 are given host registers for the two instructions.
translate_loop-run_all_example :
    Runs
      (translate_loop false (addi ∷ sub ∷ []) ((λ r. true) ∷ (λ r. true) ∷ []) one_taken).1
      machine
      (λ h'.
        guest
          (translate_loop false (addi ∷ sub ∷ []) ((λ r. true) ∷ (λ r. true) ∷ []) one_taken).0
          h'
        ≡ both_state)
unfolding all_fit fits pre_work is_immediate is_combination translate_round allocate_reg is_rd
    is_rs1 is_rs2
translate_loop-run_all_example =
    translate_loop-run_all false (addi ∷ sub ∷ []) ((λ r. true) ∷ (λ r. true) ∷ []) one_taken
      machine both_state one_taken-IsAllocated refl both_run
