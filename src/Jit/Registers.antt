-- ===== src/Jit/Registers.antt =====
-- class Translator of sim/jit.h and sim/jit.cpp but for its constructor: liveness, the allocation of
-- host registers, and the operands of the guest's state. A bitset is a function from the number of a
-- bit. What a method emits is part of its result.
use risc_v_simulator.Base.{
  ℕ, zero, suc, ◌*◌, Bool, true, false, not, ◌&&◌, List, [], ◌∷◌, ◌++◌, ◌==◌, if◌then◌else◌,
}
use risc_v_simulator.Ir.{Inst, is_rs1, is_rs2, is_rd}
use risc_v_simulator.Jit.Host.{Gp, Field, Operand, HostInst, is_reg, is_mem}

abbrev pub Bitset : Type 0
Bitset = ℕ → Bool

pub record Translator : Type 0 where
  pub reg_mapping : ℕ → Operand
  pub reg_pool : List Gp
  pub cur_inst : ℕ
  -- The number of labels that are taken.
  pub labels : ℕ

-- A translator after a method, and what the method emits.
abbrev pub Emits : Type 0
Emits = Translator × List HostInst

abbrev pub tmp1 : Operand
tmp1 = Operand.gp Gp.eax

abbrev pub tmp2 : Operand
tmp2 = Operand.gp Gp.edx

abbrev pub get_pc : Operand
get_pc = Operand.field Field.pc

abbrev pub get_mem : Operand
get_mem = Operand.field Field.mem

abbrev pub reg_mem_op : ℕ → Operand
reg_mem_op reg = Operand.field (Field.regs reg)

abbrev pub get_reg : ℕ → Translator → Operand
get_reg reg t = if reg == 0 then Operand.imm 0 else t.reg_mapping reg

abbrev pub get_offset : Translator → ℕ
get_offset t = t.cur_inst * 4

abbrev pub map_reg : ℕ → Operand → (ℕ → Operand) → ℕ → Operand
map_reg reg o mapping r = if r == reg then o else mapping r

-- The loops over the registers 1 to 31, upwards and downwards.
unfoldable pub save_from : ℕ → ℕ → Translator → List HostInst
save_from zero reg t = []
save_from (suc n) reg t =
    let rest = save_from n (suc reg) t in
    if is_reg (t.reg_mapping reg) then HostInst.push (t.reg_mapping reg) ∷ rest else rest

unfoldable pub save_all_regs : Translator → List HostInst
save_all_regs t = save_from 31 1 t

unfoldable pub restore_down : ℕ → Translator → List HostInst
restore_down zero t = []
restore_down (suc n) t =
    let rest = restore_down n t in
    if is_reg (t.reg_mapping (suc n)) then HostInst.pop (t.reg_mapping (suc n)) ∷ rest else rest

unfoldable pub restore_all_regs : Translator → List HostInst
restore_all_regs t = restore_down 31 t

unfoldable pub allocate_reg : ℕ → Bool → Translator → Emits
allocate_reg reg load t = if is_reg (t.reg_mapping reg) then (t, []) else elim t.reg_pool [
  | [] ↦ (t, [])
  | g ∷ gs ↦ (
    record t { reg_mapping = map_reg reg (Operand.gp g) t.reg_mapping; reg_pool = gs },
    if load then HostInst.mov (Operand.gp g) (reg_mem_op reg) ∷ [] else [],
  )
]

-- as<x86::Gp>().
abbrev pub pool_with : Operand → List Gp → List Gp
pool_with (Operand.gp g) pool = pool ++ g ∷ []
pool_with _ pool = pool

unfoldable pub deallocate_reg : ℕ → Bool → Translator → Emits
deallocate_reg reg sink t = if is_mem (t.reg_mapping reg) then (t, []) else (
  record t {
    reg_mapping = map_reg reg (reg_mem_op reg) t.reg_mapping;
    reg_pool = pool_with (t.reg_mapping reg) t.reg_pool;
  },
  if sink then HostInst.mov (reg_mem_op reg) (t.reg_mapping reg) ∷ [] else [],
)

-- One method after another.
infixl 5 ◌>>>◌
abbrev pub ◌>>>◌ : (Translator → Emits) → (Translator → Emits) → Translator → Emits
◌>>>◌ f g t = let (t', code) = f t in let (t'', code') = g t' in (t'', code ++ code')

abbrev pub skip : Translator → Emits
skip t = (t, [])

-- An if without else.
abbrev pub when : Bool → (Translator → Emits) → Translator → Emits
when test f t = if test then f t else (t, [])

-- The loop over the registers from `reg` on, for `n` of them.
unfoldable pub deallocate_from : ℕ → ℕ → Translator → Emits
deallocate_from zero reg = skip
deallocate_from (suc n) reg = deallocate_reg reg true >>> deallocate_from n (suc reg)

unfoldable pub deallocate_all_regs : Translator → Emits
deallocate_all_regs = deallocate_from 31 1

abbrev pub put_bit : ℕ → Bool → Bitset → Bitset
put_bit bit value info r = if r == bit then value else info r

-- One round of calcLiveness: cur_info before an instruction, from the one behind it.
unfoldable pub live_before : Inst → Bitset → Bitset
live_before inst info =
    let written = if is_rd inst then put_bit inst.rd false info else info in
    let first = if is_rs1 inst then put_bit inst.rs1 true written else written in
    if is_rs2 inst then put_bit inst.rs2 true first else first

-- The loop, from the end of the trace: liveness_, and cur_info at the end.
unfoldable pub live_loop : List Inst → List Bitset × Bitset
live_loop [] = ([], λ _. false)
live_loop (inst ∷ insts) =
    let (infos, info) = live_loop insts in (info ∷ infos, live_before inst info)

unfoldable pub calc_liveness : List Inst → List Bitset
calc_liveness trace = (live_loop trace).0

-- The pre-work and the post-work of the register allocation for one instruction.
unfoldable pub pre_work : Inst → Bitset → Translator → Emits
pre_work inst live =
    when (is_rs1 inst && not (inst.rs1 == 0) && live inst.rs1) (allocate_reg inst.rs1 true)
    >>> when (is_rs2 inst && not (inst.rs2 == 0) && live inst.rs2) (allocate_reg inst.rs2 true)
    >>> when (is_rd inst && not (inst.rd == 0) && live inst.rd) (allocate_reg inst.rd false)

unfoldable pub post_work : Inst → Bitset → Translator → Emits
post_work inst live =
    when (is_rs1 inst && not (inst.rs1 == 0) && not (live inst.rs1)) (deallocate_reg inst.rs1 true)
    >>> when (is_rs2 inst && not (inst.rs2 == 0) && not (live inst.rs2))
        (deallocate_reg inst.rs2 true)
    >>> when (is_rd inst && not (inst.rd == 0) && not (live inst.rd)) (deallocate_reg inst.rd true)
