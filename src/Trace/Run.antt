-- ===== src/Trace/Run.antt =====
-- The tail calls of a trace against straight-line execution.
use risc_v_simulator.Base.{
  ◌≢◌, bit_and, not, ◌==◌, ℕ, suc, ◌≡◌, refl, sym, ◌∙◌, Bool, true, false, List, [], ◌∷◌, ◌++◌,
  if◌then◌else◌, arith, ltb,
}
use risc_v_simulator.Outcome.{Outcome, ok, throw, undefined, bind, bind-eq-ok, Exec}
use risc_v_simulator.Isa.{Cmd}
use risc_v_simulator.Ir.{Inst, is_terminator}
use risc_v_simulator.Lru.{HashMap}
use risc_v_simulator.State.{State, read, write, get_reg, flush, set_pc}
use risc_v_simulator.Lru.{clear}
use risc_v_simulator.Exec.{exec_func}
use risc_v_simulator.Exec.Operand.{Flow, urs2, address}
use risc_v_simulator.Exec.Memory.{
  exec_lb, exec_lbu, exec_lh, exec_lhu, exec_lw, exec_sb, exec_sh, exec_sw,
}
use risc_v_simulator.Exec.Control.{
  branch, exec_beq, exec_bge, exec_bgeu, exec_blt, exec_bltu, exec_bne, exec_jal, exec_jalr,
}
use risc_v_simulator.Exec.Arith.{
  exec_add, exec_addi, exec_and, exec_andi, exec_auipc, exec_lui, exec_or, exec_ori, exec_sll,
  exec_slli, exec_slt, exec_slti, exec_sltiu, exec_sltu, exec_sra, exec_srai, exec_srl, exec_srli,
  exec_sub, exec_xor, exec_xori,
}
use risc_v_simulator.Exec.Mul.{
  exec_div, exec_divu, exec_mul, exec_mulh, exec_mulhsu, exec_mulhu, exec_rem, exec_remu,
}
use risc_v_simulator.Exec.System.{exec_csrrw, exec_dummy, exec_ecall, exec_fence}
use risc_v_simulator.Exec.Syscall.{exec_sys_call, a7}
use mathlib.Core.Path.{subst}
use risc_v_simulator.Trace.{exec, execute, holds}
use risc_v_simulator.Trace.Fetch.{IsBlock}

-- Every successful run ends with this flow.
abbrev pub Flows : {S : Type 0} → Flow → Outcome S Flow → Type 0
Flows f (ok f' s) = f' ≡ f
Flows f (throw e s) = Unit
Flows f undefined = Unit

Flows-bind :
    {S A : Type 0} (f : Flow) (o : Outcome S A) (k : A → S → Outcome S Flow)
    → ((a : A) (s : S) → Flows f (k a s))
    → Flows f (bind o k)
Flows-bind f (ok a s) k h = h a s
Flows-bind f (throw e s) k h = tt
Flows-bind f undefined k h = tt

Flows-if :
    {S : Type 0} (f : Flow) (b : Bool) (x y : Outcome S Flow)
    → Flows f x
    → Flows f y
    → Flows f (if b then x else y)
Flows-if f true x y p q = p
Flows-if f false x y p q = q

abbrev pub flow_of : Bool → Flow
flow_of b = if b then Flow.end_trace else Flow.next_inst

module _ {m : HashMap} where
  flows :
      (index : ℕ) (inst : Inst) (s : State m) (c : Cmd)
      → Flows (flow_of (is_terminator (record inst { cmd = c }))) (exec_func c index inst s)
  unfolding exec_func is_terminator branch exec_add exec_addi exec_and exec_andi exec_auipc exec_beq
      exec_bge exec_bgeu exec_blt exec_bltu exec_bne exec_csrrw exec_div exec_divu exec_dummy
      exec_ecall exec_fence exec_jal exec_jalr exec_lb exec_lbu exec_lh exec_lhu exec_lui exec_lw
      exec_mul exec_mulh exec_mulhsu exec_mulhu exec_or exec_ori exec_rem exec_remu exec_sb exec_sh
      exec_sll exec_slli exec_slt exec_slti exec_sltiu exec_sltu exec_sra exec_srai exec_srl
      exec_srli exec_sub exec_sw exec_xor exec_xori
  flows index inst s Cmd.lui = refl
  flows index inst s Cmd.auipc = refl
  flows index inst s Cmd.jal = refl
  flows index inst s Cmd.jalr = refl
  flows index inst s Cmd.beq = refl
  flows index inst s Cmd.bne = refl
  flows index inst s Cmd.blt = refl
  flows index inst s Cmd.bge = refl
  flows index inst s Cmd.bltu = refl
  flows index inst s Cmd.bgeu = refl
  flows index inst s Cmd.lb = Flows-bind _ (read 1 (address inst s) s) _ (λ _ _. refl)
  flows index inst s Cmd.lh = Flows-bind _ (read 2 (address inst s) s) _ (λ _ _. refl)
  flows index inst s Cmd.lw = Flows-bind _ (read 4 (address inst s) s) _ (λ _ _. refl)
  flows index inst s Cmd.lbu = Flows-bind _ (read 1 (address inst s) s) _ (λ _ _. refl)
  flows index inst s Cmd.lhu = Flows-bind _ (read 2 (address inst s) s) _ (λ _ _. refl)
  flows index inst s Cmd.sb =
      Flows-bind _ (write 1 (address inst s) (urs2 inst s) s) _ (λ _ _. refl)
  flows index inst s Cmd.sh =
      Flows-bind _ (write 2 (address inst s) (urs2 inst s) s) _ (λ _ _. refl)
  flows index inst s Cmd.sw =
      Flows-bind _ (write 4 (address inst s) (urs2 inst s) s) _ (λ _ _. refl)
  flows index inst s Cmd.addi = refl
  flows index inst s Cmd.slti = refl
  flows index inst s Cmd.sltiu = refl
  flows index inst s Cmd.xori = refl
  flows index inst s Cmd.ori = refl
  flows index inst s Cmd.andi = refl
  flows index inst s Cmd.slli = Flows-if _ (ltb inst.imm 32) _ _ refl tt
  flows index inst s Cmd.srli = Flows-if _ (ltb inst.imm 32) _ _ refl tt
  flows index inst s Cmd.srai = Flows-if _ (ltb inst.imm 32) _ _ refl tt
  flows index inst s Cmd.add = refl
  flows index inst s Cmd.sub = refl
  flows index inst s Cmd.sll = Flows-if _ (ltb (bit_and (urs2 inst s) 0b11111) 32) _ _ refl tt
  flows index inst s Cmd.slt = refl
  flows index inst s Cmd.sltu = refl
  flows index inst s Cmd.xor = refl
  flows index inst s Cmd.srl = Flows-if _ (ltb (bit_and (urs2 inst s) 0b11111) 32) _ _ refl tt
  flows index inst s Cmd.sra = Flows-if _ (ltb (bit_and (urs2 inst s) 0b11111) 32) _ _ refl tt
  flows index inst s Cmd.or = refl
  flows index inst s Cmd.and = refl
  flows index inst s Cmd.ecall = Flows-bind _ (exec_sys_call (get_reg a7 s) s) _ (λ _ _. refl)
  flows index inst s Cmd.ebreak = refl
  flows index inst s Cmd.uret = refl
  flows index inst s Cmd.sret = refl
  flows index inst s Cmd.mret = refl
  flows index inst s Cmd.wfi = refl
  flows index inst s Cmd.fence = refl
  flows index inst s Cmd.csrrw = Flows-if _ (not (inst.imm == 0x180)) _ _ tt refl
  flows index inst s Cmd.csrrs = refl
  flows index inst s Cmd.csrrc = refl
  flows index inst s Cmd.csrrwi = refl
  flows index inst s Cmd.csrrsi = refl
  flows index inst s Cmd.csrrci = refl
  flows index inst s Cmd.mul = refl
  flows index inst s Cmd.mulh = refl
  flows index inst s Cmd.mulhsu = refl
  flows index inst s Cmd.mulhu = refl
  flows index inst s Cmd.div = refl
  flows index inst s Cmd.divu = refl
  flows index inst s Cmd.rem = refl
  flows index inst s Cmd.remu = refl
  flows index inst s Cmd.undefined = tt

  -- A handler that succeeds ends the trace if its instruction is a terminator, and goes on to the
  -- next instruction otherwise.
  pub exec_func-Flows :
      (index : ℕ) (inst : Inst) (s : State m)
      → Flows (flow_of (is_terminator inst)) (exec_func inst.cmd index inst s)
  exec_func-Flows index inst s = flows index inst s inst.cmd

-- Straight-line execution: one handler after the other, to the end of the list.
unfoldable pub run_all : {m : HashMap} → List Inst → ℕ → Exec (State m) (Unit {0})
run_all [] index s = ok tt s
run_all (inst ∷ insts) index s =
    bind (exec_func inst.cmd index inst s) (λ _ s'. run_all insts (suc index) s')

abbrev continue : {S : Type 0} → Exec S (Unit {0}) → Flow → Exec S (Unit {0})
continue k flow s = elim flow [ Flow.next_inst ↦ k s | Flow.end_trace ↦ ok tt s ]

bind_next :
    {S : Type 0} (o : Outcome S Flow) (k k' : Exec S (Unit {0}))
    → Flows Flow.next_inst o
    → ((s : S) → k s ≡ k' s)
    → bind o (continue k) ≡ bind o (λ _ s. k' s)
bind_next (ok f s) k k' h same = rw h (same s)
bind_next (throw e s) k k' h same = refl
bind_next undefined k k' h same = refl

bind_end :
    {S : Type 0} (o : Outcome S Flow) (k : Exec S (Unit {0}))
    → Flows Flow.end_trace o
    → bind o (continue k) ≡ bind o (λ _ s. ok tt s)
bind_end (ok f s) k h = rw h refl
bind_end (throw e s) k h = refl
bind_end undefined k h = refl

module _ {m : HashMap} where
  Flows-of :
      (index : ℕ) (inst : Inst) (s : State m) (b : Bool)
      → is_terminator inst ≡ b
      → Flows (flow_of b) (exec_func inst.cmd index inst s)
  Flows-of index inst s b e =
      subst (λ t. Flows (flow_of t) (exec_func inst.cmd index inst s)) e
        (exec_func-Flows index inst s)

  -- The chain of tail calls of a trace whose last instruction, and no other, is a terminator is
  -- straight-line execution of all of its instructions: it never runs past the end of the vector,
  -- nor ends before it.
  pub exec-run_all :
      (insts : List Inst) (index : ℕ) (s : State m)
      → IsBlock insts
      → exec insts index s ≡ run_all insts index s
  unfolding exec run_all
  exec-run_all [] index s h = absurd h
  exec-run_all (i ∷ []) index s h =
      bind_end (exec_func i.cmd index i s) (exec [] (suc index)) (Flows-of index i s true h)
  exec-run_all (i ∷ j ∷ is) index s (h, rest) =
      bind_next (exec_func i.cmd index i s) (exec (j ∷ is) (suc index))
        (run_all (j ∷ is) (suc index)) (Flows-of index i s false h)
        (λ s'. exec-run_all (j ∷ is) (suc index) s' rest)

  -- The straight-line execution of a list that ends with FENCE empties the trace cache.
  run_all_fence :
      (body : List Inst) (fence : Inst) (index : ℕ) (s s' : State m)
      → fence.cmd ≡ Cmd.fence
      → run_all (body ++ fence ∷ []) index s ≡ ok tt s'
      → s'.trace_cache.entries ≡ []
  unfolding run_all exec_func exec_fence flush set_pc clear
  run_all_fence [] fence index s s' e h = ground (arith, rw e at h)
  run_all_fence (i ∷ is) fence index s s' e h =
      let (_, t, _, q) = bind-eq-ok (exec_func i.cmd index i s) _ h in
      run_all_fence is fence (suc index) t s' e q

  -- A trace that ends with FENCE destroys itself: reading its size after the run is undefined, so
  -- its execution never returns.
  pub execute-fence :
      (body : List Inst) (fence : Inst) (id : ℕ) (s s' : State m)
      → IsBlock (body ++ fence ∷ [])
      → fence.cmd ≡ Cmd.fence
      → execute id (record { insts = body ++ fence ∷ [] }) s ≢ ok tt s'
  unfolding execute holds
  execute-fence body fence id s s' block e h =
      let insts = body ++ fence ∷ [] in
      let (_, t, p, q) = bind-eq-ok (exec insts 0 s) _ h in
      let run = sym (exec-run_all insts 0 s block) ∙ p in
      cc (rw (run_all_fence body fence 0 s t e run) at q)
