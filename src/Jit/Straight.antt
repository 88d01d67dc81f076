-- ===== src/Jit/Straight.antt =====
-- Straight-line code from the loop of Translator's constructor in sim/jit.cpp.
use mathlib.Core.Path.{subst, ap₂}
use risc_v_simulator.Base.{
  ℕ, suc, ◌^◌, ◌<◌, ◌≡◌, refl, ap, sym, ◌∙◌, inl, inr, Bool, true, false, not, ◌&&◌, ◌||◌, List, [],
  ◌∷◌, ◌++◌, Bool-cases, and_left, and_right, arith, ltb, ltb→lt,
}
use risc_v_simulator.Outcome.{Outcome, ok, bind-eq-ok}
use risc_v_simulator.Ir.{Inst, is_terminator}
use risc_v_simulator.Lru.{HashMap}
use risc_v_simulator.State.{State}
use risc_v_simulator.Exec.{exec_func}
use risc_v_simulator.Exec.Operand.{Flow}
use risc_v_simulator.Trace.Run.{exec_func-Flows, Flows, flow_of, run_all}
use risc_v_simulator.Jit.{translate, translate_round, translate_loop, next_inst}
use risc_v_simulator.Jit.Registers.{Translator, Bitset, pre_work, post_work}
use risc_v_simulator.Jit.Machine.{Machine, perform}
use risc_v_simulator.Jit.Runs.{Runs, Runs-append}
use risc_v_simulator.Jit.Allocation.{IsAllocated, IsAllocated-IsMapped}
use risc_v_simulator.Jit.Loop.{pre_work-IsAllocated, translate_round-IsAllocated, relabel}
use risc_v_simulator.Jit.Guest.{guest}
use risc_v_simulator.Jit.Spill.{post_work-Carries}
use risc_v_simulator.Jit.Immediates.{is_immediate, translate_immediate-exec}
use risc_v_simulator.Jit.Combinations.{is_combination, clashes, translate_combination-exec}
use risc_v_simulator.Jit.Comparisons.{is_comparison, compares_zero, translate_comparison-exec}
use risc_v_simulator.Jit.Ready.{pre_work-IsReady}
use risc_v_simulator.Jit.Rounds.{near_by}
use risc_v_simulator.Jit.Fitting.{
  fits, all_fit, computes, fits-computes, translate_same, not_terminator, pre_work_cur, round_cur,
}

unless : (p q : Bool) → (p && not q) ≡ true → (p ≡ true) × (q ≡ false)
unless p q e = ground arith

last : (p q r : Bool) → (p || q || r) ≡ true → p ≡ false → q ≡ false → r ≡ true
last p q r e n z = ground arith

abbrev returned : {S : Type 0} → S → Outcome S (Unit {0})
returned s = ok tt s

same_ok : {S : Type 0} (s s' : S) → (returned s ≡ returned s') → s ≡ s'
same_ok s s' e = ground arith

module _ {m : HashMap} where
  computes-next :
      (index : ℕ) (inst : Inst) (flow : Flow) (s s' : State m)
      → computes inst.cmd ≡ true
      → exec_func inst.cmd index inst s ≡ ok flow s'
      → flow ≡ Flow.next_inst
  computes-next index inst flow s s' e p =
      let f =
        subst (λ o. Flows (flow_of (is_terminator inst)) o) p (exec_func-Flows index inst s) in
      f ∙ ap flow_of (not_terminator inst.cmd inst e)

  translate-exec :
      (virtual : Bool) (inst : Inst) (t : Translator) (h : Machine m) (s : State m)
      → IsAllocated t
      → inst.imm < 2 ^ 32
      → (is_immediate inst.cmd
          || is_combination inst.cmd && not (clashes t inst)
          || is_comparison inst.cmd && not (compares_zero inst.cmd inst))
        ≡ true
      → exec_func inst.cmd t.cur_inst inst (guest t h) ≡ ok Flow.next_inst s
      → Runs (translate virtual inst t).1 h (λ h'. guest t h' ≡ s)
  translate-exec virtual inst t h s k l e p = elim (Bool-cases (is_immediate inst.cmd)) [
    | inl i ↦ translate_immediate-exec virtual t inst h s (IsAllocated-IsMapped t k) l i p
    | inr i ↦ elim (Bool-cases (is_combination inst.cmd && not (clashes t inst))) [
      | inl j ↦
          let (c, n) = unless (is_combination inst.cmd) (clashes t inst) j in
          translate_combination-exec virtual t inst h s (IsAllocated-IsMapped t k) c n p
      | inr j ↦
          let (c, n) =
            unless (is_comparison inst.cmd) (compares_zero inst.cmd inst) (last _ _ _ e i j) in
          translate_comparison-exec virtual t inst h s (IsAllocated-IsMapped t k) l c n p
    ]
  ]

  -- One round of the translator's loop, for whatever liveness: the code in front of an instruction
  -- that fits, the code of the instruction and the code behind it run to their end and take the
  -- guest to the state that the handler returns.
  translate_round-exec :
      (virtual : Bool) (inst : Inst) (live : Bitset) (t : Translator) (h : Machine m) (s : State m)
      → IsAllocated t
      → fits inst live t ≡ true
      → exec_func inst.cmd t.cur_inst inst (guest t h) ≡ ok Flow.next_inst s
      → Runs
          (translate_round virtual inst live t).1
          h
          (λ h'. guest (translate_round virtual inst live t).0 h' ≡ s)
  unfolding translate_round fits
  translate_round-exec virtual inst live t h s k f p =
      let t1 = (pre_work inst live t).0 in
      let k1 = pre_work-IsAllocated inst live t k in
      let small = ltb→lt inst.imm (2 ^ 32) (and_left _ _ f) in
      let kind = and_right (ltb inst.imm (2 ^ 32)) _ f in
      let c = fits-computes inst live t f in
      let same = translate_same virtual inst t1 c in
      Runs-append ((pre_work inst live t).1 ++ (translate virtual inst t1).1)
        (post_work inst live (translate virtual inst t1).0).1 h
        (Runs-append (pre_work inst live t).1 (translate virtual inst t1).1 h
          (pre_work-IsReady inst live t h k)
          (λ h1 ready. translate-exec virtual inst t1 h1 s k1 small kind (
            subst (λ i. exec_func inst.cmd i inst (guest t1 h1) ≡ ok Flow.next_inst s)
              (sym (pre_work_cur inst live t))
              (near_by inst.cmd t.cur_inst inst (guest t h) (guest t1 h1) refl c ready ∙ p))))
        (λ h2 e.
          subst
            (λ t2.
              Runs (post_work inst live t2).1 h2 (λ h'. guest (post_work inst live t2).0 h' ≡ s))
            (sym same)
            (let (h3, run, q) = post_work-Carries inst live t1 h2 k1 in (h3, run, q ∙ e)))

  -- The code that the translator's loop emits for a run of instructions that fit (the immediate and
  -- register commands, the comparisons, LUI and AUIPC, without the operands that the host has no
  -- instruction for), for whatever liveness and behind whatever other code of a trace, runs to its
  -- end and takes the guest to the state that straight-line execution of the instructions returns.
  pub translate_loop-run_all :
      (virtual : Bool) (insts : List Inst) (lives : List Bitset) (t : Translator) (h : Machine m)
      (s : State m)
      → IsAllocated t
      → all_fit virtual insts lives t ≡ true
      → run_all insts t.cur_inst (guest t h) ≡ ok tt s
      → Runs
          (translate_loop virtual insts lives t).1
          h
          (λ h'. guest (translate_loop virtual insts lives t).0 h' ≡ s)
  unfolding translate_loop all_fit run_all perform
  translate_loop-run_all virtual [] lives t h s k f p = (h, refl, same_ok (guest t h) s p)
  translate_loop-run_all virtual (inst ∷ insts) [] t h s k f p = cc f
  translate_loop-run_all virtual (inst ∷ insts) (live ∷ lives) t h s k f p =
      let round = translate_round virtual inst live t in
      let t' = round.0 in
      let one = and_left (fits inst live t) _ f in
      let c = fits-computes inst live t one in
      let (flow, s1, first, rest) =
        bind-eq-ok (exec_func inst.cmd t.cur_inst inst (guest t h)) _ p in
      let flows = computes-next t.cur_inst inst flow (guest t h) s1 c first in
      Runs-append round.1 (translate_loop virtual insts lives (next_inst t')).1 h
        (translate_round-exec virtual inst live t h s1 k one
          (subst (λ x. exec_func inst.cmd t.cur_inst inst (guest t h) ≡ ok x s1) flows first))
        (λ h1 e.
          translate_loop-run_all virtual insts lives (next_inst t') h1 s
            (relabel t' (suc t'.cur_inst) t'.labels
              (translate_round-IsAllocated virtual inst live t k))
            (and_right (fits inst live t) _ f)
            (ap₂ (λ i u. run_all insts (suc i) u) (round_cur virtual inst live t c) e ∙ rest))
