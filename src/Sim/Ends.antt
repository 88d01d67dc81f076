-- ===== src/Sim/Ends.antt =====
-- The loop of Sim::execute in sim/sim.cpp comes to an end.
use mathlib.Core.Path.{subst}
use risc_v_simulator.Base.{
  ℕ, zero, suc, ◌+◌, ◌<◌, ◌≤◌, ◌≡◌, ◌≢◌, ◌⊎◌, refl, inl, inr, false, List, [], ◌∷◌, Bool-cases,
  length, ◌^◌, arith,
}
use risc_v_simulator.Outcome.{Outcome, ok, bind-eq-ok, ok-state, outcome_cases}
use risc_v_simulator.Ir.{Inst}
use risc_v_simulator.Lru.{HashMap}
use risc_v_simulator.Lru.Front.{Option-cases}
use risc_v_simulator.State.{State, Trace}
use risc_v_simulator.Decoder.Tables.{Decoder}
use risc_v_simulator.Exec.{exec_func}
use risc_v_simulator.Exec.Operand.{Flow}
use risc_v_simulator.Trace.{exec, execute, holds, refer, refer_execute, front_id, max_rounds}
use risc_v_simulator.Sim.{run, is_over, Ending}
use risc_v_simulator.Sim.Counts.{IsShort, Steady, Counts, Counts-bind, exec_func-Counts}
use risc_v_simulator.Sim.Short.{Fits, Gives, refer-Gives}

empty_or : (xs : List Inst) → (xs ≡ []) ⊎ ((i : Inst) × (is : List Inst) × (xs ≡ i ∷ is))
empty_or [] = inl refl
empty_or (i ∷ is) = inr (i, is, refl)

module _ {m : HashMap} where
  flowed :
      (n : ℕ) (flow : Flow) (o : Outcome (State m) (Unit {0})) (s : State m)
      → Steady n s
      → Counts n o
      → Counts n (elim flow [ Flow.next_inst ↦ o | Flow.end_trace ↦ ok tt s ])
  flowed n Flow.next_inst o s h k = k
  flowed n Flow.end_trace o s h k = h

  exec-Counts :
      (n : ℕ) (insts : List Inst) (index : ℕ) (s : State m)
      → Steady n s
      → Counts n (exec insts index s)
  unfolding exec
  exec-Counts n [] index s h = tt
  exec-Counts n (inst ∷ insts) index s h =
      let rest = exec-Counts n insts (suc index) in
      Counts-bind n (exec_func inst.cmd index inst s) _ (exec_func-Counts n index inst s h)
        (λ flow s' h'. flowed n flow (exec insts (suc index) s') s' h' (rest s' h'))

  -- A trace that returns has instructions, and they are counted without a wrap.
  execute-counts :
      (id : ℕ) (trace : Trace) (s s' : State m)
      → Fits trace
      → IsShort s.trace_cache.entries
      → s.executed_insts + max_rounds < 2 ^ 64
      → execute id trace s ≡ ok tt s'
      → (s.executed_insts < s'.executed_insts) × IsShort s'.trace_cache.entries
  unfolding execute exec
  execute-counts id trace s s' short h room p =
      let Grows : State m → Type 0 =
        λ t. (s.executed_insts < t.executed_insts) × IsShort t.trace_cache.entries in
      let (_, s1, ran, rest) = bind-eq-ok (exec trace.insts 0 s) _ p in
      let kept =
        subst (λ o. Counts s.executed_insts o) ran
          (exec-Counts s.executed_insts trace.insts 0 s (refl, h)) in
      elim (empty_or trace.insts) [
        | inl e ↦ cc (rw e at ran)
        | inr (i, is, e) ↦ elim (Bool-cases (holds id s1.trace_cache.entries)) [
          | inl held ↦
              let some_insts : 0 < length trace.insts = rw e (omega arith) in
              subst Grows (ok-state tt tt _ s' (rw held at rest))
                (omega (arith, kept.0, short, room, some_insts), kept.1)
          | inr lost ↦ cc (rw lost at rest)
        ]
      ]

  refer_execute-counts :
      (d : Decoder) (s s' : State m)
      → IsShort s.trace_cache.entries
      → s.executed_insts + max_rounds < 2 ^ 64
      → refer_execute d s ≡ ok tt s'
      → (s.executed_insts < s'.executed_insts) × IsShort s'.trace_cache.entries
  unfolding refer_execute
  refer_execute-counts d s s' h room p =
      let (trace, s1, first, rest) = bind-eq-ok (refer d s.pc s) _ p in
      let (short, (count, h1)) =
        subst (λ o. Gives (λ t. t) s.executed_insts o) first
          (refer-Gives s.executed_insts d s.pc s (refl, h)) in
      elim (Option-cases (front_id s1.trace_cache.entries)) [
        | inl e ↦ cc (rw e at rest)
        | inr (id, e) ↦
            let (grown, h') =
              execute-counts id trace s1 s' short h1 (omega (arith, room, count)) (rw e at rest) in
            (omega (arith, grown, count), h')
      ]

  below :
      (max_insts : ℕ) (s : State m)
      → 0 < max_insts
      → is_over max_insts s ≡ false
      → s.executed_insts < max_insts
  unfolding is_over
  below max_insts s pos e = ground arith

  -- The loop of Sim::execute ends, when the number of executed instructions lies below the limit, the
  -- limit is at least 2^32 below 2^64, so that the count does not wrap past it, and the traces of the
  -- cache are no longer than Trace's constructor can read: as many rounds as are missing to the limit
  -- do not leave it running. Nothing is said of an end in undefined behaviour, with which the model
  -- counts a Trace::Trace that meets no terminator in 2^32 words.
  pub run-ends :
      (rounds max_insts : ℕ) (d : Decoder) (s t : State m)
      → s.executed_insts < max_insts
      → max_insts + max_rounds ≤ 2 ^ 64
      → IsShort s.trace_cache.entries
      → max_insts ≤ s.executed_insts + rounds
      → run rounds max_insts d s ≢ Ending.running t
  unfolding run
  run-ends zero max_insts d s t missing room h enough = absurd (omega arith)
  run-ends (suc rounds) max_insts d s t missing room h enough =
      let next = run-ends rounds max_insts d in
      elim (outcome_cases (refer_execute d s)) [
        | inl (_, s', e) ↦ elim (Bool-cases (is_over max_insts s')) [
          | inl over ↦ λ p. cc (rw (e, run, over) at p)
          | inr more ↦ λ p.
              let (grown, h') = refer_execute-counts d s s' h (omega (arith, missing, room)) e in
              let left = below max_insts s' (omega (arith, missing)) more in
              next s' t left room h' (omega (arith, grown, enough)) (rw (e, run, more) at p)
        ]
        | inr (inl (x, s', e)) ↦ λ p. cc (rw (e, run) at p)
        | inr (inr e) ↦ λ p. cc (rw (e, run) at p)
      ]
