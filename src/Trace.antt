-- ===== src/Trace.antt =====
-- class Trace and class TraceCache of sim/sim.h and sim/sim.cpp. A trace is destroyed with its node
-- of the cache, so a reference to it is the node's identity.
pub mod Fetch
pub mod Run
pub mod Ends
use risc_v_simulator.Base.{
  ℕ, zero, suc, ◌+◌, ◌^◌, Bool, true, false, Option, none, some, List, [], ◌∷◌, if◌then◌else◌, ◌==◌,
  u32, u64, length,
}
use risc_v_simulator.Outcome.{Outcome, ok, throw, undefined, Exec, bind, ◌>>=◌}
use risc_v_simulator.Ir.{Inst, is_terminator}
use risc_v_simulator.Decoder.{decode}
use risc_v_simulator.Decoder.Tables.{Decoder, Decoded}
use risc_v_simulator.Lru
use risc_v_simulator.Lru.{HashMap, Lru, Node}
use risc_v_simulator.State.{State, Trace, Counters, get_cmd}
use risc_v_simulator.Exec.{exec_func}
use risc_v_simulator.Exec.Operand.{Flow}

-- More rounds than there are addresses.
abbrev pub max_rounds : ℕ
max_rounds = 2 ^ 32

module _ {m : HashMap} where
  -- The decoder's exceptions leave the state alone.
  unfoldable pub lift : {A : Type 0} → Decoded A → Exec (State m) A
  lift (Decoded.ok a) s = ok a s
  lift (Decoded.throw e) s = throw e s
  lift Decoded.undefined s = undefined

  -- One round of the constructor's loop.
  unfoldable pub fetch_inst : Decoder → ℕ → Exec (State m) Inst
  fetch_inst d address s = bind (get_cmd address s) (λ command s'. lift (decode d command) s')

  -- The loop, for `rounds` rounds; then the vector has outgrown the machine.
  unfoldable pub fetch : ℕ → Decoder → ℕ → Exec (State m) (List Inst)
  fetch zero d address s = undefined
  fetch (suc rounds) d address s = bind (fetch_inst d address s) (λ inst s'.
      elim (is_terminator inst) [
        | true ↦ ok (inst ∷ []) s'
        | false ↦ bind (fetch rounds d (u32 (address + 4)) s') (λ insts s''. ok (inst ∷ insts) s'')
      ])

  -- Trace(decoder, state).
  unfoldable pub create : Decoder → Exec (State m) Trace
  create d s = bind (fetch max_rounds d s.pc s) (λ insts s'. ok (record { insts = insts }) s')

  -- The chain of tail calls from the instruction at `index` on. There is nothing behind the last.
  unfoldable pub exec : List Inst → ℕ → Exec (State m) (Unit {0})
  exec [] index s = undefined
  exec (inst ∷ insts) index s = bind (exec_func inst.cmd index inst s) (λ flow s'. elim flow [
    | Flow.next_inst ↦ exec insts (suc index) s'
    | Flow.end_trace ↦ ok tt s'
  ])

  unfoldable pub put_trace_cache : Lru m Trace → State m → State m
  put_trace_cache c s = record s { trace_cache = c }

  unfoldable pub count_refer : Bool → State m → State m
  count_refer missed s = record s {
    counters =
        if missed
        then record s.counters { trace_cache_misses = s.counters.trace_cache_misses + 1 }
        else record s.counters { trace_cache_hits = s.counters.trace_cache_hits + 1 };
  }

  -- TraceCache::refer.
  unfoldable pub refer : Decoder → ℕ → Exec (State m) Trace
  refer d addr s =
      bind (Lru.insert (λ s. s.trace_cache) put_trace_cache addr (create d) s)
        (λ (trace, missed) s'. ok trace (count_refer missed s'))

-- Whether the cache still holds the node of an identity.
unfoldable pub holds : {V : Type 0} → ℕ → List (Node V) → Bool
holds id [] = false
holds id (n ∷ ns) = if n.id == id then true else holds id ns

-- The identity of the node in front.
unfoldable pub front_id : {V : Type 0} → List (Node V) → Option ℕ
front_id [] = none
front_id (n ∷ ns) = some n.id

module _ {m : HashMap} where
  -- Trace::execute with options::jit off, for the trace of node `id`. The size is read after the
  -- run, from the trace in the cache.
  unfoldable pub execute : ℕ → Trace → Exec (State m) (Unit {0})
  execute id trace s = bind (exec trace.insts 0 s) (λ _ s'.
      if holds id s'.trace_cache.entries
      then ok tt (record s' {
        executed_insts = u64 (s'.executed_insts + length trace.insts);
        counters = record s'.counters {
          interpreted_executions = s'.counters.interpreted_executions + 1;
        };
      })
      else undefined)

  -- refer(...).execute(&state): the reference is to the entry in front.
  unfoldable pub refer_execute : Decoder → Exec (State m) (Unit {0})
  refer_execute d s = bind (refer d s.pc s) (λ trace s'. elim (front_id s'.trace_cache.entries) [
    | none ↦ undefined
    | some id ↦ execute id trace s'
  ])
