-- ===== src/Sim.antt =====
-- State's constructor and class Sim of sim/sim.cpp.
pub mod Counts
pub mod Short
pub mod Ends
pub mod Load
use risc_v_simulator.Base.{
  ℕ, zero, suc, ◌+◌, ◌-◌, ◌*◌, ◌^◌, Bool, true, false, not, ◌&&◌, List, [], ◌∷◌, if◌then◌else◌,
  ◌==◌, ltb, leb, u32, length,
}
use risc_v_simulator.Outcome.{SimException, Outcome, ok, throw, undefined, Exec, bind}
use risc_v_simulator.Decoder.Tables.{Decoder}
use risc_v_simulator.Lru.{HashMap}
use risc_v_simulator.Mmu.{Mmu, pagesize, get_mem_ptr}
use risc_v_simulator.Mmu.Memory.{Bytes, write_bytes}
use risc_v_simulator.State.{State, set_reg}
use risc_v_simulator.Trace.{refer_execute}

-- memcpy of the words of a segment.
unfoldable pub copy_words : ℕ → List ℕ → Bytes → Bytes
copy_words a [] mem = mem
copy_words a (w ∷ ws) mem = copy_words (a + 4) ws (write_bytes 4 a w mem)

-- isa::Regs::sp.
abbrev pub sp : ℕ
sp = 2

module _ {m : HashMap} where
  -- One round of the loop over the segments.
  unfoldable pub put_segment : ℕ → List ℕ → Exec (Mmu m) (Unit {0})
  put_segment va words u =
      if ltb u.pmem_size (va + length words * 4)
      then throw SimException.segment_too_large u
      else bind (get_mem_ptr 1 va u)
          (λ p u'. ok tt (record u' { pmem = copy_words p words u'.pmem }))

  -- The loop goes over seg_va; commands[i] past the end of the vector is undefined.
  unfoldable pub put_segments : List (List ℕ) → List ℕ → Exec (Mmu m) (Unit {0})
  put_segments commands [] u = ok tt u
  put_segments [] (va ∷ vas) u = undefined
  put_segments (words ∷ commands) (va ∷ vas) u =
      bind (put_segment va words u) (λ _ u'. put_segments commands vas u')

  -- The state that the constructor builds over the static members.
  unfoldable pub init : List (List ℕ) → List ℕ → ℕ → State m → Outcome (State m) (Unit {0})
  init commands seg_va pc s =
      let s' =
        set_reg sp (u32 (s.mmu.pmem_size + (2 ^ 64 - 2 * pagesize)))
          (record s { regs = λ _. 0; pc = pc; executed_insts = 0 }) in
      elim (put_segments commands seg_va s'.mmu) [
        | ok _ u ↦ ok tt (record s' { mmu = u })
        | throw e u ↦ throw e (record s' { mmu = u })
        | undefined ↦ undefined
      ]

-- How the loop of Sim::execute ends. `running` stands for a loop that the
-- given rounds do not end, `broken` for undefined behaviour.
pub data Ending (m : HashMap) : Type 0 where
  stopped : State m → Ending m
  caught : SimException → State m → Ending m
  running : State m → Ending m
  broken : Ending m

module _ {m : HashMap} where
  -- options::max_insts && state_.executed_insts >= options::max_insts.
  unfoldable pub is_over : ℕ → State m → Bool
  is_over max_insts s = not (max_insts == 0) && leb max_insts s.executed_insts

  unfoldable pub run : ℕ → ℕ → Decoder → State m → Ending m
  run zero max_insts d s = Ending.running s
  run (suc rounds) max_insts d s = elim (refer_execute d s) [
    | ok _ s' ↦ elim (is_over max_insts s') [
      | true ↦ Ending.stopped s'
      | false ↦ run rounds max_insts d s'
    ]
    | throw e s' ↦ Ending.caught e s'
    | undefined ↦ Ending.broken
  ]
