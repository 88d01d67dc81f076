-- ===== src/State.antt =====
-- The processor state: State, Trace and the trace cache's contents of sim/sim.h. Static members
-- (the MMU, the trace cache, the counters) are fields of the one state. The outside of the program
-- is in it too: the bytes still to come on stdin, the bytes written to stdout, and what the clock
-- answers at each call.
use risc_v_simulator.Base.{ℕ, List, true, false, ◌==◌, if◌then◌else◌}
use risc_v_simulator.Outcome.{Outcome, ok, throw, undefined, Exec}
use risc_v_simulator.Ir.{Inst}
use risc_v_simulator.Lru
use risc_v_simulator.Lru.{HashMap, Lru}
use risc_v_simulator.Mmu
use risc_v_simulator.Mmu.{Mmu}

-- A trace of decoded instructions. The translated code that a Trace may hold is not modelled: the
-- option -jit is off.
pub record Trace : Type 0 where
  pub insts : List Inst

-- An answer of gettimeofday: its result, and the bytes of the two structs as numbers.
pub record Tick : Type 0 where
  pub result : ℕ
  pub tv : ℕ
  pub tz : ℕ

pub record Counters : Type 0 where
  pub trace_cache_hits : ℕ
  pub trace_cache_misses : ℕ
  pub interpreted_executions : ℕ

pub record State (m : HashMap) : Type 0 where
  pub regs : ℕ → ℕ
  pub pc : ℕ
  pub executed_insts : ℕ
  pub mmu : Mmu m
  pub trace_cache : Lru m Trace
  pub counters : Counters
  pub stdin : List ℕ
  pub stdout : List ℕ
  pub clock : ℕ → Tick
  pub clock_calls : ℕ

module _ {m : HashMap} where
  unfoldable pub get_reg : ℕ → State m → ℕ
  get_reg reg s = s.regs reg

  -- Register 0 is never written.
  unfoldable pub set_reg : ℕ → ℕ → State m → State m
  set_reg reg val s =
      if reg == 0 then s else record s { regs = λ r. if r == reg then val else s.regs r }

  unfoldable pub set_pc : ℕ → State m → State m
  set_pc new_pc s = record s { pc = new_pc }

  unfoldable pub on_mmu : {A : Type 0} → State m → Outcome (Mmu m) A → Outcome (State m) A
  on_mmu s (ok a u) = ok a (record s { mmu = u })
  on_mmu s (throw e u) = throw e (record s { mmu = u })
  on_mmu s undefined = undefined

  -- read<T>, write<T> and getCmd, for a T of `size` bytes.
  unfoldable pub read : ℕ → ℕ → Exec (State m) ℕ
  unfolding on_mmu
  read size va s = on_mmu s (Mmu.load size va false s.mmu)

  unfoldable pub write : ℕ → ℕ → ℕ → Exec (State m) (Unit {0})
  unfolding on_mmu
  write size va v s = on_mmu s (Mmu.store size va v s.mmu)

  unfoldable pub get_cmd : ℕ → Exec (State m) ℕ
  unfolding on_mmu
  get_cmd va s = on_mmu s (Mmu.load 4 va true s.mmu)

  -- The TLBs and the trace cache are emptied.
  unfoldable pub flush : State m → State m
  flush s = record s { mmu = Mmu.flush s.mmu; trace_cache = Lru.clear s.trace_cache }
