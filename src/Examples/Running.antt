-- ===== src/Examples/Running.antt =====
-- Segments in memory, and the loop of Sim::execute with a limit.
use risc_v_simulator.Base.{ℕ, ◌-◌, ◌*◌, ◌≡◌, ◌≢◌, refl, List, [], ◌∷◌, arith}
use risc_v_simulator.Outcome.{ok}
use risc_v_simulator.Decoder.Tables.{decoder}
use risc_v_simulator.Lru
use risc_v_simulator.Mmu.{get_mem_ptr, pagesize}
use risc_v_simulator.Mmu.Memory.{write_bytes}
use risc_v_simulator.State.{State, set_reg}
use risc_v_simulator.Sim.{init, put_segments, put_segment, copy_words, run, Ending, sp}
use risc_v_simulator.Sim.Ends.{run-ends}
use risc_v_simulator.Examples.Setup.{function_map, processor, bare_unit, bytes}

run-ends_example : run 5 5 decoder processor ≢ Ending.running processor
unfolding Lru.create
run-ends_example =
    run-ends 5 5 decoder processor processor (omega arith) (omega arith) tt (omega arith)

-- Two segments, the first in two words.
abbrev first : List ℕ
first = 0x00000013 ∷ 0x0000006f ∷ []

abbrev second : List ℕ
second = 0x12345678 ∷ []

abbrev pub started : State function_map
started = set_reg sp (0x10000 - 2 * pagesize) (record processor {
  regs = λ _. 0;
  pc = 0x1000;
  mmu = record bare_unit {
    pmem =
        write_bytes 4 0x1008 0x12345678
          (write_bytes 4 0x1004 0x6f (write_bytes 4 0x1000 0x13 bytes));
  };
})

pub started_lem :
    init {m = function_map} (first ∷ second ∷ []) (0x1000 ∷ 0x1008 ∷ []) 0x1000 processor
    ≡ ok tt started
unfolding init put_segments put_segment copy_words get_mem_ptr set_reg
started_lem = refl
