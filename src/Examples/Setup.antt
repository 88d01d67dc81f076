-- ===== src/Examples/Setup.antt =====
-- A hash map, a memory unit and a processor to try the code on.
use risc_v_simulator.Base.{ℕ, ◌*◌, ◌+◌, refl, Option, none, some, ◌==◌, if◌then◌else◌, []}
use risc_v_simulator.Lru
use risc_v_simulator.Lru.{HashMap}
use risc_v_simulator.Mmu.{Mmu}
use risc_v_simulator.Mmu.Memory.{Bytes, write_bytes}
use risc_v_simulator.State.{State}

-- A map as a function.
abbrev pub function_map : HashMap
function_map = record {
  Carrier = ℕ → Option ℕ;
  empty = λ _. none;
  find = λ k t. t k;
  insert = λ k v t j. if j == k then some v else t j;
  assign = λ k v t j. if j == k then some v else t j;
  erase = λ k t j. if j == k then none else t j;
  find-empty = λ j. refl;
  find-insert = λ j k v t h. refl;
  find-assign = λ j k v w t h. refl;
  find-erase = λ j k t. refl;
}

-- A memory of 64 KiB: `jal x0, 0` at 0x100, and a page table whose root is the page 2. The entry for
-- the addresses below 4 MiB points to the table in page 4, whose entry 0 is a readable page 6.
abbrev pub bytes : Bytes
bytes =
    write_bytes 4 0x4000 (6 * 1024 + 0b0011)
      (write_bytes 4 0x2000 (4 * 1024 + 0b0001) (write_bytes 4 0x100 0x0000006f (λ _. 0)))

abbrev pub unit_of : ℕ → Mmu function_map
unit_of satp = record {
  inst_tlb = Lru.create 4;
  data_tlb = Lru.create 4;
  pmem_size = 0x10000;
  pmem = bytes;
  satp = satp;
  stats = record {
    itlb_hits = 0;
    itlb_misses = 0;
    dtlb_load_hits = 0;
    dtlb_load_misses = 0;
    dtlb_store_hits = 0;
    dtlb_store_misses = 0;
  };
}

abbrev pub bare_unit : Mmu function_map
bare_unit = unit_of 0

abbrev pub virtual_unit : Mmu function_map
virtual_unit = unit_of 0x80000002

abbrev pub processor : State function_map
processor = record {
  regs = λ r. r * 0x100;
  pc = 0x100;
  executed_insts = 0;
  mmu = bare_unit;
  trace_cache = Lru.create 4;
  counters = record { trace_cache_hits = 0; trace_cache_misses = 0; interpreted_executions = 0 };
  stdin = [];
  stdout = [];
  clock = λ n. record { result = 0; tv = n; tz = 0 };
  clock_calls = 0;
}
