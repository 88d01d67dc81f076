-- ===== src/Main.antt =====
-- main of sim/main.cpp, without the log file. The catch of std::exception prints the message alone.
pub mod Ends
use Prim.Native.String.{String}
use risc_v_simulator.Base.{ℕ, ◌<◌, ◌≤◌, ◌+◌, ◌≡◌, ◌≢◌, List, [], Bool-cases, inl, inr, arith}
use risc_v_simulator.Outcome.{SimException, ok, throw, undefined}
use risc_v_simulator.Lru.{HashMap}
use risc_v_simulator.Decoder.Tables.{Decoder}
use risc_v_simulator.State.{State}
use risc_v_simulator.Sim.{run, Ending}
use risc_v_simulator.Sim
use risc_v_simulator.Sim.Ends.{run-ends}
use risc_v_simulator.Options.{Options, Number, Parsed, parse_options, defaults}
use risc_v_simulator.Options.Rounds.{parse_options-ends}
use risc_v_simulator.Elf.{LibElf, ElfError, Reading, Loading, fresh, load}
use risc_v_simulator.Elf

-- The part of main that it ends in. `executed` is the end of Sim::execute, `broken` undefined
-- behaviour.
pub data Exit (m : HashMap) : Type 0 where
  not_parsed : Parsed → Exit m
  not_loaded : ElfError → Exit m
  not_constructed : SimException → Exit m
  executed : Ending m → Exit m
  broken : Exit m

-- er.init and er.load.
unfoldable pub load_file : (l : LibElf) → Options → Reading (Loading l)
load_file l o = elim (Elf.init o.elf_file fresh) [
  | Reading.done r ↦ load (record { reader = r; commands = []; seg_va = []; offset = 0 })
  | Reading.failed e r ↦
      Reading.failed e (record { reader = r; commands = []; seg_va = []; offset = 0 })
  | Reading.undefined ↦ Reading.undefined
]

module _ {m : HashMap} where
  -- The constructor of Sim and execute, over the static members.
  unfoldable pub simulate : Decoder → ℕ → ℕ → (l : LibElf) → Loading l → State m → Exit m
  simulate d rounds max_insts l t s = elim (Sim.init t.commands t.seg_va t.offset s) [
    | ok _ s' ↦ Exit.executed (run rounds max_insts d s')
    | throw e s' ↦ Exit.not_constructed e
    | undefined ↦ Exit.broken
  ]

  unfoldable pub run_file : Decoder → ℕ → ℕ → (l : LibElf) → State m → Reading (Loading l) → Exit m
  unfolding simulate
  run_file d rounds max_insts l s (Reading.done t) = simulate d rounds max_insts l t s
  run_file d rounds max_insts l s (Reading.failed e t) = Exit.not_loaded e
  run_file d rounds max_insts l s Reading.undefined = Exit.broken

  unfoldable pub run_parsed : (l : LibElf) → Decoder → ℕ → State m → Parsed → Exit m
  unfolding load_file run_file
  run_parsed l d rounds s (Parsed.parsed o) = run_file d rounds o.max_insts l s (load_file l o)
  run_parsed l d rounds s Parsed.undefined = Exit.broken
  run_parsed l d rounds s p = Exit.not_parsed p

  unfoldable pub main :
      (String → Number) → (l : LibElf) → Decoder → ℕ → List String → State m → Exit m
  unfolding run_parsed
  main stoull l d rounds args s = run_parsed l d rounds s (parse_options stoull args defaults)
