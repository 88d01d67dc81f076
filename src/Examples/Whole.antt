-- ===== src/Examples/Whole.antt =====
-- main on a command line.
use Prim.Native.String.{String}
use risc_v_simulator.Base.{ℕ, List, [], ◌∷◌}
use risc_v_simulator.Lru
use risc_v_simulator.Options.{Options, Parsed}

abbrev arguments : List String
arguments = "-max-insts" ∷ "5" ∷ "-elf" ∷ "a.elf" ∷ []

abbrev limit : Parsed → ℕ
limit (Parsed.parsed o) = o.max_insts
limit _ = 0
