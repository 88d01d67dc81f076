-- ===== src/Main/Ends.antt =====
-- The loops of sim/main.cpp's run come to an end.
use Prim.Native.String.{String}
use risc_v_simulator.Base.{◌+◌, ◌^◌, ℕ, ◌<◌, ◌≤◌, ◌≡◌, ◌≢◌, refl, Bool, true, false}
use risc_v_simulator.Lru.{HashMap}
use risc_v_simulator.Decoder.Tables.{Decoder}
use risc_v_simulator.State.{State}
use risc_v_simulator.Trace.{max_rounds}
use risc_v_simulator.Sim.{Ending}
use risc_v_simulator.Sim
use risc_v_simulator.Options.{Options, Parsed}
use risc_v_simulator.Main.{Exit}

-- One of the two loops that are given rounds has used them up.
abbrev is_parsing : Parsed → Bool
is_parsing Parsed.running = true
is_parsing _ = false

abbrev is_executing : {m : HashMap} → Ending m → Bool
is_executing (Ending.running t) = true
is_executing _ = false

abbrev pub is_running : {m : HashMap} → Exit m → Bool
is_running (Exit.not_parsed p) = is_parsing p
is_running (Exit.executed e) = is_executing e
is_running _ = false

is_parsing_lem : (p : Parsed) → p ≢ Parsed.running → is_parsing p ≡ false
is_parsing_lem Parsed.running h = absurd (h refl)
is_parsing_lem _ h = refl

-- A limit that the given rounds reach and that the count does not wrap past.
abbrev pub IsLimit : ℕ → ℕ → Type 0
IsLimit rounds max_insts =
    (0 < max_insts) × (max_insts ≤ rounds) × (max_insts + max_rounds ≤ 2 ^ 64)
