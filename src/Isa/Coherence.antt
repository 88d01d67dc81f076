-- ===== src/Isa/Coherence.antt =====
-- The tables of sim/isa_desc.cpp against the enums of sim/isa_desc.h.
use risc_v_simulator.Base.{◌≡◌, refl, ◌<◌, arith}
use risc_v_simulator.Isa.{Cmd, cmd_number, cmd_of_number}

-- Casting a command to its number and back gives the command.
pub cmd_of_number-cmd_number : (c : Cmd) → cmd_of_number (cmd_number c) ≡ c
unfolding cmd_of_number cmd_number
cmd_of_number-cmd_number Cmd.lui = refl
cmd_of_number-cmd_number _ = refl

pub cmd_number-lt : (c : Cmd) → cmd_number c < 256
unfolding cmd_number
cmd_number-lt Cmd.lui = omega arith
cmd_number-lt _ = omega arith
