-- ===== src/Exec/Operand.antt =====
-- The macros of sim/exec_inst.cpp. A handler takes the place of its instruction in the trace, for
-- OFFSET, and the instruction; it says whether the next instruction of the trace follows
-- (NEXT_INST) or the trace ends (END_TRACE). int32_t arithmetic wraps as two's complement.
use risc_v_simulator.Base.{ℕ, ◌+◌, ◌-◌, ◌*◌, ◌%◌, ◌^◌, u32, ltb, if◌then◌else◌, ℤ, pos, negsuc}
use risc_v_simulator.Outcome.{Outcome, ok, Exec}
use risc_v_simulator.Ir.{Inst}
use risc_v_simulator.Lru.{HashMap}
use risc_v_simulator.State.{State, get_reg, set_reg}

pub data Flow : Type 0 where
  next_inst end_trace : Flow

-- (uint32_t)x and (uint64_t)x of a signed x.
abbrev pub of_ℤ32 : ℤ → ℕ
of_ℤ32 (pos n) = n % 2 ^ 32
of_ℤ32 (negsuc n) = 2 ^ 32 - 1 - n % 2 ^ 32

abbrev pub of_ℤ64 : ℤ → ℕ
of_ℤ64 (pos n) = n % 2 ^ 64
of_ℤ64 (negsuc n) = 2 ^ 64 - 1 - n % 2 ^ 64

-- An int8_t or int16_t, read as `bits` bits, as a uint32_t.
abbrev pub widen : ℕ → ℕ → ℕ
widen bits v = if ltb v (2 ^ (bits - 1)) then v else v + (2 ^ 32 - 2 ^ bits)

-- An ExecFunc.
abbrev pub Handler : HashMap → Type 0
Handler m = ℕ → Inst → Exec (State m) Flow

module _ {m : HashMap} where
  abbrev pub urs1 : Inst → State m → ℕ
  urs1 inst s = get_reg inst.rs1 s

  abbrev pub urs2 : Inst → State m → ℕ
  urs2 inst s = get_reg inst.rs2 s

  abbrev pub rd : Inst → ℕ → State m → State m
  rd inst val s = set_reg inst.rd val s

  -- GET_PC() + OFFSET.
  abbrev pub cur_pc : ℕ → State m → ℕ
  cur_pc index s = u32 (s.pc + index * 4)

  abbrev pub next : State m → Outcome (State m) Flow
  next s = ok next_inst s

  abbrev pub stop : State m → Outcome (State m) Flow
  stop s = ok end_trace s

  -- RS1 + IMM.
  abbrev pub address : Inst → State m → ℕ
  address inst s = u32 (urs1 inst s + inst.imm)
