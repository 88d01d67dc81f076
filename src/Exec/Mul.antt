-- ===== src/Exec/Mul.antt =====
-- The RV32M extension of sim/exec_inst.cpp.
use risc_v_simulator.Base.{
  ℕ, ◌+◌, ◌-◌, ◌*◌, ◌/◌, ◌%◌, ◌^◌, ◌&&◌, ◌==◌, if◌then◌else◌, u32, u64, ℤ, pos, negsuc, signed32,
  ◌*ℤ◌, abs_ℕ,
}
use risc_v_simulator.Lru.{HashMap}
use risc_v_simulator.Exec.Operand.{Handler, of_ℤ32, of_ℤ64, urs1, urs2, rd, next}

-- (uint64_t)(int64_t)(int32_t)a.
abbrev extend64 : ℕ → ℕ
extend64 a = of_ℤ64 (signed32 a)

unfoldable pub mulh_value : ℕ → ℕ → ℕ
unfolding ◌*ℤ◌
mulh_value a b = of_ℤ64 (signed32 a *ℤ signed32 b) / 2 ^ 32

unfoldable pub mulhsu_value : ℕ → ℕ → ℕ
mulhsu_value a b = u64 (extend64 a * b) / 2 ^ 32

-- C's / and % on int32_t: towards zero, and the remainder has the dividend's sign.
-- -a.
abbrev pub negate : ℕ → ℤ
negate a = if a == 0 then pos 0 else negsuc (a - 1)

unfoldable pub quotient : ℤ → ℤ → ℤ
quotient (pos a) (pos b) = pos (a / b)
quotient (pos a) (negsuc b) = negate (a / (b + 1))
quotient (negsuc a) (pos b) = negate ((a + 1) / b)
quotient (negsuc a) (negsuc b) = pos ((a + 1) / (b + 1))

unfoldable pub remainder : ℤ → ℤ → ℤ
remainder (pos a) b = pos (a % abs_ℕ b)
remainder (negsuc a) b = negate ((a + 1) % abs_ℕ b)

unfoldable pub div_value : ℕ → ℕ → ℕ
unfolding quotient
div_value a b =
    if b == 0
    then 2 ^ 32 - 1
    else if b == 2 ^ 32 - 1 && a == 2 ^ 31
    then 2 ^ 31
    else of_ℤ32 (quotient (signed32 a) (signed32 b))

unfoldable pub rem_value : ℕ → ℕ → ℕ
unfolding remainder
rem_value a b =
    if b == 0
    then a
    else if b == 2 ^ 32 - 1 && a == 2 ^ 31
    then 0
    else of_ℤ32 (remainder (signed32 a) (signed32 b))

module _ {m : HashMap} where
  unfoldable pub exec_mul : Handler m
  exec_mul index inst s = next (rd inst (u32 (urs1 inst s * urs2 inst s)) s)

  unfoldable pub exec_mulh : Handler m
  exec_mulh index inst s = next (rd inst (mulh_value (urs1 inst s) (urs2 inst s)) s)

  unfoldable pub exec_mulhsu : Handler m
  exec_mulhsu index inst s = next (rd inst (mulhsu_value (urs1 inst s) (urs2 inst s)) s)

  unfoldable pub exec_mulhu : Handler m
  exec_mulhu index inst s = next (rd inst (u64 (urs1 inst s * urs2 inst s) / 2 ^ 32) s)

  unfoldable pub exec_div : Handler m
  exec_div index inst s = next (rd inst (div_value (urs1 inst s) (urs2 inst s)) s)

  unfoldable pub exec_divu : Handler m
  exec_divu index inst s =
      next (rd inst (if urs2 inst s == 0 then 2 ^ 32 - 1 else urs1 inst s / urs2 inst s) s)

  unfoldable pub exec_rem : Handler m
  exec_rem index inst s = next (rd inst (rem_value (urs1 inst s) (urs2 inst s)) s)

  unfoldable pub exec_remu : Handler m
  exec_remu index inst s =
      next (rd inst (if urs2 inst s == 0 then urs1 inst s else urs1 inst s % urs2 inst s) s)
