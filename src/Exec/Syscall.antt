-- ===== src/Exec/Syscall.antt =====
-- System calls: sim/syscall.h and sim/syscall.cpp.
use risc_v_simulator.Base.{ℕ, zero, suc, ◌+◌, [], ◌∷◌, ◌++◌, ◌==◌, if◌then◌else◌, u32}
use risc_v_simulator.Outcome.{SimException, ok, throw, Exec, bind}
use risc_v_simulator.Lru.{HashMap}
use risc_v_simulator.State.{State, get_reg, set_reg, read, write}

-- a0, a1, a2 and a7 of isa::Regs.
abbrev pub a0 : ℕ
a0 = 10

abbrev pub a1 : ℕ
a1 = 11

abbrev pub a2 : ℕ
a2 = 12

abbrev pub a7 : ℕ
a7 = 17

module _ {m : HashMap} where
  unfoldable pub exec_close : Exec (State m) (Unit {0})
  exec_close s = ok tt (set_reg a0 0 s)

  -- The loop of ExecRead at round `i`, with `left` rounds to go; EOF is the end of the input.
  unfoldable pub read_loop : ℕ → ℕ → ℕ → Exec (State m) (Unit {0})
  read_loop addr zero i s = ok tt (set_reg a0 i s)
  read_loop addr (suc left) i s = elim s.stdin [
    | [] ↦ ok tt (set_reg a0 i s)
    | c ∷ cs ↦
        bind (write 1 (u32 (addr + i)) c (record s { stdin = cs }))
          (λ _ s'. read_loop addr left (suc i) s')
  ]

  -- At the end of the loop i is a2.
  unfoldable pub exec_read : Exec (State m) (Unit {0})
  exec_read s = read_loop (get_reg a1 s) (get_reg a2 s) 0 s

  unfoldable pub write_loop : ℕ → ℕ → ℕ → Exec (State m) (Unit {0})
  write_loop addr zero i s = ok tt s
  write_loop addr (suc left) i s =
      bind (read 1 (u32 (addr + i)) s)
        (λ c s'. write_loop addr left (suc i) (record s' { stdout = s'.stdout ++ c ∷ [] }))

  unfoldable pub exec_write : Exec (State m) (Unit {0})
  exec_write s =
      let count = get_reg a2 s in
      bind (write_loop (get_reg a1 s) count 0 s) (λ _ s'. ok tt (set_reg a0 count s'))

  unfoldable pub exec_fstat : Exec (State m) (Unit {0})
  exec_fstat s = ok tt (set_reg a0 0 s)

  unfoldable pub exec_exit : Exec (State m) (Unit {0})
  exec_exit s = throw SimException.finished s

  -- A struct timeval has 16 bytes and a struct timezone 8.
  unfoldable pub exec_get_time_of_day : Exec (State m) (Unit {0})
  exec_get_time_of_day s =
      let tick = s.clock s.clock_calls in
      let s' = set_reg a0 (u32 tick.result) (record s { clock_calls = s.clock_calls + 1 }) in
      bind (write 16 (get_reg a0 s) tick.tv s') (λ _ s''. write 8 (get_reg a1 s) tick.tz s'')

  unfoldable pub exec_brk : Exec (State m) (Unit {0})
  exec_brk s = ok tt (set_reg a0 0 s)

  -- An unknown call does nothing.
  unfoldable pub exec_sys_call : ℕ → Exec (State m) (Unit {0})
  exec_sys_call value s =
      if value == 57
      then exec_close s
      else if value == 63
      then exec_read s
      else if value == 64
      then exec_write s
      else if value == 80
      then exec_fstat s
      else if value == 93
      then exec_exit s
      else if value == 169
      then exec_get_time_of_day s
      else if value == 214
      then exec_brk s
      else ok tt s
