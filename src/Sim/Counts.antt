-- ===== src/Sim/Counts.antt =====
-- Handlers leave the count of the executed instructions alone, and no long trace in the cache.
use risc_v_simulator.Base.{
  ℕ, zero, suc, ◌+◌, ◌≡◌, ◌≤◌, length, List, inl, inr, Bool, true, false, not, ◌==◌, ltb, bit_and,
  [], ◌∷◌, Bool-cases, if◌then◌else◌, u32,
}
use risc_v_simulator.Outcome.{Outcome, ok, throw, undefined, bind}
use risc_v_simulator.Isa.{Cmd}
use risc_v_simulator.Ir.{Inst}
use risc_v_simulator.Lru.{HashMap, Node, clear}
use risc_v_simulator.Mmu.{Mmu}
use risc_v_simulator.Trace.{max_rounds}
use risc_v_simulator.State.{
  State, Trace, on_mmu, read, write, get_cmd, get_reg, set_reg, set_pc, flush,
}
use risc_v_simulator.Exec.{exec_func}
use risc_v_simulator.Exec.Operand.{Flow, urs2, address}
use risc_v_simulator.Exec.Memory.{
  exec_lb, exec_lbu, exec_lh, exec_lhu, exec_lw, exec_sb, exec_sh, exec_sw,
}
use risc_v_simulator.Exec.Control.{
  branch, exec_beq, exec_bge, exec_bgeu, exec_blt, exec_bltu, exec_bne, exec_jal, exec_jalr,
}
use risc_v_simulator.Exec.Arith.{
  exec_add, exec_addi, exec_and, exec_andi, exec_auipc, exec_lui, exec_or, exec_ori, exec_sll,
  exec_slli, exec_slt, exec_slti, exec_sltiu, exec_sltu, exec_sra, exec_srai, exec_srl, exec_srli,
  exec_sub, exec_xor, exec_xori,
}
use risc_v_simulator.Exec.Mul.{
  exec_div, exec_divu, exec_mul, exec_mulh, exec_mulhsu, exec_mulhu, exec_rem, exec_remu,
}
use risc_v_simulator.Exec.System.{exec_csrrw, exec_dummy, exec_ecall, exec_fence}
use risc_v_simulator.Exec.Syscall.{
  exec_sys_call, exec_close, exec_read, exec_write, exec_fstat, exec_exit, exec_get_time_of_day,
  exec_brk, read_loop, write_loop, a0, a1, a2, a7,
}

-- A trace is no longer than what Trace's constructor can read.
abbrev pub IsShort : List (Node Trace) → Type 0
IsShort [] = Unit
IsShort (n ∷ ns) = (length n.val.insts ≤ max_rounds) × IsShort ns

module _ {m : HashMap} where
  -- The count is `n`, and the traces of the cache are short.
  abbrev pub Steady : ℕ → State m → Type 0
  Steady n s = (s.executed_insts ≡ n) × IsShort s.trace_cache.entries

  -- So it is where the code returns.
  abbrev pub Counts : {A : Type 0} → ℕ → Outcome (State m) A → Type 0
  Counts n (ok a s) = Steady n s
  Counts n (throw e s) = Unit
  Counts n undefined = Unit

  pub Counts-bind :
      {A B : Type 0} (n : ℕ) (o : Outcome (State m) A) (k : A → State m → Outcome (State m) B)
      → Counts n o
      → ((a : A) (s : State m) → Steady n s → Counts n (k a s))
      → Counts n (bind o k)
  Counts-bind n (ok a s) k e f = f a s e
  Counts-bind n (throw e' s) k e f = tt
  Counts-bind n undefined k e f = tt

  Counts-if :
      {A : Type 0} (n : ℕ) (b : Bool) (x y : Outcome (State m) A)
      → Counts n x
      → Counts n y
      → Counts n (if b then x else y)
  Counts-if n true x y p q = p
  Counts-if n false x y p q = q

  module _ (n : ℕ) where
    set_reg-Steady : (r v : ℕ) (s : State m) → Steady n s → Steady n (set_reg r v s)
    unfolding set_reg
    set_reg-Steady r v s h = elim (Bool-cases (r == 0)) [ inl e ↦ rw e h | inr e ↦ rw e h ]

    on_mmu-Counts :
        {A : Type 0} (s : State m) (o : Outcome (Mmu m) A) → Steady n s → Counts n (on_mmu s o)
    unfolding on_mmu
    on_mmu-Counts s (ok a u) h = h
    on_mmu-Counts s (throw e u) h = tt
    on_mmu-Counts s undefined h = tt

    read-Counts : (size va : ℕ) (s : State m) → Steady n s → Counts n (read size va s)
    unfolding read
    read-Counts size va s h = on_mmu-Counts s _ h

    write-Counts : (size va v : ℕ) (s : State m) → Steady n s → Counts n (write size va v s)
    unfolding write
    write-Counts size va v s h = on_mmu-Counts s _ h

    pub get_cmd-Counts : (va : ℕ) (s : State m) → Steady n s → Counts n (get_cmd va s)
    unfolding get_cmd
    get_cmd-Counts va s h = on_mmu-Counts s _ h

    read_loop-Counts :
        (addr left i : ℕ) (s : State m) → Steady n s → Counts n (read_loop addr left i s)
    unfolding read_loop
    read_loop-Counts addr zero i s h = set_reg-Steady a0 i s h
    read_loop-Counts addr (suc left) i s h =
        elim s.stdin
          as (λ input. Counts n (elim input [
            | [] ↦ ok tt (set_reg a0 i s)
            | c ∷ cs ↦
                bind (write 1 (u32 (addr + i)) c (record s { stdin = cs }))
                  (λ _ s'. read_loop addr left (suc i) s')
          ])) [
            | [] ↦ set_reg-Steady a0 i s h
            | c ∷ cs ↦
                Counts-bind n (write 1 (u32 (addr + i)) c (record s { stdin = cs })) _
                  (write-Counts 1 (u32 (addr + i)) c (record s { stdin = cs }) h)
                  (λ _ s' h'. read_loop-Counts addr left (suc i) s' h')
          ]

    write_loop-Counts :
        (addr left i : ℕ) (s : State m) → Steady n s → Counts n (write_loop addr left i s)
    unfolding write_loop
    write_loop-Counts addr zero i s h = h
    write_loop-Counts addr (suc left) i s h =
        Counts-bind n (read 1 (u32 (addr + i)) s) _ (read-Counts 1 (u32 (addr + i)) s h)
          (λ c s' h'. write_loop-Counts addr left (suc i) _ h')

    time-Counts : (s : State m) → Steady n s → Counts n (exec_get_time_of_day s)
    unfolding exec_get_time_of_day
    time-Counts s h =
        let tick = s.clock s.clock_calls in
        let s0 = record s { clock_calls = s.clock_calls + 1 } in
        let s1 = set_reg a0 (u32 tick.result) s0 in
        Counts-bind n (write 16 (get_reg a0 s) tick.tv s1) _
          (write-Counts 16 (get_reg a0 s) tick.tv s1 (set_reg-Steady a0 (u32 tick.result) s0 h))
          (λ _ s2 h2. write-Counts 8 (get_reg a1 s) tick.tz s2 h2)

    exec_sys_call-Counts : (value : ℕ) (s : State m) → Steady n s → Counts n (exec_sys_call value s)
    unfolding exec_sys_call exec_close exec_read exec_write exec_fstat exec_exit
        exec_get_time_of_day exec_brk
    exec_sys_call-Counts value s h =
        let zeroed = set_reg-Steady a0 0 s h in
        Counts-if n (value == 57) _ _ zeroed (
          Counts-if n (value == 63) _ _ (read_loop-Counts (get_reg a1 s) (get_reg a2 s) 0 s h) (
            Counts-if n (value == 64) _ _
              (Counts-bind n (write_loop (get_reg a1 s) (get_reg a2 s) 0 s) _
                (write_loop-Counts (get_reg a1 s) (get_reg a2 s) 0 s h)
                (λ _ s' h'. set_reg-Steady a0 (get_reg a2 s) s' h'))
              (Counts-if n (value == 80) _ _ zeroed (
                Counts-if n (value == 93) _ _ tt (
                  Counts-if n (value == 169) _ _ (time-Counts s h)
                    (Counts-if n (value == 214) _ _ zeroed h))))))

    -- A load, a store, and a shift with its guard.
    load-Counts :
        (size : ℕ) (f : ℕ → ℕ) (inst : Inst) (s : State m)
        → Steady n s
        → Counts n (
            bind
              (read size (address inst s) s)
              (λ v s'. ok Flow.next_inst (set_reg inst.rd (f v) s')))
    load-Counts size f inst s h =
        Counts-bind n (read size (address inst s) s) _ (read-Counts size (address inst s) s h)
          (λ v s' h'. set_reg-Steady inst.rd (f v) s' h')

    store-Counts :
        (size : ℕ) (inst : Inst) (s : State m)
        → Steady n s
        → Counts n
            (bind (write size (address inst s) (urs2 inst s) s) (λ _ s'. ok Flow.next_inst s'))
    store-Counts size inst s h =
        Counts-bind n (write size (address inst s) (urs2 inst s) s) _
          (write-Counts size (address inst s) (urs2 inst s) s h) (λ _ s' h'. h')

    shift-Counts :
        (k v : ℕ) (inst : Inst) (s : State m)
        → Steady n s
        → Counts n (if ltb k 32 then ok Flow.next_inst (set_reg inst.rd v s) else undefined)
    shift-Counts k v inst s h = Counts-if n (ltb k 32) _ _ (set_reg-Steady inst.rd v s h) tt

    by_cmd :
        (c : Cmd) (index : ℕ) (inst : Inst) (s : State m)
        → Steady n s
        → Counts n (exec_func c index inst s)
    unfolding exec_func get_reg set_pc flush clear branch exec_add exec_addi exec_and exec_andi
        exec_auipc exec_beq exec_bge exec_bgeu exec_blt exec_bltu exec_bne exec_csrrw exec_div
        exec_divu exec_dummy exec_ecall exec_fence exec_jal exec_jalr exec_lb exec_lbu exec_lh
        exec_lhu exec_lui exec_lw exec_mul exec_mulh exec_mulhsu exec_mulhu exec_or exec_ori
        exec_rem exec_remu exec_sb exec_sh exec_sll exec_slli exec_slt exec_slti exec_sltiu
        exec_sltu exec_sra exec_srai exec_srl exec_srli exec_sub exec_sw exec_xor exec_xori
    by_cmd Cmd.beq index inst s h = h
    by_cmd Cmd.bne index inst s h = h
    by_cmd Cmd.blt index inst s h = h
    by_cmd Cmd.bge index inst s h = h
    by_cmd Cmd.bltu index inst s h = h
    by_cmd Cmd.bgeu index inst s h = h
    by_cmd Cmd.lb index inst s h = load-Counts 1 _ inst s h
    by_cmd Cmd.lh index inst s h = load-Counts 2 _ inst s h
    by_cmd Cmd.lw index inst s h = load-Counts 4 _ inst s h
    by_cmd Cmd.lbu index inst s h = load-Counts 1 _ inst s h
    by_cmd Cmd.lhu index inst s h = load-Counts 2 _ inst s h
    by_cmd Cmd.sb index inst s h = store-Counts 1 inst s h
    by_cmd Cmd.sh index inst s h = store-Counts 2 inst s h
    by_cmd Cmd.sw index inst s h = store-Counts 4 inst s h
    by_cmd Cmd.slli index inst s h = shift-Counts inst.imm _ inst s h
    by_cmd Cmd.srli index inst s h = shift-Counts inst.imm _ inst s h
    by_cmd Cmd.srai index inst s h = shift-Counts inst.imm _ inst s h
    by_cmd Cmd.sll index inst s h = shift-Counts (bit_and (urs2 inst s) 0b11111) _ inst s h
    by_cmd Cmd.srl index inst s h = shift-Counts (bit_and (urs2 inst s) 0b11111) _ inst s h
    by_cmd Cmd.sra index inst s h = shift-Counts (bit_and (urs2 inst s) 0b11111) _ inst s h
    by_cmd Cmd.ecall index inst s h =
        Counts-bind _ (exec_sys_call (get_reg a7 s) s) _ (exec_sys_call-Counts (get_reg a7 s) s h)
          (λ _ s' e. e)
    by_cmd Cmd.ebreak index inst s h = h
    by_cmd Cmd.uret index inst s h = h
    by_cmd Cmd.sret index inst s h = h
    by_cmd Cmd.mret index inst s h = h
    by_cmd Cmd.wfi index inst s h = h
    by_cmd Cmd.fence index inst s h = (h.0, tt)
    by_cmd Cmd.csrrw index inst s h = Counts-if _ (not (inst.imm == 0x180)) _ _ tt h
    by_cmd Cmd.csrrs index inst s h = h
    by_cmd Cmd.csrrc index inst s h = h
    by_cmd Cmd.csrrwi index inst s h = h
    by_cmd Cmd.csrrsi index inst s h = h
    by_cmd Cmd.csrrci index inst s h = h
    by_cmd Cmd.undefined index inst s h = tt
    by_cmd _ index inst s h = set_reg-Steady inst.rd _ s h

    pub exec_func-Counts :
        (index : ℕ) (inst : Inst) (s : State m)
        → Steady n s
        → Counts n (exec_func inst.cmd index inst s)
    exec_func-Counts index inst s h = by_cmd inst.cmd index inst s h
