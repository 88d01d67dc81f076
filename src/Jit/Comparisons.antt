-- ===== src/Jit/Comparisons.antt =====
-- The translated comparisons, LUI and AUIPC against the handlers of sim/exec_inst.cpp.
use risc_v_simulator.Base.{
  ℕ, ◌+◌, ◌^◌, ◌<◌, ◌≡◌, refl, ap, ◌∙◌, Bool, true, false, ◌==◌, List, [], ◌∷◌, ◌++◌, some, u32,
  arith,
}
use risc_v_simulator.Outcome.{ok}
use risc_v_simulator.Isa.{Cmd}
use risc_v_simulator.Ir.{Inst}
use risc_v_simulator.Lru.{HashMap}
use risc_v_simulator.State.{State, get_reg, set_reg}
use risc_v_simulator.Exec.{exec_func}
use risc_v_simulator.Exec.Operand.{Flow}
use risc_v_simulator.Exec.Arith.{
  flag, exec_lui, exec_auipc, exec_slti, exec_sltiu, exec_slt, exec_sltu,
}
use risc_v_simulator.Jit.{translate, translate_func, translate_by}
use risc_v_simulator.Jit.Host.{Operand, Op, Cond, HostInst, is_mem}
use risc_v_simulator.Jit.Registers.{Translator, tmp1, get_pc, get_offset}
use risc_v_simulator.Jit.Machine.{
  Machine, read32, holds, step, set_if, is_form, effect, move, apply,
}
use risc_v_simulator.Jit.Templates.{rs1_of, rs2_of, rd_of, compare_operands, translate_move}
use risc_v_simulator.Jit.Commands.{
  set_flag, translate_lui, translate_auipc, translate_slti, translate_sltiu, translate_slt,
  translate_sltu,
}
use risc_v_simulator.Jit.Operands.{IsWord, IsValue, Sets, write32-Sets, Frame-trans}
use risc_v_simulator.Jit.Runs.{Runs, Runs-one, op2-Runs, Runs-append}
use risc_v_simulator.Jit.Effects.{Writes, imm-form}
use risc_v_simulator.Jit.Arith.{move-Writes, move_from_tmp1}
use risc_v_simulator.Jit.Pairs.{not_both, not_temp, tmp1-IsWord}
use risc_v_simulator.Jit.Guest.{
  Idle, IsMapped, IsPlace-get_reg, IsSource-get_reg, guest, Reaches, Reaches-state,
}
use risc_v_simulator.Jit.Immediates.{move_dropped, rd-Reaches}
use risc_v_simulator.Jit.Values.{u32-of_ℤ64, next-injective}
use risc_v_simulator.Jit.Compared.{
  Compares, compare_operands-Compares, cmp_imm-Compares, set_flag-Writes, set_flag_dropped,
  setl-means, setb-means,
}

-- The comparisons, and the two commands with a long immediate.
unfoldable pub is_comparison : Cmd → Bool
is_comparison Cmd.slt = true
is_comparison Cmd.sltu = true
is_comparison Cmd.slti = true
is_comparison Cmd.sltiu = true
is_comparison Cmd.lui = true
is_comparison Cmd.auipc = true
is_comparison _ = false

-- The command compares an immediate with x0, for which the host has no instruction.
unfoldable pub compares_zero : Cmd → Inst → Bool
compares_zero Cmd.slti inst = inst.rs1 == 0
compares_zero Cmd.sltiu inst = inst.rs1 == 0
compares_zero _ inst = false

small : (n : ℕ) → n < 2 ^ 32 → u32 n ≡ n
small n h = omega arith

module _ {m : HashMap} where
  Idle-Writes :
      (d : Operand) (v : ℕ) (h h' h'' : Machine m)
      → Idle h h'
      → Writes d v h' h''
      → Writes d v h h''
  Idle-Writes d v h h' h'' p q = record {
    result = q.result;
    others = λ o s e. q.others o s e ∙ p.kept o s;
    frame = Frame-trans h h' h'' p.frame q.frame;
  }

  Idle-trans : (h h' h'' : Machine m) → Idle h h' → Idle h' h'' → Idle h h''
  Idle-trans h h' h'' p q = record {
    kept = λ o s. q.kept o s ∙ p.kept o s;
    frame = Frame-trans h h' h'' p.frame q.frame;
  }

  -- Code that compares two values, and the result of the comparison in RD.
  set_flag-Reaches :
      (set : Operand → HostInst) (c : Cond) (t : Translator) (inst : Inst) (x y : ℕ)
      (code : List HostInst) (h : Machine m)
      → IsMapped t
      → ((d : Operand) → IsWord d → (h' : Machine m) → step (set d) h' ≡ set_if c d h')
      → ((h' : Machine m) → step (set (Operand.imm 0)) h' ≡ some h')
      → Runs code h (Compares x y h)
      → Reaches t
          (code ++ set_flag set (rd_of t inst))
          h
          (set_reg inst.rd (flag (holds c x y)) (guest t h))
  set_flag-Reaches set c t inst x y code h k means drops run =
      rd-Reaches t inst.rd _ _ (λ d. code ++ set_flag set d) h k refl
        (Runs-append code (set_flag set (Operand.imm 0)) h run (λ h' p.
          let (h'', r, q) = set_flag_dropped set h' (drops h') in
          (h'', r, Idle-trans h h' h'' p.idle q)))
        (λ d w. Runs-append code (set_flag set d) h run (λ h' p.
          let (h'', r, q) = set_flag-Writes set c d x y h' w.0 (means d w.0) p.flags in
          (h'', r, Idle-Writes d _ h h' h'' p.idle q)))

  setl-Reaches :
      (t : Translator) (inst : Inst) (x y : ℕ) (code : List HostInst) (h : Machine m)
      → IsMapped t
      → Runs code h (Compares x y h)
      → Reaches t
          (code ++ set_flag HostInst.setl (rd_of t inst))
          h
          (set_reg inst.rd (flag (holds Cond.jl x y)) (guest t h))
  unfolding step is_form
  setl-Reaches t inst x y code h k run =
      set_flag-Reaches HostInst.setl Cond.jl t inst x y code h k setl-means (λ h'. refl) run

  setb-Reaches :
      (t : Translator) (inst : Inst) (x y : ℕ) (code : List HostInst) (h : Machine m)
      → IsMapped t
      → Runs code h (Compares x y h)
      → Reaches t
          (code ++ set_flag HostInst.setb (rd_of t inst))
          h
          (set_reg inst.rd (flag (holds Cond.jb x y)) (guest t h))
  unfolding step is_form
  setb-Reaches t inst x y code h k run =
      set_flag-Reaches HostInst.setb Cond.jb t inst x y code h k setb-means (λ h'. refl) run

  compared :
      (t : Translator) (inst : Inst) (h : Machine m)
      → IsMapped t
      → Runs
          (compare_operands (rs1_of t inst) (rs2_of t inst))
          h
          (Compares (read32 (rs1_of t inst) h) (read32 (rs2_of t inst) h) h)
  compared t inst h k =
      compare_operands-Compares (rs1_of t inst) (rs2_of t inst) h (IsSource-get_reg t k inst.rs1)
        (IsSource-get_reg t k inst.rs2)

  -- A comparison of RS1 with an immediate operand that stands for IMM.
  compared_imm :
      (t : Translator) (inst : Inst) (n : ℕ) (h : Machine m)
      → IsMapped t
      → (inst.rs1 == 0) ≡ false
      → u32 n ≡ inst.imm
      → Runs
          (HostInst.cmp (rs1_of t inst) (Operand.imm n) ∷ [])
          h
          (Compares (read32 (rs1_of t inst) h) inst.imm h)
  compared_imm t inst n h k z e =
      let (h', r, p) = cmp_imm-Compares (rs1_of t inst) n h (IsPlace-get_reg t k inst.rs1 z).0 in
      (
        h',
        r,
        record { flags = p.flags ∙ ap (λ y. some (read32 (rs1_of t inst) h, y)) e; idle = p.idle },
      )

  lui-Reaches :
      (t : Translator) (inst : Inst) (h : Machine m)
      → IsMapped t
      → inst.imm < 2 ^ 32
      → Reaches t (translate_lui t inst) h (set_reg inst.rd inst.imm (guest t h))
  unfolding translate_lui read32
  lui-Reaches t inst h k l =
      rd-Reaches t inst.rd _ inst.imm (λ d. translate_move d (Operand.imm inst.imm)) h k
        (small inst.imm l) (move_dropped (Operand.imm inst.imm) h)
        (λ d w. move-Writes d (Operand.imm inst.imm) h w.0 (IsValue.imm _) (not_both (is_mem d)))

  Sets-trans :
      (d : Operand) (u v : ℕ) (h h' h'' : Machine m)
      → Sets d u h h'
      → Sets d v h' h''
      → Sets d v h h''
  Sets-trans d u v h h' h'' p q = record {
    result = q.result;
    others = λ o s e. q.others o s e ∙ p.others o s e;
    frame = Frame-trans h h' h'' p.frame q.frame;
  }

  read_pc : (h : Machine m) → Runs (translate_move tmp1 get_pc) h (Sets tmp1 (u32 h.state.pc) h)
  unfolding translate_move step is_form effect move read32
  read_pc h =
      Runs-one (HostInst.mov tmp1 get_pc) h _ refl
        (write32-Sets tmp1 (u32 h.state.pc) h tmp1-IsWord (omega arith))

  -- The pc and a number, in TMP1.
  add_to_pc :
      (n : ℕ) (h h' : Machine m)
      → Sets tmp1 (u32 h.state.pc) h h'
      → Runs (HostInst.op2 Op.add tmp1 (Operand.imm n) ∷ []) h' (Sets tmp1 (u32 (h.state.pc + n)) h)
  unfolding apply read32
  add_to_pc n h h' p =
      let (t, r, q) =
        op2-Runs Op.add tmp1 (Operand.imm n) h' tmp1-IsWord (IsValue.imm n)
          (imm-form Op.add tmp1 n tmp1-IsWord) in
      let q' = Sets-trans tmp1 _ _ h h' t p q in
      (
        t,
        r,
        record {
          result = q'.result ∙ omega (arith, p.result);
          others = q'.others;
          frame = q'.frame;
        },
      )

  auipc-Reaches :
      (t : Translator) (inst : Inst) (h : Machine m)
      → IsMapped t
      → Reaches t
          (translate_auipc t inst)
          h
          (set_reg inst.rd (u32 (h.state.pc + (get_offset t + inst.imm))) (guest t h))
  unfolding translate_auipc
  auipc-Reaches t inst h k =
      let n = get_offset t + inst.imm in
      rd-Reaches t inst.rd _ _
        (λ d.
          translate_move tmp1 get_pc
          ++ HostInst.op2 Op.add tmp1 (Operand.imm n) ∷ translate_move d tmp1)
        h k refl
        (Runs-append (translate_move tmp1 get_pc)
          (HostInst.op2 Op.add tmp1 (Operand.imm n) ∷ translate_move (Operand.imm 0) tmp1) h
          (read_pc h)
          (λ h1 p.
            Runs-append (HostInst.op2 Op.add tmp1 (Operand.imm n) ∷ [])
              (translate_move (Operand.imm 0) tmp1) h1 (add_to_pc n h h1 p)
              (λ h2 q.
                let (h3, r, z) = move_dropped tmp1 h2 in
                (
                  h3,
                  r,
                  Idle-trans h h2 h3
                      (record { kept = λ o v. q.others o v.0 (not_temp o v.1); frame = q.frame }) z,
                ))))
        (λ d w.
          Runs-append (translate_move tmp1 get_pc)
            (HostInst.op2 Op.add tmp1 (Operand.imm n) ∷ translate_move d tmp1) h (read_pc h)
            (λ h1 p.
              Runs-append (HostInst.op2 Op.add tmp1 (Operand.imm n) ∷ []) (translate_move d tmp1) h1
                (add_to_pc n h h1 p) (λ h2 q. move_from_tmp1 d _ h h2 w.0 q)))

  by_cmd :
      (c : Cmd) (virtual : Bool) (t : Translator) (inst : Inst) (h : Machine m) (s : State m)
      → IsMapped t
      → inst.imm < 2 ^ 32
      → is_comparison c ≡ true
      → compares_zero c inst ≡ false
      → exec_func c t.cur_inst inst (guest t h) ≡ ok Flow.next_inst s
      → Reaches t (translate_by (translate_func c) virtual t inst).1 h s
  unfolding exec_func translate_func exec_lui exec_auipc exec_slti exec_sltiu exec_slt exec_sltu
      get_reg holds is_comparison compares_zero translate_slti translate_sltiu translate_slt
      translate_sltu
  by_cmd Cmd.slt virtual t inst h s k l i z e =
      Reaches-state t _ h _ s (next-injective _ s e)
        (setl-Reaches t inst _ _ _ h k (compared t inst h k))
  by_cmd Cmd.sltu virtual t inst h s k l i z e =
      Reaches-state t _ h _ s (next-injective _ s e)
        (setb-Reaches t inst _ _ _ h k (compared t inst h k))
  by_cmd Cmd.slti virtual t inst h s k l i z e =
      Reaches-state t _ h _ s (next-injective _ s e)
        (setl-Reaches t inst _ _ _ h k (compared_imm t inst _ h k z (u32-of_ℤ64 inst.imm l)))
  by_cmd Cmd.sltiu virtual t inst h s k l i z e =
      Reaches-state t _ h _ s (next-injective _ s e)
        (setb-Reaches t inst _ _ _ h k (compared_imm t inst _ h k z (small inst.imm l)))
  by_cmd Cmd.lui virtual t inst h s k l i z e =
      Reaches-state t _ h _ s (next-injective _ s e) (lui-Reaches t inst h k l)
  by_cmd Cmd.auipc virtual t inst h s k l i z e = Reaches-state t _ h _ s (next-injective _ s e) (
      Reaches-state t _ h _ _ (ap (λ v. set_reg inst.rd v (guest t h)) (omega arith))
        (auipc-Reaches t inst h k))
  by_cmd _ virtual t inst h s k l i z e = cc i

  -- The emitted code of SLT, SLTU, SLTI, SLTIU, LUI and AUIPC runs to its end and leaves the guest in the
  -- state that the handler returns, unless SLTI or SLTIU compares x0.
  pub translate_comparison-exec :
      (virtual : Bool) (t : Translator) (inst : Inst) (h : Machine m) (s : State m)
      → IsMapped t
      → inst.imm < 2 ^ 32
      → is_comparison inst.cmd ≡ true
      → compares_zero inst.cmd inst ≡ false
      → exec_func inst.cmd t.cur_inst inst (guest t h) ≡ ok Flow.next_inst s
      → Reaches t (translate virtual inst t).1 h s
  unfolding translate
  translate_comparison-exec virtual t inst h s k l i z e =
      by_cmd inst.cmd virtual t inst h s k l i z e
