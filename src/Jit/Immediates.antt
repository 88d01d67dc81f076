-- ===== src/Jit/Immediates.antt =====
-- The translated immediate commands against the handlers of sim/exec_inst.cpp.
use risc_v_simulator.Base.{
  if-true, if-false, ℕ, ◌+◌, ◌^◌, ◌<◌, ◌≡◌, refl, ap, sym, ◌∙◌, inl, inr, Bool, true, false, ◌==◌,
  List, [], if◌then◌else◌, ltb, Bool-cases, arith, u32,
}
use risc_v_simulator.Outcome.{ok, undefined}
use risc_v_simulator.Isa.{Cmd}
use risc_v_simulator.Ir.{Inst}
use risc_v_simulator.Lru.{HashMap}
use risc_v_simulator.State.{State, get_reg, set_reg}
use risc_v_simulator.Exec.{exec_func}
use risc_v_simulator.Exec.Operand.{Flow}
use risc_v_simulator.Exec.Arith.{
  exec_addi, exec_xori, exec_ori, exec_andi, exec_slli, exec_srli, exec_srai,
}
use risc_v_simulator.Jit.{translate, translate_func, translate_by}
use risc_v_simulator.Jit.Host.{Operand, Op, HostInst, is_reg, is_mem}
use risc_v_simulator.Jit.Registers.{Translator, tmp1}
use risc_v_simulator.Jit.Registers
use risc_v_simulator.Jit.Machine.{Machine, perform, step, is_form, read32, apply}
use risc_v_simulator.Jit.Templates.{
  rs1_of, rd_of, imm_of, translate_imm_type, translate_move, move_between,
}
use risc_v_simulator.Jit.Commands.{translate_addi}
use risc_v_simulator.Jit.Operands.{IsValue, Frame-trans, read32-lt}
use risc_v_simulator.Jit.Runs.{Runs, Runs-append}
use risc_v_simulator.Jit.Effects.{IsPlace, IsSource, Writes, move-Sets}
use risc_v_simulator.Jit.Arith.{imm_type-Writes, move-Writes, move_between-Writes}
use risc_v_simulator.Jit.Pairs.{not_both, not_temp, tmp1-IsWord}
use risc_v_simulator.Jit.Guest.{
  get_reg-zero, set_reg-zero, Reaches-code, Reaches-state, Reaches-Idle, Idle, IsMapped,
  IsPlace-get_reg, IsSource-get_reg, guest, Reaches, Reaches-Writes,
}
use risc_v_simulator.Jit.Values.{
  apply-add, u32-of_ℤ64, apply-shl, apply-shr, apply-sar, next-injective,
}

-- The commands of the immediate templates.
unfoldable pub is_immediate : Cmd → Bool
is_immediate Cmd.addi = true
is_immediate Cmd.xori = true
is_immediate Cmd.ori = true
is_immediate Cmd.andi = true
is_immediate Cmd.slli = true
is_immediate Cmd.srli = true
is_immediate Cmd.srai = true
is_immediate _ = false

module _ {m : HashMap} where
  -- Moves to an immediate are dropped.
  pub move_dropped :
      (s : Operand) (h : Machine m) → Runs (translate_move (Operand.imm 0) s) h (Idle h)
  unfolding translate_move perform step is_form
  move_dropped s h =
      (h, refl, record { kept = λ o v. refl; frame = record { base = refl; rest = refl } })

  pub move_between_dropped :
      (s : Operand) (h : Machine m) → IsSource s → Runs (move_between (Operand.imm 0) s) h (Idle h)
  unfolding move_between
  move_between_dropped s h v = elim (Bool-cases (is_reg s)) [
    | inl e ↦ rw e (move_dropped s h)
    | inr e ↦ rw e (
        Runs-append (translate_move tmp1 s) (translate_move (Operand.imm 0) tmp1) h
          (move-Sets tmp1 s h tmp1-IsWord v.0 refl)
          (λ h' p.
            let (t, r, q) = move_dropped tmp1 h' in
            (
              t,
              r,
              record {
                kept = λ o w. q.kept o w ∙ p.others o w.0 (not_temp o w.1);
                frame = Frame-trans h h' t p.frame q.frame;
              },
            )))
  ]

  -- Code that writes RD, unless that is x0.
  pub rd-Reaches :
      (t : Translator) (r v w : ℕ) (code : Operand → List HostInst) (h : Machine m)
      → IsMapped t
      → v ≡ w
      → Runs (code (Operand.imm 0)) h (Idle h)
      → ((d : Operand) → IsPlace d → Runs (code d) h (Writes d v h))
      → Reaches t (code (Registers.get_reg r t)) h (set_reg r w (guest t h))
  rd-Reaches t r v w code h k e idle write = elim (Bool-cases (r == 0)) [
    | inl z ↦
        Reaches-code t (code (Registers.get_reg r t)) (code (Operand.imm 0)) h _
          (ap code (get_reg-zero t r z))
          (Reaches-state t _ h _ _ (sym (set_reg-zero r w (guest t h) z))
            (Reaches-Idle t _ h k idle))
    | inr n ↦
        Reaches-Writes t r v w (code (Registers.get_reg r t)) h k n e
          (write (Registers.get_reg r t) (IsPlace-get_reg t k r n))
  ]

  imm_type-Reaches :
      (op : Op) (t : Translator) (inst : Inst) (v : ℕ) (h : Machine m)
      → IsMapped t
      → inst.imm < 2 ^ 32
      → apply op (read32 (rs1_of t inst) h) inst.imm ≡ v
      → Reaches t (translate_imm_type op t inst) h (set_reg inst.rd v (guest t h))
  unfolding translate_imm_type perform
  imm_type-Reaches op t inst v h k l e = elim (Bool-cases (inst.rd == 0)) [
    | inl z ↦
        Reaches-code t _ [] h _ (if-true (inst.rd == 0) _ _ z)
          (Reaches-state t [] h _ _ (sym (set_reg-zero inst.rd v (guest t h) z)) (h, refl, refl))
    | inr n ↦ Reaches-code t _ _ h _ (if-false (inst.rd == 0) _ _ n) (
        Reaches-Writes t inst.rd _ v _ h k n
          (ap (apply op (read32 (rs1_of t inst) h)) (u32-of_ℤ64 inst.imm l) ∙ e)
          (imm_type-Writes op (rd_of t inst) (rs1_of t inst) _ h (IsPlace-get_reg t k inst.rd n)
            (IsSource-get_reg t k inst.rs1)))
  ]

  addi_zero :
      (t : Translator) (inst : Inst) (h : Machine m)
      → inst.imm < 2 ^ 32
      → (inst.rs1 == 0) ≡ true
      → read32 (imm_of inst) h ≡ u32 (read32 (rs1_of t inst) h + inst.imm)
  unfolding read32
  addi_zero t inst h l z = rw z (u32-of_ℤ64 inst.imm l ∙ omega (arith, l))

  addi_move :
      (t : Translator) (inst : Inst) (h : Machine m)
      → IsMapped t
      → (inst.imm == 0) ≡ true
      → read32 (rs1_of t inst) h ≡ u32 (read32 (rs1_of t inst) h + inst.imm)
  addi_move t inst h k z =
      let small = read32-lt (rs1_of t inst) h (IsSource-get_reg t k inst.rs1).0 in
      ground (arith, small)

  addi-Reaches :
      (t : Translator) (inst : Inst) (h : Machine m)
      → IsMapped t
      → inst.imm < 2 ^ 32
      → Reaches t
          (translate_addi t inst)
          h
          (set_reg inst.rd (u32 (read32 (rs1_of t inst) h + inst.imm)) (guest t h))
  unfolding translate_addi
  addi-Reaches t inst h k l = elim (Bool-cases (inst.rs1 == 0)) [
    | inl z ↦ Reaches-code t _ _ h _ (if-true (inst.rs1 == 0) _ _ z) (
        rd-Reaches t inst.rd _ _ (λ d. translate_move d (imm_of inst)) h k (addi_zero t inst h l z)
          (move_dropped (imm_of inst) h)
          (λ d w. move-Writes d (imm_of inst) h w.0 (IsValue.imm _) (not_both (is_mem d))))
    | inr y ↦
        Reaches-code t _ _ h _ (if-false (inst.rs1 == 0) _ _ y) (elim (Bool-cases (inst.imm == 0)) [
          | inl z ↦ Reaches-code t _ _ h _ (if-true (inst.imm == 0) _ _ z) (
              rd-Reaches t inst.rd _ _ (λ d. move_between d (rs1_of t inst)) h k
                (addi_move t inst h k z)
                (move_between_dropped (rs1_of t inst) h (IsSource-get_reg t k inst.rs1))
                (λ d w.
                  move_between-Writes d (rs1_of t inst) h w.0 (IsSource-get_reg t k inst.rs1).0))
          | inr n ↦ Reaches-code t _ _ h _ (if-false (inst.imm == 0) _ _ n) (
              imm_type-Reaches Op.add t inst _ h k l
                (apply-add (read32 (rs1_of t inst) h) inst.imm))
        ])
  ]

  -- A shift that the handler does not leave undefined.
  shift_small :
      (n : ℕ) (s s' : State m)
      → (if ltb n 32 then ok Flow.next_inst s else undefined) ≡ ok Flow.next_inst s'
      → (n < 32) × (s ≡ s')
  shift_small n s s' e = ground arith

  shift-Reaches :
      (op : Op) (t : Translator) (inst : Inst) (v : ℕ) (h : Machine m) (s : State m)
      → IsMapped t
      → inst.imm < 2 ^ 32
      → (inst.imm < 32 → apply op (read32 (rs1_of t inst) h) inst.imm ≡ v)
      → (if ltb inst.imm 32 then ok Flow.next_inst (set_reg inst.rd v (guest t h)) else undefined)
        ≡ ok Flow.next_inst s
      → Reaches t (translate_imm_type op t inst) h s
  shift-Reaches op t inst v h s k l f e =
      let (small, same) = shift_small inst.imm (set_reg inst.rd v (guest t h)) s e in
      Reaches-state t _ h _ s same (imm_type-Reaches op t inst v h k l (f small))

  by_cmd :
      (c : Cmd) (virtual : Bool) (t : Translator) (inst : Inst) (h : Machine m) (s : State m)
      → IsMapped t
      → inst.imm < 2 ^ 32
      → is_immediate c ≡ true
      → exec_func c t.cur_inst inst (guest t h) ≡ ok Flow.next_inst s
      → Reaches t (translate_by (translate_func c) virtual t inst).1 h s
  unfolding exec_func translate_func exec_addi exec_xori exec_ori exec_andi exec_slli exec_srli
      exec_srai get_reg apply is_immediate
  by_cmd Cmd.addi virtual t inst h s k l i e =
      Reaches-state t _ h _ s (next-injective _ s e) (addi-Reaches t inst h k l)
  by_cmd Cmd.xori virtual t inst h s k l i e =
      Reaches-state t _ h _ s (next-injective _ s e) (imm_type-Reaches Op.xor t inst _ h k l refl)
  by_cmd Cmd.ori virtual t inst h s k l i e =
      Reaches-state t _ h _ s (next-injective _ s e) (imm_type-Reaches Op.or t inst _ h k l refl)
  by_cmd Cmd.andi virtual t inst h s k l i e =
      Reaches-state t _ h _ s (next-injective _ s e) (imm_type-Reaches Op.and t inst _ h k l refl)
  by_cmd Cmd.slli virtual t inst h s k l i e =
      shift-Reaches Op.shl t inst _ h s k l (apply-shl (read32 (rs1_of t inst) h) inst.imm) e
  by_cmd Cmd.srli virtual t inst h s k l i e =
      shift-Reaches Op.shr t inst _ h s k l (apply-shr (read32 (rs1_of t inst) h) inst.imm) e
  by_cmd Cmd.srai virtual t inst h s k l i e =
      shift-Reaches Op.sar t inst _ h s k l
        (apply-sar (read32 (rs1_of t inst) h) inst.imm
          (read32-lt (rs1_of t inst) h (IsSource-get_reg t k inst.rs1).0))
        e
  by_cmd _ virtual t inst h s k l i e = cc i

  -- The emitted code of ADDI, XORI, ORI, ANDI, SLLI, SRLI and SRAI runs to its end, wherever the
  -- registers of the guest are kept, and leaves the guest in the state that the handler returns.
  pub translate_immediate-exec :
      (virtual : Bool) (t : Translator) (inst : Inst) (h : Machine m) (s : State m)
      → IsMapped t
      → inst.imm < 2 ^ 32
      → is_immediate inst.cmd ≡ true
      → exec_func inst.cmd t.cur_inst inst (guest t h) ≡ ok Flow.next_inst s
      → Reaches t (translate virtual inst t).1 h s
  unfolding translate
  translate_immediate-exec virtual t inst h s k l i e = by_cmd inst.cmd virtual t inst h s k l i e
