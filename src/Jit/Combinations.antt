-- ===== src/Jit/Combinations.antt =====
-- The translated register commands against the handlers of sim/exec_inst.cpp.
use mathlib.Core.Path.{ap₂, subst}
use risc_v_simulator.Base.{
  ◌≡◌, refl, ap, sym, ◌∙◌, inl, inr, Bool, true, false, ◌||◌, ◌==◌, [], ◌++◌, if◌then◌else◌,
  Bool-cases, if-true, if-false,
}
use risc_v_simulator.Outcome.{ok}
use risc_v_simulator.Isa.{Cmd}
use risc_v_simulator.Ir.{Inst}
use risc_v_simulator.Lru.{HashMap}
use risc_v_simulator.State.{State, get_reg, set_reg}
use risc_v_simulator.Exec.{exec_func}
use risc_v_simulator.Exec.Operand.{Flow}
use risc_v_simulator.Exec.Arith.{exec_add, exec_sub, exec_xor, exec_or, exec_and}
use risc_v_simulator.Jit.{translate, translate_func, translate_by}
use risc_v_simulator.Jit.Host.{Operand, Op, same}
use risc_v_simulator.Jit.Registers.{Translator}
use risc_v_simulator.Jit.Machine.{Machine, perform, read32, apply, is_shift}
use risc_v_simulator.Jit.Templates.{
  rs1_of, rs2_of, rd_of, move_between, reg_type, translate_reg_type,
}
use risc_v_simulator.Jit.Commands.{translate_add}
use risc_v_simulator.Jit.Operands.{IsValue}
use risc_v_simulator.Jit.Runs.{Runs, Runs-append}
use risc_v_simulator.Jit.Effects.{IsPlace, IsSource, Writes, same-read32}
use risc_v_simulator.Jit.Arith.{reg_type-Writes, move_between-Writes, Writes-trans, Writes-value}
use risc_v_simulator.Jit.Pairs.{is_clash}
use risc_v_simulator.Jit.Guest.{
  get_reg-zero, set_reg-zero, Reaches-code, Reaches-state, Reaches-Idle, IsMapped, IsPlace-get_reg,
  IsSource-get_reg, guest, Reaches, Reaches-Writes,
}
use risc_v_simulator.Jit.Immediates.{move_between_dropped}
use risc_v_simulator.Jit.Values.{next-injective}

-- The commands of the register template.
unfoldable pub is_combination : Cmd → Bool
is_combination Cmd.add = true
is_combination Cmd.sub = true
is_combination Cmd.xor = true
is_combination Cmd.or = true
is_combination Cmd.and = true
is_combination _ = false

-- The command would combine two guest registers that both lie in memory, as described there.
abbrev pub clashes : Translator → Inst → Bool
clashes t inst = is_clash (rd_of t inst) (rs1_of t inst) (rs2_of t inst)

-- The operand that ADD moves where one source is x0.
abbrev add_source : Translator → Inst → Operand
add_source t inst = if inst.rs1 == 0 then rs2_of t inst else rs1_of t inst

IsSource-add_source : (t : Translator) (inst : Inst) → IsMapped t → IsSource (add_source t inst)
IsSource-add_source t inst k = elim (Bool-cases (inst.rs1 == 0)) [
  | inl z ↦ rw z (IsSource-get_reg t k inst.rs2)
  | inr n ↦ subst IsSource (sym (if-false (inst.rs1 == 0) _ _ n)) (IsSource-get_reg t k inst.rs1)
]

module _ {m : HashMap} where
  reg_type-Reaches :
      (op : Op) (t : Translator) (inst : Inst) (h : Machine m)
      → IsMapped t
      → is_shift op ≡ false
      → clashes t inst ≡ false
      → Reaches t (translate_reg_type op t inst) h (
          set_reg inst.rd
            (apply op (read32 (rs1_of t inst) h) (read32 (rs2_of t inst) h))
            (guest t h))
  unfolding translate_reg_type perform
  reg_type-Reaches op t inst h k e c = elim (Bool-cases (inst.rd == 0)) [
    | inl z ↦
        Reaches-code t _ [] h _ (if-true (inst.rd == 0) _ _ z)
          (Reaches-state t [] h _ _ (sym (set_reg-zero inst.rd _ (guest t h) z)) (h, refl, refl))
    | inr n ↦ Reaches-code t _ _ h _ (if-false (inst.rd == 0) _ _ n) (
        Reaches-Writes t inst.rd _ _ _ h k n refl (
          reg_type-Writes op (rd_of t inst) (rs1_of t inst) (rs2_of t inst) h
            (IsPlace-get_reg t k inst.rd n) (IsSource-get_reg t k inst.rs1)
            (IsSource-get_reg t k inst.rs2) e c))
  ]

  -- A register that was moved has its value still.
  moved_kept :
      (d s : Operand) (h h' : Machine m)
      → IsPlace d
      → IsSource s
      → Writes d (read32 s h) h h'
      → read32 s h' ≡ read32 s h
  moved_kept d s h h' w v p = elim (Bool-cases (same s d)) [
    | inl e ↦ same-read32 s d h' v.0 (IsValue.word w.0) e ∙ p.result
    | inr e ↦ p.others s v e
  ]

  add_after :
      (d a b s : Operand) (h : Machine m)
      → IsPlace d
      → IsSource a
      → IsSource b
      → IsSource s
      → is_clash d a b ≡ false
      → ((h' : Machine m)
          → read32 s h' ≡ read32 s h
          → (read32 a h' ≡ read32 a h) × (read32 b h' ≡ read32 b h))
      → Runs
          (move_between d s ++ reg_type Op.add d a b)
          h
          (Writes d (apply Op.add (read32 a h) (read32 b h)) h)
  add_after d a b s h w v u y c f =
      Runs-append (move_between d s) (reg_type Op.add d a b) h (move_between-Writes d s h w.0 y.0)
        (λ h' p.
          let (ka, kb) = f h' (moved_kept d s h h' w y p) in
          let (t, r, q) = reg_type-Writes Op.add d a b h' w v u refl c in
          (t, r, Writes-value d _ _ h t (rw (ka, kb) refl) (Writes-trans d _ _ h h' t p q)))

  add_kept :
      (t : Translator) (inst : Inst) (h h' : Machine m)
      → (inst.rs1 == 0 || inst.rs2 == 0) ≡ true
      → read32 (add_source t inst) h' ≡ read32 (add_source t inst) h
      → (read32 (rs1_of t inst) h' ≡ read32 (rs1_of t inst) h)
        × (read32 (rs2_of t inst) h' ≡ read32 (rs2_of t inst) h)
  unfolding read32
  add_kept t inst h h' z e = elim (Bool-cases (inst.rs1 == 0)) [
    | inl y ↦ (rw y refl, rw y at e)
    | inr y ↦ (
      sym (ap (λ o. read32 o h') (if-false (inst.rs1 == 0) _ _ y))
          ∙ e
          ∙ ap (λ o. read32 o h) (if-false (inst.rs1 == 0) _ _ y),
      rw (rw y at z) refl,
    )
  ]

  add_moved :
      (t : Translator) (inst : Inst) (h : Machine m)
      → IsMapped t
      → (inst.rs1 == 0 || inst.rs2 == 0) ≡ true
      → clashes t inst ≡ false
      → Reaches t
          (move_between (rd_of t inst) (add_source t inst) ++ translate_reg_type Op.add t inst)
          h
          (set_reg inst.rd
            (apply Op.add (read32 (rs1_of t inst) h) (read32 (rs2_of t inst) h))
            (guest t h))
  unfolding translate_reg_type perform
  add_moved t inst h k z c = elim (Bool-cases (inst.rd == 0)) [
    | inl y ↦
        Reaches-code t _ (move_between (Operand.imm 0) (add_source t inst) ++ []) h _
          (ap₂ (λ d code. move_between d (add_source t inst) ++ code) (get_reg-zero t inst.rd y)
            (if-true (inst.rd == 0) _ _ y))
          (Reaches-state t _ h _ _ (sym (set_reg-zero inst.rd _ (guest t h) y)) (
            Reaches-Idle t _ h k (
              Runs-append (move_between (Operand.imm 0) (add_source t inst)) [] h
                (move_between_dropped (add_source t inst) h (IsSource-add_source t inst k))
                (λ h' p. (h', refl, p)))))
    | inr n ↦
        Reaches-code t _ _ h _
          (ap (λ code. move_between (rd_of t inst) (add_source t inst) ++ code)
            (if-false (inst.rd == 0) _ _ n))
          (Reaches-Writes t inst.rd _ _ _ h k n refl (
            add_after (rd_of t inst) (rs1_of t inst) (rs2_of t inst) (add_source t inst) h
              (IsPlace-get_reg t k inst.rd n) (IsSource-get_reg t k inst.rs1)
              (IsSource-get_reg t k inst.rs2) (IsSource-add_source t inst k) c
              (λ h' e. add_kept t inst h h' z e)))
  ]

  add-Reaches :
      (t : Translator) (inst : Inst) (h : Machine m)
      → IsMapped t
      → clashes t inst ≡ false
      → Reaches t (translate_add t inst) h (
          set_reg inst.rd
            (apply Op.add (read32 (rs1_of t inst) h) (read32 (rs2_of t inst) h))
            (guest t h))
  unfolding translate_add
  add-Reaches t inst h k c = elim (Bool-cases (inst.rs1 == 0 || inst.rs2 == 0)) [
    | inl z ↦
        Reaches-code t _ _ h _
          (ap (λ code. code ++ translate_reg_type Op.add t inst)
            (if-true (inst.rs1 == 0 || inst.rs2 == 0) _ _ z))
          (add_moved t inst h k z c)
    | inr n ↦
        Reaches-code t _ _ h _
          (ap (λ code. code ++ translate_reg_type Op.add t inst)
            (if-false (inst.rs1 == 0 || inst.rs2 == 0) _ _ n))
          (reg_type-Reaches Op.add t inst h k refl c)
  ]

  by_cmd :
      (c : Cmd) (virtual : Bool) (t : Translator) (inst : Inst) (h : Machine m) (s : State m)
      → IsMapped t
      → is_combination c ≡ true
      → clashes t inst ≡ false
      → exec_func c t.cur_inst inst (guest t h) ≡ ok Flow.next_inst s
      → Reaches t (translate_by (translate_func c) virtual t inst).1 h s
  unfolding exec_func translate_func exec_add exec_sub exec_xor exec_or exec_and get_reg apply
      is_combination
  by_cmd Cmd.add virtual t inst h s k i n e =
      Reaches-state t _ h _ s (next-injective _ s e) (add-Reaches t inst h k n)
  by_cmd Cmd.sub virtual t inst h s k i n e =
      Reaches-state t _ h _ s (next-injective _ s e) (reg_type-Reaches Op.sub t inst h k refl n)
  by_cmd Cmd.xor virtual t inst h s k i n e =
      Reaches-state t _ h _ s (next-injective _ s e) (reg_type-Reaches Op.xor t inst h k refl n)
  by_cmd Cmd.or virtual t inst h s k i n e =
      Reaches-state t _ h _ s (next-injective _ s e) (reg_type-Reaches Op.or t inst h k refl n)
  by_cmd Cmd.and virtual t inst h s k i n e =
      Reaches-state t _ h _ s (next-injective _ s e) (reg_type-Reaches Op.and t inst h k refl n)
  by_cmd _ virtual t inst h s k i n e = cc i

  -- The emitted code of ADD, SUB, XOR, OR and AND runs to its end and leaves the guest in the state
  -- that the handler returns, unless RD and RS2 are distinct registers in memory, neither is RS1,
  -- and RS1 is in a host register or x0.
  pub translate_combination-exec :
      (virtual : Bool) (t : Translator) (inst : Inst) (h : Machine m) (s : State m)
      → IsMapped t
      → is_combination inst.cmd ≡ true
      → clashes t inst ≡ false
      → exec_func inst.cmd t.cur_inst inst (guest t h) ≡ ok Flow.next_inst s
      → Reaches t (translate virtual inst t).1 h s
  unfolding translate
  translate_combination-exec virtual t inst h s k i n e = by_cmd inst.cmd virtual t inst h s k i n e
