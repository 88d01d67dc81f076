-- ===== src/Jit/Fitting.antt =====
-- Commands that compute one register, and traces of them.
use risc_v_simulator.Base.{
  ℕ, ◌^◌, ◌≡◌, refl, ap, ◌∙◌, inl, inr, Bool, true, false, not, ◌&&◌, ◌||◌, List, [], ◌∷◌,
  Bool-cases, and_right, arith, ltb,
}
use risc_v_simulator.Isa.{Cmd}
use risc_v_simulator.Ir.{Inst, is_terminator}
use risc_v_simulator.Jit.{translate, translate_by, translate_func, translate_round, next_inst}
use risc_v_simulator.Jit.Registers.{
  Translator, Bitset, pre_work, post_work, allocate_reg, deallocate_reg,
}
use risc_v_simulator.Jit.Host.{is_reg}
use risc_v_simulator.Jit.Preserved.{List-cases}
use risc_v_simulator.Jit.Loop.{pre_work-Keeps, post_work-Keeps}
use risc_v_simulator.Jit.Immediates.{is_immediate}
use risc_v_simulator.Jit.Combinations.{is_combination, clashes}
use risc_v_simulator.Jit.Comparisons.{is_comparison, compares_zero}

-- An immediate command, a register command without two memory operands at its place, or one of the
-- comparisons, LUI and AUIPC but no comparison of x0 with an immediate.
unfoldable pub fits : Inst → Bitset → Translator → Bool
unfolding is_immediate is_combination is_comparison
fits inst live t =
    ltb inst.imm (2 ^ 32)
    && (is_immediate inst.cmd
        || is_combination inst.cmd && not (clashes (pre_work inst live t).0 inst)
        || is_comparison inst.cmd && not (compares_zero inst.cmd inst))

unfoldable pub all_fit : Bool → List Inst → List Bitset → Translator → Bool
unfolding fits
all_fit virtual [] lives t = true
all_fit virtual (inst ∷ insts) [] t = false
all_fit virtual (inst ∷ insts) (live ∷ lives) t =
    fits inst live t
    && all_fit virtual insts lives (next_inst (translate_round virtual inst live t).0)

abbrev pub computes : Cmd → Bool
computes c = is_immediate c || is_combination c || is_comparison c

-- The translator of such a command changes nothing but the code.
translate_by_same :
    (c : Cmd) (virtual : Bool) (inst : Inst) (t : Translator)
    → computes c ≡ true
    → (translate_by (translate_func c) virtual t inst).0 ≡ t
unfolding translate_func is_immediate is_combination is_comparison
translate_by_same Cmd.beq virtual inst t e = cc e
translate_by_same Cmd.bne virtual inst t e = cc e
translate_by_same Cmd.blt virtual inst t e = cc e
translate_by_same Cmd.bge virtual inst t e = cc e
translate_by_same Cmd.bltu virtual inst t e = cc e
translate_by_same Cmd.bgeu virtual inst t e = cc e
translate_by_same _ virtual inst t e = refl

pub translate_same :
    (virtual : Bool) (inst : Inst) (t : Translator)
    → computes inst.cmd ≡ true
    → (translate virtual inst t).0 ≡ t
unfolding translate
translate_same virtual inst t e = translate_by_same inst.cmd virtual inst t e

pub not_terminator :
    (c : Cmd) (inst : Inst) → computes c ≡ true → is_terminator (record inst { cmd = c }) ≡ false
unfolding is_terminator is_immediate is_combination is_comparison
not_terminator Cmd.beq inst e = cc e
not_terminator Cmd.bne inst e = cc e
not_terminator Cmd.blt inst e = cc e
not_terminator Cmd.bge inst e = cc e
not_terminator Cmd.bltu inst e = cc e
not_terminator Cmd.bgeu inst e = cc e
not_terminator Cmd.jal inst e = cc e
not_terminator Cmd.jalr inst e = cc e
not_terminator Cmd.fence inst e = cc e
not_terminator Cmd.undefined inst e = cc
not_terminator _ inst e = refl

allocate_reg_cur :
    (q : ℕ) (load : Bool) (t : Translator) → (allocate_reg q load t).0.cur_inst ≡ t.cur_inst
unfolding allocate_reg
allocate_reg_cur q load t = elim (Bool-cases (is_reg (t.reg_mapping q))) [
  | inl e ↦ rw e refl
  | inr e ↦ elim (List-cases t.reg_pool) [
    | inl empty ↦ rw (e, empty) refl
    | inr (x, xs, front) ↦ rw (e, front) refl
  ]
]

pub pre_work_cur :
    (inst : Inst) (live : Bitset) (t : Translator) → (pre_work inst live t).0.cur_inst ≡ t.cur_inst
pre_work_cur inst live t =
    pre_work-Keeps (λ t'. t'.cur_inst ≡ t.cur_inst) inst live
      (λ q load _ _ t' e. allocate_reg_cur q load t' ∙ e) t refl

deallocate_reg_cur : (q : ℕ) (t : Translator) → (deallocate_reg q true t).0.cur_inst ≡ t.cur_inst
unfolding deallocate_reg
deallocate_reg_cur q t = ground arith

post_work_cur :
    (inst : Inst) (live : Bitset) (t : Translator) → (post_work inst live t).0.cur_inst ≡ t.cur_inst
post_work_cur inst live t =
    post_work-Keeps (λ t'. t'.cur_inst ≡ t.cur_inst) inst live
      (λ q t' e. deallocate_reg_cur q t' ∙ e) t refl

pub kinds : (p q r u v : Bool) → (p || q && not u || r && not v) ≡ true → (p || q || r) ≡ true
kinds p q r u v e = ground arith

pub fits-computes :
    (inst : Inst) (live : Bitset) (t : Translator)
    → fits inst live t ≡ true
    → computes inst.cmd ≡ true
unfolding fits
fits-computes inst live t f =
    kinds (is_immediate inst.cmd) (is_combination inst.cmd) (is_comparison inst.cmd)
      (clashes (pre_work inst live t).0 inst) (compares_zero inst.cmd inst)
      (and_right (ltb inst.imm (2 ^ 32)) _ f)

pub round_cur :
    (virtual : Bool) (inst : Inst) (live : Bitset) (t : Translator)
    → computes inst.cmd ≡ true
    → (translate_round virtual inst live t).0.cur_inst ≡ t.cur_inst
unfolding translate_round
round_cur virtual inst live t c =
    let t1 = (pre_work inst live t).0 in
    post_work_cur inst live (translate virtual inst t1).0
    ∙ ap (λ t'. t'.cur_inst) (translate_same virtual inst t1 c)
    ∙ pre_work_cur inst live t
