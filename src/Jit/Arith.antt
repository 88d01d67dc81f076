-- ===== src/Jit/Arith.antt =====
-- What the templates of sim/translate_inst.cpp for arithmetic compute.
use mathlib.Core.Path.{subst}
use risc_v_simulator.Base.{
  ℕ, ◌≡◌, refl, sym, ◌∙◌, inl, inr, true, false, not, ◌&&◌, ◌||◌, [], ◌∷◌, Bool-cases, u32,
}
use risc_v_simulator.Lru.{HashMap}
use risc_v_simulator.Jit.Host.{Operand, Op, HostInst, same, is_reg, is_mem}
use risc_v_simulator.Jit.Registers.{tmp1}
use risc_v_simulator.Jit.Machine.{Machine, read32, is_form, is_shift, apply}
use risc_v_simulator.Jit.Templates.{translate_move, move_between, imm_type, reg_type}
use risc_v_simulator.Jit.Operands.{IsWord, IsValue, Sets, Frame-trans}
use risc_v_simulator.Jit.Runs.{Runs, Runs-append, op2-Runs}
use risc_v_simulator.Jit.Effects.{
  IsPlace, IsSource, Writes, Sets-Writes, same-read32, move-Sets, imm-form, op2-form,
}
use risc_v_simulator.Jit.Pairs.{
  reg_pair, not_temp, is_clash, pair_or, same-sym, word_pair, clash_pair, differs, not_both,
  tmp1-IsWord,
}

module _ {m : HashMap} where
  -- Two writes of one operand, and a write after one of a temporary.
  pub Writes-trans :
      (d : Operand) (u v : ℕ) (h h' h'' : Machine m)
      → Writes d u h h'
      → Writes d v h' h''
      → Writes d v h h''
  Writes-trans d u v h h' h'' p q = record {
    result = q.result;
    others = λ o s e. q.others o s e ∙ p.others o s e;
    frame = Frame-trans h h' h'' p.frame q.frame;
  }

  Writes-tmp1 :
      (d : Operand) (u v : ℕ) (h h' h'' : Machine m)
      → Sets tmp1 u h h'
      → Writes d v h' h''
      → Writes d v h h''
  Writes-tmp1 d u v h h' h'' p q = record {
    result = q.result;
    others = λ o s e. q.others o s e ∙ p.others o s.0 (not_temp o s.1);
    frame = Frame-trans h h' h'' p.frame q.frame;
  }

  pub Writes-value :
      (d : Operand) (u v : ℕ) (h h' : Machine m) → u ≡ v → Writes d u h h' → Writes d v h h'
  Writes-value d u v h h' e p = subst (λ w. Writes d w h h') e p

  -- A move, directly or through TMP1.
  pub move-Writes :
      (d s : Operand) (h : Machine m)
      → IsWord d
      → IsValue s
      → (is_mem d && is_mem s) ≡ false
      → Runs (translate_move d s) h (Writes d (read32 s h) h)
  move-Writes d s h w v e =
      let (h', r, p) = move-Sets d s h w v e in (h', r, Sets-Writes d (read32 s h) h h' p)

  pub move_from_tmp1 :
      (d : Operand) (u : ℕ) (h h' : Machine m)
      → IsWord d
      → Sets tmp1 u h h'
      → Runs (translate_move d tmp1) h' (Writes d u h)
  move_from_tmp1 d u h h' w p =
      let (h'', r, q) = move-Writes d tmp1 h' w (IsValue.word tmp1-IsWord) (not_both (is_mem d)) in
      (h'', r, Writes-value d _ u h h'' p.result (Writes-tmp1 d u _ h h' h'' p q))

  pub move_between-Writes :
      (d s : Operand) (h : Machine m)
      → IsWord d
      → IsValue s
      → Runs (move_between d s) h (Writes d (read32 s h) h)
  unfolding move_between
  move_between-Writes d s h w v = elim (Bool-cases (is_reg d || is_reg s)) [
    | inl direct ↦ rw direct (move-Writes d s h w v (reg_pair d s w v direct))
    | inr indirect ↦ rw indirect (
        Runs-append (translate_move tmp1 s) (translate_move d tmp1) h
          (move-Sets tmp1 s h tmp1-IsWord v refl) (λ h' p. move_from_tmp1 d (read32 s h) h h' w p))
  ]

  op2-Writes :
      (op : Op) (d s : Operand) (h : Machine m)
      → IsWord d
      → IsValue s
      → is_form (HostInst.op2 op d s) ≡ true
      → Runs (HostInst.op2 op d s ∷ []) h (Writes d (apply op (read32 d h) (read32 s h)) h)
  op2-Writes op d s h w v e =
      let (h', r, p) = op2-Runs op d s h w v e in (h', r, Sets-Writes d _ h h' p)

  -- An operation on an operand that was just written.
  op2_after :
      (op : Op) (d s : Operand) (x y : ℕ) (h h' : Machine m)
      → IsWord d
      → IsValue s
      → is_form (HostInst.op2 op d s) ≡ true
      → Writes d x h h'
      → read32 s h' ≡ y
      → Runs (HostInst.op2 op d s ∷ []) h' (Writes d (apply op x y) h)
  op2_after op d s x y h h' w v e p f =
      let (h'', r, q) = op2-Writes op d s h' w v e in
      (
        h'',
        r,
        Writes-value d _ (apply op x y) h h'' (rw (p.result, f) refl)
            (Writes-trans d x _ h h' h'' p q),
      )

  -- On a register or a guest register's field, the template of the immediate commands computes
  -- the operation of the first source and the immediate.
  pub imm_type-Writes :
      (op : Op) (d a : Operand) (n : ℕ) (h : Machine m)
      → IsPlace d
      → IsSource a
      → Runs (imm_type op d a (Operand.imm n)) h (Writes d (apply op (read32 a h) (u32 n)) h)
  unfolding imm_type read32
  imm_type-Writes op d a n h w v = elim (Bool-cases (same d a)) [
    | inl e ↦
        rw (e, sym (same-read32 d a h (IsValue.word w.0) v.0 e))
          (op2-Writes op d (Operand.imm n) h w.0 (IsValue.imm n) (imm-form op d n w.0))
    | inr e ↦ rw e (
        Runs-append (move_between d a) (HostInst.op2 op d (Operand.imm n) ∷ []) h
          (move_between-Writes d a h w.0 v.0)
          (λ h' p.
            op2_after op d (Operand.imm n) (read32 a h) (u32 n) h h' w.0 (IsValue.imm n)
              (imm-form op d n w.0) p refl))
  ]

  op2_tmp1 :
      (op : Op) (a b d : Operand) (h h' : Machine m)
      → IsPlace d
      → IsSource b
      → is_shift op ≡ false
      → Sets tmp1 (read32 a h) h h'
      → Runs
          (HostInst.op2 op tmp1 b ∷ translate_move d tmp1)
          h'
          (Writes d (apply op (read32 a h) (read32 b h)) h)
  op2_tmp1 op a b d h h' w v e p =
      let e' = p.others b v.0 (not_temp b v.1) in
      Runs-append (HostInst.op2 op tmp1 b ∷ []) (translate_move d tmp1) h'
        (op2-Runs op tmp1 b h' tmp1-IsWord v.0 (op2-form op tmp1 b tmp1-IsWord v.0 e refl))
        (λ h'' q.
          let (t, r, z) = move_from_tmp1 d _ h' h'' w.0 q in
          (t, r, Writes-value d _ _ h t (rw (p.result, e') refl) (Writes-tmp1 d _ _ h h' t p z)))

  op2_of_tmp1 :
      (op : Op) (d a b : Operand) (h h' : Machine m)
      → IsPlace d
      → IsSource a
      → is_shift op ≡ false
      → same d a ≡ true
      → Sets tmp1 (read32 b h) h h'
      → Runs (HostInst.op2 op d tmp1 ∷ []) h' (Writes d (apply op (read32 a h) (read32 b h)) h)
  op2_of_tmp1 op d a b h h' w v e f p =
      let (t, r, z) =
        op2-Writes op d tmp1 h' w.0 (IsValue.word tmp1-IsWord)
          (op2-form op d tmp1 w.0 (IsValue.word tmp1-IsWord) e (not_both (is_mem d))) in
      let kept =
        p.others d (IsValue.word w.0) (not_temp d w.1)
        ∙ same-read32 d a h (IsValue.word w.0) v.0 f in
      (t, r, Writes-value d _ _ h t (rw (p.result, kept) refl) (Writes-tmp1 d _ _ h h' t p z))

  -- Unless it would combine two memory operands, the template of the register commands computes
  -- the operation of both sources, also where the destination is one of them.
  pub reg_type-Writes :
      (op : Op) (d a b : Operand) (h : Machine m)
      → IsPlace d
      → IsSource a
      → IsSource b
      → is_shift op ≡ false
      → is_clash d a b ≡ false
      → Runs (reg_type op d a b) h (Writes d (apply op (read32 a h) (read32 b h)) h)
  unfolding reg_type
  reg_type-Writes op d a b h w v k e n = elim (Bool-cases (same d a)) [
    | inl f ↦ elim (Bool-cases (is_reg d || is_reg b)) [
      | inl g ↦
          rw (f, g, sym (same-read32 d a h (IsValue.word w.0) v.0 f))
            (op2-Writes op d b h w.0 k.0 (op2-form op d b w.0 k.0 e (reg_pair d b w.0 k.0 g)))
      | inr g ↦
          rw (f, g)
            (Runs-append (translate_move tmp1 b) (HostInst.op2 op d tmp1 ∷ []) h
              (move-Sets tmp1 b h tmp1-IsWord k.0 refl)
              (λ h' p. op2_of_tmp1 op d a b h h' w v e f p))
    ]
    | inr f ↦ elim (Bool-cases (not (same d b) && (is_reg d || not (is_mem a)))) [
      | inl g ↦
          rw (f, g)
            (Runs-append (translate_move d a) (HostInst.op2 op d b ∷ []) h
              (move-Writes d a h w.0 v.0
                (word_pair d a w.0 (pair_or (is_reg d) (is_mem a) (not (same d b)) g)))
              (λ h' p.
                op2_after op d b (read32 a h) (read32 b h) h h' w.0 k.0
                  (op2-form op d b w.0 k.0 e (clash_pair d a b w.0 n f g)) p
                  (p.others b k (sym (same-sym d b w.0 k.0) ∙ differs d b _ g))))
      | inr g ↦
          rw (f, g)
            (Runs-append (translate_move tmp1 a) (HostInst.op2 op tmp1 b ∷ translate_move d tmp1) h
              (move-Sets tmp1 a h tmp1-IsWord v.0 refl) (λ h' p. op2_tmp1 op a b d h h' w k e p))
    ]
  ]
