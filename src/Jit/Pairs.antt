-- ===== src/Jit/Pairs.antt =====
-- Pairs of operands that the host takes, and equal operands.
use mathlib.Core.Path.{subst}
use risc_v_simulator.Base.{
  ◌≡◌, refl, sym, ◌∙◌, inl, inr, Bool, true, false, not, ◌&&◌, ◌||◌, Bool-cases, arith,
}
use risc_v_simulator.Jit.Host.{Gp, Operand, same_gp, same, is_reg, is_mem}
use risc_v_simulator.Jit.Registers.{tmp1}
use risc_v_simulator.Jit.Operands.{IsWord, IsValue}
use risc_v_simulator.Jit.Effects.{same_gp-≡, is_temp, word_mem}

pub reg_pair :
    (d s : Operand)
    → IsWord d
    → IsValue s
    → (is_reg d || is_reg s) ≡ true
    → (is_mem d && is_mem s) ≡ false
reg_pair _ _ (IsWord.reg g) v e = refl
reg_pair _ _ (IsWord.slot r) (IsValue.word (IsWord.reg g)) e = refl
reg_pair _ _ (IsWord.slot r) (IsValue.word (IsWord.slot r')) e = cc e
reg_pair _ _ (IsWord.slot r) (IsValue.imm n) e = refl

pub not_temp : (o : Operand) → is_temp o ≡ false → same o tmp1 ≡ false
not_temp o e = ground arith

-- Where reg_type would combine two memory operands.
abbrev pub is_clash : Operand → Operand → Operand → Bool
is_clash d a b = not (same d a) && not (same d b) && is_mem d && not (is_mem a) && is_mem b

no_clash :
    (da db r ma mb : Bool)
    → (not da && not db && not r && not ma && mb) ≡ false
    → da ≡ false
    → (not db && (r || not ma)) ≡ true
    → (not r && mb) ≡ false
no_clash da db r ma mb n e g = ground arith

pub pair_or : (r ma db : Bool) → (db && (r || not ma)) ≡ true → (not r && ma) ≡ false
pair_or r ma db g = ground arith

pub same_gp-sym : (g g' : Gp) → same_gp g g' ≡ same_gp g' g
same_gp-sym g g' = elim (Bool-cases (same_gp g g')) [
  | inl e ↦ subst (λ x. same_gp g x ≡ same_gp x g) (same_gp-≡ g g' e) refl
  | inr e ↦ elim (Bool-cases (same_gp g' g)) [
    | inl f ↦ sym (subst (λ x. same_gp g' x ≡ same_gp x g') (same_gp-≡ g' g f) refl)
    | inr f ↦ e ∙ sym f
  ]
]

pub same-sym : (d s : Operand) → IsWord d → IsValue s → same d s ≡ same s d
same-sym _ _ (IsWord.reg g) (IsValue.word (IsWord.reg g')) = same_gp-sym g g'
same-sym _ _ (IsWord.reg g) (IsValue.word (IsWord.slot r)) = refl
same-sym _ _ (IsWord.reg g) (IsValue.imm n) = refl
same-sym _ _ (IsWord.slot r) (IsValue.word (IsWord.reg g)) = refl
same-sym _ _ (IsWord.slot r) (IsValue.word (IsWord.slot r')) = ground arith
same-sym _ _ (IsWord.slot r) (IsValue.imm n) = refl

pub word_pair :
    (d s : Operand)
    → IsWord d
    → (not (is_reg d) && is_mem s) ≡ false
    → (is_mem d && is_mem s) ≡ false
word_pair d s w e = rw (word_mem d w) e

pub clash_pair :
    (d a b : Operand)
    → IsWord d
    → is_clash d a b ≡ false
    → same d a ≡ false
    → (not (same d b) && (is_reg d || not (is_mem a))) ≡ true
    → (is_mem d && is_mem b) ≡ false
clash_pair d a b w n f g =
    word_pair d b w
      (no_clash (same d a) (same d b) (is_reg d) (is_mem a) (is_mem b) (rw (word_mem d w) at n) f g)

pub differs : (d b : Operand) (q : Bool) → (not (same d b) && q) ≡ true → same d b ≡ false
differs d b q g = ground arith

pub not_both : (p : Bool) → (p && false) ≡ false
not_both p = ground arith

pub tmp1-IsWord : IsWord tmp1
tmp1-IsWord = IsWord.reg Gp.eax
