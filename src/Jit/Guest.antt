-- ===== src/Jit/Guest.antt =====
-- The guest's registers as translated code keeps them, in host registers and in sim::State.
use mathlib.Core.Path.{fun_ext, subst}
use risc_v_simulator.Base.{
  ℕ, ◌≡◌, refl, ap, sym, ◌∙◌, inl, inr, true, false, ◌==◌, ==_iff, List, if◌then◌else◌, Bool-cases,
}
use risc_v_simulator.Lru.{HashMap}
use risc_v_simulator.State.{State, set_reg}
use risc_v_simulator.Jit.Host.{Operand, HostInst, same}
use risc_v_simulator.Jit.Registers.{Translator, get_reg}
use risc_v_simulator.Jit.Machine.{Machine, read32}
use risc_v_simulator.Jit.Operands.{IsWord, IsValue, Frame}
use risc_v_simulator.Jit.Runs.{Runs}
use risc_v_simulator.Jit.Effects.{IsPlace, IsSource, Writes}

-- Each guest register but x0 has a place of its own that is no temporary.
pub record IsMapped (t : Translator) : Type 0 where
  pub place : (r : ℕ) → IsPlace (t.reg_mapping r)
  pub apart : (r r' : ℕ) → (r == r') ≡ false → same (t.reg_mapping r) (t.reg_mapping r') ≡ false

imm_word : (n : ℕ) (o : Operand) → IsWord o → same (Operand.imm n) o ≡ false
imm_word n _ (IsWord.reg g) = refl
imm_word n _ (IsWord.slot r) = refl

pub get_reg-zero : (t : Translator) (r : ℕ) → (r == 0) ≡ true → get_reg r t ≡ Operand.imm 0
get_reg-zero t r e = rw e refl

module _ (t : Translator) (k : IsMapped t) where
  pub IsSource-get_reg : (r : ℕ) → IsSource (get_reg r t)
  IsSource-get_reg r = elim (Bool-cases (r == 0)) [
    | inl e ↦ rw e (IsValue.imm 0, refl)
    | inr e ↦ rw e (IsValue.word (k.place r).0, (k.place r).1)
  ]

  pub IsPlace-get_reg : (r : ℕ) → (r == 0) ≡ false → IsPlace (get_reg r t)
  IsPlace-get_reg r e = rw e (k.place r)

  apart-get_reg :
      (r r' : ℕ) → (r' == 0) ≡ false → (r == r') ≡ false → same (get_reg r t) (get_reg r' t) ≡ false
  apart-get_reg r r' n e = rw n (elim (Bool-cases (r == 0)) [
    | inl z ↦ rw z (imm_word 0 (t.reg_mapping r') (k.place r').0)
    | inr z ↦ rw z (k.apart r r' e)
  ])

-- The state that the interpreter would have: the registers from their places.
abbrev pub guest : {m : HashMap} → Translator → Machine m → State m
guest t h = record h.state { regs = λ r. read32 (get_reg r t) h }

module _ {m : HashMap} where
  guest_reg :
      (t : Translator) (r v : ℕ) (h h' : Machine m)
      → IsMapped t
      → (r == 0) ≡ false
      → Writes (get_reg r t) v h h'
      → (r' : ℕ) → read32 (get_reg r' t) h' ≡ (if r' == r then v else read32 (get_reg r' t) h)
  guest_reg t r v h h' k n p r' = elim (Bool-cases (r' == r)) [
    | inl e ↦ rw e (ap (λ x. read32 (get_reg x t) h') ((==_iff r' r).0 e) ∙ p.result)
    | inr e ↦ rw e (p.others (get_reg r' t) (IsSource-get_reg t k r') (apart-get_reg t k r' r n e))
  ]

  -- A write of a register's place is a write of the register.
  guest-Writes :
      (t : Translator) (r v : ℕ) (h h' : Machine m)
      → IsMapped t
      → (r == 0) ≡ false
      → Writes (get_reg r t) v h h'
      → guest t h' ≡ set_reg r v (guest t h)
  unfolding set_reg
  guest-Writes t r v h h' k n p = rw n (
      ap (λ (s : State m). record s { regs = λ r'. read32 (get_reg r' t) h' }) p.frame.rest
      ∙ ap (λ regs. record h.state { regs = regs }) (fun_ext (guest_reg t r v h h' k n p)))

  -- Nothing but a temporary was written.
  pub record Idle (h h' : Machine m) : Type 0 where
    pub kept : (o : Operand) → IsSource o → read32 o h' ≡ read32 o h
    pub frame : Frame h h'

  guest-Idle : (t : Translator) (h h' : Machine m) → IsMapped t → Idle h h' → guest t h' ≡ guest t h
  guest-Idle t h h' k p =
      ap (λ (s : State m). record s { regs = λ r. read32 (get_reg r t) h' }) p.frame.rest
      ∙ ap (λ regs. record h.state { regs = regs })
          (fun_ext (λ r. p.kept (get_reg r t) (IsSource-get_reg t k r)))

  -- Code that runs to its end and leaves a guest state.
  abbrev pub Reaches : Translator → List HostInst → Machine m → State m → Type 0
  Reaches t code h s = Runs code h (λ h'. guest t h' ≡ s)

  pub Reaches-Writes :
      (t : Translator) (r v w : ℕ) (code : List HostInst) (h : Machine m)
      → IsMapped t
      → (r == 0) ≡ false
      → v ≡ w
      → Runs code h (Writes (get_reg r t) v h)
      → Reaches t code h (set_reg r w (guest t h))
  Reaches-Writes t r v w code h k n e (h', run, p) =
      (h', run, guest-Writes t r v h h' k n p ∙ ap (λ x. set_reg r x (guest t h)) e)

  pub set_reg-zero : (r v : ℕ) (s : State m) → (r == 0) ≡ true → set_reg r v s ≡ s
  unfolding set_reg
  set_reg-zero r v s e = rw e refl

  pub Reaches-code :
      (t : Translator) (code code' : List HostInst) (h : Machine m) (s : State m)
      → code ≡ code'
      → Reaches t code' h s
      → Reaches t code h s
  Reaches-code t code code' h s e p = subst (λ c. Reaches t c h s) (sym e) p

  pub Reaches-state :
      (t : Translator) (code : List HostInst) (h : Machine m) (s s' : State m)
      → s ≡ s'
      → Reaches t code h s
      → Reaches t code h s'
  Reaches-state t code h s s' e (h', r, p) = (h', r, p ∙ e)

  pub Reaches-Idle :
      (t : Translator) (code : List HostInst) (h : Machine m)
      → IsMapped t
      → Runs code h (Idle h)
      → Reaches t code h (guest t h)
  Reaches-Idle t code h k (h', r, p) = (h', r, guest-Idle t h h' k p)
