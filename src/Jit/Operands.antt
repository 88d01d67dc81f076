-- ===== src/Jit/Operands.antt =====
-- Reads and writes of the operands that stand for the guest's registers.
use risc_v_simulator.Base.{
  ◌≤◌, ◌/◌, bit_xor, ℕ, zero, suc, ◌%◌, ◌^◌, ◌<◌, ◌≡◌, refl, ap, ◌∙◌, true, false, ◌&&◌, Option,
  some, arith, u32,
}
use Prim.Native.Nat.{differ}
use risc_v_simulator.Base.Bits.{bit_xor_step}
use risc_v_simulator.Lru.{HashMap}
use risc_v_simulator.State.{State}
use risc_v_simulator.Jit.Host.{Gp, Field, Operand, HostInst, same_gp, same, is_mem}
use risc_v_simulator.Jit.Machine.{Machine, read32, write32, move, effect, step, is_form}

-- A 32-bit register, or the field of a guest register.
pub data IsWord : Operand → Type 0 where
  reg : (g : Gp) → IsWord (Operand.gp g)
  slot : (r : ℕ) → IsWord (Operand.field (Field.regs r))

pub data IsValue : Operand → Type 0 where
  word : {o : Operand} → IsWord o → IsValue o
  imm : (n : ℕ) → IsValue (Operand.imm n)

pub same_gp_refl : (g : Gp) → same_gp g g ≡ true
same_gp_refl Gp.eax = refl
same_gp_refl _ = refl

differ_self : (a : ℕ) → a < 2 → differ a a ≡ 0
differ_self zero h = refl
differ_self (suc zero) h = refl
differ_self (suc (suc a)) h = absurd (omega arith)

bit_xor_self_upto : (n a : ℕ) → a ≤ n → bit_xor a a ≡ 0
bit_xor_self_upto n zero h = refl
bit_xor_self_upto zero (suc a) h = absurd (omega arith)
bit_xor_self_upto (suc n) (suc a) h = omega (
  arith,
  bit_xor_step (suc a) (suc a),
  bit_xor_self_upto n (suc a / 2) (omega arith),
  differ_self (suc a % 2) (omega arith),
)

pub bit_xor_self : (a : ℕ) → bit_xor a a ≡ 0
bit_xor_self a = bit_xor_self_upto a a (omega arith)

module _ {m : HashMap} where
  read-write_same :
      (d : Operand) (v : ℕ) (h : Machine m) → IsWord d → read32 d (write32 d v h) ≡ u32 v
  unfolding read32 write32
  read-write_same _ v h (IsWord.reg g) = rw (same_gp_refl g) (omega arith)
  read-write_same _ v h (IsWord.slot r) = ground arith

  read-write_other :
      (o d : Operand) (v : ℕ) (h : Machine m)
      → IsValue o
      → IsWord d
      → same o d ≡ false
      → read32 o (write32 d v h) ≡ read32 o h
  unfolding read32 write32
  read-write_other _ _ v h (IsValue.word (IsWord.reg g)) (IsWord.reg g') e = rw e refl
  read-write_other _ _ v h (IsValue.word (IsWord.reg g)) (IsWord.slot r) e = refl
  read-write_other _ _ v h (IsValue.word (IsWord.slot r)) (IsWord.reg g) e = refl
  read-write_other _ _ v h (IsValue.word (IsWord.slot r)) (IsWord.slot r') e = rw e refl
  read-write_other _ _ v h (IsValue.imm n) (IsWord.reg g) e = refl
  read-write_other _ _ v h (IsValue.imm n) (IsWord.slot r) e = refl

  pub read32-lt : (o : Operand) (h : Machine m) → IsValue o → read32 o h < 2 ^ 32
  unfolding read32
  read32-lt _ h (IsValue.word (IsWord.reg g)) = omega arith
  read32-lt _ h (IsValue.word (IsWord.slot r)) = omega arith
  read32-lt _ h (IsValue.imm n) = omega arith

  pub step-mov :
      (d s : Operand) (h : Machine m)
      → IsWord d
      → IsValue s
      → (is_mem d && is_mem s) ≡ false
      → step (HostInst.mov d s) h ≡ some (write32 d (read32 s h) h)
  unfolding step is_form effect move
  step-mov _ _ h (IsWord.reg g) (IsValue.word (IsWord.reg g')) e = refl
  step-mov _ _ h (IsWord.reg g) (IsValue.word (IsWord.slot r)) e = refl
  step-mov _ _ h (IsWord.reg g) (IsValue.imm n) e = refl
  step-mov _ _ h (IsWord.slot r) (IsValue.word (IsWord.reg g)) e = refl
  step-mov _ _ h (IsWord.slot r) (IsValue.word (IsWord.slot r')) e = cc e
  step-mov _ _ h (IsWord.slot r) (IsValue.imm n) e = refl

  -- Only host registers, flags and guest registers differ.
  pub record Frame (h h' : Machine m) : Type 0 where
    pub base : h'.mem_base ≡ h.mem_base
    pub rest : h'.state ≡ record h.state { regs = h'.state.regs }

  -- One operand has a new value, and no other changes.
  pub record Sets (d : Operand) (v : ℕ) (h h' : Machine m) : Type 0 where
    pub result : read32 d h' ≡ v
    pub others : (o : Operand) → IsValue o → same o d ≡ false → read32 o h' ≡ read32 o h
    pub frame : Frame h h'

  pub Frame-trans : (h h' h'' : Machine m) → Frame h h' → Frame h' h'' → Frame h h''
  Frame-trans h h' h'' f g = record {
    base = g.base ∙ f.base;
    rest = g.rest ∙ ap (λ (s : State m). record s { regs = h''.state.regs }) f.rest;
  }

  write32-Frame : (d : Operand) (v : ℕ) (h : Machine m) → IsWord d → Frame h (write32 d v h)
  unfolding write32
  write32-Frame _ v h (IsWord.reg g) = record { base = refl; rest = refl }
  write32-Frame _ v h (IsWord.slot r) = record { base = refl; rest = refl }

  pub write32-Sets :
      (d : Operand) (v : ℕ) (h : Machine m) → IsWord d → v < 2 ^ 32 → Sets d v h (write32 d v h)
  write32-Sets d v h w small = record {
    result = read-write_same d v h w ∙ omega arith;
    others = λ o p e. read-write_other o d v h p w e;
    frame = write32-Frame d v h w;
  }

  -- The flags do not show in the operands.
  read32-flags :
      (o : Operand) (h : Machine m) (flags : Option (ℕ × ℕ))
      → IsValue o
      → read32 o (record h { flags = flags }) ≡ read32 o h
  unfolding read32
  read32-flags _ h flags (IsValue.word (IsWord.reg g)) = refl
  read32-flags _ h flags (IsValue.word (IsWord.slot r)) = refl
  read32-flags _ h flags (IsValue.imm n) = refl

  pub Sets-flags :
      (d : Operand) (v : ℕ) (h h' : Machine m) (flags : Option (ℕ × ℕ))
      → Sets d v (record h { flags = flags }) h'
      → Sets d v h h'
  Sets-flags d v h h' flags s = record {
    result = s.result;
    others = λ o p e. s.others o p e ∙ read32-flags o h flags p;
    frame = record { base = s.frame.base; rest = s.frame.rest };
  }
