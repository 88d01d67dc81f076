-- ===== src/Jit/Compared.antt =====
-- Comparisons of sim/translate_inst.cpp and the results that are read off the flags.
use risc_v_simulator.Base.{
  ℕ, ◌^◌, ◌<◌, ◌≡◌, refl, ap, ◌∙◌, Bool, true, [], ◌∷◌, ◌++◌, Option, none, some, arith, u32,
}
use risc_v_simulator.Lru.{HashMap}
use risc_v_simulator.Exec.Arith.{flag}
use risc_v_simulator.Jit.Host.{Gp, Field, Operand, Cond, HostInst, is_mem}
use risc_v_simulator.Jit.Registers.{tmp1}
use risc_v_simulator.Jit.Machine.{
  Machine, read32, write32, write8, set_gp, set_slot, set_if, holds, step, effect, is_form,
}
use risc_v_simulator.Jit.Templates.{compare_operands, translate_move}
use risc_v_simulator.Jit.Commands.{set_flag}
use risc_v_simulator.Jit.Operands.{
  IsWord, IsValue, Sets, Frame-trans, same_gp_refl, step-mov, write32-Sets,
}
use risc_v_simulator.Jit.Runs.{Runs, Runs-append, Runs-one}
use risc_v_simulator.Jit.Effects.{IsSource, Writes, Sets-Writes, move-Sets}
use risc_v_simulator.Jit.Arith.{Writes-trans}
use risc_v_simulator.Jit.Pairs.{not_temp, not_both, tmp1-IsWord}
use risc_v_simulator.Jit.Guest.{Idle}

cmp-form : (g : Gp) (b : Operand) → IsValue b → is_form (HostInst.cmp (Operand.gp g) b) ≡ true
unfolding is_form
cmp-form g _ (IsValue.word (IsWord.reg g')) = refl
cmp-form g _ (IsValue.word (IsWord.slot r)) = refl
cmp-form g _ (IsValue.imm n) = refl

cmp_imm-form : (a : Operand) (n : ℕ) → IsWord a → is_form (HostInst.cmp a (Operand.imm n)) ≡ true
unfolding is_form
cmp_imm-form _ n (IsWord.reg g) = refl
cmp_imm-form _ n (IsWord.slot r) = refl

setl-form : (d : Operand) → IsWord d → is_form (HostInst.setl d) ≡ true
unfolding is_form
setl-form _ (IsWord.reg g) = refl
setl-form _ (IsWord.slot r) = refl

setb-form : (d : Operand) → IsWord d → is_form (HostInst.setb d) ≡ true
unfolding is_form
setb-form _ (IsWord.reg g) = refl
setb-form _ (IsWord.slot r) = refl

flag-lt : (b : Bool) → flag b < 2 ^ 8
flag-lt b = ground arith

module _ {m : HashMap} where
  -- The flags are of a comparison of two values, and no operand but a temporary has changed.
  pub record Compares (x y : ℕ) (h h' : Machine m) : Type 0 where
    pub flags : h'.flags ≡ some (x, y)
    pub idle : Idle h h'

  write32-flags : (d : Operand) (v : ℕ) (h : Machine m) → IsWord d → (write32 d v h).flags ≡ h.flags
  unfolding write32
  write32-flags _ v h (IsWord.reg g) = refl
  write32-flags _ v h (IsWord.slot r) = refl

  -- On an operand that is 0 the low byte is the value.
  write8-zero :
      (d : Operand) (v : ℕ) (h : Machine m)
      → IsWord d
      → v < 2 ^ 8
      → write8 d v (write32 d 0 h) ≡ write32 d v (write32 d 0 h)
  unfolding write8 write32
  write8-zero _ v h (IsWord.reg g) l =
      ap (λ w. set_gp g w (set_gp g 0 h)) (rw (same_gp_refl g) (omega arith))
  write8-zero _ v h (IsWord.slot r) l = ap (λ w. set_slot r w (set_slot r 0 h)) (ground (arith, l))

  read32-flagged :
      (o : Operand) (h : Machine m) (flags : Option (ℕ × ℕ))
      → IsValue o
      → read32 o (record h { flags = flags }) ≡ read32 o h
  unfolding read32
  read32-flagged _ h flags (IsValue.word (IsWord.reg g)) = refl
  read32-flagged _ h flags (IsValue.word (IsWord.slot r)) = refl
  read32-flagged _ h flags (IsValue.imm n) = refl

  cmp-Compares :
      (a b : Operand) (h : Machine m)
      → is_form (HostInst.cmp a b) ≡ true
      → Runs (HostInst.cmp a b ∷ []) h (Compares (read32 a h) (read32 b h) h)
  unfolding step effect
  cmp-Compares a b h e =
      Runs-one (HostInst.cmp a b) h (record h { flags = some (read32 a h, read32 b h) })
        (rw (e, step) refl)
        (record {
          flags = refl;
          idle = record {
            kept = λ o v. read32-flagged o h _ v.0;
            frame = record { base = refl; rest = refl };
          };
        })

  -- A comparison of the temporary that an operand was moved to.
  tmp1-Compares :
      (a b : Operand) (h : Machine m)
      → IsSource b
      → Runs (translate_move tmp1 a) h (Sets tmp1 (read32 a h) h)
      → Runs
          (translate_move tmp1 a ++ HostInst.cmp tmp1 b ∷ [])
          h
          (Compares (read32 a h) (read32 b h) h)
  tmp1-Compares a b h v moved =
      Runs-append (translate_move tmp1 a) (HostInst.cmp tmp1 b ∷ []) h moved (λ h' p.
        let (t, r, q) = cmp-Compares tmp1 b h' (cmp-form Gp.eax b v.0) in
        (
          t,
          r,
          record {
            flags = q.flags ∙ (λ i. some (p.result i, p.others b v.0 (not_temp b v.1) i));
            idle = record {
              kept = λ o w. q.idle.kept o w ∙ p.others o w.0 (not_temp o w.1);
              frame = Frame-trans h h' t p.frame q.idle.frame;
            };
          },
        ))

  pub compare_operands-Compares :
      (a b : Operand) (h : Machine m)
      → IsSource a
      → IsSource b
      → Runs (compare_operands a b) h (Compares (read32 a h) (read32 b h) h)
  unfolding compare_operands
  compare_operands-Compares _ b h (IsValue.word (IsWord.reg g), x) v =
      cmp-Compares (Operand.gp g) b h (cmp-form g b v.0)
  compare_operands-Compares _ b h (IsValue.word (IsWord.slot r), x) v =
      tmp1-Compares (Operand.field (Field.regs r)) b h v (
        move-Sets tmp1 (Operand.field (Field.regs r)) h tmp1-IsWord (IsValue.word (IsWord.slot r))
          refl)
  compare_operands-Compares _ b h (IsValue.imm n, x) v =
      tmp1-Compares (Operand.imm n) b h v
        (move-Sets tmp1 (Operand.imm n) h tmp1-IsWord (IsValue.imm n) refl)

  pub cmp_imm-Compares :
      (a : Operand) (n : ℕ) (h : Machine m)
      → IsWord a
      → Runs (HostInst.cmp a (Operand.imm n) ∷ []) h (Compares (read32 a h) (u32 n) h)
  unfolding read32
  cmp_imm-Compares a n h w = cmp-Compares a (Operand.imm n) h (cmp_imm-form a n w)

  set_if-flags :
      (c : Cond) (d : Operand) (x y : ℕ) (h : Machine m)
      → h.flags ≡ some (x, y)
      → set_if c d h ≡ some (write8 d (flag (holds c x y)) h)
  unfolding set_if
  set_if-flags c d x y h e =
      ap
        (λ flags. elim flags as (λ o. Option (Machine m)) [
          | none ↦ none
          | some (a, b) ↦ some (write8 d (flag (holds c a b)) h)
        ])
        e

  set_if-Writes :
      (c : Cond) (d : Operand) (x y : ℕ) (h h0 : Machine m)
      → IsWord d
      → h.flags ≡ some (x, y)
      → h0 ≡ write32 d 0 h
      → (t : Machine m) × (set_if c d h0 ≡ some t) × Writes d (flag (holds c x y)) h t
  set_if-Writes c d x y h h0 w e z =
      let v = flag (holds c x y) in
      let h1 = write32 d 0 h in
      let first = Sets-Writes d 0 h h1 (write32-Sets d 0 h w (omega arith)) in
      let second =
        Sets-Writes d v h1 (write32 d v h1)
          (write32-Sets d v h1 w (omega (arith, flag-lt (holds c x y)))) in
      (
        write32 d v h1,
        ap (set_if c d) z
            ∙ set_if-flags c d x y h1 (write32-flags d 0 h w ∙ e)
            ∙ ap (λ (u : Machine m). some u) (write8-zero d v h w (flag-lt (holds c x y))),
        Writes-trans d 0 v h h1 (write32 d v h1) first second,
      )

  -- A result from the flags, by an instruction that stands for a condition.
  pub set_flag-Writes :
      (set : Operand → HostInst) (c : Cond) (d : Operand) (x y : ℕ) (h : Machine m)
      → IsWord d
      → ((h' : Machine m) → step (set d) h' ≡ set_if c d h')
      → h.flags ≡ some (x, y)
      → Runs (set_flag set d) h (Writes d (flag (holds c x y)) h)
  unfolding set_flag read32
  set_flag-Writes set c d x y h w means e =
      Runs-append (HostInst.mov d (Operand.imm 0) ∷ []) (set d ∷ []) h
        {P = λ h'. h' ≡ write32 d 0 h}
        (Runs-one (HostInst.mov d (Operand.imm 0)) h (write32 d 0 h)
          (step-mov d (Operand.imm 0) h w (IsValue.imm 0) (not_both (is_mem d))) refl)
        (λ h0 z.
          let (t, r, p) = set_if-Writes c d x y h h0 w e z in
          Runs-one (set d) h0 t (means h0 ∙ r) p)

  pub setl-means :
      (d : Operand) → IsWord d → (h : Machine m) → step (HostInst.setl d) h ≡ set_if Cond.jl d h
  unfolding step effect
  setl-means d w h = rw (setl-form d w) refl

  pub setb-means :
      (d : Operand) → IsWord d → (h : Machine m) → step (HostInst.setb d) h ≡ set_if Cond.jb d h
  unfolding step effect
  setb-means d w h = rw (setb-form d w) refl

  -- Results for x0 are dropped.
  pub set_flag_dropped :
      (set : Operand → HostInst) (h : Machine m)
      → step (set (Operand.imm 0)) h ≡ some h
      → Runs (set_flag set (Operand.imm 0)) h (Idle h)
  unfolding set_flag step is_form
  set_flag_dropped set h e =
      Runs-append (HostInst.mov (Operand.imm 0) (Operand.imm 0) ∷ []) (set (Operand.imm 0) ∷ []) h
        {P = λ h'. h' ≡ h} (Runs-one (HostInst.mov (Operand.imm 0) (Operand.imm 0)) h h refl refl)
        (λ h0 z.
          Runs-one (set (Operand.imm 0)) h0 h (ap (step (set (Operand.imm 0))) z ∙ e)
            (record { kept = λ o v. refl; frame = record { base = refl; rest = refl } }))
