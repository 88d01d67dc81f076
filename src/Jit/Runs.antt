-- ===== src/Jit/Runs.antt =====
-- Runs of emitted code, and what the moves and the operations set.
use mathlib.Core.Option.{some-injective}
use native.Mathlib.Nat.{one-le-pow, div-le_self}
use risc_v_simulator.Base.Bits.{bit_xor-lt, bit_or-lt, bit_and-lt}
use risc_v_simulator.Base.{
  ℤ, pos, negsuc, signed32, ℕ, ◌%◌, ◌^◌, ◌<◌, ◌≤◌, ◌≡◌, refl, sym, ◌∙◌, inl, inr, true, false, ◌&&◌,
  List, [], ◌∷◌, ◌++◌, some, none, arith,
}
use risc_v_simulator.Lru.{HashMap}
use risc_v_simulator.Lru.Front.{Option-cases}
use risc_v_simulator.Exec.Operand.{of_ℤ32}
use risc_v_simulator.Exec.Shifts.{floor_shift}
use risc_v_simulator.Jit.Host.{Operand, Op, HostInst, is_mem}
use risc_v_simulator.Jit.Machine.{Machine, read32, write32, effect, step, perform, is_form, apply}
use risc_v_simulator.Jit.Operands.{
  IsWord, IsValue, Sets, step-mov, write32-Sets, read32-lt, Sets-flags,
}

half_power : (n : ℕ) → 1 ≤ 2 ^ n
half_power n = one-le-pow n 2 (omega arith)

of_ℤ32-lt : (z : ℤ) → of_ℤ32 z < 2 ^ 32
of_ℤ32-lt (pos n) = omega arith
of_ℤ32-lt (negsuc n) = omega arith

-- The results of the operations are 32-bit words.
apply-lt : (op : Op) (a b : ℕ) → a < 2 ^ 32 → b < 2 ^ 32 → apply op a b < 2 ^ 32
unfolding apply
apply-lt Op.add a b h k = omega arith
apply-lt Op.sub a b h k = omega arith
apply-lt Op.xor a b h k = bit_xor-lt 32 a b h k
apply-lt Op.or a b h k = bit_or-lt 32 a b h k
apply-lt Op.and a b h k = bit_and-lt 32 a b h k
apply-lt Op.shl a b h k = omega arith
apply-lt Op.shr a b h k = omega (arith, div-le_self a (2 ^ (b % 32)))
apply-lt Op.sar a b h k = of_ℤ32-lt (floor_shift (signed32 a) (b % 32))

module _ {m : HashMap} where
  -- Code that runs to its end and does something.
  abbrev pub Runs : List HostInst → Machine m → (Machine m → Type 0) → Type 0
  Runs code h P = (h' : Machine m) × (perform code h ≡ some h') × P h'

  perform-step :
      (x : HostInst) (xs : List HostInst) (h t : Machine m)
      → step x h ≡ some t
      → perform (x ∷ xs) h ≡ perform xs t
  unfolding perform
  perform-step x xs h t e = rw (e, perform) refl

  perform-append :
      (xs ys : List HostInst) (h h' : Machine m)
      → perform xs h ≡ some h'
      → perform (xs ++ ys) h ≡ perform ys h'
  unfolding perform
  perform-append [] ys h h' e = rw (some-injective h h' e) refl
  perform-append (x ∷ xs) ys h h' e = elim (Option-cases (step x h)) [
    | inl stuck ↦ cc (rw (stuck, perform) at e)
    | inr (t, s) ↦
        perform-step x (xs ++ ys) h t s
        ∙ perform-append xs ys t h' (sym (perform-step x xs h t s) ∙ e)
  ]

  pub Runs-append :
      (xs ys : List HostInst) (h : Machine m) {P Q : Machine m → Type 0}
      → Runs xs h P
      → ((h' : Machine m) → P h' → Runs ys h' Q)
      → Runs (xs ++ ys) h Q
  Runs-append xs ys h (h', e, p) k =
      let (h'', e', q) = k h' p in (h'', perform-append xs ys h h' e ∙ e', q)

  pub Runs-one :
      (i : HostInst) (h h' : Machine m) {P : Machine m → Type 0}
      → step i h ≡ some h'
      → P h'
      → Runs (i ∷ []) h P
  unfolding perform
  Runs-one i h h' e p = (h', rw (e, perform) refl, p)

  step-op2 :
      (op : Op) (d s : Operand) (h : Machine m)
      → IsWord d
      → IsValue s
      → is_form (HostInst.op2 op d s) ≡ true
      → step (HostInst.op2 op d s) h
        ≡ some (write32 d (apply op (read32 d h) (read32 s h)) (record h { flags = none }))
  unfolding step effect
  step-op2 op d s h w v e = rw e refl

  pub op2-Runs :
      (op : Op) (d s : Operand) (h : Machine m)
      → IsWord d
      → IsValue s
      → is_form (HostInst.op2 op d s) ≡ true
      → Runs (HostInst.op2 op d s ∷ []) h (Sets d (apply op (read32 d h) (read32 s h)) h)
  op2-Runs op d s h w v e = Runs-one (HostInst.op2 op d s) h _ (step-op2 op d s h w v e) (
      Sets-flags d _ h _ none (
        write32-Sets d _ (record h { flags = none }) w
          (apply-lt op (read32 d h) (read32 s h) (read32-lt d h (IsValue.word w))
            (read32-lt s h v))))

  pub mov-Runs :
      (d s : Operand) (h : Machine m)
      → IsWord d
      → IsValue s
      → (is_mem d && is_mem s) ≡ false
      → Runs (HostInst.mov d s ∷ []) h (Sets d (read32 s h) h)
  mov-Runs d s h w v e =
      Runs-one (HostInst.mov d s) h _ (step-mov d s h w v e)
        (write32-Sets d (read32 s h) h w (read32-lt s h v))
