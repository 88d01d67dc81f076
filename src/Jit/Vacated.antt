-- ===== src/Jit/Vacated.antt =====
-- deallocateAllRegs of sim/jit.cpp: all registers of the guest are back in sim::State.
use mathlib.Core.Path.{subst}
use risc_v_simulator.Base.{
  ℕ, zero, suc, ◌+◌, ◌≤◌, ◌<◌, ◌≡◌, sym, refl, inl, inr, true, ◌==◌, ==_iff, Bool-cases, arith,
}
use risc_v_simulator.Lru.{HashMap}
use risc_v_simulator.Jit.Registers.{
  Translator, reg_mem_op, deallocate_reg, deallocate_from, deallocate_all_regs,
}
use risc_v_simulator.Jit.Machine.{Machine}
use risc_v_simulator.Jit.Host.{Operand, is_mem}
use risc_v_simulator.Jit.Allocation.{IsHome, IsAllocated}
use risc_v_simulator.Jit.Preserved.{deallocate_reg-IsAllocated}
use risc_v_simulator.Jit.Spill.{Carries, deallocate_from-Carries}

-- A guest register lies in its field of the state.
abbrev pub IsInMemory : ℕ → Translator → Type 0
IsInMemory r t = t.reg_mapping r ≡ reg_mem_op r

home_memory : (r : ℕ) (o : Operand) → IsHome r o → is_mem o ≡ true → o ≡ reg_mem_op r
home_memory r _ (IsHome.host g a) e = cc e
home_memory r _ IsHome.memory e = refl

deallocate_reg_self :
    (r : ℕ) (t : Translator) → IsAllocated t → IsInMemory r (deallocate_reg r true t).0
unfolding deallocate_reg
deallocate_reg_self r t k = elim (Bool-cases (is_mem (t.reg_mapping r))) [
  | inl e ↦ rw e (home_memory r (t.reg_mapping r) (k.home r) e)
  | inr e ↦ rw e (ground arith)
]

deallocate_reg-kept :
    (q r : ℕ) (t : Translator) → IsInMemory r t → IsInMemory r (deallocate_reg q true t).0
unfolding deallocate_reg
deallocate_reg-kept q r t e = ground (arith, e)

deallocate_from-kept :
    (n q r : ℕ) (t : Translator) → IsInMemory r t → IsInMemory r (deallocate_from n q t).0
unfolding deallocate_from
deallocate_from-kept zero q r t e = e
deallocate_from-kept (suc n) q r t e =
    deallocate_from-kept n (suc q) r (deallocate_reg q true t).0 (deallocate_reg-kept q r t e)

deallocate_from-IsInMemory :
    (n q r : ℕ) (t : Translator)
    → IsAllocated t
    → q ≤ r
    → r < q + n
    → IsInMemory r (deallocate_from n q t).0
unfolding deallocate_from
deallocate_from-IsInMemory zero q r t k l h = absurd (omega arith)
deallocate_from-IsInMemory (suc n) q r t k l h =
    let t' = (deallocate_reg q true t).0 in
    elim (Bool-cases (r == q)) [
      | inl e ↦
          let same = (==_iff r q).0 e in
          deallocate_from-kept n (suc q) r t'
            (subst (λ x. IsInMemory x t') (sym same) (deallocate_reg_self q t k))
      | inr e ↦
          deallocate_from-IsInMemory n (suc q) r t' (deallocate_reg-IsAllocated q true t k)
            (ground (arith, e)) (omega arith)
    ]

-- deallocateAllRegs, in front of a jump back to the start of the trace: the emitted moves run to
-- their end, every guest register has its value in its new place and the rest of the guest's state is
-- unchanged; and the new place of each register but x0 is its field of the state.
pub deallocate_all_regs-IsInMemory :
    {m : HashMap} (t : Translator) (h : Machine m)
    → IsAllocated t
    → Carries deallocate_all_regs t h
      × ((r : ℕ) → 0 < r → r < 32 → IsInMemory r (deallocate_all_regs t).0)
unfolding deallocate_all_regs
deallocate_all_regs-IsInMemory t h k = (
  deallocate_from-Carries 31 1 t h k,
  λ r p l. deallocate_from-IsInMemory 31 1 r t k (omega arith) (omega arith),
)
