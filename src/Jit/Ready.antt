-- ===== src/Jit/Ready.antt =====
-- The pre-work of sim/jit.cpp, as the guest sees it.
use mathlib.Core.Path.{subst}
use risc_v_simulator.Base.{
  ℕ, ◌≡◌, refl, sym, ◌∙◌, inl, inr, Bool, true, false, not, ◌&&◌, ◌||◌, ◌==◌, ==_iff, [],
  Bool-cases, arith,
}
use risc_v_simulator.Ir.{Inst, is_rs1, is_rs2, is_rd}
use risc_v_simulator.Lru.{HashMap}
use risc_v_simulator.Jit.Registers.{Translator, Emits, Bitset, allocate_reg, when, ◌>>>◌, pre_work}
use risc_v_simulator.Jit.Machine.{Machine, perform}
use risc_v_simulator.Jit.Runs.{Runs, Runs-append}
use risc_v_simulator.Jit.Allocation.{IsAllocated}
use risc_v_simulator.Jit.Guest.{guest}
use risc_v_simulator.Jit.Fill.{
  IsServed, IsServed-when, when-IsServed, allocate_reg-again, IsNear, IsReady, IsReady-refl,
  reserve, loads-Carries,
}

asked :
    (p : Bool) (q d : ℕ) (live : Bitset)
    → p ≡ true
    → (q == d) ≡ true
    → (d == 0) ≡ false
    → live d ≡ true
    → (p && not (q == 0) && live q) ≡ true
asked p q d live e s n l = rw (e, (==_iff q d).0 s, n, l) refl

both : (p q : Bool) → (p && q) ≡ true → (p ≡ true) × (q ≡ true)
both p q e = ground arith

other : (p q : Bool) → (p || q) ≡ true → p ≡ false → q ≡ true
other p q e n = ground arith

apart : (p q : Bool) → (p && q) ≡ false → p ≡ true → q ≡ false
apart p q e f = ground arith

neither : (p q : Bool) → (p || q) ≡ false → (p ≡ false) × (q ≡ false)
neither p q e = ground arith

destination : (p z l : Bool) → (p && not z && l) ≡ true → (z ≡ false) × (l ≡ true)
destination p z l e = ground arith

module _ (inst : Inst) (live : Bitset) where
  abbrev test1 : Bool
  test1 = is_rs1 inst && not (inst.rs1 == 0) && live inst.rs1

  abbrev test2 : Bool
  test2 = is_rs2 inst && not (inst.rs2 == 0) && live inst.rs2

  abbrev loads : Translator → Emits
  loads = when test1 (allocate_reg inst.rs1 true) >>> when test2 (allocate_reg inst.rs2 true)

  abbrev is_source : Bool
  is_source = is_rs1 inst && inst.rs1 == inst.rd || is_rs2 inst && inst.rs2 == inst.rd

  served :
      (t : Translator)
      → (inst.rd == 0) ≡ false
      → live inst.rd ≡ true
      → is_source ≡ true
      → IsServed inst.rd (loads t).0
  served t n l e = elim (Bool-cases (is_rs1 inst && inst.rs1 == inst.rd)) [
    | inl f ↦
        let (p, s) = both (is_rs1 inst) (inst.rs1 == inst.rd) f in
        IsServed-when inst.rd inst.rs2 test2 true _ (
          subst (λ r. IsServed r (when test1 (allocate_reg inst.rs1 true) t).0)
            ((==_iff inst.rs1 inst.rd).0 s)
            (when-IsServed inst.rs1 test1 true t
              (asked (is_rs1 inst) inst.rs1 inst.rd live p s n l)))
    | inr f ↦
        let (p, s) =
          both (is_rs2 inst) (inst.rs2 == inst.rd)
            (other (is_rs1 inst && inst.rs1 == inst.rd) _ e f) in
        let t' = (when test1 (allocate_reg inst.rs1 true) t).0 in
        subst (λ r. IsServed r (when test2 (allocate_reg inst.rs2 true) t').0)
          ((==_iff inst.rs2 inst.rd).0 s)
          (when-IsServed inst.rs2 test2 true t' (asked (is_rs2 inst) inst.rs2 inst.rd live p s n l))
  ]

module _ {m : HashMap} (inst : Inst) (live : Bitset) (t : Translator) (h : Machine m)
    (k : IsAllocated t) where
  abbrev Readies : (Translator → Emits) → Type 0
  Readies f = Runs (f t).1 h (λ h'. IsReady inst (guest t h) (guest (f t).0 h'))

  unmoved :
      (test : Bool)
      → (when test (allocate_reg inst.rd false) (loads inst live t).0) ≡ ((loads inst live t).0, [])
      → Readies (loads inst live >>> when test (allocate_reg inst.rd false))
  unfolding perform
  unmoved test e =
      let t1 = (loads inst live t).0 in
      Runs-append (loads inst live t).1 _ h (loads-Carries _ _ inst.rs1 inst.rs2 t h k)
        (λ h1 p. rw e (h1, refl, IsReady-refl inst (guest t h) (guest t1 h1) p))

  reserved :
      (test : Bool)
      → test ≡ true
      → (inst.rd == 0) ≡ false
      → is_source inst live ≡ false
      → Readies (loads inst live >>> when test (allocate_reg inst.rd false))
  reserved test e n unread =
      let t1 = (loads inst live t).0 in
      let (no1, no2) = neither (is_rs1 inst && inst.rs1 == inst.rd) _ unread in
      Runs-append (loads inst live t).1 _ h (loads-Carries _ _ inst.rs1 inst.rs2 t h k) (λ h1 p.
        rw e (
          let (h2, run, near) = reserve inst.rd t1 h1 in
          let s2 = guest (allocate_reg inst.rd false t1).0 h2 in
          let near' = subst (λ s. IsNear inst.rd s s2) p near in
          (
            h2,
            run,
            record {
              near = near';
              zero_rd = λ z. cc (sym z ∙ n);
              first =
                  λ f. near'.same_regs inst.rs1 (apart (is_rs1 inst) (inst.rs1 == inst.rd) no1 f);
              second =
                  λ f. near'.same_regs inst.rs2 (apart (is_rs2 inst) (inst.rs2 == inst.rd) no2 f);
            },
          )))

  -- The work in front of an instruction, for whatever liveness: the emitted moves run to their end,
  -- and of the guest's state only the instruction's destination differs, if the instruction does not
  -- read it.
  pub pre_work-IsReady :
      Runs
        (pre_work inst live t).1
        h
        (λ h'. IsReady inst (guest t h) (guest (pre_work inst live t).0 h'))
  unfolding pre_work
  pre_work-IsReady =
      let test = is_rd inst && not (inst.rd == 0) && live inst.rd in
      elim (Bool-cases test) [
        | inl e ↦
            let (n, l) = destination (is_rd inst) (inst.rd == 0) (live inst.rd) e in
            elim (Bool-cases (is_source inst live)) [
              | inl src ↦
                  unmoved test
                    (rw e (allocate_reg-again inst.rd false _ (served inst live t n l src)))
              | inr unread ↦ reserved test e n unread
            ]
        | inr e ↦ unmoved test (rw e refl)
      ]
