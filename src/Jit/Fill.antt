-- ===== src/Jit/Fill.antt =====
-- What the code in front of an instruction, of sim/jit.cpp, does to the guest's registers.
use mathlib.Core.Path.{fun_ext, subst}
use risc_v_simulator.Base.{
  ℕ, ◌≡◌, ◌⊎◌, refl, ap, sym, ◌∙◌, inl, inr, Bool, true, false, ◌==◌, ==_iff, List, [], ◌∷◌,
  Bool-cases,
}
use risc_v_simulator.Ir.{Inst, is_rs1, is_rs2}
use risc_v_simulator.Lru.{HashMap}
use risc_v_simulator.State.{State}
use risc_v_simulator.Jit.Host.{Gp, Operand, HostInst, is_reg}
use risc_v_simulator.Jit.Registers.{
  Translator, get_reg, reg_mem_op, map_reg, allocate_reg, when, ◌>>>◌,
}
use risc_v_simulator.Jit.Machine.{Machine, perform, read32}
use risc_v_simulator.Jit.Operands.{IsWord, IsValue, Sets, same_gp_refl}
use risc_v_simulator.Jit.Runs.{Runs, mov-Runs}
use risc_v_simulator.Jit.Pairs.{same-sym}
use risc_v_simulator.Jit.Allocation.{IsAllocated, IsHome, in_pool, home-IsWord}
use risc_v_simulator.Jit.Preserved.{List-cases, allocate_reg-IsAllocated}
use risc_v_simulator.Jit.Spill.{Carries, Carries-append, Carries-when, moved_reg}
use risc_v_simulator.Jit.Guest.{guest}

sunk_or_reg : (r : ℕ) (o : Operand) → IsHome r o → is_reg o ≡ false → reg_mem_op r ≡ o
sunk_or_reg r _ (IsHome.host g e) n = cc n
sunk_or_reg r _ IsHome.memory n = refl

-- A register that was asked for is in a host register, unless the pool is empty: asking for it again
-- does nothing.
abbrev pub IsServed : ℕ → Translator → Type 0
IsServed r t = (is_reg (t.reg_mapping r) ≡ true) ⊎ (t.reg_pool ≡ [])

allocate_reg-IsServed :
    (r : ℕ) (load : Bool) (t : Translator) → IsServed r (allocate_reg r load t).0
unfolding allocate_reg
allocate_reg-IsServed r load t = elim (Bool-cases (is_reg (t.reg_mapping r))) [
  | inl e ↦ rw e (inl e)
  | inr e ↦ elim (List-cases t.reg_pool) [
    | inl empty ↦ rw (e, empty) (inr empty)
    | inr (x, xs, front) ↦ rw (e, front) (inl (rw ((==_iff r r).1 refl) refl))
  ]
]

IsServed-allocate_reg :
    (r q : ℕ) (load : Bool) (t : Translator) → IsServed r t → IsServed r (allocate_reg q load t).0
unfolding allocate_reg
IsServed-allocate_reg r q load t p = elim (Bool-cases (is_reg (t.reg_mapping q))) [
  | inl e ↦ rw e p
  | inr e ↦ elim (List-cases t.reg_pool) [
    | inl empty ↦ rw (e, empty) (inr empty)
    | inr (x, xs, front) ↦
        rw (e, front)
          (elim p [
            | inl served ↦
                inl (elim (Bool-cases (r == q)) [ inl s ↦ rw s refl | inr n ↦ rw n served ])
            | inr empty ↦ cc (sym front ∙ empty)
          ])
  ]
]

pub IsServed-when :
    (r q : ℕ) (test load : Bool) (t : Translator)
    → IsServed r t
    → IsServed r (when test (allocate_reg q load) t).0
IsServed-when r q true load t p = IsServed-allocate_reg r q load t p
IsServed-when r q false load t p = p

pub when-IsServed :
    (r : ℕ) (test load : Bool) (t : Translator)
    → test ≡ true
    → IsServed r (when test (allocate_reg r load) t).0
when-IsServed r test load t e = rw e (allocate_reg-IsServed r load t)

when-IsAllocated :
    (test : Bool) (r : ℕ) (load : Bool) (t : Translator)
    → IsAllocated t
    → IsAllocated (when test (allocate_reg r load) t).0
when-IsAllocated true r load t k = allocate_reg-IsAllocated r load t k
when-IsAllocated false r load t k = k

pub allocate_reg-again :
    (r : ℕ) (load : Bool) (t : Translator) → IsServed r t → allocate_reg r load t ≡ (t, [])
unfolding allocate_reg
allocate_reg-again r load t (inl e) = rw e refl
allocate_reg-again r load t (inr empty) = elim (Bool-cases (is_reg (t.reg_mapping r))) [
  | inl e ↦ rw e refl
  | inr e ↦ simp (e, empty)
]

module _ {m : HashMap} where
  fill :
      (t : Translator) (r : ℕ) (x : Gp) (xs : List Gp) (h : Machine m)
      → IsAllocated t
      → t.reg_pool ≡ x ∷ xs
      → is_reg (t.reg_mapping r) ≡ false
      → Runs (HostInst.mov (Operand.gp x) (reg_mem_op r) ∷ []) h (λ h'.
        guest (record t { reg_mapping = map_reg r (Operand.gp x) t.reg_mapping; reg_pool = xs }) h'
        ≡ guest t h)
  unfolding in_pool
  fill t r x xs h k front n =
      let (h', run, s) =
        mov-Runs (Operand.gp x) (reg_mem_op r) h (IsWord.reg x) (IsValue.word (IsWord.slot r))
          refl in
      let words : (r' : ℕ) → IsWord (t.reg_mapping r') =
        λ r'. home-IsWord r' (t.reg_mapping r') (k.home r') in
      let t' = record t { reg_mapping = map_reg r (Operand.gp x) t.reg_mapping; reg_pool = xs } in
      let free = (k.free x (rw front (rw (same_gp_refl x) refl))).1 in
      (
        h',
        run,
        ap (λ (u : State m). record u { regs = λ r'. read32 (get_reg r' t') h' }) s.frame.rest
            ∙ ap (λ regs. record h.state { regs = regs })
                (fun_ext (
                  moved_reg t r (Operand.gp x) xs h h' (IsWord.reg x) words
                    (λ r' _.
                      sym (
                        same-sym (Operand.gp x) (t.reg_mapping r') (IsWord.reg x)
                          (IsValue.word (words r')))
                      ∙ free r')
                    (subst (λ o. Sets (Operand.gp x) (read32 o h) h h')
                      (sunk_or_reg r (t.reg_mapping r) (k.home r) n) s))),
      )

  allocate_reg-Carries :
      (r : ℕ) (t : Translator) (h : Machine m) → IsAllocated t → Carries (allocate_reg r true) t h
  unfolding allocate_reg perform
  allocate_reg-Carries r t h k = elim (Bool-cases (is_reg (t.reg_mapping r))) [
    | inl e ↦ rw e (h, refl, refl)
    | inr e ↦ elim (List-cases t.reg_pool) [
      | inl empty ↦ rw (e, empty) (h, refl, refl)
      | inr (x, xs, front) ↦ rw (e, front) (fill t r x xs h k front e)
    ]
  ]

  -- Two states of the guest that differ in one register at most.
  pub record IsNear (d : ℕ) (s s' : State m) : Type 0 where
    pub same_regs : (r : ℕ) → (r == d) ≡ false → s'.regs r ≡ s.regs r
    pub same_rest : s' ≡ record s { regs = s'.regs }

  IsNear-refl : (d : ℕ) (s s' : State m) → s' ≡ s → IsNear d s s'
  IsNear-refl d s s' e =
      subst (λ u. IsNear d s u) (sym e) (record { same_regs = λ r n. refl; same_rest = refl })

  -- The destination is in a host register now, with whatever that held.
  pub reserve :
      (d : ℕ) (t : Translator) (h : Machine m)
      → Runs
          (allocate_reg d false t).1
          h
          (λ h'. IsNear d (guest t h) (guest (allocate_reg d false t).0 h'))
  unfolding allocate_reg perform
  reserve d t h = elim (Bool-cases (is_reg (t.reg_mapping d))) [
    | inl e ↦ rw e (h, refl, IsNear-refl d (guest t h) (guest t h) refl)
    | inr e ↦ elim (List-cases t.reg_pool) [
      | inl empty ↦ rw (e, empty) (h, refl, IsNear-refl d (guest t h) (guest t h) refl)
      | inr (x, xs, front) ↦
          rw (e, front) (h, refl, record { same_regs = λ r n. rw n refl; same_rest = refl })
    ]
  ]

  -- The code in front of an instruction changes its destination at most, unless it reads that.
  pub record IsReady (inst : Inst) (s s' : State m) : Type 0 where
    pub near : IsNear inst.rd s s'
    pub zero_rd : (inst.rd == 0) ≡ true → s' ≡ s
    pub first : is_rs1 inst ≡ true → s'.regs inst.rs1 ≡ s.regs inst.rs1
    pub second : is_rs2 inst ≡ true → s'.regs inst.rs2 ≡ s.regs inst.rs2

  pub IsReady-refl : (inst : Inst) (s s' : State m) → s' ≡ s → IsReady inst s s'
  IsReady-refl inst s s' e = record {
    near = IsNear-refl inst.rd s s' e;
    zero_rd = λ _. e;
    first = λ _. ap (λ u. u.regs inst.rs1) e;
    second = λ _. ap (λ u. u.regs inst.rs2) e;
  }

  load_when :
      (test : Bool) (r : ℕ) (t : Translator) (h : Machine m)
      → IsAllocated t
      → Carries (when test (allocate_reg r true)) t h
  load_when test r t h k =
      Carries-when test (allocate_reg r true) t h (allocate_reg-Carries r t h k)

  pub loads-Carries :
      (p q : Bool) (a b : ℕ) (t : Translator) (h : Machine m)
      → IsAllocated t
      → Carries (when p (allocate_reg a true) >>> when q (allocate_reg b true)) t h
  loads-Carries p q a b t h k =
      Carries-append (when p (allocate_reg a true)) (when q (allocate_reg b true)) t h
        (load_when p a t h k)
        (λ h'. load_when q b (when p (allocate_reg a true) t).0 h' (when-IsAllocated p a true t k))
