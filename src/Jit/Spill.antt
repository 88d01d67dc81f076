-- ===== src/Jit/Spill.antt =====
-- What the code of allocateReg and deallocateReg of sim/jit.cpp does to the guest's registers.
use mathlib.Core.Path.{fun_ext, subst}
use risc_v_simulator.Base.{
  ℕ, zero, suc, ◌≡◌, refl, ap, sym, ◌∙◌, inl, inr, Bool, true, false, ◌==◌, ==_iff, List, [], ◌∷◌,
  ◌++◌, Bool-cases,
}
use risc_v_simulator.Ir.{Inst}
use risc_v_simulator.Lru.{HashMap}
use risc_v_simulator.State.{State}
use risc_v_simulator.Jit.Host.{Gp, Operand, HostInst, same}
use risc_v_simulator.Jit.Registers.{
  Translator, Emits, Bitset, get_reg, reg_mem_op, map_reg, deallocate_reg, deallocate_from, when,
  ◌>>>◌, post_work,
}
use risc_v_simulator.Jit.Machine.{Machine, perform, read32}
use risc_v_simulator.Jit.Operands.{IsWord, IsValue, Sets}
use risc_v_simulator.Jit.Runs.{Runs, Runs-append, mov-Runs}
use risc_v_simulator.Jit.Pairs.{same-sym}
use risc_v_simulator.Jit.Allocation.{IsAllocated, home-IsWord}
use risc_v_simulator.Jit.Preserved.{home_cases, other_slot, deallocate_reg-IsAllocated}
use risc_v_simulator.Jit.Guest.{guest}

imm_other : (o : Operand) → IsWord o → same (Operand.imm 0) o ≡ false
imm_other _ (IsWord.reg g) = refl
imm_other _ (IsWord.slot r) = refl

when-IsAllocated :
    (test : Bool) (r : ℕ) (t : Translator)
    → IsAllocated t
    → IsAllocated (when test (deallocate_reg r true) t).0
when-IsAllocated true r t k = deallocate_reg-IsAllocated r true t k
when-IsAllocated false r t k = k

module _ {m : HashMap} where
  -- The code of a method runs to its end, and the guest's registers keep their values while they
  -- change their places.
  abbrev pub Carries : (Translator → Emits) → Translator → Machine m → Type 0
  Carries f t h = Runs (f t).1 h (λ h'. guest (f t).0 h' ≡ guest t h)

  -- A guest register that is moved to another place.
  pub moved_reg :
      (t : Translator) (r : ℕ) (o : Operand) (pool : List Gp) (h h' : Machine m)
      → IsWord o
      → ((r' : ℕ) → IsWord (t.reg_mapping r'))
      → ((r' : ℕ) → (r' == r) ≡ false → same (t.reg_mapping r') o ≡ false)
      → Sets o (read32 (t.reg_mapping r) h) h h'
      → (r' : ℕ)
      → read32
          (get_reg r' (record t { reg_mapping = map_reg r o t.reg_mapping; reg_pool = pool }))
          h'
        ≡ read32 (get_reg r' t) h
  moved_reg t r o pool h h' w p f s r' = elim (Bool-cases (r' == 0)) [
    | inl z ↦ rw z (s.others (Operand.imm 0) (IsValue.imm 0) (imm_other o w))
    | inr n ↦ elim (Bool-cases (r' == r)) [
      | inl e ↦
          rw (n, e) (s.result ∙ ap (λ x. read32 (t.reg_mapping x) h) (sym ((==_iff r' r).0 e)))
      | inr e ↦ rw (n, e) (s.others (t.reg_mapping r') (IsValue.word (p r')) (f r' e))
    ]
  ]

  spill :
      (t : Translator) (r : ℕ) (x : Gp) (pool : List Gp) (h : Machine m)
      → IsAllocated t
      → t.reg_mapping r ≡ Operand.gp x
      → Runs (HostInst.mov (reg_mem_op r) (Operand.gp x) ∷ []) h (λ h'.
        guest
          (record t { reg_mapping = map_reg r (reg_mem_op r) t.reg_mapping; reg_pool = pool })
          h'
        ≡ guest t h)
  spill t r x pool h k e =
      let (h', run, s) =
        mov-Runs (reg_mem_op r) (Operand.gp x) h (IsWord.slot r) (IsValue.word (IsWord.reg x))
          refl in
      let words : (r' : ℕ) → IsWord (t.reg_mapping r') =
        λ r'. home-IsWord r' (t.reg_mapping r') (k.home r') in
      let t' = record t { reg_mapping = map_reg r (reg_mem_op r) t.reg_mapping; reg_pool = pool } in
      (
        h',
        run,
        ap (λ (u : State m). record u { regs = λ r'. read32 (get_reg r' t') h' }) s.frame.rest
            ∙ ap (λ regs. record h.state { regs = regs })
                (fun_ext (
                  moved_reg t r (reg_mem_op r) pool h h' (IsWord.slot r) words
                    (λ r' n.
                      sym (
                        same-sym (reg_mem_op r) (t.reg_mapping r') (IsWord.slot r)
                          (IsValue.word (words r')))
                      ∙ other_slot r r' (t.reg_mapping r') (k.home r') n)
                    (subst (λ o. Sets (reg_mem_op r) (read32 o h) h h') (sym e) s))),
      )

  deallocate_reg-Carries :
      (r : ℕ) (t : Translator) (h : Machine m) → IsAllocated t → Carries (deallocate_reg r true) t h
  unfolding deallocate_reg perform
  deallocate_reg-Carries r t h k = elim (home_cases r (t.reg_mapping r) (k.home r)) [
    | inl e ↦ rw e (h, refl, refl)
    | inr (x, e, a) ↦ rw e (spill t r x (t.reg_pool ++ x ∷ []) h k e)
  ]

  pub Carries-append :
      (f g : Translator → Emits) (t : Translator) (h : Machine m)
      → Carries f t h
      → ((h' : Machine m) → Carries g (f t).0 h')
      → Carries (f >>> g) t h
  Carries-append f g t h p q =
      Runs-append (f t).1 (g (f t).0).1 h p
        (λ h' e. let (h'', run, e') = q h' in (h'', run, e' ∙ e))

  pub Carries-when :
      (test : Bool) (f : Translator → Emits) (t : Translator) (h : Machine m)
      → Carries f t h
      → Carries (when test f) t h
  unfolding perform
  Carries-when true f t h p = p
  Carries-when false f t h p = (h, refl, refl)

  pub deallocate_from-Carries :
      (n r : ℕ) (t : Translator) (h : Machine m) → IsAllocated t → Carries (deallocate_from n r) t h
  unfolding deallocate_from perform
  deallocate_from-Carries zero r t h k = (h, refl, refl)
  deallocate_from-Carries (suc n) r t h k =
      Carries-append (deallocate_reg r true) (deallocate_from n (suc r)) t h
        (deallocate_reg-Carries r t h k)
        (λ h'.
          deallocate_from-Carries n (suc r) (deallocate_reg r true t).0 h'
            (deallocate_reg-IsAllocated r true t k))

  sink_when :
      (test : Bool) (r : ℕ) (t : Translator) (h : Machine m)
      → IsAllocated t
      → Carries (when test (deallocate_reg r true)) t h
  sink_when test r t h k =
      Carries-when test (deallocate_reg r true) t h (deallocate_reg-Carries r t h k)

  three-Carries :
      (p q z : Bool) (a b c : ℕ) (t : Translator) (h : Machine m)
      → IsAllocated t
      → Carries
          (when p (deallocate_reg a true)
            >>> when q (deallocate_reg b true)
            >>> when z (deallocate_reg c true))
          t
          h
  three-Carries p q z a b c t h k =
      let k1 = when-IsAllocated p a t k in
      let t1 = (when p (deallocate_reg a true) t).0 in
      Carries-append (when p (deallocate_reg a true) >>> when q (deallocate_reg b true))
        (when z (deallocate_reg c true)) t h
        (Carries-append (when p (deallocate_reg a true)) (when q (deallocate_reg b true)) t h
          (sink_when p a t h k) (λ h'. sink_when q b t1 h' k1))
        (λ h'. sink_when z c (when q (deallocate_reg b true) t1).0 h' (when-IsAllocated q b t1 k1))

  -- The work behind an instruction, for whatever liveness: the emitted moves run to their end, and
  -- the guest registers that leave the host have their values in their fields; the rest of the
  -- guest's state is unchanged.
  pub post_work-Carries :
      (inst : Inst) (live : Bitset) (t : Translator) (h : Machine m)
      → IsAllocated t
      → Carries (post_work inst live) t h
  unfolding post_work
  post_work-Carries inst live t h k = three-Carries _ _ _ inst.rs1 inst.rs2 inst.rd t h k
