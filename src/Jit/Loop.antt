-- ===== src/Jit/Loop.antt =====
-- The loop of Translator's constructor in sim/jit.cpp and the allocation of host registers.
use risc_v_simulator.Base.{
  ℕ, suc, ◌+◌, ◌≡◌, refl, inl, inr, Bool, true, false, not, ◌&&◌, ◌==◌, List, [], ◌∷◌, Bool-cases,
  arith,
}
use risc_v_simulator.Isa.{Cmd}
use risc_v_simulator.Ir.{Inst, is_rs1, is_rs2, is_rd}
use risc_v_simulator.Jit.{
  translate, translate_by, translate_func, translate_round, translate_loop, next_inst,
}
use risc_v_simulator.Jit.Host.{Cond}
use risc_v_simulator.Jit.Registers.{
  Translator, Emits, Bitset, allocate_reg, deallocate_reg, deallocate_all_regs, when, ◌>>>◌,
  pre_work, post_work,
}
use risc_v_simulator.Jit.Templates.{taken_offset, translate_cond_branch}
use risc_v_simulator.Jit.Allocation.{IsAllocated}
use risc_v_simulator.Jit.Preserved.{
  allocate_reg-IsAllocated, deallocate_reg-IsAllocated, deallocate_from-IsAllocated,
}

guarded : (p z l : Bool) → (p && not z && l) ≡ true → (z ≡ false) × (l ≡ true)
guarded p z l e = ground arith

-- What the steps of the work around an instruction keep, the work keeps.
module _ (P : Translator → Type 0) where
  abbrev pub Keeps : (Translator → Emits) → Type 0
  Keeps f = (t : Translator) → P t → P (f t).0

  when-Keeps :
      (test : Bool) (f : Translator → Emits) → (test ≡ true → Keeps f) → Keeps (when test f)
  when-Keeps true f p t k = p refl t k
  when-Keeps false f p t k = k

  three-Keeps :
      (p q r : Bool) (f g h : Translator → Emits)
      → (p ≡ true → Keeps f)
      → (q ≡ true → Keeps g)
      → (r ≡ true → Keeps h)
      → Keeps (when p f >>> when q g >>> when r h)
  three-Keeps p q r f g h kf kg kh t k =
      let t' = (when p f t).0 in
      when-Keeps r h kh (when q g t').0 (when-Keeps q g kg t' (when-Keeps p f kf t k))

  pub pre_work-Keeps :
      (inst : Inst) (live : Bitset)
      → ((reg : ℕ) (load : Bool)
          → (reg == 0) ≡ false
          → live reg ≡ true
          → Keeps (allocate_reg reg load))
      → Keeps (pre_work inst live)
  unfolding pre_work
  pre_work-Keeps inst live step =
      three-Keeps (is_rs1 inst && not (inst.rs1 == 0) && live inst.rs1)
        (is_rs2 inst && not (inst.rs2 == 0) && live inst.rs2)
        (is_rd inst && not (inst.rd == 0) && live inst.rd) (allocate_reg inst.rs1 true)
        (allocate_reg inst.rs2 true) (allocate_reg inst.rd false)
        (λ e.
          let (n, l) = guarded (is_rs1 inst) (inst.rs1 == 0) (live inst.rs1) e in
          step inst.rs1 true n l)
        (λ e.
          let (n, l) = guarded (is_rs2 inst) (inst.rs2 == 0) (live inst.rs2) e in
          step inst.rs2 true n l)
        (λ e.
          let (n, l) = guarded (is_rd inst) (inst.rd == 0) (live inst.rd) e in
          step inst.rd false n l)

  pub post_work-Keeps :
      (inst : Inst) (live : Bitset)
      → ((reg : ℕ) → Keeps (deallocate_reg reg true))
      → Keeps (post_work inst live)
  unfolding post_work
  post_work-Keeps inst live step =
      three-Keeps (is_rs1 inst && not (inst.rs1 == 0) && not (live inst.rs1))
        (is_rs2 inst && not (inst.rs2 == 0) && not (live inst.rs2))
        (is_rd inst && not (inst.rd == 0) && not (live inst.rd)) (deallocate_reg inst.rs1 true)
        (deallocate_reg inst.rs2 true) (deallocate_reg inst.rd true) (λ _. step inst.rs1)
        (λ _. step inst.rs2) (λ _. step inst.rd)

-- The translators change the mapping by deallocateAllRegs alone.
module _ (P : Translator → Type 0)
    (other : (t : Translator) (cur labels : ℕ)
      → P t
      → P (record t { cur_inst = cur; labels = labels }))
    (sink : (t : Translator) → P t → P (deallocate_all_regs t).0) where
  branch-Keeps : (cond : Cond) (inst : Inst) → Keeps P (λ t. translate_cond_branch cond t inst)
  unfolding translate_cond_branch
  branch-Keeps cond inst t k = elim (Bool-cases (taken_offset t inst == 0)) [
    | inl e ↦ rw e (sink t k)
    | inr e ↦ rw e (other t t.cur_inst (t.labels + 2) k)
  ]

  by_cmd :
      (c : Cmd) (virtual : Bool) (inst : Inst)
      → Keeps P (λ t. translate_by (translate_func c) virtual t inst)
  unfolding translate_func
  by_cmd Cmd.beq virtual inst t k = branch-Keeps Cond.je inst t k
  by_cmd Cmd.bne virtual inst t k = branch-Keeps Cond.jne inst t k
  by_cmd Cmd.blt virtual inst t k = branch-Keeps Cond.jl inst t k
  by_cmd Cmd.bge virtual inst t k = branch-Keeps Cond.jge inst t k
  by_cmd Cmd.bltu virtual inst t k = branch-Keeps Cond.jb inst t k
  by_cmd Cmd.bgeu virtual inst t k = branch-Keeps Cond.jae inst t k
  by_cmd _ virtual inst t k = k

  pub translate-Keeps : (virtual : Bool) (inst : Inst) → Keeps P (translate virtual inst)
  unfolding translate
  translate-Keeps virtual inst t k = by_cmd inst.cmd virtual inst t k

-- The other fields do not matter.
pub relabel :
    (t : Translator) (cur labels : ℕ)
    → IsAllocated t
    → IsAllocated (record t { cur_inst = cur; labels = labels })
relabel t cur labels k = record {
  home = k.home;
  apart = k.apart;
  free = k.free;
  distinct = k.distinct;
}

pub pre_work-IsAllocated :
    (inst : Inst) (live : Bitset) (t : Translator)
    → IsAllocated t
    → IsAllocated (pre_work inst live t).0
pre_work-IsAllocated inst live =
    pre_work-Keeps IsAllocated inst live (λ reg load _ _. allocate_reg-IsAllocated reg load)

translate-IsAllocated :
    (virtual : Bool) (inst : Inst) (t : Translator)
    → IsAllocated t
    → IsAllocated (translate virtual inst t).0
unfolding deallocate_all_regs
translate-IsAllocated virtual inst =
    translate-Keeps IsAllocated relabel (deallocate_from-IsAllocated 31 1) virtual inst

post_work-IsAllocated :
    (inst : Inst) (live : Bitset) (t : Translator)
    → IsAllocated t
    → IsAllocated (post_work inst live t).0
post_work-IsAllocated inst live =
    post_work-Keeps IsAllocated inst live (λ reg. deallocate_reg-IsAllocated reg true)

-- Each round of the translation, for whatever instruction and liveness, keeps every guest register
-- in its field of the state or in a host register of its own that is no temporary and not rdi, and
-- in the pool, each once, host registers that are free.
pub translate_round-IsAllocated :
    (virtual : Bool) (inst : Inst) (live : Bitset) (t : Translator)
    → IsAllocated t
    → IsAllocated (translate_round virtual inst live t).0
unfolding translate_round
translate_round-IsAllocated virtual inst live t k =
    post_work-IsAllocated inst live _
      (translate-IsAllocated virtual inst _ (pre_work-IsAllocated inst live t k))

pub translate_loop-IsAllocated :
    (virtual : Bool) (insts : List Inst) (lives : List Bitset) (t : Translator)
    → IsAllocated t
    → IsAllocated (translate_loop virtual insts lives t).0
unfolding translate_loop
translate_loop-IsAllocated virtual (inst ∷ insts) (live ∷ lives) t k =
    let t' = (translate_round virtual inst live t).0 in
    translate_loop-IsAllocated virtual insts lives (next_inst t')
      (relabel t' (suc t'.cur_inst) t'.labels (translate_round-IsAllocated virtual inst live t k))
translate_loop-IsAllocated virtual [] lives t k = k
translate_loop-IsAllocated virtual (inst ∷ insts) [] t k = k
