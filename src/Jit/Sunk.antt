-- ===== src/Jit/Sunk.antt =====
-- Translated code ends with the guest's registers in sim::State.
use risc_v_simulator.Base.{
  ℕ, zero, suc, ◌≡◌, ◌⊎◌, refl, sym, ◌∙◌, inl, inr, Bool, true, false, not, ◌&&◌, ◌||◌, ◌==◌,
  ==_iff, List, [], ◌∷◌, Bool-cases, arith,
}
use risc_v_simulator.Ir.{Inst, is_rs1, is_rs2, is_rd}
use risc_v_simulator.Jit.{translate, translate_round, translate_loop, next_inst, initial}
use risc_v_simulator.Jit.Host.{Operand, is_reg, is_mem}
use risc_v_simulator.Jit.Registers.{
  Translator, Bitset, reg_mem_op, allocate_reg, deallocate_reg, deallocate_from,
  deallocate_all_regs, when, pre_work, post_work, live_loop, calc_liveness,
}
use risc_v_simulator.Jit.Liveness.{reads, writes, before, live_before_lem}
use risc_v_simulator.Jit.Allocation.{IsHome, initial-IsAllocated}
use risc_v_simulator.Jit.Preserved.{List-cases}
use risc_v_simulator.Jit.Loop.{pre_work-Keeps, translate-Keeps, translate_loop-IsAllocated}

abbrev in_host : Translator → ℕ → Bool
in_host t r = is_reg (t.reg_mapping r)

mem_reg : (o : Operand) → is_mem o ≡ true → is_reg o ≡ false
mem_reg (Operand.gp g) e = cc e
mem_reg (Operand.low b g) e = cc e
mem_reg _ e = refl

in_host-allocate :
    (q : ℕ) (load : Bool) (t : Translator) (r : ℕ)
    → in_host (allocate_reg q load t).0 r ≡ true
    → (in_host t r ≡ true) ⊎ ((r == q) ≡ true)
unfolding allocate_reg
in_host-allocate q load t r h = elim (Bool-cases (r == q)) [
  | inl e ↦ inr e
  | inr n ↦ elim (Bool-cases (is_reg (t.reg_mapping q))) [
    | inl e ↦ inl (rw e at h)
    | inr e ↦ elim (List-cases t.reg_pool) [
      | inl empty ↦ inl (rw (e, empty) at h)
      | inr (x, xs, front) ↦ inl (rw (e, front, n) at h)
    ]
  ]
]

in_host-deallocate :
    (q : ℕ) (sink : Bool) (t : Translator) (r : ℕ)
    → in_host (deallocate_reg q sink t).0 r ≡ true
    → (in_host t r ≡ true) × ((r == q) ≡ false)
unfolding deallocate_reg
in_host-deallocate q sink t r h = elim (Bool-cases (is_mem (t.reg_mapping q))) [
  | inl e ↦ elim (Bool-cases (r == q)) [
    | inl s ↦ cc (rw (e, (==_iff r q).0 s, mem_reg (t.reg_mapping q) e) at h)
    | inr n ↦ (rw e at h, n)
  ]
  | inr e ↦ elim (Bool-cases (r == q)) [ inl s ↦ cc (rw (e, s) at h) | inr n ↦ (rw (e, n) at h, n) ]
]

with_true : (p z l : Bool) → (p && not z && not l) ≡ false → (p && true && not z && not l) ≡ false
with_true p z l e = ground arith

in_host-when :
    (p : Bool) (q : ℕ) (live : Bitset) (t : Translator) (r : ℕ)
    → in_host (when (p && not (q == 0) && not (live q)) (deallocate_reg q true) t).0 r ≡ true
    → (in_host t r ≡ true) × ((p && q == r && not (r == 0) && not (live r)) ≡ false)
in_host-when p q live t r h = elim (Bool-cases (p && not (q == 0) && not (live q))) [
  | inl e ↦ let (k, n) = in_host-deallocate q true t r (rw e at h) in (k, ground arith)
  | inr e ↦ elim (Bool-cases (q == r)) [
    | inl s ↦ (rw e at h, rw (s, sym ((==_iff q r).0 s)) (with_true p (q == 0) (live q) e))
    | inr n ↦ (rw e at h, rw n (ground arith))
  ]
]

-- The registers that stay after an instruction are live, or the instruction does not read them.
in_host-post_work :
    (inst : Inst) (live : Bitset) (t : Translator) (r : ℕ)
    → in_host (post_work inst live t).0 r ≡ true
    → (in_host t r ≡ true) × ((reads r inst && not (r == 0) && not (live r)) ≡ false)
unfolding post_work reads
in_host-post_work inst live t r h =
    let f =
      when (is_rs1 inst && not (inst.rs1 == 0) && not (live inst.rs1))
        (deallocate_reg inst.rs1 true) in
    let g =
      when (is_rs2 inst && not (inst.rs2 == 0) && not (live inst.rs2))
        (deallocate_reg inst.rs2 true) in
    let (h2, n2) = in_host-when (is_rd inst) inst.rd live (g (f t).0).0 r h in
    let (h1, n1) = in_host-when (is_rs2 inst) inst.rs2 live (f t).0 r h2 in
    let (h0, n0) = in_host-when (is_rs1 inst) inst.rs1 live t r h1 in (h0, ground (arith, n0, n1))

-- Registers in the host are live: here, or at one of two places.
abbrev pub IsSunkBy : (ℕ → Bool) → Translator → Type 0
IsSunkBy live t = (r : ℕ) → in_host t r ≡ true → ((r == 0) ≡ false) × (live r ≡ true)

allocate_reg-IsSunkBy :
    (live : ℕ → Bool) (q : ℕ) (load : Bool) (t : Translator)
    → (q == 0) ≡ false
    → live q ≡ true
    → IsSunkBy live t
    → IsSunkBy live (allocate_reg q load t).0
allocate_reg-IsSunkBy live q load t n l k r h = elim (in_host-allocate q load t r h) [
  | inl old ↦ k r old
  | inr e ↦ let r≡q = (==_iff r q).0 e in (rw r≡q n, rw r≡q l)
]

deallocate_from-IsSunkBy :
    (live : ℕ → Bool) (n q : ℕ) (t : Translator)
    → IsSunkBy live t
    → IsSunkBy live (deallocate_from n q t).0
unfolding deallocate_from
deallocate_from-IsSunkBy live zero q t k = k
deallocate_from-IsSunkBy live (suc n) q t k =
    deallocate_from-IsSunkBy live n (suc q) (deallocate_reg q true t).0
      (λ r h. k r (in_host-deallocate q true t r h).0)

either : (p q : Bool) → q ≡ true → (p || q) ≡ true
either p q e = ground arith

translate_round-IsSunkBy :
    (virtual : Bool) (inst : Inst) (live : Bitset) (t : Translator)
    → IsSunkBy (λ r. reads r inst || not (writes r inst) && live r) t
    → IsSunkBy live (translate_round virtual inst live t).0
unfolding translate_round deallocate_all_regs
translate_round-IsSunkBy virtual inst live t k r h =
    let both : Bitset = λ r'. (reads r' inst || not (writes r' inst) && live r') || live r' in
    let t1 = (pre_work inst live t).0 in
    let k1 =
      pre_work-Keeps (IsSunkBy both) inst live
        (λ reg load n l t'.
          allocate_reg-IsSunkBy both reg load t' n
            (either (reads reg inst || not (writes reg inst) && live reg) (live reg) l))
        t (λ r' h'. let (n, l) = k r' h' in (n, ground (arith, l))) in
    let t2 = (translate virtual inst t1).0 in
    let k2 =
      translate-Keeps (IsSunkBy both) (λ t' cur labels k'. k') (deallocate_from-IsSunkBy both 31 1)
        virtual inst t1 k1 in
    let (h3, out) = in_host-post_work inst live t2 r h in
    let (n, l) = k2 r h3 in (n, ground (arith, n, l, out))

loop-IsSunkBy :
    (virtual : Bool) (insts : List Inst) (t : Translator)
    → IsSunkBy (before insts) t
    → (r : ℕ) → in_host (translate_loop virtual insts (live_loop insts).0 t).0 r ≡ false
unfolding translate_loop live_loop
loop-IsSunkBy virtual [] t k r = elim (Bool-cases (in_host t r)) [
  | inl h ↦ cc (k r h).1
  | inr n ↦ n
]
loop-IsSunkBy virtual (inst ∷ insts) t k r =
    let t' = (translate_round virtual inst (before insts) t).0 in
    loop-IsSunkBy virtual insts (next_inst t')
      (translate_round-IsSunkBy virtual inst (before insts) t
        (λ q h. let (n, l) = k q h in (n, sym (live_before_lem inst (before insts) q) ∙ l)))
      r

sunk_home : (r : ℕ) (o : Operand) → IsHome r o → is_reg o ≡ false → o ≡ reg_mem_op r
sunk_home r _ (IsHome.host g e) n = cc n
sunk_home r _ IsHome.memory n = refl

-- At the end of any trace's translation with the liveness that calcLiveness computes, every guest
-- register is back in its field of the state: no host register is left with one.
pub translate_loop-sunk :
    (virtual : Bool) (trace : List Inst) (r : ℕ)
    → (translate_loop virtual trace (calc_liveness trace) initial).0.reg_mapping r ≡ reg_mem_op r
unfolding calc_liveness
translate_loop-sunk virtual trace r =
    let t = (translate_loop virtual trace (calc_liveness trace) initial).0 in
    sunk_home r (t.reg_mapping r)
      ((translate_loop-IsAllocated virtual trace (calc_liveness trace) initial
          initial-IsAllocated).home
        r)
      (loop-IsSunkBy virtual trace initial (λ q h. cc h) r)
