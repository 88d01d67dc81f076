-- ===== src/Jit/Preserved.antt =====
-- allocateReg and deallocateReg of sim/jit.cpp keep the allocation in order.
use mathlib.Core.Path.{subst}
use risc_v_simulator.Base.{
  ℕ, zero, suc, ◌≡◌, ◌⊎◌, refl, sym, ◌∙◌, inl, inr, Bool, true, false, not, ◌||◌, ◌==◌, List, [],
  ◌∷◌, ◌++◌, Bool-cases, and_left, and_right, arith,
}
use risc_v_simulator.Jit.Host.{Gp, Operand, same_gp, same, is_reg, is_mem}
use risc_v_simulator.Jit.Registers.{
  Translator, reg_mem_op, map_reg, allocate_reg, deallocate_reg, deallocate_from,
}
use risc_v_simulator.Jit.Operands.{IsWord, same_gp_refl}
use risc_v_simulator.Jit.Effects.{same_gp-≡}
use risc_v_simulator.Jit.Pairs.{same_gp-sym}
use risc_v_simulator.Jit.Allocation.{
  is_allocatable, in_pool, is_distinct, IsHome, IsAllocated, IsHome-map, apart_map, pool_map,
}

-- The pool after a register left its front.
taken_apart :
    (g x : Gp) (xs : List Gp)
    → is_distinct (x ∷ xs) ≡ true
    → in_pool g xs ≡ true
    → same_gp g x ≡ false
unfolding is_distinct in_pool
taken_apart g x xs d e = elim (Bool-cases (same_gp g x)) [
  | inl same ↦ cc (
    subst (λ y. in_pool y xs ≡ true) (same_gp-≡ g x same) e,
    and_left (not (in_pool x xs)) (is_distinct xs) d,
  )
  | inr other ↦ other
]

take :
    (t : Translator) (r : ℕ) (x : Gp) (xs : List Gp)
    → IsAllocated t
    → t.reg_pool ≡ x ∷ xs
    → IsAllocated (record t { reg_mapping = map_reg r (Operand.gp x) t.reg_mapping; reg_pool = xs })
unfolding in_pool is_distinct
take t r x xs k e =
    let front = k.free x (rw e (rw (same_gp_refl x) refl)) in
    let d = subst (λ p. is_distinct p ≡ true) e k.distinct in
    record {
      home = IsHome-map t k r (Operand.gp x) (IsHome.host x front.0);
      apart = apart_map t k r (Operand.gp x) (IsWord.reg x) (λ r' n. front.1 r');
      free = λ g p.
          let old = k.free g (rw e (rw p (ground arith))) in
          (old.0, pool_map t k r g (Operand.gp x) (taken_apart g x xs d p) (λ r' n. old.1 r'));
      distinct = and_right (not (in_pool x xs)) (is_distinct xs) d;
    }

pub List-cases : (xs : List Gp) → (xs ≡ []) ⊎ ((x : Gp) × (rest : List Gp) × (xs ≡ x ∷ rest))
List-cases [] = inl refl
List-cases (x ∷ rest) = inr (x, rest, refl)

-- A register leaves the pool for a guest register, or the pool is empty.
pub allocate_reg-IsAllocated :
    (r : ℕ) (load : Bool) (t : Translator) → IsAllocated t → IsAllocated (allocate_reg r load t).0
unfolding allocate_reg
allocate_reg-IsAllocated r load t k = elim (Bool-cases (is_reg (t.reg_mapping r))) [
  | inl e ↦ rw e k
  | inr e ↦ elim (List-cases t.reg_pool) [
    | inl empty ↦ rw (e, empty) k
    | inr (x, xs, front) ↦ rw (e, front) (take t r x xs k front)
  ]
]

or_right : (p q : Bool) → (p || q) ≡ false → q ≡ false
or_right p q e = ground arith

in_pool-append :
    (g x : Gp) (xs : List Gp) → in_pool g (xs ++ x ∷ []) ≡ (in_pool g xs || same_gp g x)
unfolding in_pool
in_pool-append g x [] = ground arith
in_pool-append g x (y ∷ ys) = rw (in_pool-append g x ys) (ground arith)

is_distinct-append :
    (x : Gp) (xs : List Gp)
    → in_pool x xs ≡ false
    → is_distinct xs ≡ true
    → is_distinct (xs ++ x ∷ []) ≡ true
unfolding in_pool is_distinct
is_distinct-append x [] n d = refl
is_distinct-append x (y ∷ ys) n d =
    let n' = rw (same_gp-sym x y) at n in
    let rest =
      is_distinct-append x ys (or_right (same_gp y x) (in_pool x ys) n')
        (and_right (not (in_pool y ys)) (is_distinct ys) d) in
    rw (in_pool-append y x ys, rest) (ground (arith, n', d))

pub other_slot :
    (r r' : ℕ) (o : Operand) → IsHome r' o → (r' == r) ≡ false → same (reg_mem_op r) o ≡ false
other_slot r r' _ (IsHome.host g e) n = refl
other_slot r r' _ IsHome.memory n = ground arith

turned : (r r' : ℕ) → (r' == r) ≡ false → (r == r') ≡ false
turned r r' n = ground arith

-- A host register that keeps a guest register is not in the pool.
not_pooled :
    (t : Translator) (r : ℕ) (x : Gp)
    → IsAllocated t
    → t.reg_mapping r ≡ Operand.gp x
    → in_pool x t.reg_pool ≡ false
not_pooled t r x k e = elim (Bool-cases (in_pool x t.reg_pool)) [
  | inl p ↦ cc (rw (e, same_gp_refl x) at ((k.free x p).1 r))
  | inr n ↦ n
]

release :
    (t : Translator) (r : ℕ) (x : Gp)
    → IsAllocated t
    → t.reg_mapping r ≡ Operand.gp x
    → is_allocatable x ≡ true
    → IsAllocated (record t {
      reg_mapping = map_reg r (reg_mem_op r) t.reg_mapping;
      reg_pool = t.reg_pool ++ x ∷ [];
    })
release t r x k e a = record {
  home = IsHome-map t k r (reg_mem_op r) IsHome.memory;
  apart =
      apart_map t k r (reg_mem_op r) (IsWord.slot r)
        (λ r' n. other_slot r r' (t.reg_mapping r') (k.home r') n);
  free = λ g p. elim (Bool-cases (in_pool g t.reg_pool)) [
    | inl pooled ↦
        let old = k.free g pooled in
        (old.0, pool_map t k r g (reg_mem_op r) refl (λ r' n. old.1 r'))
    | inr n ↦
        let g≡x = same_gp-≡ g x (rw n at (sym (in_pool-append g x t.reg_pool) ∙ p)) in
        (
          subst (λ y. is_allocatable y ≡ true) (sym g≡x) a,
          pool_map t k r g (reg_mem_op r) refl (λ r' d.
              subst (λ y. same (Operand.gp y) (t.reg_mapping r') ≡ false) (sym g≡x)
                (subst (λ o. same o (t.reg_mapping r') ≡ false) e (k.apart r r' (turned r r' d)))),
        )
  ];
  distinct = is_distinct-append x t.reg_pool (not_pooled t r x k e) k.distinct;
}

pub home_cases :
    (r : ℕ) (o : Operand)
    → IsHome r o
    → (is_mem o ≡ true) ⊎ ((x : Gp) × (o ≡ Operand.gp x) × (is_allocatable x ≡ true))
home_cases r _ (IsHome.host g e) = inr (g, refl, e)
home_cases r _ IsHome.memory = inl refl

-- A guest register returns to its field, and its host register to the pool.
pub deallocate_reg-IsAllocated :
    (r : ℕ) (sink : Bool) (t : Translator) → IsAllocated t → IsAllocated (deallocate_reg r sink t).0
unfolding deallocate_reg
deallocate_reg-IsAllocated r sink t k = elim (home_cases r (t.reg_mapping r) (k.home r)) [
  | inl e ↦ rw e k
  | inr (x, e, a) ↦ rw e (release t r x k e a)
]

pub deallocate_from-IsAllocated :
    (n r : ℕ) (t : Translator) → IsAllocated t → IsAllocated (deallocate_from n r t).0
unfolding deallocate_from
deallocate_from-IsAllocated zero r t k = k
deallocate_from-IsAllocated (suc n) r t k =
    deallocate_from-IsAllocated n (suc r) (deallocate_reg r true t).0
      (deallocate_reg-IsAllocated r true t k)
