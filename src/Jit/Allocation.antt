-- ===== src/Jit/Allocation.antt =====
-- The allocation of host registers in sim/jit.cpp keeps the registers of the guest apart.
use mathlib.Core.Path.{subst}
use risc_v_simulator.Base.{
  ℕ, ◌≡◌, refl, sym, ◌∙◌, inl, inr, Bool, true, false, not, ◌&&◌, ◌||◌, ◌==◌, ==_iff, List, [], ◌∷◌,
  Bool-cases, arith,
}
use risc_v_simulator.Jit.{initial, initial_pool}
use risc_v_simulator.Jit.Host.{Gp, Operand, same_gp, same}
use risc_v_simulator.Jit.Registers.{Translator, reg_mem_op, map_reg}
use risc_v_simulator.Jit.Operands.{IsWord, IsValue}
use risc_v_simulator.Jit.Effects.{is_temp}
use risc_v_simulator.Jit.Pairs.{same-sym}
use risc_v_simulator.Jit.Guest.{IsMapped}

-- Neither a temporary nor the pointer to the state.
unfoldable pub is_allocatable : Gp → Bool
is_allocatable Gp.eax = false
is_allocatable Gp.edx = false
is_allocatable Gp.edi = false
is_allocatable _ = true

unfoldable pub in_pool : Gp → List Gp → Bool
in_pool g [] = false
in_pool g (x ∷ xs) = same_gp g x || in_pool g xs

unfoldable pub is_distinct : List Gp → Bool
unfolding in_pool
is_distinct [] = true
is_distinct (x ∷ xs) = not (in_pool x xs) && is_distinct xs

-- Where a guest register may be kept.
pub data IsHome (r : ℕ) : Operand → Type 0 where
  host : (g : Gp) → is_allocatable g ≡ true → IsHome r (Operand.gp g)
  memory : IsHome r (reg_mem_op r)

-- Every guest register is kept in a host register of its own or in its field of the state, and the
-- pool has the host registers that keep none, each once.
pub record IsAllocated (t : Translator) : Type 0 where
  pub home : (r : ℕ) → IsHome r (t.reg_mapping r)
  pub apart : (r r' : ℕ) → (r == r') ≡ false → same (t.reg_mapping r) (t.reg_mapping r') ≡ false
  pub free :
      (g : Gp)
      → in_pool g t.reg_pool ≡ true
      → (is_allocatable g ≡ true) × ((r : ℕ) → same (Operand.gp g) (t.reg_mapping r) ≡ false)
  pub distinct : is_distinct t.reg_pool ≡ true

pub home-IsWord : (r : ℕ) (o : Operand) → IsHome r o → IsWord o
home-IsWord r _ (IsHome.host g e) = IsWord.reg g
home-IsWord r _ IsHome.memory = IsWord.slot r

home_place : (r : ℕ) (o : Operand) → IsHome r o → is_temp o ≡ false
unfolding is_allocatable
home_place r _ (IsHome.host Gp.eax e) = cc e
home_place r _ (IsHome.host Gp.edx e) = cc e
home_place r _ (IsHome.host _ e) = refl
home_place r _ IsHome.memory = refl

pub IsAllocated-IsMapped : (t : Translator) → IsAllocated t → IsMapped t
IsAllocated-IsMapped t k = record {
  place =
      λ r. (home-IsWord r (t.reg_mapping r) (k.home r), home_place r (t.reg_mapping r) (k.home r));
  apart = k.apart;
}

initial_free : (g : Gp) → in_pool g initial_pool ≡ true → is_allocatable g ≡ true
unfolding in_pool is_allocatable
initial_free Gp.eax e = cc e
initial_free Gp.edx e = cc e
initial_free Gp.edi e = cc e
initial_free _ e = refl

pub initial-IsAllocated : IsAllocated initial
unfolding is_distinct
initial-IsAllocated = record {
  home = λ r. IsHome.memory;
  apart = λ r r' e. e;
  free = λ g e. (initial_free g e, λ r. refl);
  distinct = refl;
}

-- The mapping with one register elsewhere.
module _ (t : Translator) (k : IsAllocated t) (reg : ℕ) where
  pub IsHome-map : (o : Operand) → IsHome reg o → (r : ℕ) → IsHome r (map_reg reg o t.reg_mapping r)
  IsHome-map o p r = elim (Bool-cases (r == reg)) [
    | inl e ↦ rw e (subst (λ x. IsHome x o) (sym ((==_iff r reg).0 e)) p)
    | inr e ↦ rw e (k.home r)
  ]

  pub apart_map :
      (o : Operand)
      → IsWord o
      → ((r : ℕ) → (r == reg) ≡ false → same o (t.reg_mapping r) ≡ false)
      → (r r' : ℕ) → (r == r') ≡ false
      → same (map_reg reg o t.reg_mapping r) (map_reg reg o t.reg_mapping r') ≡ false
  apart_map o w f r r' n = elim (Bool-cases (r == reg)) [
    | inl e ↦ elim (Bool-cases (r' == reg)) [
      | inl e' ↦ absurd (ground arith)
      | inr e' ↦ rw (e, e') (f r' e')
    ]
    | inr e ↦ elim (Bool-cases (r' == reg)) [
      | inl e' ↦
          rw (e, e')
            (sym (same-sym o (t.reg_mapping r) w (IsValue.word (home-IsWord r _ (k.home r))))
              ∙ f r e)
      | inr e' ↦ rw (e, e') (k.apart r r' n)
    ]
  ]

  pub pool_map :
      (g : Gp) (o : Operand)
      → same (Operand.gp g) o ≡ false
      → ((r : ℕ) → (r == reg) ≡ false → same (Operand.gp g) (t.reg_mapping r) ≡ false)
      → (r : ℕ) → same (Operand.gp g) (map_reg reg o t.reg_mapping r) ≡ false
  pool_map g o n f r = elim (Bool-cases (r == reg)) [ inl e ↦ rw e n | inr e ↦ rw e (f r e) ]
