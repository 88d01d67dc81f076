-- ===== src/Outcome.antt =====
-- How a run of the simulator's code ends: sim/common.h's SimException as a value, and the state
-- that it leaves behind. `undefined` stands for behaviour that C++ leaves undefined (a shift by 32
-- or more, an access past the end of a vector, a use of a destroyed object).

use risc_v_simulator.Base.{◌≡◌, ◌⊎◌, inl, inr, refl, arith}

-- One constructor for each message that a SimException is thrown with.
pub data SimException : Type 0 where
  no_cmd_opcode_funct3 : SimException
  no_cmd_opcode_funct3_funct7 : SimException
  packed_unsupported : SimException
  opcode_unsupported : SimException
  slli_immediate : SimException
  shift_right_immediate : SimException
  fence_operands : SimException
  system_operands : SimException
  system_immediate : SimException
  format_unimplemented : SimException
  out_of_memory : SimException
  page_fault_valid : SimException
  page_fault_level : SimException
  page_fault : SimException
  not_satp : SimException
  segment_too_large : SimException
  finished : SimException

pub data Outcome {ℓ κ} (S : Type ℓ) (A : Type κ) : Type (ℓ ⊔ κ) where
  ok : A → S → Outcome S A
  throw : SimException → S → Outcome S A
  undefined : Outcome S A

-- Code over a state of type `S` that returns an `A`.
abbrev pub Exec {ℓ κ} : Type ℓ → Type κ → Type (ℓ ⊔ κ)
Exec S A = S → Outcome S A

infixl 5 ◌>>=◌ ◌>>◌
abbrev pub bind {ℓ κ μ} :
    {S : Type ℓ} {A : Type κ} {B : Type μ} → Outcome S A → (A → S → Outcome S B) → Outcome S B
bind (ok a s) k = k a s
bind (throw e s) k = throw e s
bind undefined k = undefined

abbrev pub ◌>>=◌ {ℓ κ μ} :
    {S : Type ℓ} {A : Type κ} {B : Type μ} → Exec S A → (A → Exec S B) → Exec S B
◌>>=◌ m k s = bind (m s) k

abbrev pub ◌>>◌ {ℓ κ} : {S : Type ℓ} {B : Type κ} → Exec S (Unit {0}) → Exec S B → Exec S B
◌>>◌ m k s = bind (m s) (λ _ s'. k s')

abbrev pub return {ℓ κ} : {S : Type ℓ} {A : Type κ} → A → Exec S A
return a s = ok a s

abbrev pub raise {ℓ κ} : {S : Type ℓ} {A : Type κ} → SimException → Exec S A
raise e s = throw e s

abbrev pub gets {ℓ κ} : {S : Type ℓ} {A : Type κ} → (S → A) → Exec S A
gets f s = ok (f s) s

abbrev pub modify {ℓ} : {S : Type ℓ} → (S → S) → Exec S (Unit {0})
modify f s = ok tt (f s)

-- A successful chain has a successful first part.
pub bind-eq-ok {ℓ κ μ} :
    {S : Type ℓ} {A : Type κ} {B : Type μ} (o : Outcome S A) (k : A → S → Outcome S B) {b : B}
    {s : S}
    → bind o k ≡ ok b s
    → (a : A) × (s' : S) × (o ≡ ok a s') × (k a s' ≡ ok b s)
bind-eq-ok (ok a s') k h = (a, s', refl, h)
bind-eq-ok (throw e s') k h = cc
bind-eq-ok undefined k h = cc

-- What a successful run leaves behind.
pub ok-state :
    {S A : Type 0} (a b : A) (s s' : S) → ◌≡◌ {A = Outcome S A} (ok a s) (ok b s') → s ≡ s'
ok-state a b s s' e = ground arith

pub outcome_cases :
    {S A : Type 0} (o : Outcome S A)
    → ((a : A) × (s : S) × (o ≡ ok a s))
      ⊎ (((x : SimException) × (s : S) × (o ≡ throw x s)) ⊎ (o ≡ undefined))
outcome_cases (ok a s) = inl (a, s, refl)
outcome_cases (throw x s) = inr (inl (x, s, refl))
outcome_cases undefined = inr (inr refl)
