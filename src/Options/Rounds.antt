-- ===== src/Options/Rounds.antt =====
-- The loop of ParseOptions in sim/options.cpp ends.
use mathlib.Core.Path.{subst}
use Prim.Native.String.{String}
use text.Mathlib.Text.{◌==◌}
use risc_v_simulator.Base.{
  ℕ, zero, suc, ◌≤◌, ◌≡◌, ◌≢◌, ◌⊎◌, refl, inl, inr, Bool, true, false, List, [], ◌∷◌, if◌then◌else◌,
  length, arith,
}
use risc_v_simulator.Options.{
  Options, Setting, Number, Parsed, ParseError, Round, bad_number, parse_arg, parse_option,
  parse_round, parse_rounds, parse_options, option_list,
}

-- A round that goes on leaves no more arguments than stand behind its own, and none runs forever.
abbrev Shrinks : ℕ → Round → Type 0
Shrinks n (Round.taken o args) = length args ≤ n
Shrinks n (Round.ended p) = p ≢ Parsed.running

Shrinks-if :
    (n : ℕ) (b : Bool) (x y : Round) → Shrinks n x → Shrinks n y → Shrinks n (if b then x else y)
Shrinks-if n true x y p q = p
Shrinks-if n false x y p q = q

module _ (stoull : String → Number) where
  bad_number-Shrinks :
      (n : ℕ) (name : String) (args : List String) → Shrinks n (bad_number stoull name args)
  unfolding bad_number
  bad_number-Shrinks n name [] = λ p. cc p
  bad_number-Shrinks n name (a ∷ args) = λ p. cc p

  value-Shrinks :
      (n : ℕ) (name : String) (set : ℕ → Options → Options) (arg : String) (args : List String)
      (o : Options)
      → suc (length args) ≤ n
      → Shrinks n (parse_arg stoull name (Setting.number set) (arg ∷ args) o)
  unfolding parse_arg
  value-Shrinks n name set arg args o h =
      elim (stoull arg)
        as (λ r. Shrinks n (elim r [
          | Number.value v ↦ Round.taken (set v o) args
          | Number.invalid ↦ bad_number stoull name args
          | Number.too_large ↦ Round.ended (Parsed.failed (ParseError.out_of_range name))
        ])) [
          | Number.value v ↦ omega (arith, h)
          | Number.invalid ↦ bad_number-Shrinks n name args
          | Number.too_large ↦ λ p. cc p
        ]

  parse_arg-Shrinks :
      (name : String) (s : Setting) (args : List String) (o : Options)
      → Shrinks (length args) (parse_arg stoull name s args o)
  unfolding parse_arg
  parse_arg-Shrinks name (Setting.flag set) args o = omega arith
  parse_arg-Shrinks name (Setting.number set) [] o = λ p. cc p
  parse_arg-Shrinks name (Setting.number set) (a ∷ args) o =
      value-Shrinks (suc (length args)) name set a args o (omega arith)
  parse_arg-Shrinks name (Setting.string set) [] o = λ p. cc p
  parse_arg-Shrinks name (Setting.string set) (a ∷ args) o = omega arith

  parse_option-Shrinks :
      (rows : List (String × Setting)) (arg : String) (args : List String) (o : Options)
      → Shrinks (length args) (parse_option stoull rows arg args o)
  unfolding parse_option
  parse_option-Shrinks [] arg args o = λ p. cc p
  parse_option-Shrinks ((name, s) ∷ rows) arg args o =
      Shrinks-if (length args) (name == arg) _ _ (parse_arg-Shrinks name s args o)
        (parse_option-Shrinks rows arg args o)

  parse_round-Shrinks :
      (arg : String) (args : List String) (o : Options)
      → Shrinks (length args) (parse_round stoull arg args o)
  unfolding parse_round
  parse_round-Shrinks arg args o =
      Shrinks-if (length args) ("-help" == arg) _ _ (λ p. cc p)
        (parse_option-Shrinks option_list arg args o)

  Round-cases :
      (r : Round)
      → ((o : Options) × (args : List String) × (r ≡ Round.taken o args))
        ⊎ ((p : Parsed) × (r ≡ Round.ended p))
  Round-cases (Round.taken o args) = inl (o, args, refl)
  Round-cases (Round.ended p) = inr (p, refl)

  -- More rounds do not change the result.
  rounds_agree :
      (f g : ℕ) (args : List String) (o : Options)
      → length args ≤ f
      → length args ≤ g
      → parse_rounds stoull f args o ≡ parse_rounds stoull g args o
  unfolding parse_rounds
  rounds_agree f g [] o h k = refl
  rounds_agree zero g (a ∷ args) o h k = absurd (omega arith)
  rounds_agree (suc f) zero (a ∷ args) o h k = absurd (omega arith)
  rounds_agree (suc f) (suc g) (a ∷ args) o h k =
      let next = rounds_agree f g in
      elim (Round-cases (parse_round stoull a args o)) [
        | inl (o', args', e) ↦
            let shorter = subst (Shrinks (length args)) e (parse_round-Shrinks a args o) in
            rw (e, parse_rounds) (next args' o' (omega (arith, shorter)) (omega (arith, shorter)))
        | inr (p, e) ↦ rw (e, parse_rounds) refl
      ]

  pub parse_rounds_enough :
      (rounds : ℕ) (args : List String) (o : Options)
      → length args ≤ rounds
      → parse_rounds stoull rounds args o ≡ parse_options stoull args o
  unfolding parse_options
  parse_rounds_enough rounds args o h = rounds_agree rounds (length args) args o h (omega arith)

  rounds_end :
      (rounds : ℕ) (args : List String) (o : Options)
      → length args ≤ rounds
      → parse_rounds stoull rounds args o ≢ Parsed.running
  unfolding parse_rounds
  rounds_end rounds [] o h = λ p. cc p
  rounds_end zero (a ∷ args) o h = absurd (omega arith)
  rounds_end (suc rounds) (a ∷ args) o h =
      let next = rounds_end rounds in
      elim (Round-cases (parse_round stoull a args o)) [
        | inl (o', args', e) ↦
            let shorter = subst (Shrinks (length args)) e (parse_round-Shrinks a args o) in
            rw (e, parse_rounds) (next args' o' (omega (arith, shorter)))
        | inr (p, e) ↦
            rw (e, parse_rounds) (subst (Shrinks (length args)) e (parse_round-Shrinks a args o))
      ]

  -- ParseOptions ends: with as many rounds as there are arguments its loop does not go on.
  pub parse_options-ends :
      (args : List String) (o : Options) → parse_options stoull args o ≢ Parsed.running
  unfolding parse_options
  parse_options-ends args o = rounds_end (length args) args o (omega arith)
