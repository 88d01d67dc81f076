-- ===== src/Examples/Arguments.antt =====
-- Command lines, with a std::stoull for decimal digits.
use Prim.Native.Char.{Char, code}
use Prim.Native.String.{String}
use risc_v_simulator.Base.{
  ℕ, zero, suc, ◌+◌, ◌-◌, ◌*◌, ◌/◌, ◌%◌, ◌^◌, ◌<◌, ◌≡◌, refl, ap, ◌∙◌, true, some, [], ◌∷◌, arith,
}
use risc_v_simulator.Options.{Options, defaults, Number, parse_options}
use risc_v_simulator.Options.Printed.{IsWide, print, parse_options-print}

digit : ℕ → Char
digit zero = "0"
digit (suc zero) = "1"
digit (suc (suc zero)) = "2"
digit (suc (suc (suc zero))) = "3"
digit (suc (suc (suc (suc zero)))) = "4"
digit (suc (suc (suc (suc (suc zero))))) = "5"
digit (suc (suc (suc (suc (suc (suc zero)))))) = "6"
digit (suc (suc (suc (suc (suc (suc (suc zero))))))) = "7"
digit (suc (suc (suc (suc (suc (suc (suc (suc zero)))))))) = "8"
digit _ = "9"

code-digit : (d : ℕ) → d < 10 → code (digit d) - 48 ≡ d
unfolding digit
code-digit zero h = refl
code-digit (suc zero) h = refl
code-digit (suc (suc zero)) h = refl
code-digit (suc (suc (suc zero))) h = refl
code-digit (suc (suc (suc (suc zero)))) h = refl
code-digit (suc (suc (suc (suc (suc zero))))) h = refl
code-digit (suc (suc (suc (suc (suc (suc zero)))))) h = refl
code-digit (suc (suc (suc (suc (suc (suc (suc zero))))))) h = refl
code-digit (suc (suc (suc (suc (suc (suc (suc (suc zero)))))))) h = refl
code-digit (suc (suc (suc (suc (suc (suc (suc (suc (suc zero))))))))) h = refl
code-digit (suc (suc (suc (suc (suc (suc (suc (suc (suc (suc d)))))))))) h = absurd (omega arith)

-- The last k digits of a number.
digits : ℕ → ℕ → String → String
digits zero n s = s
digits (suc k) n s = digits k (n / 10) (String.◌∷◌ (digit (n % 10)) s)

show : ℕ → String
show n = digits 20 n ""

scan : ℕ → String → ℕ
scan n String.[] = n
scan n (String.◌∷◌ c s) = scan (n * 10 + (code c - 48)) s

unfoldable pub stoull : String → Number
unfolding scan
stoull s = Number.value (scan 0 s)

scan-digits : (k n : ℕ) (s : String) → n < 10 ^ k → scan 0 (digits k n s) ≡ scan n s
unfolding digits scan
scan-digits zero n s h = ap (λ m. scan m s) (omega arith)
scan-digits (suc k) n s h =
    scan-digits k (n / 10) (String.◌∷◌ (digit (n % 10)) s) (omega arith)
    ∙ ap (λ m. scan m s) (omega (arith, code-digit (n % 10) (omega arith)))

stoull-show : (n : ℕ) → n < 2 ^ 64 → stoull (show n) ≡ Number.value n
unfolding show stoull
stoull-show n h = ap Number.value (scan-digits 20 n "" (omega arith))

abbrev given : Options
given = record defaults { verbose = true; mem_pages = 512; jit_log = true; elf_file = some "a.elf" }

given-IsWide : IsWide given
given-IsWide = (omega arith, omega arith, omega arith, omega arith, omega arith, omega arith)

-- An argument behind the printed ones.
parse_options-print_example :
    parse_options stoull (print show given ("-jit" ∷ [])) defaults
    ≡ parse_options stoull ("-jit" ∷ []) given
parse_options-print_example =
    parse_options-print stoull show given ("-jit" ∷ []) stoull-show given-IsWide
