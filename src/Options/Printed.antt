-- ===== src/Options/Printed.antt =====
-- Options as the arguments that set them, and back.
use Prim.Native.String.{String}
use risc_v_simulator.Base.{
  ℕ, ◌≤◌, ◌<◌, ◌^◌, ◌≡◌, refl, ◌∙◌, Bool, true, false, List, ◌∷◌, Option, none, some, length, arith,
}
use risc_v_simulator.Options.{
  Options, defaults, Setting, Number, Round, parse_arg, parse_option, parse_round, parse_rounds,
  parse_options,
}
use risc_v_simulator.Options.Rounds.{parse_rounds_enough}

-- The arguments that set an option, in front of others.
abbrev print_flag : String → Bool → List String → List String
print_flag name true args = name ∷ args
print_flag name false args = args

abbrev print_string : String → Option String → List String → List String
print_string name none args = args
print_string name (some s) args = name ∷ s ∷ args

module _ (show : ℕ → String) where
  abbrev print_number : String → ℕ → List String → List String
  print_number name n args = name ∷ show n ∷ args

  unfoldable pub print : Options → List String → List String
  print o args = print_flag "-verbose" o.verbose (
      print_flag "-execution-log" o.execution_log (
        print_string "-log-file" o.log_file (
          print_number "-mem-pages" o.mem_pages (
            print_number "-cache-size" o.cache_size (
              print_number "-itlb-size" o.itlb_size (
                print_number "-dtlb-size" o.dtlb_size (
                  print_flag "-jit" o.jit (
                    print_number "-jit-threshold" o.jit_threshold (
                      print_flag "-jit-log" o.jit_log (
                        print_number "-max-insts" o.max_insts
                          (print_string "-elf" o.elf_file args)))))))))))

-- The numeric options are 64-bit numbers.
abbrev pub IsWide : Options → Type 0
IsWide o =
    (o.mem_pages < 2 ^ 64)
    × (o.cache_size < 2 ^ 64)
    × (o.itlb_size < 2 ^ 64)
    × (o.dtlb_size < 2 ^ 64)
    × (o.jit_threshold < 2 ^ 64)
    × (o.max_insts < 2 ^ 64)

-- A round of ParseOptions, from the section's std::stoull on.
module _ (stoull : String → Number) where
  parse_options-taken :
      (arg : String) (args args' : List String) (o o' : Options)
      → parse_round stoull arg args o ≡ Round.taken o' args'
      → length args' ≤ length args
      → parse_options stoull (arg ∷ args) o ≡ parse_options stoull args' o'
  unfolding parse_options parse_rounds
  parse_options-taken arg args args' o o' e h =
      rw (e, parse_rounds) (parse_rounds_enough stoull (length args) args' o' h)

  -- A row of each kind, where the round takes it.
  flag_row :
      (name : String) (field : Bool → Options) (args : List String)
      → parse_round stoull name args (field false) ≡ Round.taken (field true) args
      → (b : Bool)
      → parse_options stoull (print_flag name b args) (field false)
        ≡ parse_options stoull args (field b)
  flag_row name field args e true = parse_options-taken name args args _ _ e (omega arith)
  flag_row name field args e false = refl

  string_row :
      (name : String) (field : Option String → Options) (args : List String)
      → ((s : String)
          → parse_round stoull name (s ∷ args) (field none) ≡ Round.taken (field (some s)) args)
      → (s : Option String)
      → parse_options stoull (print_string name s args) (field none)
        ≡ parse_options stoull args (field s)
  string_row name field args e (some s) =
      parse_options-taken name (s ∷ args) args _ _ (e s) (omega arith)
  string_row name field args e none = refl

  number_row :
      (name : String) (set : ℕ → Options → Options) (args : List String) (o : Options) (n : ℕ)
      (a : String)
      → parse_round stoull name (a ∷ args) o
        ≡ parse_arg stoull name (Setting.number set) (a ∷ args) o
      → stoull a ≡ Number.value n
      → parse_options stoull (name ∷ a ∷ args) o ≡ parse_options stoull args (set n o)
  unfolding parse_arg
  number_row name set args o n a e e' =
      parse_options-taken name (a ∷ args) args o (set n o) (rw e (rw (e', parse_arg) refl))
        (omega arith)

  -- Options survive being printed as arguments and read by ParseOptions into the defaults, in front of
  -- other arguments, when the numeric options fit 64 bits and std::stoull reads the numbers below 2^64
  -- as they are shown.
  pub parse_options-print :
      (show : ℕ → String) (o : Options) (args : List String)
      → ((n : ℕ) → n < 2 ^ 64 → stoull (show n) ≡ Number.value n)
      → IsWide o
      → parse_options stoull (print show o args) defaults ≡ parse_options stoull args o
  unfolding parse_round parse_option print
  parse_options-print show o args shown h =
      let o1 = record defaults { verbose = o.verbose } in
      let o2 = record o1 { execution_log = o.execution_log } in
      let o3 = record o2 { log_file = o.log_file } in
      let o4 = record o3 { mem_pages = o.mem_pages } in
      let o5 = record o4 { cache_size = o.cache_size } in
      let o6 = record o5 { itlb_size = o.itlb_size } in
      let o7 = record o6 { dtlb_size = o.dtlb_size } in
      let o8 = record o7 { jit = o.jit } in
      let o9 = record o8 { jit_threshold = o.jit_threshold } in
      let o10 = record o9 { jit_log = o.jit_log } in
      let o11 = record o10 { max_insts = o.max_insts } in
      flag_row "-verbose" (λ b. record defaults { verbose = b }) _ refl o.verbose
      ∙ flag_row "-execution-log" (λ b. record o1 { execution_log = b }) _ refl o.execution_log
      ∙ string_row "-log-file" (λ s. record o2 { log_file = s }) _ (λ s. refl) o.log_file
      ∙ number_row "-mem-pages" (λ n o. record o { mem_pages = n }) _ o3 o.mem_pages _ refl
          (shown o.mem_pages h.0)
      ∙ number_row "-cache-size" (λ n o. record o { cache_size = n }) _ o4 o.cache_size _ refl
          (shown o.cache_size h.1)
      ∙ number_row "-itlb-size" (λ n o. record o { itlb_size = n }) _ o5 o.itlb_size _ refl
          (shown o.itlb_size h.2)
      ∙ number_row "-dtlb-size" (λ n o. record o { dtlb_size = n }) _ o6 o.dtlb_size _ refl
          (shown o.dtlb_size h.3)
      ∙ flag_row "-jit" (λ b. record o7 { jit = b }) _ refl o.jit
      ∙ number_row "-jit-threshold" (λ n o. record o { jit_threshold = n }) _ o8 o.jit_threshold _
          refl (shown o.jit_threshold h.4)
      ∙ flag_row "-jit-log" (λ b. record o9 { jit_log = b }) _ refl o.jit_log
      ∙ number_row "-max-insts" (λ n o. record o { max_insts = n }) _ o10 o.max_insts _ refl
          (shown o.max_insts h.5)
      ∙ string_row "-elf" (λ s. record o11 { elf_file = s }) _ (λ s. refl) o.elf_file
