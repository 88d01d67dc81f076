-- ===== src/Options.antt =====
-- Command line options: sim/options.h, sim/options.cpp and sim/options_list.h. An argument vector is
-- the list of its strings; cur_arg is the list that is left. std::stoull is a parameter. Printing the
-- help and the log file are output alone.
pub mod Rounds
pub mod Printed
use Prim.Native.String.{String}
use text.Mathlib.Text.{◌==◌}
use risc_v_simulator.Base.{
  ℕ, zero, suc, Bool, true, false, Option, none, some, List, [], ◌∷◌, if◌then◌else◌, length,
}

pub record Options : Type 0 where
  pub verbose : Bool
  pub execution_log : Bool
  pub log_file : Option String
  pub mem_pages : ℕ
  pub cache_size : ℕ
  pub itlb_size : ℕ
  pub dtlb_size : ℕ
  pub jit : Bool
  pub jit_threshold : ℕ
  pub jit_log : Bool
  pub max_insts : ℕ
  pub elf_file : Option String

-- The column `default`.
abbrev pub defaults : Options
defaults = record {
  verbose = false;
  execution_log = false;
  log_file = none;
  mem_pages = 128;
  cache_size = 256;
  itlb_size = 256;
  dtlb_size = 256;
  jit = false;
  jit_threshold = 100;
  jit_log = false;
  max_insts = 2000000;
  elf_file = none;
}

-- data_ of an Option<T>, for a T that is bool, unsigned or char *.
pub data Setting : Type 0 where
  flag : (Options → Options) → Setting
  number : (ℕ → Options → Options) → Setting
  string : (String → Options → Options) → Setting

abbrev pub option_list : List (String × Setting)
option_list =
    ("-verbose", Setting.flag (λ o. record o { verbose = true }))
    ∷ ("-execution-log", Setting.flag (λ o. record o { execution_log = true }))
    ∷ ("-log-file", Setting.string (λ s o. record o { log_file = some s }))
    ∷ ("-mem-pages", Setting.number (λ n o. record o { mem_pages = n }))
    ∷ ("-cache-size", Setting.number (λ n o. record o { cache_size = n }))
    ∷ ("-itlb-size", Setting.number (λ n o. record o { itlb_size = n }))
    ∷ ("-dtlb-size", Setting.number (λ n o. record o { dtlb_size = n }))
    ∷ ("-jit", Setting.flag (λ o. record o { jit = true }))
    ∷ ("-jit-threshold", Setting.number (λ n o. record o { jit_threshold = n }))
    ∷ ("-jit-log", Setting.flag (λ o. record o { jit_log = true }))
    ∷ ("-max-insts", Setting.number (λ n o. record o { max_insts = n }))
    ∷ ("-elf", Setting.string (λ s o. record o { elf_file = some s }))
    ∷ []

-- How std::stoull ends: with a number, std::invalid_argument or std::out_of_range.
pub data Number : Type 0 where
  value : ℕ → Number
  invalid too_large : Number

-- The exceptions, with the strings in their messages.
pub data ParseError : Type 0 where
  unrecognized_argument : String → ParseError
  not_specified : String → ParseError
  not_number : String → String → ParseError
  out_of_range : String → ParseError

-- How ParseOptions ends. `running` stands for a loop that the given rounds do not end, `undefined`
-- for a std::string of the null pointer behind the last argument.
pub data Parsed : Type 0 where
  parsed : Options → Parsed
  help : Parsed
  failed : ParseError → Parsed
  undefined : Parsed
  running : Parsed

-- One option's arguments: the new values and the arguments that are left, or the end.
pub data Round : Type 0 where
  taken : Options → List String → Round
  ended : Parsed → Round

module _ (stoull : String → Number) where
  -- The exception that ParseArg makes of an invalid number holds the argument behind it.
  unfoldable pub bad_number : String → List String → Round
  bad_number name [] = Round.ended Parsed.undefined
  bad_number name (next ∷ args) = Round.ended (Parsed.failed (ParseError.not_number name next))

  -- ParseArg<T>, with the exception that parseOption makes of its own.
  unfoldable pub parse_arg : String → Setting → List String → Options → Round
  unfolding bad_number
  parse_arg name (Setting.flag set) args o = Round.taken (set o) args
  parse_arg name (Setting.number set) [] o =
      Round.ended (Parsed.failed (ParseError.not_specified name))
  parse_arg name (Setting.number set) (arg ∷ args) o = elim (stoull arg) [
    | Number.value n ↦ Round.taken (set n o) args
    | Number.invalid ↦ bad_number name args
    | Number.too_large ↦ Round.ended (Parsed.failed (ParseError.out_of_range name))
  ]
  parse_arg name (Setting.string set) [] o =
      Round.ended (Parsed.failed (ParseError.not_specified name))
  parse_arg name (Setting.string set) (arg ∷ args) o = Round.taken (set arg o) args

  -- The chain of parseOption calls.
  unfoldable pub parse_option : List (String × Setting) → String → List String → Options → Round
  unfolding parse_arg
  parse_option [] arg args o = Round.ended (Parsed.failed (ParseError.unrecognized_argument arg))
  parse_option ((name, setting) ∷ rows) arg args o =
      let rest = parse_option rows arg args o in
      if name == arg then parse_arg name setting args o else rest

  -- One round of the loop of ParseOptions.
  unfoldable pub parse_round : String → List String → Options → Round
  unfolding parse_option
  parse_round arg args o =
      if "-help" == arg then Round.ended Parsed.help else parse_option option_list arg args o

  unfoldable pub parse_rounds : ℕ → List String → Options → Parsed
  unfolding parse_round
  parse_rounds rounds [] o = Parsed.parsed o
  parse_rounds zero (arg ∷ args) o = Parsed.running
  parse_rounds (suc rounds) (arg ∷ args) o = elim (parse_round arg args o) [
    | Round.taken o' args' ↦ parse_rounds rounds args' o'
    | Round.ended p ↦ p
  ]

  -- ParseOptions for the arguments behind argv[0]. A round takes an argument at least.
  unfoldable pub parse_options : List String → Options → Parsed
  unfolding parse_rounds
  parse_options args o = parse_rounds (length args) args o

-- The FILE * that the log is written to, stderr or the number of an open file.
data Log : Type 0 where
  stderr : Log
  file : ℕ → Log

-- OpenLog, for a fopen that returns null as none.
unfoldable open_log : (String → Option ℕ) → Options → Log
open_log fopen o = elim o.log_file [
  | none ↦ Log.stderr
  | some name ↦ elim (fopen name) [ none ↦ Log.stderr | some f ↦ Log.file f ]
]

-- CloseLog, on the numbers of the files that have been closed.
unfoldable close_log : Log → List ℕ → List ℕ
close_log Log.stderr closed = closed
close_log (Log.file f) closed = f ∷ closed
