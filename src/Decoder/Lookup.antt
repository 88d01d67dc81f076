-- ===== src/Decoder/Lookup.antt =====
-- What the tables of the constructed decoder hold, against the rows of cmd_desc.
use risc_v_simulator.Base.{
  ℕ, zero, suc, ◌<◌, ◌≡◌, ◌≢◌, ap, sym, ◌∙◌, inl, inr, not, Bool-cases, refl, arith, Bool, true,
  false, ◌&&◌, ◌||◌, ◌==◌,
}
use risc_v_simulator.Isa.{Cmd, CmdFormat, get_cmd_desc, get_opcode_desc}
use risc_v_simulator.Decoder.Tables.{
  Decoded, ok, throw, undefined, decoder, get_cmd, get_cmd_funct7,
}
use risc_v_simulator.Decoder.Encoding.{opcode_of, funct3_of, funct7_of}

unfoldable pub format_of : Cmd → CmdFormat
unfolding get_cmd_desc get_opcode_desc
format_of c = (get_opcode_desc (get_cmd_desc c).opcode).format

pub opc_to_fmt-opcode_of :
    (c : Cmd) → c ≢ Cmd.undefined → decoder.opc_to_fmt (opcode_of c) ≡ format_of c
unfolding decoder opcode_of format_of
opc_to_fmt-opcode_of Cmd.undefined h = absurd (h refl)
opc_to_fmt-opcode_of Cmd.lui h = refl
opc_to_fmt-opcode_of _ h = refl

-- The commands that share a place in the table: the last row written is what is found.
unfoldable pub found : Cmd → Cmd
found Cmd.srli = Cmd.srai
found Cmd.ecall = Cmd.wfi
found Cmd.ebreak = Cmd.wfi
found Cmd.uret = Cmd.wfi
found Cmd.sret = Cmd.wfi
found Cmd.mret = Cmd.wfi
found c = c

-- The look-up that decode makes for a format.
unfoldable pub look_up : CmdFormat → ℕ → ℕ → ℕ → Decoded Cmd
look_up CmdFormat.r opcode funct3 funct7 = get_cmd_funct7 decoder opcode funct3 funct7
look_up CmdFormat.u opcode funct3 funct7 = get_cmd decoder opcode 0
look_up CmdFormat.j opcode funct3 funct7 = get_cmd decoder opcode 0
look_up _ opcode funct3 funct7 = get_cmd decoder opcode funct3

pub look_up-found :
    (c : Cmd)
    → c ≢ Cmd.undefined
    → look_up (format_of c) (opcode_of c) (funct3_of c) (funct7_of c) ≡ ok (found c)
unfolding look_up format_of opcode_of funct3_of funct7_of found decoder get_cmd get_cmd_funct7
look_up-found Cmd.undefined h = absurd (h refl)
look_up-found Cmd.lui h = refl
look_up-found _ h = refl

-- A check of every value below a bound.
abbrev all_below : ℕ → (ℕ → Bool) → Bool
all_below zero test = true
all_below (suc bound) test = test bound && all_below bound test

all_below_sound :
    (bound : ℕ) (test : ℕ → Bool) (i : ℕ) → all_below bound test ≡ true → i < bound → test i ≡ true
all_below_sound (suc bound) test i h below = ground (arith, all_below_sound bound test i)
all_below_sound zero test i h below = absurd (omega arith)

abbrev same_format : CmdFormat → CmdFormat → Bool
same_format CmdFormat.r CmdFormat.r = true
same_format CmdFormat.i CmdFormat.i = true
same_format CmdFormat.s CmdFormat.s = true
same_format CmdFormat.u CmdFormat.u = true
same_format CmdFormat.b CmdFormat.b = true
same_format CmdFormat.j CmdFormat.j = true
same_format CmdFormat.undefined CmdFormat.undefined = true
same_format _ _ = false

-- A found command stands in its own row.
abbrev right : CmdFormat → ℕ → ℕ → ℕ → Decoded Cmd → Bool
right f op f3 f7 undefined = false
right f op f3 f7 (throw e) = true
right CmdFormat.r op f3 f7 (ok c) =
    same_format (format_of c) CmdFormat.r
    && opcode_of c == op
    && funct3_of c == f3
    && funct7_of c == f7
right CmdFormat.u op f3 f7 (ok c) = same_format (format_of c) CmdFormat.u && opcode_of c == op
right CmdFormat.j op f3 f7 (ok c) = same_format (format_of c) CmdFormat.j && opcode_of c == op
right f op f3 f7 (ok c) = same_format (format_of c) f && opcode_of c == op && funct3_of c == f3

check : ℕ → ℕ → ℕ → Bool
check op f3 f7 = right (decoder.opc_to_fmt op) op f3 f7 (look_up (decoder.opc_to_fmt op) op f3 f7)

check_op_funct7 : all_below 8 (λ f3. all_below 128 (check 12 f3)) ≡ true
unfolding check look_up get_cmd get_cmd_funct7 decoder opcode_of funct3_of funct7_of format_of
check_op_funct7 = refl

check_all : all_below 32 (λ op. all_below 8 (λ f3. check op f3 0)) ≡ true
unfolding check look_up get_cmd get_cmd_funct7 decoder opcode_of funct3_of funct7_of format_of
check_all = refl

check_r :
    all_below 32 (λ op. not (same_format (decoder.opc_to_fmt op) CmdFormat.r) || op == 12) ≡ true
unfolding decoder
check_r = refl

-- A format other than R does not look at funct7.
right_funct7 :
    (f : CmdFormat) (op f3 f7 : ℕ) (c : Decoded Cmd)
    → same_format f CmdFormat.r ≡ false
    → right f op f3 f7 c ≡ right f op f3 0 c
right_funct7 CmdFormat.r op f3 f7 c h = cc
right_funct7 CmdFormat.i op f3 f7 undefined h = refl
right_funct7 CmdFormat.i op f3 f7 (throw e) h = refl
right_funct7 f op f3 f7 c h = refl

look_up_funct7 :
    (f : CmdFormat) (op f3 f7 : ℕ)
    → same_format f CmdFormat.r ≡ false
    → look_up f op f3 f7 ≡ look_up f op f3 0
unfolding look_up
look_up_funct7 CmdFormat.r op f3 f7 h = cc
look_up_funct7 f op f3 f7 h = refl

check_funct7 :
    (op f3 f7 : ℕ)
    → same_format (decoder.opc_to_fmt op) CmdFormat.r ≡ false
    → check op f3 f7 ≡ check op f3 0
unfolding check
check_funct7 op f3 f7 n =
    let f = decoder.opc_to_fmt op in
    right_funct7 f op f3 f7 (look_up f op f3 f7) n
    ∙ ap (right f op f3 0) (look_up_funct7 f op f3 f7 n)

only_op : (op : ℕ) → op < 32 → same_format (decoder.opc_to_fmt op) CmdFormat.r ≡ true → op ≡ 12
only_op op h r = ground (
  arith,
  all_below_sound 32 (λ op. not (same_format (decoder.opc_to_fmt op) CmdFormat.r) || op == 12) op
      check_r h,
)

check_holds : (op f3 f7 : ℕ) → op < 32 → f3 < 8 → f7 < 128 → check op f3 f7 ≡ true
check_holds op f3 f7 h g k = elim (Bool-cases (same_format (decoder.opc_to_fmt op) CmdFormat.r)) [
  | inl r ↦ rw (only_op op h r) (
      all_below_sound 128 (check 12 f3) f7
        (all_below_sound 8 (λ f3. all_below 128 (check 12 f3)) f3 check_op_funct7 g) k)
  | inr n ↦ rw (check_funct7 op f3 f7 n) (
      all_below_sound 8 (λ f3. check op f3 0) f3
        (all_below_sound 32 (λ op. all_below 8 (λ f3. check op f3 0)) op check_all h) g)
]

-- What a successful look-up says of the command, by the format of its opcode.
abbrev pub IsFound : CmdFormat → ℕ → ℕ → ℕ → Cmd → Type 0
IsFound CmdFormat.r op f3 f7 c =
    (format_of c ≡ CmdFormat.r) × (opcode_of c ≡ op) × (funct3_of c ≡ f3) × (funct7_of c ≡ f7)
IsFound CmdFormat.u op f3 f7 c = (format_of c ≡ CmdFormat.u) × (opcode_of c ≡ op)
IsFound CmdFormat.j op f3 f7 c = (format_of c ≡ CmdFormat.j) × (opcode_of c ≡ op)
IsFound f op f3 f7 c = (format_of c ≡ f) × (opcode_of c ≡ op) × (funct3_of c ≡ f3)

right-IsFound :
    (f : CmdFormat) (op f3 f7 : ℕ) (c : Cmd) → right f op f3 f7 (ok c) ≡ true → IsFound f op f3 f7 c
right-IsFound CmdFormat.r op f3 f7 c h = ground arith
right-IsFound _ op f3 f7 c h = ground arith

module _ (op f3 f7 : ℕ) (h : op < 32) (g : f3 < 8) (k : f7 < 128) where
  look_up-right :
      right (decoder.opc_to_fmt op) op f3 f7 (look_up (decoder.opc_to_fmt op) op f3 f7) ≡ true
  unfolding check
  look_up-right = check_holds op f3 f7 h g k

  -- The tables hold nothing but the rows of cmd_desc.
  pub look_up-IsFound :
      (c : Cmd)
      → look_up (decoder.opc_to_fmt op) op f3 f7 ≡ ok c
      → IsFound (decoder.opc_to_fmt op) op f3 f7 c
  look_up-IsFound c e =
      let f = decoder.opc_to_fmt op in
      right-IsFound f op f3 f7 c (ap (right f op f3 f7) (sym e) ∙ look_up-right)

  -- No look-up reads past the end of the vector of funct7 tables.
  pub look_up-ne-undefined : look_up (decoder.opc_to_fmt op) op f3 f7 ≢ undefined
  look_up-ne-undefined e =
      let f = decoder.opc_to_fmt op in cc (ap (right f op f3 f7) e, look_up-right)
