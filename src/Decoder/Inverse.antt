-- ===== src/Decoder/Inverse.antt =====
-- decode against the encoding, from a word to its instruction and back: one format at a time.
use risc_v_simulator.Base.{ℕ, ◌+◌, ◌*◌, ◌/◌, ◌%◌, ◌^◌, ◌<◌, ◌≡◌, refl, arith, bits, u32}
use risc_v_simulator.Isa.{Cmd, CmdFormat}
use risc_v_simulator.Ir.{
  Inst, get_cmd_format, gen_inst_r, gen_inst_i, gen_inst_s, gen_inst_u, gen_inst_b, gen_inst_j,
}
use risc_v_simulator.Decoder.{s_imm, b_imm, j_imm}
use risc_v_simulator.Decoder.Tables.{Decoded, ok, throw, undefined, ◌>>=◌}
use risc_v_simulator.Decoder.Encoding.{
  encode, encode_format, opcode_of, funct3_of, IsShaped, IsWellFormed, IsImmediate, IsSigned,
}
use risc_v_simulator.Decoder.Fields.{s_imm_lem, b_imm_lem, j_imm_lem, extended, b_bits, j_bits}
use risc_v_simulator.Decoder.Lookup.{format_of, IsFound}

pub >>=-eq-ok :
    {A B : Type 0} (m : Decoded A) (k : A → Decoded B) {b : B}
    → (m >>= k) ≡ ok b
    → (a : A) × (m ≡ ok a) × (k a ≡ ok b)
>>=-eq-ok (ok a) k h = (a, refl, h)
>>=-eq-ok (throw e) k h = cc
>>=-eq-ok undefined k h = cc

pub bind_pair :
    {A B C : Type 0} (m : Decoded (A × B)) (k : A → B → Decoded C) {c : C}
    → (m >>= λ (a, b). k a b) ≡ ok c
    → (a : A) × (b : B) × (m ≡ ok (a, b)) × (k a b ≡ ok c)
bind_pair (ok (a, b)) k h = (a, b, refl, h)
bind_pair (throw e) k h = cc
bind_pair undefined k h = cc

-- What is claimed of an instruction and the word it was decoded from.
abbrev pub IsInverse : ℕ → Inst → Type 0
IsInverse w i = (encode i ≡ w) × IsWellFormed i

-- By the format, which the tables give.
IsInverse-of_shape :
    (f : CmdFormat) (w : ℕ) (i : Inst)
    → get_cmd_format i ≡ f
    → encode_format f i ≡ w
    → IsShaped f i
    → IsInverse w i
unfolding encode
IsInverse-of_shape f w i e h s = (rw e h, rw e s)

format_of-get_cmd_format : (i : Inst) → get_cmd_format i ≡ format_of i.cmd
unfolding get_cmd_format format_of
format_of-get_cmd_format i = refl

-- The immediate `m` of a branch goes to the fields `a` and `b` of its word.
abbrev IsScattered : ℕ → ℕ → ℕ → Type 0
IsScattered a b m =
    (2 * (m % 2 ^ 4) + m / 2 ^ 10 % 2 ≡ a)
    × (2 ^ 6 * (m / 2 ^ 11 % 2) + m / 2 ^ 4 % 2 ^ 6 ≡ b)
    × IsSigned 11 m

b_bits-IsScattered : (a b : ℕ) → a < 32 → b < 128 → IsScattered a b (extended 11 (b_bits a b))
b_bits-IsScattered a b h g = (ground arith, ground arith, ground arith)

module _ (w : ℕ) (fits : w < 2 ^ 32) (low : w % 4 ≡ 3) where
  abbrev op : ℕ
  op = bits 2 5 w

  pub IsInverse-r :
      (c : Cmd)
      → IsFound CmdFormat.r op (bits 12 3 w) (bits 25 7 w) c
      → IsInverse w (gen_inst_r c (bits 7 5 w) (bits 15 5 w) (bits 20 5 w))
  unfolding encode_format gen_inst_r format_of get_cmd_format
  IsInverse-r c f =
      IsInverse-of_shape CmdFormat.r w (gen_inst_r c (bits 7 5 w) (bits 15 5 w) (bits 20 5 w)) f.0
        (rw (f.1, f.2, f.3) (omega arith)) (omega arith)

  pub IsInverse-i :
      (c : Cmd) (imm : ℕ)
      → (imm % 2 ^ 12 ≡ bits 20 12 w)
        × (format_of c ≡ CmdFormat.i)
        × (opcode_of c ≡ op)
        × (funct3_of c ≡ bits 12 3 w)
        × IsImmediate c imm (bits 15 5 w) (bits 7 5 w)
      → IsInverse w (gen_inst_i c (bits 7 5 w) (bits 15 5 w) imm)
  unfolding encode_format gen_inst_i format_of get_cmd_format
  IsInverse-i c imm f =
      IsInverse-of_shape CmdFormat.i w (gen_inst_i c (bits 7 5 w) (bits 15 5 w) imm) f.1
        (rw (f.2, f.3) (omega (arith, f.0))) (omega arith, omega arith, refl, f.4)

  pub IsInverse-s :
      (c : Cmd)
      → IsFound CmdFormat.s op (bits 12 3 w) (bits 25 7 w) c
      → IsInverse w (gen_inst_s c (s_imm (bits 7 5 w) (bits 25 7 w)) (bits 15 5 w) (bits 20 5 w))
  unfolding encode_format gen_inst_s format_of get_cmd_format
  IsInverse-s c f = rw (s_imm_lem (bits 7 5 w) (bits 25 7 w) (omega arith) (omega arith)) (
      IsInverse-of_shape CmdFormat.s w
        (gen_inst_s c (extended 11 (2 ^ 5 * bits 25 7 w + bits 7 5 w)) (bits 15 5 w) (bits 20 5 w))
        f.0 (rw (f.1, f.2) (ground arith)) (ground arith))

  pub IsInverse-b :
      (c : Cmd)
      → IsFound CmdFormat.b op (bits 12 3 w) (bits 25 7 w) c
      → IsInverse w (gen_inst_b c (b_imm (bits 7 5 w) (bits 25 7 w)) (bits 15 5 w) (bits 20 5 w))
  unfolding encode_format gen_inst_b format_of get_cmd_format
  IsInverse-b c f = rw (b_imm_lem (bits 7 5 w) (bits 25 7 w) (omega arith) (omega arith)) (
      IsInverse-of_shape CmdFormat.b w
        (gen_inst_b c (extended 11 (b_bits (bits 7 5 w) (bits 25 7 w))) (bits 15 5 w) (bits 20 5 w))
        f.0 (rw (f.1, f.2, fields.0, fields.1) (omega arith))
        (refl, omega arith, omega arith, fields.2))
    where
      fields :
          IsScattered (bits 7 5 w) (bits 25 7 w) (extended 11 (b_bits (bits 7 5 w) (bits 25 7 w)))
      fields = b_bits-IsScattered (bits 7 5 w) (bits 25 7 w) (omega arith) (omega arith)

  pub IsInverse-u :
      (c : Cmd)
      → IsFound CmdFormat.u op (bits 12 3 w) (bits 25 7 w) c
      → IsInverse w (gen_inst_u c (bits 7 5 w) (u32 (bits 12 20 w * 2 ^ 12)))
  unfolding encode_format gen_inst_u format_of get_cmd_format
  IsInverse-u c f =
      IsInverse-of_shape CmdFormat.u w (gen_inst_u c (bits 7 5 w) (u32 (bits 12 20 w * 2 ^ 12))) f.0
        (rw f.1 (omega arith)) (omega arith)

  pub IsInverse-j :
      (c : Cmd)
      → IsFound CmdFormat.j op (bits 12 3 w) (bits 25 7 w) c
      → IsInverse w (gen_inst_j c (bits 7 5 w) (j_imm (bits 12 20 w)))
  unfolding encode_format gen_inst_j format_of get_cmd_format
  IsInverse-j c f = rw (j_imm_lem (bits 12 20 w) (omega arith)) (
      IsInverse-of_shape CmdFormat.j w
        (gen_inst_j c (bits 7 5 w) (extended 19 (j_bits (bits 12 20 w)))) f.0
        (rw f.1 (ground arith)) (ground arith))
