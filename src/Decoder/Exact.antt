-- ===== src/Decoder/Exact.antt =====
-- decode against the encoding, from a word to its instruction and back.
use mathlib.Core.Path.{subst}
use risc_v_simulator.Base.{ℕ, ◌%◌, ◌^◌, ◌<◌, ◌≡◌, arith, ap, sym, bits, ◌∙◌, ◌⊎◌, inl, inr}
use risc_v_simulator.Isa.{Cmd, CmdFormat}
use risc_v_simulator.Ir.{Inst}
use risc_v_simulator.Decoder.{decode, decode_format, shift_fields, finish_i}
use risc_v_simulator.Decoder.Tables.{
  Decoded, ok, throw, undefined, decoder, get_cmd, get_cmd_funct7,
}
use risc_v_simulator.Decoder.Encoding.{encode, IsWellFormed}
use risc_v_simulator.Decoder.Fields.{decode_word, decode_packed}
use risc_v_simulator.Decoder.Lookup.{look_up, IsFound, look_up-IsFound}
use risc_v_simulator.Decoder.Immediate.{i_fields, i_fields-eq-ok}
use risc_v_simulator.Decoder.Inverse.{
  >>=-eq-ok, bind_pair, IsInverse, IsInverse-r, IsInverse-i, IsInverse-s, IsInverse-b, IsInverse-u,
  IsInverse-j,
}

ok_or : {A : Type 0} → A → Decoded A → A
ok_or d (ok a) = a
ok_or d (throw e) = d
ok_or d undefined = d

ok-injective : {A : Type 0} (a b : A) → ok a ≡ ok b → a ≡ b
unfolding ok_or
ok-injective a b e = ap (ok_or a) e

i_fields_of :
    (c c' c'' : Cmd) (raw m m' rs1 rd : ℕ)
    → shift_fields c raw ≡ ok (c', m)
    → finish_i c' m raw rs1 rd ≡ ok (c'', m')
    → i_fields c raw rs1 rd ≡ ok (c'', m')
unfolding i_fields
i_fields_of c c' c'' raw m m' rs1 rd p q = rw p q

module _ (w : ℕ) (fits : w < 2 ^ 32) (low : w % 4 ≡ 3) (i : Inst) where
  abbrev op : ℕ
  op = bits 2 5 w

  abbrev Holds : CmdFormat → Type 0
  Holds f =
      ((c : Cmd)
        → look_up f op (bits 12 3 w) (bits 25 7 w) ≡ ok c
        → IsFound f op (bits 12 3 w) (bits 25 7 w) c)
      → decode_format decoder f op w ≡ ok i
      → IsInverse w i

  inverse_format : (f : CmdFormat) → Holds f
  unfolding decode_format look_up
  inverse_format CmdFormat.r found e =
      let (c, p, q) = >>=-eq-ok (get_cmd_funct7 decoder op (bits 12 3 w) (bits 25 7 w)) _ e in
      subst (IsInverse w) (ok-injective _ _ q) (IsInverse-r w fits low c (found c p))
  inverse_format CmdFormat.i found e =
      let rd = bits 7 5 w in
      let rs1 = bits 15 5 w in
      let raw = bits 20 12 w in
      let (c, p, q) = >>=-eq-ok (get_cmd decoder op (bits 12 3 w)) _ e in
      let (c', m, p', q') = bind_pair (shift_fields c raw) _ q in
      let (c'', m', p'', q'') = bind_pair (finish_i c' m raw rs1 rd) _ q' in
      let in_row = found c p in
      let f =
        i_fields-eq-ok c raw rs1 rd (omega arith) in_row.0
          (i_fields_of c c' c'' raw m m' rs1 rd p' p'') in
      subst (IsInverse w) (ok-injective _ _ q'')
        (IsInverse-i w fits low c'' m' (f.0, f.1, f.2 ∙ in_row.1, f.3 ∙ in_row.2, f.4))
  inverse_format CmdFormat.s found e =
      let (c, p, q) = >>=-eq-ok (get_cmd decoder op (bits 12 3 w)) _ e in
      subst (IsInverse w) (ok-injective _ _ q) (IsInverse-s w fits low c (found c p))
  inverse_format CmdFormat.b found e =
      let (c, p, q) = >>=-eq-ok (get_cmd decoder op (bits 12 3 w)) _ e in
      subst (IsInverse w) (ok-injective _ _ q) (IsInverse-b w fits low c (found c p))
  inverse_format CmdFormat.u found e =
      let (c, p, q) = >>=-eq-ok (get_cmd decoder op 0) _ e in
      subst (IsInverse w) (ok-injective _ _ q) (IsInverse-u w fits low c (found c p))
  inverse_format CmdFormat.j found e =
      let (c, p, q) = >>=-eq-ok (get_cmd decoder op 0) _ e in
      subst (IsInverse w) (ok-injective _ _ q) (IsInverse-j w fits low c (found c p))
  inverse_format CmdFormat.undefined found e = cc

pub low_bits-cases : (w : ℕ) → (w % 4 < 3) ⊎ (w % 4 ≡ 3)
low_bits-cases w = omega arith

-- Decoding a 32-bit word to an instruction loses nothing: the instruction is well formed and its
-- encoding is the word.
pub encode-decode :
    (w : ℕ) {i : Inst} → w < 2 ^ 32 → decode decoder w ≡ ok i → (encode i ≡ w) × IsWellFormed i
encode-decode w {i} h e = elim (low_bits-cases w) [
  | inl packed ↦ cc (decode_packed decoder w packed)
  | inr low ↦
      inverse_format w h low i (decoder.opc_to_fmt (bits 2 5 w))
        (look_up-IsFound (bits 2 5 w) (bits 12 3 w) (bits 25 7 w) (omega arith) (omega arith)
          (omega arith))
        (sym (decode_word decoder w low) ∙ e)
]
