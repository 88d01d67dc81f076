-- ===== src/Decoder/Total.antt =====
-- On undefined behaviour in decoding: look-ups past the end of a table.
use risc_v_simulator.Base.{
  refl, not, ◌||◌, ℕ, ◌<◌, ◌≢◌, sym, inl, inr, arith, bits, if◌then◌else◌, Bool, true, false, ◌==◌,
}
use mathlib.Core.Path.{subst}
use risc_v_simulator.Outcome.{SimException}
use risc_v_simulator.Isa.{Cmd, CmdFormat}
use risc_v_simulator.Decoder.{
  decode, decode_format, decode_r, decode_i, decode_s, decode_b, decode_u, decode_j, shift_fields,
  finish_i, system_cmd, is_fence, is_system,
}
use risc_v_simulator.Decoder.Tables.{sign_extend, Decoded, throw, undefined, ok, decoder, ◌>>=◌}
use risc_v_simulator.Decoder.Lookup.{look_up, look_up-ne-undefined}
use risc_v_simulator.Decoder.Fields.{decode_word, decode_packed}
use risc_v_simulator.Decoder.Exact.{low_bits-cases}

>>=-ne-undefined :
    {A B : Type 0} (o : Decoded A) (k : A → Decoded B)
    → o ≢ undefined
    → ((a : A) → k a ≢ undefined)
    → (o >>= k) ≢ undefined
>>=-ne-undefined (ok a) k h g = g a
>>=-ne-undefined (throw e) k h g = λ p. cc p
>>=-ne-undefined undefined k h g = absurd (h refl)

ok-ne-undefined : {A : Type 0} (a : A) → ok a ≢ undefined
ok-ne-undefined a e = cc e

system_cmd-ne-undefined : (imm : ℕ) → system_cmd imm ≢ undefined
unfolding system_cmd
system_cmd-ne-undefined imm e = ground arith

shift_fields-ne-undefined : (c : Cmd) (raw : ℕ) → shift_fields c raw ≢ undefined
unfolding shift_fields
shift_fields-ne-undefined c raw e = ground arith

if-ne-undefined :
    {A : Type 0} (b : Bool) (o o' : Decoded A)
    → o ≢ undefined
    → o' ≢ undefined
    → (if b then o else o') ≢ undefined
if-ne-undefined true o o' h h' = h
if-ne-undefined false o o' h h' = h'

throw-ne-undefined : {A : Type 0} (x : SimException) → ◌≢◌ {A = Decoded A} (throw x) undefined
throw-ne-undefined x e = cc e

finish_i-ne-undefined : (c : Cmd) (imm raw rs1 rd : ℕ) → finish_i c imm raw rs1 rd ≢ undefined
unfolding finish_i is_fence is_system
finish_i-ne-undefined c imm raw rs1 rd =
    if-ne-undefined (is_fence c) _ _
      (if-ne-undefined (not (imm == 0x0ff) || not (rs1 == 0) || not (rd == 0)) _ _
        (throw-ne-undefined SimException.fence_operands) (ok-ne-undefined (c, imm)))
      (if-ne-undefined (is_system c) _ _
        (if-ne-undefined (not (rs1 == 0) || not (rd == 0)) _ _
          (throw-ne-undefined SimException.system_operands)
          (>>=-ne-undefined (system_cmd imm) _ (system_cmd-ne-undefined imm)
            (λ c'. ok-ne-undefined (c', imm))))
        (ok-ne-undefined (c, sign_extend raw 11)))

module _ (op w : ℕ) where
  total_format :
      (f : CmdFormat)
      → ((f3 f7 : ℕ) → f3 < 8 → f7 < 128 → look_up f op f3 f7 ≢ undefined)
      → decode_format decoder f op w ≢ undefined
  unfolding look_up decode_format decode_r decode_i decode_s decode_b decode_u decode_j
  total_format CmdFormat.r h =
      >>=-ne-undefined _ _ (h (bits 12 3 w) (bits 25 7 w) (omega arith) (omega arith))
        (λ c. ok-ne-undefined _)
  total_format CmdFormat.i h =
      >>=-ne-undefined _ _ (h (bits 12 3 w) 0 (omega arith) (omega arith)) (λ c.
        >>=-ne-undefined (shift_fields c (bits 20 12 w)) _
          (shift_fields-ne-undefined c (bits 20 12 w))
          (λ (c', imm).
            >>=-ne-undefined (finish_i c' imm (bits 20 12 w) (bits 15 5 w) (bits 7 5 w)) _
              (finish_i-ne-undefined c' imm (bits 20 12 w) (bits 15 5 w) (bits 7 5 w))
              (λ (c'', imm'). ok-ne-undefined _)))
  total_format CmdFormat.s h =
      >>=-ne-undefined _ _ (h (bits 12 3 w) 0 (omega arith) (omega arith)) (λ c. ok-ne-undefined _)
  total_format CmdFormat.b h =
      >>=-ne-undefined _ _ (h (bits 12 3 w) 0 (omega arith) (omega arith)) (λ c. ok-ne-undefined _)
  total_format CmdFormat.u h =
      >>=-ne-undefined _ _ (h 0 0 (omega arith) (omega arith)) (λ c. ok-ne-undefined _)
  total_format CmdFormat.j h =
      >>=-ne-undefined _ _ (h 0 0 (omega arith) (omega arith)) (λ c. ok-ne-undefined _)
  total_format CmdFormat.undefined h = throw-ne-undefined SimException.opcode_unsupported

-- Decoding a word gives an instruction or an exception: no table is read past its end.
pub decode-ne-undefined : (w : ℕ) → decode decoder w ≢ undefined
decode-ne-undefined w = elim (low_bits-cases w) [
  | inl packed ↦ λ e. cc (decode_packed decoder w packed)
  | inr low ↦
      subst (λ d. d ≢ undefined) (sym (decode_word decoder w low))
        (total_format (bits 2 5 w) w (decoder.opc_to_fmt (bits 2 5 w))
          (λ f3 f7 g k. look_up-ne-undefined (bits 2 5 w) f3 f7 (omega arith) g k))
]
