-- ===== src/Decoder/Fields.antt =====
-- The steps of decode with the bit operations read as arithmetic.
use risc_v_simulator.Base.{
  ℕ, ◌+◌, ◌-◌, ◌*◌, ◌/◌, ◌%◌, ◌^◌, ◌<◌, ◌≡◌, refl, true, ap, ◌∙◌, arith, bits, bit_or, bit_and, ltb,
  if◌then◌else◌,
}
use risc_v_simulator.Base.Masks.{
  bit_and_mask, bit_and_bit, bit_or_low_high, bit_or_high_low, bit_or-zero,
}
use risc_v_simulator.Base.Bits.{bit_or_blocks}
use risc_v_simulator.Outcome.{SimException}
use risc_v_simulator.Decoder.Tables.{Decoder, throw, sign_extend}
use risc_v_simulator.Decoder.{decode, decode_format, s_imm, b_imm, j_imm}

-- A word that ends in 11 goes on to its format, with its opcode.
pub decode_word :
    (d : Decoder) (w : ℕ)
    → w % 4 ≡ 3
    → decode d w ≡ decode_format d (d.opc_to_fmt (bits 2 5 w)) (bits 2 5 w) w
unfolding decode
decode_word d w h =
    let e : w % 2 ^ 7 / 2 ^ 2 ≡ bits 2 5 w = omega arith in
    let inside : ltb (bits 2 5 w) 32 ≡ true = ground arith in
    rw (bit_and_mask 2 w, bit_and_mask 7 w, h, e, inside) refl

pub decode_packed :
    (d : Decoder) (w : ℕ) → w % 4 < 3 → decode d w ≡ throw SimException.packed_unsupported
unfolding decode
decode_packed d w h = rw (bit_and_mask 2 w) (ground arith)

abbrev pub extended : ℕ → ℕ → ℕ
extended n imm = if ltb imm (2 ^ n) then imm else imm + (2 ^ 32 - 2 ^ n * 2)

pub sign_extend_11 : (imm : ℕ) → imm < 2 ^ 12 → sign_extend imm 11 ≡ extended 11 imm
unfolding sign_extend
sign_extend_11 imm h = ground (
  arith,
  bit_and_bit 11 imm,
  bit_or_blocks 11 1 (imm - 2 ^ 11) (2 ^ 21 - 1) 0,
  bit_or-zero (imm - 2 ^ 11),
)

pub sign_extend_19 : (imm : ℕ) → imm < 2 ^ 20 → sign_extend imm 19 ≡ extended 19 imm
unfolding sign_extend
sign_extend_19 imm h = ground (
  arith,
  bit_and_bit 19 imm,
  bit_or_blocks 19 1 (imm - 2 ^ 19) (2 ^ 13 - 1) 0,
  bit_or-zero (imm - 2 ^ 19),
)

pub s_imm_lem : (a b : ℕ) → a < 32 → b < 128 → s_imm a b ≡ extended 11 (2 ^ 5 * b + a)
unfolding s_imm
s_imm_lem a b h g =
    let e : bit_or (b * 2 ^ 5) a ≡ 2 ^ 5 * b + a = omega (arith, bit_or_high_low 5 b a h) in
    ap (λ (t : ℕ). sign_extend t 11) e ∙ sign_extend_11 (2 ^ 5 * b + a) (omega arith)

-- The immediate of the B format before its sign is extended.
abbrev pub b_bits : ℕ → ℕ → ℕ
b_bits a b = a / 2 + 2 ^ 4 * (b % 2 ^ 6) + 2 ^ 10 * (a % 2) + 2 ^ 11 * (b / 2 ^ 6)

b_fields :
    (a b : ℕ)
    → a < 32
    → b < 128
    → bit_or
        (bit_or (bit_or (a / 2 ^ 1) (bit_and b 0x3f * 2 ^ 4)) (bit_and a 1 * 2 ^ 10))
        (b / 2 ^ 6 * 2 ^ 11)
      ≡ b_bits a b
b_fields a b h g =
    rw
      (
        bit_and_mask 6 b,
        bit_and_mask 1 a,
        bit_or_low_high 4 (b % 2 ^ 6) (a / 2 ^ 1) (omega arith),
        bit_or_low_high 10 (a % 2 ^ 1) (b % 2 ^ 6 * 2 ^ 4 + a / 2 ^ 1) (omega arith),
        bit_or_low_high 11 (b / 2 ^ 6) (a % 2 ^ 1 * 2 ^ 10 + (b % 2 ^ 6 * 2 ^ 4 + a / 2 ^ 1))
            (omega arith),
      )
      (omega arith)

pub b_imm_lem : (a b : ℕ) → a < 32 → b < 128 → b_imm a b ≡ extended 11 (b_bits a b)
unfolding b_imm
b_imm_lem a b h g =
    ap (λ (t : ℕ). sign_extend t 11) (b_fields a b h g) ∙ sign_extend_11 (b_bits a b) (omega arith)

-- The immediate of the J format before its sign is extended.
abbrev pub j_bits : ℕ → ℕ
j_bits a =
    a / 2 ^ 9 % 2 ^ 10 + 2 ^ 10 * (a / 2 ^ 8 % 2) + 2 ^ 11 * (a % 2 ^ 8) + 2 ^ 19 * (a / 2 ^ 19)

j_fields :
    (a : ℕ)
    → a < 2 ^ 20
    → bit_or
        (bit_or
          (bit_or (bit_and (a / 2 ^ 9) 0x3ff) (bit_and (a / 2 ^ 8) 1 * 2 ^ 10))
          (bit_and a 0xff * 2 ^ 11))
        (a / 2 ^ 19 * 2 ^ 19)
      ≡ j_bits a
j_fields a h =
    rw
      (
        bit_and_mask 10 (a / 2 ^ 9),
        bit_and_mask 1 (a / 2 ^ 8),
        bit_and_mask 8 a,
        bit_or_low_high 10 (a / 2 ^ 8 % 2 ^ 1) (a / 2 ^ 9 % 2 ^ 10) (omega arith),
        bit_or_low_high 11 (a % 2 ^ 8) (a / 2 ^ 8 % 2 ^ 1 * 2 ^ 10 + a / 2 ^ 9 % 2 ^ 10)
            (omega arith),
        bit_or_low_high 19 (a / 2 ^ 19)
            (a % 2 ^ 8 * 2 ^ 11 + (a / 2 ^ 8 % 2 ^ 1 * 2 ^ 10 + a / 2 ^ 9 % 2 ^ 10)) (omega arith),
      )
      (omega arith)

pub j_imm_lem : (a : ℕ) → a < 2 ^ 20 → j_imm a ≡ extended 19 (j_bits a)
unfolding j_imm
j_imm_lem a h =
    ap (λ (t : ℕ). sign_extend t 19) (j_fields a h) ∙ sign_extend_19 (j_bits a) (omega arith)
