-- ===== src/Mmu/Address.antt =====
-- The physical address that translate computes, against the one of the Sv32 scheme.
use risc_v_simulator.Base.{
  ℕ, ◌+◌, ◌-◌, ◌*◌, ◌/◌, ◌%◌, ◌^◌, ◌<◌, ◌≡◌, ◌↔◌, ap, ◌∙◌, arith, bit_and, bit_or,
}
use risc_v_simulator.Base.Bits.{bit_and_blocks, bit_or_blocks, bit_or-lt}
use risc_v_simulator.Base.Masks.{bit_and_mask, bit_and-zero, bit_or_low_high, bit_or-zero}
use risc_v_simulator.Mmu.{AccessType, physical, mark}

-- The address of a 4 KiB page, and of a 4 MiB page, by the entry's page number.
abbrev pub sv32_page : ℕ → ℕ → ℕ
sv32_page pte va = 2 ^ 12 * (pte / 2 ^ 10) + va % 2 ^ 12

abbrev pub sv32_superpage : ℕ → ℕ → ℕ
sv32_superpage pte va = 2 ^ 22 * (pte / 2 ^ 20) + va % 2 ^ 22

-- `& (~1ull << (k - 1))` on a number below 2 ^ 34 clears the bits below k.
clear_13 : (pa : ℕ) → pa < 2 ^ 34 → bit_and pa (2 ^ 64 - 2 ^ 13) ≡ pa / 2 ^ 13 * 2 ^ 13
clear_13 pa h =
    let e : pa ≡ pa / 2 ^ 13 * 2 ^ 13 + pa % 2 ^ 13 = omega arith in
    ap (λ t. bit_and t (2 ^ 64 - 2 ^ 13)) e
    ∙ bit_and_blocks 13 (pa / 2 ^ 13) (pa % 2 ^ 13) (2 ^ 51 - 1) 0 (omega arith) (omega arith)
    ∙ rw (bit_and_mask 51 (pa / 2 ^ 13), bit_and-zero (pa % 2 ^ 13)) (omega arith)

clear_23 : (pa : ℕ) → pa < 2 ^ 34 → bit_and pa (2 ^ 64 - 2 ^ 23) ≡ pa / 2 ^ 23 * 2 ^ 23
clear_23 pa h =
    let e : pa ≡ pa / 2 ^ 23 * 2 ^ 23 + pa % 2 ^ 23 = omega arith in
    ap (λ t. bit_and t (2 ^ 64 - 2 ^ 23)) e
    ∙ bit_and_blocks 23 (pa / 2 ^ 23) (pa % 2 ^ 23) (2 ^ 41 - 1) 0 (omega arith) (omega arith)
    ∙ rw (bit_and_mask 41 (pa / 2 ^ 23), bit_and-zero (pa % 2 ^ 23)) (omega arith)

pub physical_page :
    (pte va : ℕ) → pte < 2 ^ 32 → physical 0 pte va ≡ pte / 2 ^ 11 * 2 ^ 13 + va % 2 ^ 12
unfolding physical
physical_page pte va h =
    rw
      (
        bit_and_mask 12 va,
        clear_13 (pte * 2 ^ 2) (omega arith),
        bit_or_low_high 13 (pte * 2 ^ 2 / 2 ^ 13) (va % 2 ^ 12) (omega arith),
      )
      (omega arith)

pub physical_superpage :
    (pte va : ℕ) → pte < 2 ^ 32 → physical 1 pte va ≡ pte / 2 ^ 21 * 2 ^ 23 + va % 2 ^ 22
unfolding physical
physical_superpage pte va h =
    rw
      (
        bit_and_mask 22 va,
        clear_23 (pte * 2 ^ 2) (omega arith),
        bit_or_low_high 23 (pte * 2 ^ 2 / 2 ^ 23) (va % 2 ^ 22) (omega arith),
      )
      (omega arith)

-- The address is that of the Sv32 scheme exactly when the page number, of a 4 KiB or of a 4 MiB
-- page, is even.
pub physical-sv32_iff :
    (pte va : ℕ)
    → pte < 2 ^ 32
    → ((physical 0 pte va ≡ sv32_page pte va) ↔ (pte / 2 ^ 10 % 2 ≡ 0))
      × ((physical 1 pte va ≡ sv32_superpage pte va) ↔ (pte / 2 ^ 20 % 2 ≡ 0))
physical-sv32_iff pte va h = omega (arith, physical_page pte va h, physical_superpage pte va h)

mark_block : (b pte : ℕ) → b < 2 ^ 10 → (bit_or pte b) / 2 ^ 10 ≡ pte / 2 ^ 10
mark_block b pte h =
    let e : pte ≡ pte / 2 ^ 10 * 2 ^ 10 + pte % 2 ^ 10 = omega arith in
    let f : b ≡ 0 * 2 ^ 10 + b = omega arith in
    let low = bit_or-lt 10 (pte % 2 ^ 10) b (omega arith) h in
    let whole =
      ap (λ t. bit_or t b) e
      ∙ ap (bit_or (pte / 2 ^ 10 * 2 ^ 10 + pte % 2 ^ 10)) f
      ∙ bit_or_blocks 10 (pte / 2 ^ 10) (pte % 2 ^ 10) 0 b (omega arith) h in
    omega (arith, whole, low, bit_or-zero (pte / 2 ^ 10))

-- Setting the access and dirty bits keeps the page number, and the entry stays a 32-bit word.
pub mark-page_number :
    (acc : AccessType) (pte : ℕ)
    → pte < 2 ^ 32
    → (mark acc pte / 2 ^ 10 ≡ pte / 2 ^ 10) × (mark acc pte < 2 ^ 32)
unfolding mark
mark-page_number AccessType.read pte h =
    (mark_block 64 pte (omega arith), bit_or-lt 32 pte 64 h (omega arith))
mark-page_number AccessType.exec pte h =
    (mark_block 64 pte (omega arith), bit_or-lt 32 pte 64 h (omega arith))
mark-page_number AccessType.write pte h = (
  mark_block 128 (bit_or pte 64) (omega arith) ∙ mark_block 64 pte (omega arith),
  bit_or-lt 32 (bit_or pte 64) 128 (bit_or-lt 32 pte 64 h (omega arith)) (omega arith),
)
