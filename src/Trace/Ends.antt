-- ===== src/Trace/Ends.antt =====
-- On the end of the loop in the constructor of a trace.
use risc_v_simulator.Base.{
  ℕ, zero, suc, ◌+◌, ◌*◌, ◌^◌, ◌<◌, ◌≤◌, ◌≡◌, ◌≢◌, refl, ◌∙◌, arith, true, false, Bool-cases, inl,
  inr, u32, leb, [], ◌∷◌,
}
use risc_v_simulator.Outcome.{SimException, Outcome, ok, throw, undefined, bind}
use risc_v_simulator.Ir.{Inst, is_terminator}
use risc_v_simulator.Lru.{HashMap}
use risc_v_simulator.Mmu.Memory.{read_bytes}
use risc_v_simulator.State.{State, get_cmd}
use risc_v_simulator.Decoder.{decode}
use risc_v_simulator.Decoder.Tables
use risc_v_simulator.Decoder.Tables.{Decoded, decoder}
use risc_v_simulator.Decoder.Total.{decode-ne-undefined}
use risc_v_simulator.Trace.{fetch, fetch_inst, lift}
use risc_v_simulator.Trace.Fetch.{IsBare, get_cmd_bare}

bind-ne-undefined :
    {S A B : Type 0} (o : Outcome S A) (k : A → S → Outcome S B)
    → o ≢ undefined
    → ((a : A) (s : S) → o ≡ ok a s → k a s ≢ undefined)
    → bind o k ≢ undefined
bind-ne-undefined (ok a s) k h g = g a s refl
bind-ne-undefined (throw e s) k h g = λ p. cc p
bind-ne-undefined undefined k h g = absurd (h refl)

ok-ne-undefined : {S A : Type 0} (a : A) (s : S) → ok a s ≢ undefined
ok-ne-undefined a s e = cc e

module _ {m : HashMap} where
  lift-ne-undefined :
      {A : Type 0} (o : Decoded A) (s : State m) → o ≢ Tables.undefined → lift o s ≢ undefined
  unfolding lift
  lift-ne-undefined (Decoded.ok a) s h = ok-ne-undefined a s
  lift-ne-undefined (Decoded.throw e) s h = λ p. cc p
  lift-ne-undefined Decoded.undefined s h = absurd (h refl)

  lift-state :
      {A : Type 0} (o : Decoded A) (s : State m) (a : A) (t : State m) → lift o s ≡ ok a t → t ≡ s
  unfolding lift
  lift-state o s a t h = ground arith

  refused :
      (address : ℕ) (s : State m)
      → IsBare s
      → address < 2 ^ 32
      → leb s.mmu.pmem_size (address + 4) ≡ true
      → get_cmd address s ≡ throw SimException.out_of_memory s
  refused address s bare fits out = get_cmd_bare address s bare fits ∙ rw out refl

  granted :
      (address : ℕ) (s : State m)
      → IsBare s
      → address < 2 ^ 32
      → leb s.mmu.pmem_size (address + 4) ≡ false
      → get_cmd address s ≡ ok (read_bytes 4 address s.mmu.pmem) s
  granted address s bare fits inside = get_cmd_bare address s bare fits ∙ rw inside refl

  fetch_inst_ends :
      (address : ℕ) (s : State m)
      → IsBare s
      → address < 2 ^ 32
      → fetch_inst decoder address s ≢ undefined
  unfolding fetch_inst
  fetch_inst_ends address s bare fits = elim (Bool-cases (leb s.mmu.pmem_size (address + 4))) [
    | inl out ↦ rw (refused address s bare fits out) (λ p. cc p)
    | inr inside ↦ rw (granted address s bare fits inside) (
        lift-ne-undefined (decode decoder (read_bytes 4 address s.mmu.pmem)) s
          (decode-ne-undefined (read_bytes 4 address s.mmu.pmem)))
  ]

  fetch_inst_inside :
      (address : ℕ) (s : State m) (inst : Inst) (t : State m)
      → IsBare s
      → address < 2 ^ 32
      → fetch_inst decoder address s ≡ ok inst t
      → (t ≡ s) × (address + 4 < s.mmu.pmem_size)
  unfolding fetch_inst
  fetch_inst_inside address s inst t bare fits h =
      elim (Bool-cases (leb s.mmu.pmem_size (address + 4))) [
        | inl out ↦ cc (rw (refused address s bare fits out) at h)
        | inr inside ↦ (
          lift-state (decode decoder (read_bytes 4 address s.mmu.pmem)) s inst t
              (rw (granted address s bare fits inside) at h),
          ground arith,
        )
      ]

  fetch_round :
      (rounds : ℕ) (address : ℕ) (s : State m)
      → fetch_inst decoder address s ≢ undefined
      → ((inst : Inst) (t : State m)
          → fetch_inst decoder address s ≡ ok inst t
          → fetch rounds decoder (u32 (address + 4)) t ≢ undefined)
      → fetch (suc rounds) decoder address s ≢ undefined
  unfolding fetch
  fetch_round rounds address s first rest =
      bind-ne-undefined (fetch_inst decoder address s) _ first (λ inst t p.
        elim (Bool-cases (is_terminator inst)) [
          | inl stop ↦ rw stop (ok-ne-undefined (inst ∷ []) t)
          | inr go ↦ rw go (
              bind-ne-undefined (fetch rounds decoder (u32 (address + 4)) t) _ (rest inst t p)
                (λ insts s' _. ok-ne-undefined (inst ∷ insts) s'))
        ])

  -- Without virtual addressing, in a memory of at most 2^32 bytes, fetching a trace ends with a
  -- terminator or an exception: with one round more than there are words up to the memory's end,
  -- or with any greater number, the result is not undefined.
  pub fetch-ne-undefined :
      (rounds : ℕ) (address : ℕ) (s : State m)
      → IsBare s
      → address < 2 ^ 32
      → s.mmu.pmem_size ≤ 2 ^ 32
      → s.mmu.pmem_size ≤ address + 4 * rounds
      → fetch (suc rounds) decoder address s ≢ undefined
  fetch-ne-undefined zero address s bare fits small enough =
      fetch_round zero address s (fetch_inst_ends address s bare fits)
        (λ inst t p. absurd (omega (arith, (fetch_inst_inside address s inst t bare fits p).1)))
  fetch-ne-undefined (suc rounds) address s bare fits small enough =
      fetch_round (suc rounds) address s (fetch_inst_ends address s bare fits) (λ inst t p.
        let (same, inside) = fetch_inst_inside address s inst t bare fits p in
        let wraps : u32 (address + 4) ≡ address + 4 = omega arith in
        rw (same, wraps)
          (fetch-ne-undefined rounds (address + 4) s bare (omega arith) small (omega arith)))
