-- ===== src/Trace/Fetch.antt =====
-- What the constructor of a trace fetches.
use risc_v_simulator.Base.{
  ◌⊎◌, leb, if◌then◌else◌, ℕ, zero, suc, ◌+◌, ◌^◌, ◌<◌, ◌≡◌, refl, sym, ◌∙◌, true, false, List, [],
  ◌∷◌, arith, Bool-cases, inl, inr, u32,
}
use mathlib.Core.Path.{subst}
use risc_v_simulator.Outcome.{SimException, Outcome, ok, throw, bind-eq-ok}
use risc_v_simulator.Ir.{Inst, is_terminator}
use risc_v_simulator.Lru.{HashMap}
use risc_v_simulator.Mmu.{is_virtual_addressing}
use risc_v_simulator.Mmu.Memory.{read_bytes, read_bytes-lt, IsByte}
use risc_v_simulator.Mmu.Bare.{load_bare}
use risc_v_simulator.State.{State, get_cmd}
use risc_v_simulator.Decoder.{decode}
use risc_v_simulator.Decoder.Tables.{ok, Decoder, decoder}
use risc_v_simulator.Decoder.Encoding.{encode, IsWellFormed}
use risc_v_simulator.Decoder.Exact.{encode-decode}
use risc_v_simulator.Trace.{fetch, fetch_inst, lift}

-- The last instruction is a terminator and no other is.
abbrev pub IsBlock : List Inst → Type 0
IsBlock [] = ⊥
IsBlock (i ∷ []) = is_terminator i ≡ true
IsBlock (i ∷ j ∷ is) = (is_terminator i ≡ false) × IsBlock (j ∷ is)

-- The state fetched from: virtual addressing is off, and the memory holds bytes.
abbrev pub IsBare : {m : HashMap} → State m → Type 0
IsBare s = (is_virtual_addressing s.mmu ≡ false) × IsByte s.mmu.pmem

-- The instructions are those of the words from an address on.
abbrev pub IsCode : {m : HashMap} → State m → ℕ → List Inst → Type 0
IsCode s address [] = Unit
IsCode s address (i ∷ is) =
    IsWellFormed i × (read_bytes 4 address s.mmu.pmem ≡ encode i) × IsCode s (u32 (address + 4)) is

IsBlock-cons : (i : Inst) (is : List Inst) → is_terminator i ≡ false → IsBlock is → IsBlock (i ∷ is)
IsBlock-cons i [] e h = absurd h
IsBlock-cons i (j ∷ is) e h = (e, h)

ok-injective :
    {A S : Type 0} (a a' : A) (s s' : S)
    → ◌≡◌ {A = Outcome S A} (ok a s) (ok a' s')
    → (a ≡ a') × (s ≡ s')
ok-injective a a' s s' h = ground arith

module _ {m : HashMap} where
  -- A round that ends the loop, or goes on with the next address.
  abbrev Round : ℕ → Decoder → ℕ → Inst → State m → List Inst → State m → Type 0
  Round rounds d address inst t insts s' =
      ((is_terminator inst ≡ true) × (inst ∷ [] ≡ insts) × (t ≡ s'))
      ⊎ ((is_terminator inst ≡ false)
          × ((rest : List Inst) × (inst ∷ rest ≡ insts)
              × (fetch rounds d (u32 (address + 4)) t ≡ ok rest s')))

  fetch-eq-ok :
      (rounds : ℕ) (d : Decoder) (address : ℕ) (s : State m) (insts : List Inst) (s' : State m)
      → fetch (suc rounds) d address s ≡ ok insts s'
      → (inst : Inst) × (t : State m) × (fetch_inst d address s ≡ ok inst t)
        × Round rounds d address inst t insts s'
  unfolding fetch
  fetch-eq-ok rounds d address s insts s' h =
      let (inst, t, p, q) = bind-eq-ok (fetch_inst d address s) _ h in
      (
        inst,
        t,
        p,
        elim (Bool-cases (is_terminator inst)) [
          | inl stop ↦
              let (same, state) = ok-injective (inst ∷ []) insts t s' (rw stop at q) in
              inl (stop, same, state)
          | inr go ↦
              let (rest, t', p', q') =
                bind-eq-ok (fetch rounds d (u32 (address + 4)) t) _ (rw go at q) in
              let (same, state) = ok-injective (inst ∷ rest) insts t' s' q' in
              inr (go, (rest, same, rw state at p'))
        ],
      )

  -- The constructor stops at the first terminator, whatever the memory and the mode.
  pub fetch-IsBlock :
      (rounds : ℕ) (d : Decoder) (address : ℕ) (s : State m) (insts : List Inst) (s' : State m)
      → fetch rounds d address s ≡ ok insts s'
      → IsBlock insts
  fetch-IsBlock zero d address s insts s' h = unfold fetch in cc h
  fetch-IsBlock (suc rounds) d address s insts s' h =
      let (inst, t, _, round) = fetch-eq-ok rounds d address s insts s' h in
      elim round [
        | inl (stop, same, _) ↦ subst IsBlock same stop
        | inr (go, (rest, same, next)) ↦
            subst IsBlock same (
              IsBlock-cons inst rest go (fetch-IsBlock rounds d (u32 (address + 4)) t rest s' next))
      ]

  pub get_cmd_bare :
      (address : ℕ) (s : State m)
      → IsBare s
      → address < 2 ^ 32
      → get_cmd address s ≡ (
          if leb s.mmu.pmem_size (address + 4)
          then throw SimException.out_of_memory s
          else ok (read_bytes 4 address s.mmu.pmem) s)
  unfolding get_cmd
  get_cmd_bare address s bare fits =
      rw (load_bare 4 address true s.mmu bare.0 fits)
        (elim (Bool-cases (leb s.mmu.pmem_size (address + 4))) [
          | inl e ↦ rw e refl
          | inr e ↦ rw e refl
        ])

  pub fetch_inst_bare :
      (address : ℕ) (s : State m) (inst : Inst) (t : State m)
      → IsBare s
      → address < 2 ^ 32
      → fetch_inst decoder address s ≡ ok inst t
      → (t ≡ s) × (decode decoder (read_bytes 4 address s.mmu.pmem) ≡ ok inst)
  unfolding fetch_inst lift
  fetch_inst_bare address s inst t bare fits h = ground (arith, get_cmd_bare address s bare fits)

  read_word-lt : (address : ℕ) (s : State m) → IsBare s → read_bytes 4 address s.mmu.pmem < 2 ^ 32
  read_word-lt address s bare = read_bytes-lt 4 address s.mmu.pmem bare.1

  -- Without virtual addressing the instructions of a trace are well formed, and their encodings are
  -- the words of the memory from the trace's address on; fetching changes nothing.
  pub fetch-IsCode :
      (rounds : ℕ) (address : ℕ) (s : State m) (insts : List Inst) (s' : State m)
      → IsBare s
      → address < 2 ^ 32
      → fetch rounds decoder address s ≡ ok insts s'
      → (s' ≡ s) × IsCode s address insts
  fetch-IsCode zero address s insts s' bare fits h = unfold fetch in cc h
  fetch-IsCode (suc rounds) address s insts s' bare fits h =
      let (inst, t, p, round) = fetch-eq-ok rounds decoder address s insts s' h in
      let (state, decoded) = fetch_inst_bare address s inst t bare fits p in
      let (code, well) =
        encode-decode (read_bytes 4 address s.mmu.pmem) (read_word-lt address s bare) decoded in
      elim round [
        | inl (_, same, end) ↦ (sym end ∙ state, subst (IsCode s address) same (well, sym code, tt))
        | inr (_, (rest, same, next)) ↦
            let (state', code') =
              fetch-IsCode rounds (u32 (address + 4)) s rest s' bare (omega arith)
                (rw state at next) in
            (state', subst (IsCode s address) same (well, sym code, code'))
      ]
