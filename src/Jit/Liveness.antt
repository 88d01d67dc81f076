-- ===== src/Jit/Liveness.antt =====
-- calcLiveness of sim/jit.cpp against liveness as a property of the instructions that follow.
use risc_v_simulator.Base.{
  ℕ, ◌≡◌, ◌↔◌, refl, sym, ◌∙◌, inl, inr, Bool, true, false, not, ◌&&◌, ◌||◌, ◌==◌, List, [], ◌∷◌,
  ◌++◌, some, get_elem?, length, Bool-cases, arith,
}
use risc_v_simulator.Ir.{Inst, is_rs1, is_rs2, is_rd}
use risc_v_simulator.Jit.Registers.{Bitset, live_before, live_loop, calc_liveness}

unfoldable pub reads : ℕ → Inst → Bool
reads r inst = is_rs1 inst && inst.rs1 == r || is_rs2 inst && inst.rs2 == r

unfoldable pub writes : ℕ → Inst → Bool
writes r inst = is_rd inst && inst.rd == r

-- A register is live in front of instructions that read it before they write it.
pub data IsLive (r : ℕ) : List Inst → Type 0 where
  here : {inst : Inst} {insts : List Inst} → reads r inst ≡ true → IsLive r (inst ∷ insts)
  later :
      {inst : Inst} {insts : List Inst}
      → writes r inst ≡ false
      → IsLive r insts
      → IsLive r (inst ∷ insts)

pub live_before_lem :
    (inst : Inst) (info : Bitset) (r : ℕ)
    → live_before inst info r ≡ (reads r inst || not (writes r inst) && info r)
unfolding live_before reads writes
live_before_lem inst info r = ground arith

abbrev pub before : List Inst → Bitset
unfolding live_loop
before insts = (live_loop insts).1

IsLive-before : (insts : List Inst) (r : ℕ) → before insts r ≡ true → IsLive r insts
unfolding live_loop
IsLive-before [] r h = cc
IsLive-before (inst ∷ insts) r h =
    let e = sym (live_before_lem inst (before insts) r) ∙ h in
    elim (Bool-cases (reads r inst)) [
      | inl read ↦ IsLive.here read
      | inr unread ↦ elim (Bool-cases (writes r inst)) [
        | inl written ↦ cc (rw (unread, written) at e)
        | inr kept ↦ IsLive.later kept (IsLive-before insts r (rw (unread, kept) at e))
      ]
    ]

before-IsLive : (insts : List Inst) (r : ℕ) → IsLive r insts → before insts r ≡ true
unfolding live_loop
before-IsLive [] r h = elim h [ ]
before-IsLive (inst ∷ insts) r (IsLive.here read) =
    live_before_lem inst (before insts) r ∙ rw read refl
before-IsLive (inst ∷ insts) r (IsLive.later kept live) =
    live_before_lem inst (before insts) r ∙ rw (kept, before-IsLive insts r live) (ground arith)

-- For each instruction of a trace calcLiveness gives the registers that are live behind it: those
-- that a later instruction reads, and that no instruction in between writes.
pub calc_liveness_iff :
    (earlier : List Inst) (inst : Inst) (rest : List Inst)
    → (info : Bitset) × (get_elem? (calc_liveness (earlier ++ inst ∷ rest)) (length earlier)
        ≡ some info)
      × ((r : ℕ) → (info r ≡ true) ↔ IsLive r rest)
unfolding calc_liveness live_loop
calc_liveness_iff [] inst rest =
    (before rest, refl, λ r. (IsLive-before rest r, before-IsLive rest r))
calc_liveness_iff (i ∷ is) inst rest = calc_liveness_iff is inst rest
