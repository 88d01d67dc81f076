-- ===== src/Sim/Load.antt =====
-- The segments in memory behind State's constructor of sim/sim.cpp.
use mathlib.Core.Option.{some-injective}
use risc_v_simulator.Base.{
  ℕ, zero, suc, ◌+◌, ◌-◌, ◌*◌, ◌^◌, ◌<◌, ◌≤◌, ◌≡◌, ◌⊎◌, refl, ap, sym, ◌∙◌, inl, inr, ltb, leb,
  List, [], ◌∷◌, ◌++◌, Bool-cases, u32, arith, length, get_elem?, some,
}
use risc_v_simulator.Outcome.{ok, bind-eq-ok, ok-state, outcome_cases}
use risc_v_simulator.Lru.{HashMap}
use risc_v_simulator.Mmu.{Mmu, get_mem_ptr, pagesize}
use risc_v_simulator.Mmu.Memory.{
  Bytes, read_bytes, write_bytes, write_bytes_outside, read_bytes_ext, read_bytes-write_bytes,
}
use risc_v_simulator.State.{State, set_reg}
use risc_v_simulator.Sim.{copy_words, put_segment, put_segments, init, sp}

-- The copy changes the bytes of its range and no other.
copy_words_outside :
    (ws : List ℕ) (a i : ℕ) (mem : Bytes)
    → (i < a) ⊎ (a + length ws * 4 ≤ i)
    → copy_words a ws mem i ≡ mem i
unfolding copy_words
copy_words_outside [] a i mem h = refl
copy_words_outside (w ∷ ws) a i mem h =
    copy_words_outside ws (a + 4) i (write_bytes 4 a w mem) (omega arith)
    ∙ write_bytes_outside 4 a w i mem (omega arith)

get_elem-lt : (ws : List ℕ) (j w : ℕ) → get_elem? ws j ≡ some w → j < length ws
get_elem-lt [] j w e = cc e
get_elem-lt (x ∷ xs) zero w e = omega arith
get_elem-lt (x ∷ xs) (suc j) w e = omega (arith, get_elem-lt xs j w e)

copy_words_inside :
    (ws : List ℕ) (a j w : ℕ) (mem : Bytes)
    → get_elem? ws j ≡ some w
    → w < 2 ^ 32
    → read_bytes 4 (a + j * 4) (copy_words a ws mem) ≡ w
unfolding copy_words
copy_words_inside [] a j w mem e h = cc e
copy_words_inside (x ∷ xs) a zero w mem e h =
    read_bytes_ext 4 (a + 0 * 4) (copy_words (a + 4) xs (write_bytes 4 a x mem))
      (write_bytes 4 a x mem)
      (λ i p q. copy_words_outside xs (a + 4) i (write_bytes 4 a x mem) (inl (omega arith)))
    ∙ ap (λ k. read_bytes 4 k (write_bytes 4 a x mem)) (omega arith)
    ∙ read_bytes-write_bytes 4 a x mem
    ∙ omega (arith, some-injective x w e)
copy_words_inside (x ∷ xs) a (suc j) w mem e h =
    ap (λ k. read_bytes 4 k (copy_words (a + 4) xs (write_bytes 4 a x mem))) (omega arith)
    ∙ copy_words_inside xs (a + 4) j w (write_bytes 4 a x mem) e h

-- Segments at 32-bit addresses that lie outside of the `n` bytes from `a` on.
abbrev pub Misses : ℕ → ℕ → List (List ℕ) → List ℕ → Type 0
Misses a n (words ∷ commands) (va ∷ vas) =
    (va < 2 ^ 32) × ((va + length words * 4 ≤ a) ⊎ (a + n ≤ va)) × Misses a n commands vas
Misses a n _ _ = Unit

module _ {m : HashMap} where
  put_segment_lem :
      (va : ℕ) (words : List ℕ) (u u' : Mmu m)
      → va < 2 ^ 32
      → put_segment va words u ≡ ok tt u'
      → u'.pmem ≡ copy_words va words u.pmem
  unfolding put_segment get_mem_ptr
  put_segment_lem va words u u' h p = elim (Bool-cases (ltb u.pmem_size (va + length words * 4))) [
    | inl e ↦ cc (rw e at p)
    | inr e ↦ elim (Bool-cases (leb u.pmem_size (u32 va + 1))) [
      | inl f ↦ cc (rw (e, f) at p)
      | inr f ↦
          sym (ap (λ (w : Mmu m). w.pmem) (ok-state tt tt _ u' (rw (e, f) at p)))
          ∙ ap (λ k. copy_words k words u.pmem) (omega (arith, h))
    ]
  ]

  put_segments_outside :
      (a n i : ℕ) (commands : List (List ℕ)) (vas : List ℕ) (u u' : Mmu m)
      → Misses a n commands vas
      → a ≤ i
      → i < a + n
      → put_segments commands vas u ≡ ok tt u'
      → u'.pmem i ≡ u.pmem i
  unfolding put_segments
  put_segments_outside a n i commands [] u u' k g l p =
      ap (λ (w : Mmu m). w.pmem i) (sym (ok-state tt tt u u' p))
  put_segments_outside a n i [] (va ∷ vas) u u' k g l p = cc p
  put_segments_outside a n i (words ∷ commands) (va ∷ vas) u u' (h, apart, k) g l p =
      let (_, u1, first, rest) = bind-eq-ok (put_segment va words u) _ p in
      put_segments_outside a n i commands vas u1 u' k g l rest
      ∙ ap (λ (mem : Bytes). mem i) (put_segment_lem va words u u1 h first)
      ∙ copy_words_outside words va i u.pmem (omega arith)

  put_segments_inside :
      (earlier later : List (List ℕ)) (vas vas' : List ℕ) (words : List ℕ) (va : ℕ) (u u' : Mmu m)
      → length earlier ≡ length vas
      → va < 2 ^ 32
      → Misses va (length words * 4) later vas'
      → put_segments (earlier ++ words ∷ later) (vas ++ va ∷ vas') u ≡ ok tt u'
      → (j w : ℕ) → get_elem? words j ≡ some w
      → w < 2 ^ 32
      → read_bytes 4 (va + j * 4) u'.pmem ≡ w
  unfolding put_segments
  put_segments_inside [] later [] vas' words va u u' same h k p j w e l =
      let (_, u1, first, rest) = bind-eq-ok (put_segment va words u) _ p in
      let inside = get_elem-lt words j w e in
      read_bytes_ext 4 (va + j * 4) u'.pmem u1.pmem (λ i q r.
        put_segments_outside va (length words * 4) i later vas' u1 u' k (omega arith)
          (omega (arith, inside)) rest)
      ∙ ap (read_bytes 4 (va + j * 4)) (put_segment_lem va words u u1 h first)
      ∙ copy_words_inside words va j w u.pmem e l
  put_segments_inside [] later (x ∷ vas) vas' words va u u' same h k p j w e l =
      absurd (omega arith)
  put_segments_inside (x ∷ earlier) later [] vas' words va u u' same h k p j w e l =
      absurd (omega arith)
  put_segments_inside (x ∷ earlier) later (y ∷ vas) vas' words va u u' same h k p j w e l =
      let (_, u1, first, rest) = bind-eq-ok (put_segment y x u) _ p in
      put_segments_inside earlier later vas vas' words va u1 u' (omega (arith, same)) h k rest j w e
        l

  -- Behind the constructor every word of a segment stands at its place in memory, if the segments
  -- behind it do not overlap with it; the pc is the entry, and no instruction has been executed.
  pub init-loaded :
      (earlier later : List (List ℕ)) (vas vas' : List ℕ) (words : List ℕ) (va pc : ℕ)
      (s s' : State m)
      → length earlier ≡ length vas
      → va < 2 ^ 32
      → Misses va (length words * 4) later vas'
      → init (earlier ++ words ∷ later) (vas ++ va ∷ vas') pc s ≡ ok tt s'
      → (s'.pc ≡ pc)
        × (s'.executed_insts ≡ 0)
        × ((j w : ℕ)
            → get_elem? words j ≡ some w
            → w < 2 ^ 32
            → read_bytes 4 (va + j * 4) s'.mmu.pmem ≡ w)
  unfolding init set_reg
  init-loaded earlier later vas vas' words va pc s s' same h k p =
      let s0 =
        set_reg sp (u32 (s.mmu.pmem_size + (2 ^ 64 - 2 * pagesize)))
          (record s { regs = λ _. 0; pc = pc; executed_insts = 0 }) in
      elim (outcome_cases (put_segments (earlier ++ words ∷ later) (vas ++ va ∷ vas') s0.mmu)) [
        | inl (_, u, e) ↦
            let q = ok-state tt tt (record s0 { mmu = u }) s' (rw (e, init) at p) in
            (
              ap (λ t. t.pc) (sym q),
              ap (λ t. t.executed_insts) (sym q),
              λ j w f l.
                  ap (λ t. read_bytes 4 (va + j * 4) t.mmu.pmem) (sym q)
                  ∙ put_segments_inside earlier later vas vas' words va s0.mmu u same h k e j w f l,
            )
        | inr (inl (x, u, e)) ↦ cc (rw (e, init) at p)
        | inr (inr e) ↦ cc (rw (e, init) at p)
      ]
