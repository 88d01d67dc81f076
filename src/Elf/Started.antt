-- ===== src/Elf/Started.antt =====
-- A file from its segments to the memory of State's constructor, as main.cpp composes them.
use mathlib.Core.Path.{subst}
use risc_v_simulator.Base.{
  ℕ, zero, suc, ◌+◌, ◌*◌, ◌^◌, ◌<◌, ◌≡◌, refl, ap, sym, ◌∙◌, List, [], ◌∷◌, ◌++◌, map, length,
  get_elem?, some, u32, arith,
}
use risc_v_simulator.Outcome.{Outcome, ok}
use risc_v_simulator.Lru.{HashMap}
use risc_v_simulator.Mmu.Memory.{IsByte, read_bytes, read_bytes-lt}
use risc_v_simulator.State.{State}
use risc_v_simulator.Sim
use risc_v_simulator.Sim.Load.{Misses, init-loaded}
use risc_v_simulator.Elf.{LibElf, Reader, Reading, words_from, byte_of, load, Loading}
use risc_v_simulator.Elf.Segments.{Segment, words_of, address_of, Holds, load-segments}

length-words_from : (n k : ℕ) (bytes : List ℕ) → length (words_from n k bytes) ≡ n
unfolding words_from
length-words_from zero k bytes = refl
length-words_from (suc n) k bytes = ap suc (length-words_from n (suc k) bytes)

get_elem-words_from :
    (n k j : ℕ) (bytes : List ℕ)
    → j < n
    → get_elem? (words_from n k bytes) j ≡ some (read_bytes 4 ((k + j) * 4) (byte_of bytes))
unfolding words_from
get_elem-words_from zero k j bytes h = absurd (omega arith)
get_elem-words_from (suc n) k zero bytes h =
    ap (λ i. some (read_bytes 4 i (byte_of bytes))) (omega arith)
get_elem-words_from (suc n) k (suc j) bytes h =
    get_elem-words_from n (suc k) j bytes (omega arith)
    ∙ ap (λ i. some (read_bytes 4 i (byte_of bytes))) (omega arith)

map-append : {A B : Type 0} (f : A → B) (xs ys : List A) → map f (xs ++ ys) ≡ map f xs ++ map f ys
map-append f [] ys = refl
map-append f (x ∷ xs) ys = ap (◌∷◌ (f x)) (map-append f xs ys)

length-map : {A B : Type 0} (f : A → B) (xs : List A) → length (map f xs) ≡ length xs
length-map f [] = refl
length-map f (x ∷ xs) = ap suc (length-map f xs)

-- The segments lie outside of the memory of a segment g.
abbrev pub Spares : Segment → List Segment → Type 0
Spares g later =
    Misses (address_of g) (g.header.memsz * 4) (map words_of later) (map address_of later)

abbrev or_else : {S : Type 0} → S → Reading S → S
or_else d (Reading.done s) = s
or_else d (Reading.failed e s) = d
or_else d Reading.undefined = d

done-injective : {S : Type 0} (s s' : S) → Reading.done s ≡ Reading.done s' → s ≡ s'
done-injective s s' e = ap (or_else s) e

address-lt : (g : Segment) → address_of g < 2 ^ 32
address-lt g = omega arith

module _ {m : HashMap} {l : LibElf} where
  -- The constructor, called with what load hands over.
  abbrev pub construct : Loading l → State m → Outcome (State m) (Unit {0})
  construct t s = Sim.init t.commands t.seg_va t.offset s

  -- When load and then State's constructor return, for a file whose headers stand for these
  -- segments: the pc is the entry of the file, and each word of a segment g stands at its place in
  -- memory, with the bytes of the file and zeros behind them, if the segments behind g do not overlap
  -- with it.
  pub load-init :
      (earlier later : List Segment) (g : Segment) (r : Reader l) (t : Loading l) (s s' : State m)
      → IsByte (byte_of g.bytes)
      → r.phdrnum ≡ r.cur_phdr + length (earlier ++ g ∷ later)
      → Holds l r.e r.fd r.cur_phdr (earlier ++ g ∷ later)
      → Spares g later
      → load (record { reader = r; commands = []; seg_va = []; offset = 0 }) ≡ Reading.done t
      → construct t s ≡ ok tt s'
      → (s'.pc ≡ u32 r.entry)
        × ((j : ℕ)
            → j < g.header.memsz
            → read_bytes 4 (address_of g + j * 4) s'.mmu.pmem
              ≡ read_bytes 4 (j * 4) (byte_of g.bytes))
  load-init earlier later g r t s s' b e h k p q =
      let segments = earlier ++ g ∷ later in
      let handed = done-injective _ t (sym (load-segments segments r 0 e h) ∙ p) in
      let q' = subst (λ u. construct u s ≡ ok tt s') (sym handed) q in
      let size = length-words_from g.header.memsz 0 g.bytes in
      let (at_entry, _, found) =
        init-loaded (map words_of earlier) (map words_of later) (map address_of earlier)
          (map address_of later) (words_of g) (address_of g) (u32 r.entry) s s'
          (length-map words_of earlier ∙ sym (length-map address_of earlier)) (address-lt g)
          (subst (λ n. Misses (address_of g) (n * 4) (map words_of later) (map address_of later))
            (sym size) k)
          (rw
            (
              sym (map-append words_of earlier (g ∷ later)),
              sym (map-append address_of earlier (g ∷ later)),
            )
            q') in
      (
        at_entry,
        λ j le.
            found j (read_bytes 4 (j * 4) (byte_of g.bytes))
              (get_elem-words_from g.header.memsz 0 j g.bytes le
                ∙ ap (λ i. some (read_bytes 4 (i * 4) (byte_of g.bytes))) (omega arith))
              (read_bytes-lt 4 (j * 4) (byte_of g.bytes) b),
      )
