-- ===== src/Elf/Segments.antt =====
-- The segments that load of sim/elf_reader.cpp hands over.
use mathlib.Core.List.{append_assoc, append-nil}
use mathlib.Core.Path.{subst}
use risc_v_simulator.Base.{
  sym, ℕ, suc, ◌-◌, ◌+◌, ◌*◌, ◌^◌, ◌≤◌, ◌<◌, ◌≡◌, refl, ap, true, false, ltb, ==_iff, map, Option,
  some, List, ◌∙◌, [], ◌∷◌, ◌++◌, length, length-append, set, u32, arith,
}
use risc_v_simulator.Elf.{
  Phdr, LibElf, Reading, resize, words_from, is_read, Loading, read_segment, load_segment,
  load_segments, load, Reader, Reading, bind_reading,
}

-- A header and the bytes that it stands for.
pub record Segment : Type 0 where
  pub header : Phdr
  pub bytes : List ℕ

abbrev pub words_of : Segment → List ℕ
words_of g = words_from g.header.memsz 0 g.bytes

abbrev pub address_of : Segment → ℕ
address_of g = u32 g.header.vaddr

-- The file has these segments from header k on, each no larger in the file than four times its size
-- in memory, and lseek and read do not fail.
abbrev pub Holds : (l : LibElf) → Option l.Handle → Option ℕ → ℕ → List Segment → Type 0
Holds l e fd k [] = Unit
Holds l e fd k (g ∷ segments) =
    (l.get_phdr e k ≡ some g.header)
    × (l.lseek fd g.header.offset ≡ some g.header.offset)
    × (l.read fd g.header.offset g.header.filesz ≡ some g.bytes)
    × (length g.bytes ≡ g.header.filesz)
    × (g.header.filesz < 2 ^ 31)
    × (g.header.filesz ≤ g.header.memsz * 4)
    × Holds l e fd (suc k) segments

place :
    {A : Type 0} (xs : List A) (d x : A)
    → set (resize (suc (length xs)) d xs) (length xs) x ≡ xs ++ x ∷ []
place [] d x = refl
place (y ∷ ys) d x = ap (◌∷◌ y) (place ys d x)

is_read_lem : (n : ℕ) → n < 2 ^ 31 → is_read n n ≡ true
unfolding is_read
is_read_lem n h = ground arith

suc_eq : (n : ℕ) → suc n ≡ n + 1
suc_eq n = omega arith

add_nothing : (n : ℕ) → n ≡ n + 0
add_nothing n = omega arith

add_one : (n k : ℕ) → n + 1 + k ≡ n + suc k
add_one n k = omega arith

module _ {l : LibElf} where
  abbrev loaded : Loading l → List (List ℕ) → List ℕ → ℕ → Loading l
  loaded s commands seg_va cur_phdr = record s {
    commands = commands;
    seg_va = seg_va;
    reader = record s.reader { cur_phdr = cur_phdr };
  }

  -- What the loop has done behind the given segments.
  abbrev pub extended : Loading l → List Segment → Loading l
  extended s segments = record s {
    commands = s.commands ++ map words_of segments;
    seg_va = s.seg_va ++ map address_of segments;
    reader = record s.reader { cur_phdr = s.reader.cur_phdr + length segments };
  }

  read_segment_lem :
      (xs : List (List ℕ)) (g : Segment) (s : Loading l)
      → s.commands ≡ resize (suc (length xs)) [] xs
      → l.read s.reader.fd g.header.offset g.header.filesz ≡ some g.bytes
      → length g.bytes ≡ g.header.filesz
      → g.header.filesz < 2 ^ 31
      → g.header.filesz ≤ g.header.memsz * 4
      → read_segment (length xs) g.header s
        ≡ Reading.done (extended (record s { commands = xs }) (g ∷ []))
  unfolding read_segment
  read_segment_lem xs g s c got same small fits =
      let enough : ltb (g.header.memsz * 4) g.header.filesz ≡ false = ground arith in
      rw
        (
          got,
          read_segment,
          same,
          enough,
          is_read_lem g.header.filesz small,
          c,
          place xs [] (words_of g),
        )
        (λ i. Reading.done (
          loaded s (xs ++ words_of g ∷ []) (s.seg_va ++ address_of g ∷ [])
            (suc_eq s.reader.cur_phdr i)))

  round_lem :
      (g : Segment) (segments : List Segment) (s : Loading l)
      → Holds l s.reader.e s.reader.fd s.reader.cur_phdr (g ∷ segments)
      → load_segment (length s.commands) s ≡ Reading.done (extended s (g ∷ []))
  unfolding load_segment
  round_lem g segments s (found, sought, got, same, small, fits, _) =
      let exact = (==_iff g.header.offset g.header.offset).1 refl in
      rw (found, load_segment, sought, exact)
        (read_segment_lem s.commands g
          (record s { commands = resize (suc (length s.commands)) [] s.commands }) refl got same
          small fits)

  -- As many rounds as there are segments hand them over.
  load_segments_lem :
      (segments : List Segment) (i : ℕ) (s : Loading l)
      → length s.commands ≡ i
      → Holds l s.reader.e s.reader.fd s.reader.cur_phdr segments
      → load_segments (length segments) i s ≡ Reading.done (extended s segments)
  unfolding load_segments
  load_segments_lem [] i s e h = λ j. Reading.done (
      loaded s (sym (append-nil s.commands) j) (sym (append-nil s.seg_va) j)
        (add_nothing s.reader.cur_phdr j))
  load_segments_lem (g ∷ segments) i s e h =
      let s' = extended s (g ∷ []) in
      let rest =
        load_segments_lem segments (suc i) s'
          (omega (arith, length-append s.commands (words_of g ∷ []), e))
          (subst (λ k. Holds l s.reader.e s.reader.fd k segments) (suc_eq s.reader.cur_phdr) h.6) in
      rw (ap (λ k. load_segment k s) (sym e) ∙ round_lem g segments s h, bind_reading)
        (rest ∙ (λ j. Reading.done (
          loaded s (append_assoc s.commands (words_of g ∷ []) (map words_of segments) j)
            (append_assoc s.seg_va (address_of g ∷ []) (map address_of segments) j)
            (add_one s.reader.cur_phdr (length segments) j))))

  -- load, with empty vectors and for a file whose headers from cur_phdr_ on stand for these segments,
  -- returns their words, zeros behind the bytes of the file, their addresses and the entry.
  pub load-segments :
      (segments : List Segment) (r : Reader l) (offset : ℕ)
      → r.phdrnum ≡ r.cur_phdr + length segments
      → Holds l r.e r.fd r.cur_phdr segments
      → load (record { reader = r; commands = []; seg_va = []; offset = offset })
        ≡ Reading.done (record {
          reader = record r { cur_phdr = r.phdrnum };
          commands = map words_of segments;
          seg_va = map address_of segments;
          offset = u32 r.entry;
        })
  unfolding load
  load-segments segments r offset e h =
      let rounds : r.phdrnum - r.cur_phdr ≡ length segments = omega (arith, e) in
      rw
        (
          rounds,
          load_segments_lem segments 0
              (record { reader = r; commands = []; seg_va = []; offset = offset }) refl h,
        )
        (λ j. Reading.done (record {
          reader = record r { cur_phdr = sym e j };
          commands = map words_of segments;
          seg_va = map address_of segments;
          offset = u32 r.entry;
        }))
