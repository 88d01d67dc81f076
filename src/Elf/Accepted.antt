-- ===== src/Elf/Accepted.antt =====
-- The files that init of sim/elf_reader.cpp accepts.
use Prim.Native.String.{String}
use risc_v_simulator.Base.{
  ℕ, ◌≡◌, inl, inr, refl, true, Option, some, arith, ◌∙◌, if◌then◌else◌, Bool, false,
}
use risc_v_simulator.Lru.Front.{Option-cases}
use risc_v_simulator.Elf.{
  ElfError, LibElf, in_use, clear, Ehdr, Reader, Reading, init, init_file, init_object, em_riscv,
  class_32,
}

module _ {l : LibElf} where
  -- What the reader holds of an open object.
  abbrev pub Reads : l.Handle → Reader l → Type 0
  Reads h r =
      (ehdr : Ehdr) × (n : ℕ) × (r.e ≡ some h)
      × (l.is_object h ≡ true)
      × (l.get_ehdr h ≡ some ehdr)
      × (ehdr.machine ≡ em_riscv)
      × (ehdr.class ≡ class_32)
      × (l.get_phdrnum h ≡ some n)
      × (r.phdrnum ≡ n)
      × (r.entry ≡ ehdr.entry)

  abbrev pub IsOpen : Option String → Reader l → Reader l → Type 0
  IsOpen filename r r' =
      (fd : ℕ) × (h : l.Handle) × (l.open_file filename ≡ some fd)
      × (l.begin fd ≡ some h)
      × (r'.fd ≡ some fd)
      × (r'.cur_phdr ≡ r.cur_phdr)
      × Reads h r'

  object_lem :
      (h : l.Handle) (r r' : Reader l)
      → r.e ≡ some h
      → init_object h r ≡ Reading.done r'
      → Reads h r' × (r'.fd ≡ r.fd) × (r'.cur_phdr ≡ r.cur_phdr)
  unfolding init_object
  object_lem h r r' opened p = ground arith

  file_lem :
      (filename : Option String) (r r' : Reader l)
      → init_file filename r ≡ Reading.done r'
      → IsOpen filename r r'
  unfolding init_file
  file_lem filename r r' p = elim (Option-cases (l.open_file filename)) [
    | inl e ↦ cc (rw (e, init_file) at p)
    | inr (fd, e) ↦ elim (Option-cases (l.begin fd)) [
      | inl f ↦ cc (rw (e, init_file, f) at p)
      | inr (h, f) ↦
          let (reads, kept, same) =
            object_lem h (record r { fd = some fd; e = some h }) r' refl
              (rw (e, init_file, f) at p) in
          (fd, h, e, f, kept, same, reads)
    ]
  ]

  then_done :
      (b : Bool) (x : Reading (Reader l)) (e : ElfError) (s s' : Reader l)
      → (if b then x else Reading.failed e s) ≡ Reading.done s'
      → (b ≡ true) × (x ≡ Reading.done s')
  then_done true x e s s' p = (refl, p)
  then_done false x e s s' p = cc p

  kept_phdr : (b : Bool) (r : Reader l) → (if b then clear r else r).cur_phdr ≡ r.cur_phdr
  unfolding clear
  kept_phdr true r = refl
  kept_phdr false r = refl

  -- When init returns, the library has the current version, the file is open, and it is the object of
  -- a 32-bit RISC-V machine whose entry and number of headers the reader holds. cur_phdr_ is what it
  -- was before.
  pub init-done :
      (filename : Option String) (r r' : Reader l)
      → init filename r ≡ Reading.done r'
      → (l.is_current ≡ true) × IsOpen filename r r'
  unfolding init clear
  init-done filename r r' p =
      let (current, opened) = then_done l.is_current _ ElfError.initialization _ r' p in
      let (fd, h, e, f, kept, same, reads) =
        file_lem filename (if in_use r then clear r else r) r' opened in
      (current, (fd, h, e, f, kept, same ∙ kept_phdr (in_use r) r, reads))
