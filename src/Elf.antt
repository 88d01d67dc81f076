-- ===== src/Elf.antt =====
-- sim/elf_reader.h and sim/elf_reader.cpp. libelf and the calls of the operating system are a
-- parameter; what fprintf writes to the log is left out.
pub mod Segments
pub mod Accepted
pub mod Started
use Prim.Native.String.{String}
use risc_v_simulator.Base.{
  ℕ, zero, suc, ◌-◌, ◌*◌, ◌^◌, Bool, true, not, ◌&&◌, ◌==◌, ltb, Option, none, some, List, [], ◌∷◌,
  ◌++◌, if◌then◌else◌, length, get_or, set, u32,
}
use risc_v_simulator.Mmu.Memory.{Bytes, read_bytes}

-- The fields of the headers that are read.
pub record Ehdr : Type 0 where
  pub machine : ℕ
  pub class : ℕ
  pub entry : ℕ

pub record Phdr : Type 0 where
  pub offset : ℕ
  pub filesz : ℕ
  pub memsz : ℕ
  pub vaddr : ℕ

-- A null pointer and a negative result are none. A file descriptor of none is negative too. read
-- takes the position at which lseek has left the file.
pub record LibElf : Type 1 where
  pub Handle : Type 0
  pub is_current : Bool
  pub open_file : Option String → Option ℕ
  pub begin : ℕ → Option Handle
  pub is_object : Handle → Bool
  pub get_ehdr : Handle → Option Ehdr
  pub get_phdrnum : Handle → Option ℕ
  pub get_phdr : Option Handle → ℕ → Option Phdr
  pub lseek : Option ℕ → ℕ → Option ℕ
  pub read : Option ℕ → ℕ → ℕ → Option (List ℕ)

abbrev pub em_riscv : ℕ
em_riscv = 243

abbrev pub class_32 : ℕ
class_32 = 1

-- The messages that a std::runtime_error is thrown behind.
pub data ElfError : Type 0 where
  initialization no_file begin_failed not_object no_ehdr not_riscv not_32_bit : ElfError
  no_phdrnum no_phdr seek_failed read_failed : ElfError

pub data Reading (S : Type 0) : Type 0 where
  done : S → Reading S
  failed : ElfError → S → Reading S
  undefined : Reading S

abbrev pub bind_reading : {S : Type 0} → Reading S → (S → Reading S) → Reading S
bind_reading (Reading.done s) k = k s
bind_reading (Reading.failed e s) k = Reading.failed e s
bind_reading Reading.undefined k = Reading.undefined

module _ {ℓ} {A : Type ℓ} where
  -- std::vector::resize.
  abbrev pub resize : ℕ → A → List A → List A
  resize zero d xs = []
  resize (suc n) d [] = d ∷ resize n d []
  resize (suc n) d (x ∷ xs) = x ∷ resize n d xs

abbrev pub byte_of : List ℕ → Bytes
byte_of bytes i = get_or bytes i 0

-- The words from number k on of a vector of zero words whose first bytes have been read.
unfoldable pub words_from : ℕ → ℕ → List ℕ → List ℕ
words_from zero k bytes = []
words_from (suc n) k bytes = read_bytes 4 (k * 4) (byte_of bytes) ∷ words_from n (suc k) bytes

-- The test of read_sz, which is an int.
unfoldable pub is_read : ℕ → ℕ → Bool
is_read filesz n = ltb (u32 n) (2 ^ 31) && filesz == u32 n

-- `ended` and `closed` are the arguments of the calls of elf_end and close, the last first.
pub record Reader (l : LibElf) : Type 0 where
  pub e : Option l.Handle
  pub fd : Option ℕ
  pub phdrnum : ℕ
  pub cur_phdr : ℕ
  pub entry : ℕ
  pub ended : List (Option l.Handle)
  pub closed : List (Option ℕ)

-- The reader and the variables that load gets by reference.
pub record Loading (l : LibElf) : Type 0 where
  pub reader : Reader l
  pub commands : List (List ℕ)
  pub seg_va : List ℕ
  pub offset : ℕ

module _ {l : LibElf} where
  abbrev pub fresh : Reader l
  fresh = record {
    e = none;
    fd = none;
    phdrnum = 0;
    cur_phdr = 0;
    entry = 0;
    ended = [];
    closed = [];
  }

  unfoldable pub clear : Reader l → Reader l
  clear r = record r { e = none; fd = some 0; ended = r.e ∷ r.ended; closed = r.fd ∷ r.closed }

  -- e_ || fd_.
  unfoldable pub in_use : Reader l → Bool
  in_use r = elim r.e [ some h ↦ true | none ↦ elim r.fd [ none ↦ true | some n ↦ not (n == 0) ] ]

  -- The part of init behind elf_begin.
  unfoldable pub init_object : l.Handle → Reader l → Reading (Reader l)
  init_object h r =
      if not (l.is_object h) then Reading.failed ElfError.not_object r else elim (l.get_ehdr h) [
        | none ↦ Reading.failed ElfError.no_ehdr r
        | some ehdr ↦
            if not (ehdr.machine == em_riscv)
            then Reading.failed ElfError.not_riscv r
            else if not (ehdr.class == class_32)
            then Reading.failed ElfError.not_32_bit r
            else elim (l.get_phdrnum h) [
              | none ↦ Reading.failed ElfError.no_phdrnum r
              | some n ↦ Reading.done (record r { phdrnum = n; entry = ehdr.entry })
            ]
      ]

  unfoldable pub init_file : Option String → Reader l → Reading (Reader l)
  unfolding init_object
  init_file filename r = elim (l.open_file filename) [
    | none ↦ Reading.failed ElfError.no_file (record r { fd = none })
    | some fd ↦ elim (l.begin fd) [
      | none ↦ Reading.failed ElfError.begin_failed (record r { fd = some fd; e = none })
      | some h ↦ init_object h (record r { fd = some fd; e = some h })
    ]
  ]

  unfoldable pub init : Option String → Reader l → Reading (Reader l)
  unfolding clear in_use init_file
  init filename r =
      let r' = if in_use r then clear r else r in
      if l.is_current then init_file filename r' else Reading.failed ElfError.initialization r'

  -- The part of a round behind lseek; read past the end of the buffer is undefined.
  unfoldable pub read_segment : ℕ → Phdr → Loading l → Reading (Loading l)
  unfolding words_from is_read
  read_segment i p s = elim (l.read s.reader.fd p.offset p.filesz) [
    | none ↦ Reading.failed ElfError.read_failed s
    | some bytes ↦
        if ltb (p.memsz * 4) (length bytes)
        then Reading.undefined
        else if is_read p.filesz (length bytes)
        then Reading.done (record s {
          commands = set s.commands i (words_from p.memsz 0 bytes);
          seg_va = s.seg_va ++ u32 p.vaddr ∷ [];
          reader = record s.reader { cur_phdr = suc s.reader.cur_phdr };
        })
        else Reading.failed ElfError.read_failed s
  ]

  -- One round of the loop of load.
  unfoldable pub load_segment : ℕ → Loading l → Reading (Loading l)
  unfolding read_segment
  load_segment i s = elim (l.get_phdr s.reader.e s.reader.cur_phdr) [
    | none ↦ Reading.failed ElfError.no_phdr s
    | some p ↦
        let s' = record s { commands = resize (suc i) [] s.commands } in
        elim (l.lseek s.reader.fd p.offset) [
          | none ↦ Reading.failed ElfError.seek_failed s'
          | some at ↦
              if p.offset == at then read_segment i p s' else Reading.failed ElfError.seek_failed s'
        ]
  ]

  unfoldable pub load_segments : ℕ → ℕ → Loading l → Reading (Loading l)
  unfolding load_segment
  load_segments zero i s = Reading.done s
  load_segments (suc rounds) i s = bind_reading (load_segment i s) (load_segments rounds (suc i))

  -- A round takes one header: as many rounds as there are headers left end the loop.
  unfoldable pub load : Loading l → Reading (Loading l)
  unfolding load_segments
  load s =
      bind_reading (load_segments (s.reader.phdrnum - s.reader.cur_phdr) 0 s)
        (λ s'. Reading.done (record s' { offset = u32 s'.reader.entry }))
