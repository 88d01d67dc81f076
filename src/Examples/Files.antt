-- ===== src/Examples/Files.antt =====
-- A small executable, from its headers to the memory.
use risc_v_simulator.Base.{
  ℕ, zero, suc, All, ◌+◌, ◌*◌, ◌<◌, ◌≡◌, refl, true, none, some, List, [], ◌∷◌, get_elem?, map, u32,
  arith, inr, ◌==◌, if◌then◌else◌,
}
use risc_v_simulator.Mmu.Memory.{IsByte, read_bytes}
use risc_v_simulator.Elf.{
  LibElf, Reader, Reading, byte_of, words_from, fresh, init, load, em_riscv, class_32,
}
use risc_v_simulator.Elf.Segments.{Segment, Holds, load-segments}
use risc_v_simulator.Elf.Accepted.{IsOpen, init-done}
use risc_v_simulator.Elf.Started.{Spares, load-init}
use risc_v_simulator.Examples.Running.{started, started_lem}
use risc_v_simulator.Examples.Setup.{processor}

-- Five bytes for two words of memory at 0x1000, and four bytes behind them.
abbrev text : Segment
text = record {
  header = record { offset = 0x54; filesz = 5; memsz = 2; vaddr = 0x1000 };
  bytes = 0x13 ∷ 0 ∷ 0 ∷ 0 ∷ 0x6f ∷ [];
}

abbrev numbers : Segment
numbers = record {
  header = record { offset = 0x59; filesz = 4; memsz = 1; vaddr = 0x1008 };
  bytes = 0x78 ∷ 0x56 ∷ 0x34 ∷ 0x12 ∷ [];
}

abbrev segments : List Segment
segments = text ∷ numbers ∷ []

abbrev pub library : LibElf
library = record {
  Handle = Unit;
  is_current = true;
  open_file = λ filename. some 3;
  begin = λ fd. some tt;
  is_object = λ h. true;
  get_ehdr = λ h. some (record { machine = em_riscv; class = class_32; entry = 0x1000 });
  get_phdrnum = λ h. some 2;
  get_phdr = λ e k. get_elem? (map (λ g. g.header) segments) k;
  lseek = λ fd offset. some offset;
  read = λ fd offset n. if offset == 0x54 then some text.bytes else some numbers.bytes;
}

-- A reader closes what it has not opened.
abbrev reader : Reader library
reader = record {
  e = some tt;
  fd = some 3;
  phdrnum = 2;
  cur_phdr = 0;
  entry = 0x1000;
  ended = none ∷ [];
  closed = none ∷ [];
}

opened : init (some "a.elf") fresh ≡ Reading.done reader
unfolding init
opened = refl

init-done_example : (library.is_current ≡ true) × IsOpen (some "a.elf") fresh reader
init-done_example = init-done (some "a.elf") fresh reader opened

segments-Holds : Holds library (some tt) (some 3) 0 segments
segments-Holds = (
  refl,
  refl,
  refl,
  refl,
  omega arith,
  omega arith,
  (refl, refl, refl, refl, omega arith, omega arith, tt),
)

load-segments_example :
    load (record { reader = reader; commands = []; seg_va = []; offset = 0 })
    ≡ Reading.done (record {
      reader = record reader { cur_phdr = 2 };
      commands = (0x13 ∷ 0x6f ∷ []) ∷ (0x12345678 ∷ []) ∷ [];
      seg_va = 0x1000 ∷ 0x1008 ∷ [];
      offset = 0x1000;
    })
unfolding words_from read_bytes
load-segments_example = load-segments segments reader 0 (omega arith) segments-Holds

byte_of-IsByte : (bytes : List ℕ) → All (λ b. b < 256) bytes → IsByte (byte_of bytes)
byte_of-IsByte [] h i = omega arith
byte_of-IsByte (b ∷ bytes) (h, k) zero = h
byte_of-IsByte (b ∷ bytes) (h, k) (suc i) = byte_of-IsByte bytes k i

text-Spares : Spares text (numbers ∷ [])
text-Spares = (omega arith, inr (omega arith), tt)

load-init_example :
    (started.pc ≡ u32 0x1000)
    × ((j : ℕ)
        → j < 2
        → read_bytes 4 (u32 0x1000 + j * 4) started.mmu.pmem
          ≡ read_bytes 4 (j * 4) (byte_of text.bytes))
load-init_example =
    load-init [] (numbers ∷ []) text reader _ processor started
      (byte_of-IsByte text.bytes
        (omega arith, (omega arith, (omega arith, (omega arith, (omega arith, tt))))))
      refl segments-Holds text-Spares load-segments_example started_lem
