-- ===== src/Lib.antt =====
-- A model of the RISC-V simulator, a 32-bit RV32IM interpreter with a trace cache, two TLBs and
-- Sv32 address translation, and the theorems that relate it to the instruction set.
--
-- How the program runs: main (sim/main.cpp) parses the options (sim/options.cpp), reads the segments
-- of an executable (sim/elf_reader.cpp) and puts them in memory. Sim::execute (sim/sim.cpp) asks the
-- trace cache for the trace at the pc. A miss fetches words through the memory unit (sim/mmu.h) and
-- decodes them (sim/decoder.cpp) up to a terminator. The trace is a chain of tail calls of handlers (sim/exec_inst.cpp), which read and
-- write registers, memory and the pc, and make system calls (sim/syscall.cpp).
--
-- The files, and what each models:
--   Base        shared tests, lists, words, integers and lemmas on bits.
--   Outcome     how code ends: a value, a SimException, or undefined behaviour of C++.
--   Isa, Ir     the enums and tables of sim/isa_desc.h and .cpp; Inst of sim/ir.h.
--   Decoder     Decoder::Decoder, getCmd and decode. Its children hold an encoder that is written
--               from the instruction formats, not from the decoder, and the proofs.
--   Lru         LRUCache of sim/common.h: entries in order, links, sizes. The hash map
--               (sim/robin_hood.h, a copy of another project) is the record HashMap of calls and laws.
--   Mmu         class MMU of sim/mmu.h: getMemPtr, translate, load and store.
--   State       struct State of sim/sim.h, with the static members as fields, and the standard
--               streams and the clock, which the system calls use.
--   Exec        the handlers of sim/exec_inst.cpp, the system calls, and the table of handlers.
--   Trace       Trace::Trace, Trace::execute and TraceCache::refer.
--   Jit         the translator of sim/jit.h, sim/jit.cpp and sim/translate_inst.cpp: Registers has the
--               class Translator, Templates, Named and Commands the translators, and Jit itself the
--               table and the constructor. Host has the emit calls as data, and Machine what they do
--               on the host. The other children hold the proofs.
--   Sim         the constructor of State and the loop of Sim::execute.
--   Options     the table of options of sim/options_list.h, ParseOptions and the log file.
--   Elf         class Elf_reader of sim/elf_reader.h and sim/elf_reader.cpp.
--   Main        main of sim/main.cpp, the composition of the parts.
--   Examples    concrete inputs, and the theorems at them.
--
-- Conventions: a uint32_t is a natural number below 2^32, and arithmetic on it is written out with
-- its wrap-around; an int32_t is such a number, read by `signed32`. Signed overflow of an addition,
-- which compilers for the simulator's targets wrap, is taken to wrap. A shift by 32 or more, a read
-- past the end of an array or a vector and a use of a destroyed trace are `undefined`. The logging options
-- (-verbose, -execution-log) are off, since logging only prints.
--
-- The count of the executed instructions is a 64-bit word and wraps; the counts of the statistics,
-- which are only printed, are natural numbers that do not.
--
-- Bounds: `fetch` runs for a number of rounds and is undefined when they are used up; the
-- constructor gives it 2^32, more than a memory of at most 2^32 bytes without virtual addressing can
-- use up. Under virtual addressing it can use them up, when no word of the 32-bit space ends a trace;
-- the model then counts the fetch as undefined and promises nothing. `run` of Sim.antt ends as `running` when its rounds are used up. The loops of the page
-- walk and of the system calls are structural.
--
-- ParseOptions gets a round for each argument, and a round takes one at least. load of the ELF reader
-- is structural in the number of headers that are left.
--
-- Parameters: std::stoull, and the record LibElf with the calls of libelf, open, lseek and read. An
-- argument vector is the list of its strings. The static members of State are the state that main
-- starts from.
--
-- The translator: the model of Trace::execute, and with it that of main, has the option -jit off. The
-- code that the translator emits is related to the handlers for the commands that compute a register
-- from an immediate, the pc or one step of arithmetic, one by one and in a row; shifts by a register,
-- products, loads, stores and jumps are modelled alone. The state of the guest is read off the places that the
-- translator keeps the registers in. asmjit is a sequence of emit calls; one whose operands the
-- instruction does not take adds no code. The calls of State::read and State::write that are emitted
-- under virtual addressing are in that sequence, but their effect is left out. TranslateLWU is in no
-- table.
--
-- Not modelled: the branch of Trace::execute that translates a trace and runs its code; help,
-- statistics and dumps, which only print; and the test programs.
pub mod Base
pub mod Outcome
pub mod Isa
pub mod Ir
pub mod Lru
pub mod Mmu
pub mod State
pub mod Exec
pub mod Trace
pub mod Sim
pub mod Options
pub mod Elf
pub mod Main
pub mod Jit
pub mod Decoder
mod Examples
