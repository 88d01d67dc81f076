-- ===== src/Examples/Traces.antt =====
-- Fetching and running small traces.
use risc_v_simulator.Base.{◌+◌, ◌*◌, ◌≡◌, ◌≢◌, refl, arith, List, [], ◌∷◌}
use risc_v_simulator.Outcome.{ok, undefined}
use risc_v_simulator.Isa.{Cmd}
use risc_v_simulator.Ir.{Inst, is_terminator}
use risc_v_simulator.Mmu.{is_virtual_addressing, load, load_address, get_mem_ptr, read_ptr}
use risc_v_simulator.Mmu.Memory.{write_bytes-IsByte, read_bytes, write_bytes}
use risc_v_simulator.State.{get_cmd}
use risc_v_simulator.Decoder.Tables.{decoder}
use risc_v_simulator.Decoder.Tests.{jal}
use risc_v_simulator.Exec.{exec_func}
use risc_v_simulator.Exec.Operand.{Flow}
use risc_v_simulator.Trace.{fetch, fetch_inst, lift, exec, execute}
use risc_v_simulator.Trace.Fetch.{IsBlock, IsBare, IsCode, fetch-IsBlock, fetch-IsCode}
use risc_v_simulator.Trace.Run.{run_all, exec-run_all, exec_func-Flows, Flows, execute-fence}
use risc_v_simulator.Trace.Ends.{fetch-ne-undefined}
use risc_v_simulator.Examples.Setup.{function_map, processor}

-- addi x1, x2, 5; jal x0, 0.
abbrev addi_inst : Inst
addi_inst = record { imm = 5; rs1 = 2; rs2 = 0; rd = 1; cmd = Cmd.addi }

abbrev jal_inst : Inst
jal_inst = record { imm = 0; rs1 = 0; rs2 = 0; rd = 0; cmd = Cmd.jal }

abbrev fence_inst : Inst
fence_inst = record { imm = 0xff; rs1 = 0; rs2 = 0; rd = 0; cmd = Cmd.fence }

abbrev block : List Inst
block = addi_inst ∷ jal_inst ∷ []

block-IsBlock : IsBlock block
unfolding is_terminator
block-IsBlock = (refl, refl)

exec-run_all_example : exec {m = function_map} block 0 processor ≡ run_all block 0 processor
exec-run_all_example = exec-run_all block 0 processor block-IsBlock

exec_func-Flows_example :
    Flows Flow.end_trace (exec_func {m = function_map} Cmd.jal 0 jal_inst processor)
unfolding is_terminator
exec_func-Flows_example = exec_func-Flows 0 jal_inst processor

fence-IsBlock : IsBlock (addi_inst ∷ fence_inst ∷ [])
unfolding is_terminator
fence-IsBlock = (refl, refl)

execute-fence_example :
    execute 0 (record { insts = addi_inst ∷ fence_inst ∷ [] }) processor ≢ ok tt processor
execute-fence_example =
    execute-fence (addi_inst ∷ []) fence_inst 0 processor processor fence-IsBlock refl

processor-IsBare : IsBare processor
unfolding is_virtual_addressing
processor-IsBare = (
  refl,
  write_bytes-IsByte 4 0x4000 (6 * 1024 + 0b0011) _ (
      write_bytes-IsByte 4 0x2000 (4 * 1024 + 0b0001) _
        (write_bytes-IsByte 4 0x100 0x0000006f _ (λ i. omega arith))),
)

fetch-ne-undefined_example : fetch 0x4001 decoder 0x100 processor ≢ undefined
fetch-ne-undefined_example =
    fetch-ne-undefined 0x4000 0x100 processor processor-IsBare (omega arith) (omega arith)
      (omega arith)

fetched : fetch 1 decoder 0x100 processor ≡ ok (jal_inst ∷ []) processor
unfolding fetch fetch_inst lift get_cmd load load_address is_virtual_addressing get_mem_ptr read_ptr
    read_bytes write_bytes is_terminator
fetched = rw jal refl

fetch-IsBlock_example : IsBlock (jal_inst ∷ [])
fetch-IsBlock_example = fetch-IsBlock 1 decoder 0x100 processor (jal_inst ∷ []) processor fetched

fetch-IsCode_example : (processor ≡ processor) × IsCode processor 0x100 (jal_inst ∷ [])
fetch-IsCode_example =
    fetch-IsCode 1 0x100 processor (jal_inst ∷ []) processor processor-IsBare (omega arith) fetched
