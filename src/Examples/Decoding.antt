-- ===== src/Examples/Decoding.antt =====
-- Decoding and encoding of single commands.
use risc_v_simulator.Base.{◌≡◌, ◌≢◌, arith}
use risc_v_simulator.Isa.{Cmd}
use risc_v_simulator.Ir.{Inst}
use risc_v_simulator.Decoder.{decode}
use risc_v_simulator.Decoder.Tables.{decoder, ok, undefined}
use risc_v_simulator.Decoder.Encoding.{encode, IsWellFormed}
use risc_v_simulator.Decoder.Exact.{encode-decode}
use risc_v_simulator.Decoder.Complete.{decode-encode}
use risc_v_simulator.Decoder.Total.{decode-ne-undefined}
use risc_v_simulator.Decoder.Tests.{addi}

-- addi x1, x2, -1.
abbrev addi_inst : Inst
addi_inst = record { imm = 0xffffffff; rs1 = 2; rs2 = 0; rd = 1; cmd = Cmd.addi }

encode-decode_example : (encode addi_inst ≡ 0xfff10093) × IsWellFormed addi_inst
encode-decode_example = encode-decode 0xfff10093 {i = addi_inst} (omega arith) addi

addi-IsWellFormed : IsWellFormed addi_inst
addi-IsWellFormed = (encode-decode 0xfff10093 {i = addi_inst} (omega arith) addi).1

decode-encode_example : decode decoder (encode addi_inst) ≡ ok addi_inst
decode-encode_example = decode-encode addi_inst addi-IsWellFormed

decode-ne-undefined_example : decode decoder 0x4030d093 ≢ undefined
decode-ne-undefined_example = decode-ne-undefined 0x4030d093
