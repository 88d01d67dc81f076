-- ===== src/Decoder/Immediate.antt =====
-- The special cases of the I format, from a command that the tables give.
use risc_v_simulator.Base.{ℕ, ◌%◌, ◌^◌, ◌<◌, ◌≡◌, arith, ◌∙◌, ap, inl}
use risc_v_simulator.Isa.{Cmd, CmdFormat}
use risc_v_simulator.Decoder.{shift_fields, finish_i}
use risc_v_simulator.Decoder.Tables.{Decoded, ok, sign_extend, ◌>>=◌}
use risc_v_simulator.Decoder.Encoding.{opcode_of, funct3_of, IsImmediate, IsSigned}
use risc_v_simulator.Decoder.Fields.{sign_extend_11}
use risc_v_simulator.Decoder.Lookup.{format_of, found}

-- Both special cases in a row.
unfoldable pub i_fields : Cmd → ℕ → ℕ → ℕ → Decoded (Cmd × ℕ)
i_fields c raw rs1 rd = do (c', imm) ← shift_fields c raw; finish_i c' imm raw rs1 rd

-- What is kept of the 12 bits and the row.
abbrev Keeps : ℕ → ℕ → ℕ → ℕ → ℕ → Cmd → ℕ → Type 0
Keeps opcode funct3 raw rs1 rd c' imm =
    (imm % 2 ^ 12 ≡ raw)
    × (format_of c' ≡ CmdFormat.i)
    × (opcode_of c' ≡ opcode)
    × (funct3_of c' ≡ funct3)
    × IsImmediate c' imm rs1 rd

system_fields :
    (raw rs1 rd : ℕ) {c' : Cmd} {imm : ℕ}
    → i_fields Cmd.wfi raw rs1 rd ≡ ok (c', imm)
    → Keeps 28 0 raw rs1 rd c' imm
unfolding i_fields shift_fields finish_i format_of opcode_of funct3_of
system_fields raw rs1 rd e = ground arith

-- They change the command only for one of the same row, and the immediate keeps the 12 bits.
pub i_fields-eq-ok :
    (c : Cmd) (raw rs1 rd : ℕ) {c' : Cmd} {imm : ℕ}
    → raw < 2 ^ 12
    → format_of c ≡ CmdFormat.i
    → i_fields c raw rs1 rd ≡ ok (c', imm)
    → Keeps (opcode_of c) (funct3_of c) raw rs1 rd c' imm
unfolding i_fields shift_fields finish_i format_of opcode_of funct3_of
i_fields-eq-ok Cmd.wfi raw rs1 rd h f e = system_fields raw rs1 rd e
i_fields-eq-ok Cmd.ecall raw rs1 rd h f e = system_fields raw rs1 rd e
i_fields-eq-ok Cmd.ebreak raw rs1 rd h f e = system_fields raw rs1 rd e
i_fields-eq-ok Cmd.uret raw rs1 rd h f e = system_fields raw rs1 rd e
i_fields-eq-ok Cmd.sret raw rs1 rd h f e = system_fields raw rs1 rd e
i_fields-eq-ok Cmd.mret raw rs1 rd h f e = system_fields raw rs1 rd e
i_fields-eq-ok Cmd.lw raw rs1 rd h f e = ground (arith, sign_extend_11 raw h)
i_fields-eq-ok _ raw rs1 rd h f e = ground (arith, sign_extend_11 raw h)

resigned : (imm : ℕ) → IsSigned 11 imm → sign_extend (imm % 2 ^ 12) 11 ≡ imm
resigned imm h = sign_extend_11 (imm % 2 ^ 12) (omega arith) ∙ ground arith

-- On the immediate of a well-formed instruction they give the instruction's command and immediate.
pub i_fields-IsImmediate :
    (c : Cmd) (imm rs1 rd : ℕ)
    → format_of c ≡ CmdFormat.i
    → IsImmediate c imm rs1 rd
    → i_fields (found c) (imm % 2 ^ 12) rs1 rd ≡ ok (c, imm)
unfolding i_fields shift_fields finish_i format_of found
i_fields-IsImmediate Cmd.undefined imm rs1 rd f h = cc
i_fields-IsImmediate Cmd.slli imm rs1 rd f h = ground (arith, resigned imm (inl (omega arith)))
i_fields-IsImmediate Cmd.srli imm rs1 rd f h = ground (arith, resigned imm (inl (omega arith)))
i_fields-IsImmediate Cmd.srai imm rs1 rd f h = ground (arith, resigned imm (inl (omega arith)))
i_fields-IsImmediate Cmd.fence imm rs1 rd f h = rw (h.0, h.1, h.2)
i_fields-IsImmediate Cmd.ecall imm rs1 rd f h = rw (h.0, h.1, h.2)
i_fields-IsImmediate Cmd.ebreak imm rs1 rd f h = rw (h.0, h.1, h.2)
i_fields-IsImmediate Cmd.uret imm rs1 rd f h = rw (h.0, h.1, h.2)
i_fields-IsImmediate Cmd.sret imm rs1 rd f h = rw (h.0, h.1, h.2)
i_fields-IsImmediate Cmd.mret imm rs1 rd f h = rw (h.0, h.1, h.2)
i_fields-IsImmediate Cmd.wfi imm rs1 rd f h = rw (h.0, h.1, h.2)
i_fields-IsImmediate Cmd.lw imm rs1 rd f h = ap (λ (m : ℕ). ok (Cmd.lw, m)) (resigned imm h)
i_fields-IsImmediate Cmd.lui imm rs1 rd f h = cc
i_fields-IsImmediate c imm rs1 rd f h = ground (arith, resigned imm)
