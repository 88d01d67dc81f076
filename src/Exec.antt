-- ===== src/Exec.antt =====
-- The column exec_func of cmd_desc in sim/isa_desc.cpp: the handler of each command.
pub mod Operand
pub mod Memory
pub mod Control
pub mod Arith
pub mod Mul
pub mod Syscall
pub mod System
pub mod Jumps
pub mod Products
pub mod Quotients
pub mod Shifts
use risc_v_simulator.Outcome.{undefined}
use risc_v_simulator.Isa.{Cmd}
use risc_v_simulator.Lru.{HashMap}
use Operand.{Handler}
use Memory.{exec_lb, exec_lh, exec_lw, exec_lbu, exec_lhu, exec_sb, exec_sh, exec_sw}
use Control.{exec_jal, exec_jalr, exec_beq, exec_bne, exec_blt, exec_bge, exec_bltu, exec_bgeu}
use Arith.{
  exec_lui, exec_auipc, exec_addi, exec_slti, exec_sltiu, exec_xori, exec_ori, exec_andi, exec_slli,
  exec_srli, exec_srai, exec_add, exec_sub, exec_sll, exec_slt, exec_sltu, exec_xor, exec_srl,
  exec_sra, exec_or, exec_and,
}
use Mul.{exec_mul, exec_mulh, exec_mulhsu, exec_mulhu, exec_div, exec_divu, exec_rem, exec_remu}
use System.{exec_dummy, exec_ecall, exec_fence, exec_csrrw}

-- The command that has no row has no handler.
unfoldable pub exec_func : {m : HashMap} → Cmd → Handler m
exec_func Cmd.lui = exec_lui
exec_func Cmd.auipc = exec_auipc
exec_func Cmd.jal = exec_jal
exec_func Cmd.jalr = exec_jalr
exec_func Cmd.beq = exec_beq
exec_func Cmd.bne = exec_bne
exec_func Cmd.blt = exec_blt
exec_func Cmd.bge = exec_bge
exec_func Cmd.bltu = exec_bltu
exec_func Cmd.bgeu = exec_bgeu
exec_func Cmd.lb = exec_lb
exec_func Cmd.lh = exec_lh
exec_func Cmd.lw = exec_lw
exec_func Cmd.lbu = exec_lbu
exec_func Cmd.lhu = exec_lhu
exec_func Cmd.sb = exec_sb
exec_func Cmd.sh = exec_sh
exec_func Cmd.sw = exec_sw
exec_func Cmd.addi = exec_addi
exec_func Cmd.slti = exec_slti
exec_func Cmd.sltiu = exec_sltiu
exec_func Cmd.xori = exec_xori
exec_func Cmd.ori = exec_ori
exec_func Cmd.andi = exec_andi
exec_func Cmd.slli = exec_slli
exec_func Cmd.srli = exec_srli
exec_func Cmd.srai = exec_srai
exec_func Cmd.add = exec_add
exec_func Cmd.sub = exec_sub
exec_func Cmd.sll = exec_sll
exec_func Cmd.slt = exec_slt
exec_func Cmd.sltu = exec_sltu
exec_func Cmd.xor = exec_xor
exec_func Cmd.srl = exec_srl
exec_func Cmd.sra = exec_sra
exec_func Cmd.or = exec_or
exec_func Cmd.and = exec_and
exec_func Cmd.ecall = exec_ecall
exec_func Cmd.ebreak = exec_dummy
exec_func Cmd.uret = exec_dummy
exec_func Cmd.sret = exec_dummy
exec_func Cmd.mret = exec_dummy
exec_func Cmd.wfi = exec_dummy
exec_func Cmd.fence = exec_fence
exec_func Cmd.csrrw = exec_csrrw
exec_func Cmd.csrrs = exec_dummy
exec_func Cmd.csrrc = exec_dummy
exec_func Cmd.csrrwi = exec_dummy
exec_func Cmd.csrrsi = exec_dummy
exec_func Cmd.csrrci = exec_dummy
exec_func Cmd.mul = exec_mul
exec_func Cmd.mulh = exec_mulh
exec_func Cmd.mulhsu = exec_mulhsu
exec_func Cmd.mulhu = exec_mulhu
exec_func Cmd.div = exec_div
exec_func Cmd.divu = exec_divu
exec_func Cmd.rem = exec_rem
exec_func Cmd.remu = exec_remu
exec_func Cmd.undefined = λ _ _ _. undefined
