-- ===== src/Jit/Host.antt =====
-- The instructions of the host that the translator emits, with asmjit's operands. An offset from rdi
-- is the field of sim::State that lies there.
use risc_v_simulator.Base.{ℕ, Bool, true, false, ◌&&◌, ◌==◌}

pub data Gp : Type 0 where
  eax ecx edx esi edi r8d r9d r10d r11d : Gp

pub data Field : Type 0 where
  regs : ℕ → Field
  pc mem executed_insts : Field

-- Registers, immediates, ptr_32 and ptr_64 of a field, ptr_8, ptr_16 and ptr_32 at rax plus a
-- displacement, and the low 8 or 16 bits of a register.
pub data Operand : Type 0 where
  gp : Gp → Operand
  imm : ℕ → Operand
  field : Field → Operand
  guest : ℕ → ℕ → Operand
  low : ℕ → Gp → Operand

pub data Op : Type 0 where
  add sub xor or and shl shr sar : Op

pub data Cond : Type 0 where
  je jne jl jge jb jae : Cond

pub data HostInst : Type 0 where
  mov : Operand → Operand → HostInst
  op2 : Op → Operand → Operand → HostInst
  add64 : Operand → Operand → HostInst
  cmp : Operand → Operand → HostInst
  setl setb mul push pop : Operand → HostInst
  movsx movzx : Operand → Operand → HostInst
  jcc : Cond → ℕ → HostInst
  jmp bind : ℕ → HostInst
  -- A call of State::read or State::write for so many bytes.
  call_read call_write : ℕ → HostInst
  ret : HostInst

abbrev pub same_gp : Gp → Gp → Bool
same_gp Gp.eax Gp.eax = true
same_gp Gp.ecx Gp.ecx = true
same_gp Gp.edx Gp.edx = true
same_gp Gp.esi Gp.esi = true
same_gp Gp.edi Gp.edi = true
same_gp Gp.r8d Gp.r8d = true
same_gp Gp.r9d Gp.r9d = true
same_gp Gp.r10d Gp.r10d = true
same_gp Gp.r11d Gp.r11d = true
same_gp _ _ = false

abbrev pub same_field : Field → Field → Bool
same_field (Field.regs r) (Field.regs r') = r == r'
same_field Field.pc Field.pc = true
same_field Field.mem Field.mem = true
same_field Field.executed_insts Field.executed_insts = true
same_field _ _ = false

-- The == of asmjit::Operand.
abbrev pub same : Operand → Operand → Bool
same (Operand.gp g) (Operand.gp g') = same_gp g g'
same (Operand.imm n) (Operand.imm n') = n == n'
same (Operand.field f) (Operand.field f') = same_field f f'
same (Operand.guest b d) (Operand.guest b' d') = b == b' && d == d'
same (Operand.low b g) (Operand.low b' g') = b == b' && same_gp g g'
same _ _ = false

-- isReg, isMem and isImm.
abbrev pub is_reg : Operand → Bool
is_reg (Operand.gp g) = true
is_reg (Operand.low b g) = true
is_reg _ = false

abbrev pub is_mem : Operand → Bool
is_mem (Operand.field f) = true
is_mem (Operand.guest b d) = true
is_mem _ = false

abbrev pub is_imm : Operand → Bool
is_imm (Operand.imm n) = true
is_imm _ = false
