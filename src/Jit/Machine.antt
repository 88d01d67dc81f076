-- ===== src/Jit/Machine.antt =====
-- What the emitted instructions do on the host, as the x86-64 manual says of them: the documented
-- behaviour that the translator relies on. A machine is the general registers as 64-bit numbers, the
-- comparison that the flags are of, the host address of the guest's memory, and sim::State, to which
-- rdi points. Other results in the flags are not looked at: an instruction that sets them otherwise
-- leaves none. The effect of a call is left out.
use risc_v_simulator.Base.{
  ℕ, ◌+◌, ◌-◌, ◌*◌, ◌/◌, ◌%◌, ◌^◌, Bool, true, false, not, ◌&&◌, ◌||◌, ◌==◌, ltb, leb, List, [],
  ◌∷◌, Option, none, some, if◌then◌else◌, u32, u64, sub32, bit_and, bit_or, bit_xor, signed32,
  ltb_ℤ,
}
use risc_v_simulator.Lru.{HashMap}
use risc_v_simulator.Mmu.Memory.{read_bytes, write_bytes}
use risc_v_simulator.State.{State}
use risc_v_simulator.Exec.Operand.{of_ℤ32, of_ℤ64, widen}
use risc_v_simulator.Exec.Shifts.{floor_shift}
use risc_v_simulator.Jit.Host.{
  Gp, Field, Operand, Op, Cond, HostInst, same_gp, is_reg, is_mem, is_imm,
}

pub record Machine (m : HashMap) : Type 0 where
  pub gp : Gp → ℕ
  pub flags : Option (ℕ × ℕ)
  pub mem_base : ℕ
  pub state : State m

-- The 32-bit operations; a shift takes the low five bits of the count.
unfoldable pub apply : Op → ℕ → ℕ → ℕ
apply Op.add a b = u32 (a + b)
apply Op.sub a b = sub32 a b
apply Op.xor a b = bit_xor a b
apply Op.or a b = bit_or a b
apply Op.and a b = bit_and a b
apply Op.shl a b = u32 (a * 2 ^ (b % 32))
apply Op.shr a b = a / 2 ^ (b % 32)
apply Op.sar a b = of_ℤ32 (floor_shift (signed32 a) (b % 32))

-- Whether a jump is taken after a comparison of `a` with `b`.
unfoldable pub holds : Cond → ℕ → ℕ → Bool
holds Cond.je a b = a == b
holds Cond.jne a b = not (a == b)
holds Cond.jl a b = ltb_ℤ (signed32 a) (signed32 b)
holds Cond.jge a b = not (ltb_ℤ (signed32 a) (signed32 b))
holds Cond.jb a b = ltb a b
holds Cond.jae a b = leb b a

abbrev pub is_shift : Op → Bool
is_shift Op.shl = true
is_shift Op.shr = true
is_shift Op.sar = true
is_shift _ = false

abbrev is_count : Operand → Bool
is_count (Operand.imm n) = true
is_count (Operand.low b Gp.ecx) = b == 8
is_count _ = false

-- A destination, and a source for it that is not a second memory operand. All operands have 32 bits.
abbrev is_word : Operand → Bool
is_word (Operand.low b g) = false
is_word (Operand.guest b d) = b == 32
is_word _ = true

abbrev is_pair : Operand → Operand → Bool
is_pair d s = not (is_imm d) && is_word d && is_word s && not (is_mem d && is_mem s)

-- A store of the low bits of a register.
abbrev is_narrow : Operand → Operand → Bool
is_narrow (Operand.guest b d) (Operand.low b' g) = b == b'
is_narrow _ _ = false

abbrev is_narrow_load : Operand → Operand → Bool
is_narrow_load (Operand.gp g) (Operand.guest b d) = b == 8 || b == 16
is_narrow_load (Operand.gp g) (Operand.low b g') = b == 8 || b == 16
is_narrow_load _ _ = false

-- The operands that x86 has the instruction for.
unfoldable pub is_form : HostInst → Bool
is_form (HostInst.mov d s) = is_pair d s || is_narrow d s
is_form (HostInst.op2 op d s) =
    if is_shift op then not (is_imm d) && is_word d && is_count s else is_pair d s
is_form (HostInst.cmp a b) = is_pair a b
is_form (HostInst.setl d) = not (is_imm d)
is_form (HostInst.setb d) = not (is_imm d)
is_form (HostInst.mul s) = not (is_imm s)
is_form (HostInst.movsx d s) = is_narrow_load d s
is_form (HostInst.movzx d s) = is_narrow_load d s
is_form (HostInst.push s) = not (is_mem s)
is_form (HostInst.pop d) = is_reg d
is_form _ = true

abbrev bits_of : Operand → ℕ
bits_of (Operand.guest b d) = b
bits_of (Operand.low b g) = b
bits_of _ = 32

module _ {m : HashMap} where
  unfoldable pub read32 : Operand → Machine m → ℕ
  read32 (Operand.gp g) h = u32 (h.gp g)
  read32 (Operand.imm n) h = u32 n
  read32 (Operand.field (Field.regs r)) h = u32 (h.state.regs r)
  read32 (Operand.field Field.pc) h = u32 h.state.pc
  read32 (Operand.field Field.mem) h = u32 h.mem_base
  read32 (Operand.field Field.executed_insts) h = u32 h.state.executed_insts
  read32 (Operand.low b g) h = h.gp g % 2 ^ b
  read32 (Operand.guest b d) h = 0

  abbrev pub set_gp : Gp → ℕ → Machine m → Machine m
  set_gp g v h = record h { gp = λ g'. if same_gp g' g then v else h.gp g' }

  abbrev pub set_slot : ℕ → ℕ → Machine m → Machine m
  set_slot r v h = record h {
    state = record h.state { regs = λ r'. if r' == r then v else h.state.regs r' };
  }

  -- A write of 32 bits clears the high half of a register.
  unfoldable pub write32 : Operand → ℕ → Machine m → Machine m
  write32 (Operand.gp g) v h = set_gp g (u32 v) h
  write32 (Operand.field (Field.regs r)) v h = set_slot r (u32 v) h
  write32 (Operand.field Field.pc) v h = record h { state = record h.state { pc = u32 v } }
  write32 _ v h = h

  -- Where rax plus a displacement points in the guest's memory; elsewhere an access is undefined.
  unfoldable pub guest_address : ℕ → ℕ → Machine m → Option ℕ
  guest_address bytes disp h =
      let a = u64 (h.gp Gp.eax + of_ℤ64 (signed32 (u32 disp))) in
      if leb h.mem_base a && leb (a + bytes) (h.mem_base + h.state.mmu.pmem_size)
      then some (a - h.mem_base)
      else none

  unfoldable pub load_guest : ℕ → ℕ → Machine m → Option ℕ
  load_guest bits disp h = elim (guest_address (bits / 8) disp h) [
    | none ↦ none
    | some a ↦ some (read_bytes (bits / 8) a h.state.mmu.pmem)
  ]

  unfoldable pub store_guest : ℕ → ℕ → ℕ → Machine m → Option (Machine m)
  store_guest bits disp v h = elim (guest_address (bits / 8) disp h) [
    | none ↦ none
    | some a ↦ some (record h {
      state = record h.state {
        mmu = record h.state.mmu { pmem = write_bytes (bits / 8) a v h.state.mmu.pmem };
      };
    })
  ]

  unfoldable pub move : Operand → Operand → Machine m → Option (Machine m)
  move (Operand.guest b d) s h = store_guest b d (read32 s h) h
  move d (Operand.guest b d') h = elim (load_guest b d' h) [
    | none ↦ none
    | some v ↦ some (write32 d v h)
  ]
  move d s h = some (write32 d (read32 s h) h)

  -- The low byte of a destination.
  unfoldable pub write8 : Operand → ℕ → Machine m → Machine m
  write8 (Operand.gp g) v h = set_gp g (h.gp g / 2 ^ 8 * 2 ^ 8 + v) h
  write8 (Operand.field (Field.regs r)) v h = set_slot r (h.state.regs r / 2 ^ 8 * 2 ^ 8 + v) h
  write8 _ v h = h

  unfoldable pub set_if : Cond → Operand → Machine m → Option (Machine m)
  set_if c d h = elim h.flags [
    | none ↦ none
    | some (a, b) ↦ some (write8 d (if holds c a b then 1 else 0) h)
  ]

  -- A source of 8 or 16 bits.
  unfoldable pub narrow : Operand → Machine m → Option ℕ
  narrow (Operand.guest b d) h = load_guest b d h
  narrow s h = some (read32 s h)

  unfoldable pub extend_sign : Operand → Operand → Machine m → Option (Machine m)
  extend_sign d s h = elim (narrow s h) [
    | none ↦ none
    | some v ↦ some (write32 d (widen (bits_of s) v) h)
  ]

  unfoldable pub extend_zero : Operand → Operand → Machine m → Option (Machine m)
  extend_zero d s h = elim (narrow s h) [ none ↦ none | some v ↦ some (write32 d v h) ]

  abbrev no_flags : Machine m → Machine m
  no_flags h = record h { flags = none }

  -- A 64-bit addition to rax, or to the counter of the executed instructions.
  unfoldable pub add_wide : Operand → Operand → Machine m → Option (Machine m)
  add_wide (Operand.gp g) (Operand.field Field.mem) h =
      some (set_gp g (u64 (h.gp g + h.mem_base)) h)
  add_wide (Operand.field Field.executed_insts) (Operand.imm n) h =
      some
        (record h { state = record h.state { executed_insts = u64 (h.state.executed_insts + n) } })
  add_wide _ _ h = none

  -- The effect of an instruction that the host has. Jumps are taken by the run of a program.
  unfoldable pub effect : HostInst → Machine m → Option (Machine m)
  effect (HostInst.mov d s) h = move d s h
  effect (HostInst.op2 op d s) h =
      some (write32 d (apply op (read32 d h) (read32 s h)) (no_flags h))
  effect (HostInst.add64 d s) h = add_wide d s (no_flags h)
  effect (HostInst.cmp a b) h = some (record h { flags = some (read32 a h, read32 b h) })
  effect (HostInst.setl d) h = set_if Cond.jl d h
  effect (HostInst.setb d) h = set_if Cond.jb d h
  effect (HostInst.mul s) h =
      let p = u32 (h.gp Gp.eax) * read32 s h in
      some (set_gp Gp.edx (p / 2 ^ 32) (set_gp Gp.eax (u32 p) (no_flags h)))
  effect (HostInst.movsx d s) h = extend_sign d s h
  effect (HostInst.movzx d s) h = extend_zero d s h
  effect (HostInst.bind l) h = some h
  effect _ h = none

  -- An emit call of an instruction that the host lacks adds nothing.
  unfoldable pub step : HostInst → Machine m → Option (Machine m)
  step i h = if is_form i then effect i h else some h

  unfoldable pub perform : List HostInst → Machine m → Option (Machine m)
  perform [] h = some h
  perform (i ∷ is) h = elim (step i h) [ none ↦ none | some h' ↦ perform is h' ]
