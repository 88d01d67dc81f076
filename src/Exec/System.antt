-- ===== src/Exec/System.antt =====
-- The handlers of system instructions of sim/exec_inst.cpp.
use risc_v_simulator.Base.{◌+◌, ◌*◌, not, ◌==◌, if◌then◌else◌, u32, bit_and, bit_or}
use risc_v_simulator.Outcome.{SimException, throw, bind}
use risc_v_simulator.Lru.{HashMap}
use risc_v_simulator.State.{get_reg, set_pc, flush}
use risc_v_simulator.Exec.Operand.{Handler, urs1, next, stop}
use risc_v_simulator.Exec.Syscall.{exec_sys_call, a7}

module _ {m : HashMap} where
  unfoldable pub exec_dummy : Handler m
  exec_dummy index inst s = next s

  unfoldable pub exec_ecall : Handler m
  exec_ecall index inst s = bind (exec_sys_call (get_reg a7 s) s) (λ _ s'. next s')

  unfoldable pub exec_fence : Handler m
  exec_fence index inst s = stop (set_pc (u32 (s.pc + index * 4 + 4)) (flush s))

  -- Only the mode bit of satp can be set.
  unfoldable pub exec_csrrw : Handler m
  exec_csrrw index inst s =
      if not (inst.imm == 0x180)
      then throw SimException.not_satp s
      else next (record s {
        mmu = record s.mmu { satp = bit_or s.mmu.satp (bit_and (urs1 inst s) 0x80000000) };
      })
