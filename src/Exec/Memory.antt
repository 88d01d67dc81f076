-- ===== src/Exec/Memory.antt =====
-- Loads and stores of sim/exec_inst.cpp.
use risc_v_simulator.Outcome.{bind}
use risc_v_simulator.Lru.{HashMap}
use risc_v_simulator.State.{read, write}
use risc_v_simulator.Exec.Operand.{Handler, widen, urs2, rd, next, address}

module _ {m : HashMap} where
  unfoldable pub exec_lb : Handler m
  exec_lb index inst s = bind (read 1 (address inst s) s) (λ v s'. next (rd inst (widen 8 v) s'))

  unfoldable pub exec_lh : Handler m
  exec_lh index inst s = bind (read 2 (address inst s) s) (λ v s'. next (rd inst (widen 16 v) s'))

  unfoldable pub exec_lw : Handler m
  exec_lw index inst s = bind (read 4 (address inst s) s) (λ v s'. next (rd inst v s'))

  unfoldable pub exec_lbu : Handler m
  exec_lbu index inst s = bind (read 1 (address inst s) s) (λ v s'. next (rd inst v s'))

  unfoldable pub exec_lhu : Handler m
  exec_lhu index inst s = bind (read 2 (address inst s) s) (λ v s'. next (rd inst v s'))

  unfoldable pub exec_sb : Handler m
  exec_sb index inst s = bind (write 1 (address inst s) (urs2 inst s) s) (λ _ s'. next s')

  unfoldable pub exec_sh : Handler m
  exec_sh index inst s = bind (write 2 (address inst s) (urs2 inst s) s) (λ _ s'. next s')

  unfoldable pub exec_sw : Handler m
  exec_sw index inst s = bind (write 4 (address inst s) (urs2 inst s) s) (λ _ s'. next s')
