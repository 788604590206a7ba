-- ===== src/Nand/Wait.antt =====
-- `nand_wait` of armboot/storage/nand.c: sleeping until the handler of the NAND interrupt has set the
-- flag. An interrupt is let in where the code restores the interrupt mask.
use vwii_nand_tools.Base.{ℕ, zero, suc, true, false, none, some, ◌==◌, if◌then◌else◌}
use vwii_nand_tools.Machine.{M, Call, call, get, ask, run, when, ◌>>=◌, ◌>>◌}
use vwii_nand_tools.Irq.Handler.{let_in}

-- The body of the loop: `irq_wait` sleeps with interrupts off, until one is pending.
unfoldable pub sleep : M (Unit {0})
sleep = do
  cookie ← ask (call Call.irq_kill)
  w ← get
  when (w.nand.irq_flag == 0) (run Call.irq_wait)
  run (Call.irq_restore cookie)
  let_in

unfoldable pub wait_rounds : ℕ → M (Unit {0})
wait_rounds zero w = if w.nand.irq_flag == 0 then none else some (tt, w)
wait_rounds (suc n) w = elim (w.nand.irq_flag == 0) [
  | true ↦ (do sleep; wait_rounds n) w
  | false ↦ some (tt, w)
]

unfoldable pub nand_wait : M (Unit {0})
unfolding wait_rounds
nand_wait w = wait_rounds w.board.polls w
