-- ===== src/Sdhc/Wait.antt =====
-- `sdhc_wait_intr_debug` of armboot/storage/sdhc.c, as compiled with CAN_HAZ_IRQ: interrupts come by
-- themselves, and are let in at the head of each round.
use vwii_nand_tools.Base.{
  ℕ, zero, suc, true, false, some, ◌&&&◌, ◌|||◌, complement, is_set, ◌==◌, if◌then◌else◌, [],
}
use vwii_nand_tools.Machine.{M, Call, pure, get, run, set_host, gecko_printf, ◌>>=◌, ◌>>◌}
use vwii_nand_tools.Irq.Handler.{let_in}
use vwii_nand_tools.Sdhc.Reset.{sdhc_soft_reset}
use vwii_nand_tools.Sdhc.Constants.{error_interrupt, error_timeout, reset_dat, reset_cmd}

-- The loop, with the rounds left: the status when it ends, with the timeout bit if it ran out.
unfoldable pub intr_rounds : ℕ → ℕ → ℕ → M ℕ
intr_rounds mask status zero w = some (status ||| error_timeout, w)
intr_rounds mask status (suc timo) w =
    (do
      let_in
      λ w'. elim (w'.host.intr_status == 0) [
        | true ↦ (do run (Call.udelay 1000); intr_rounds mask status timo) w'
        | false ↦ some (w'.host.intr_status &&& mask, w')
      ])
      w

abbrev clear_error_status : M (Unit {0})
clear_error_status = set_host (λ h. record h { intr_error_status = 0 })

-- What is made of the status: 0 on an error interrupt, after a reset, and on a timeout.
unfoldable pub judge : ℕ → M ℕ
judge status =
    if is_set status error_interrupt
    then (do
      gecko_printf "resetting due to error interrupt\n" []
      clear_error_status
      _ ← sdhc_soft_reset (reset_dat ||| reset_cmd)
      pure 0)
    else if is_set status error_timeout
    then (do gecko_printf "not resetting due to timeout\n" []; clear_error_status; pure 0)
    else pure status

unfoldable pub sdhc_wait_intr : ℕ → ℕ → M ℕ
unfolding intr_rounds judge
sdhc_wait_intr mask timo = do
  let wide = mask ||| error_interrupt ||| error_timeout
  w ← get
  status ← intr_rounds wide (w.host.intr_status &&& wide) timo
  set_host (λ h. record h { intr_status = h.intr_status &&& complement status })
  judge status
