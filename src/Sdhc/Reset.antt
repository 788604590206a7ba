-- ===== src/Sdhc/Reset.antt =====
-- Resetting the host controller: `sdhc_soft_reset` and `sdhc_host_reset` of armboot/storage/sdhc.c.
use vwii_nand_tools.Base.{ℕ, zero, suc, true, false, some, ◌|||◌, is_set, ◌==◌, if◌then◌else◌}
use vwii_nand_tools.Machine.{M, Call, pure, run, ◌>>=◌, ◌>>◌}
use vwii_nand_tools.Sdhc.Regs.{hread1, hwrite1, hwrite2}
use vwii_nand_tools.Sdhc.Constants.{
  software_reset, reset_all, timeout_ctl, timeout_max, nintr_signal_en, nintr_status_en,
  eintr_status_en, eintr_signal_en, eintr_status_mask, eintr_signal_mask, card_removal,
  card_insertion, buffer_read_ready, buffer_write_ready, dma_interrupt, block_gap_event,
  transfer_complete, command_complete,
}
use vwii_nand_tools.Sdhc.Flags.{etimedout}

-- The loop of `sdhc_soft_reset`, with the rounds left: what `timo` is at its end.
unfoldable pub reset_rounds : ℕ → ℕ → M ℕ
reset_rounds mask zero w = some (0, w)
reset_rounds mask (suc timo) w =
    (do
      v ← hread1 software_reset
      λ w'. elim (is_set v mask) [
        | false ↦ some (suc timo, w')
        | true ↦ (do run (Call.udelay 10000); hwrite1 software_reset 0; reset_rounds mask timo) w'
      ])
      w

-- Returns 0, or ETIMEDOUT.
unfoldable pub sdhc_soft_reset : ℕ → M ℕ
unfolding reset_rounds
sdhc_soft_reset mask = do
  hwrite1 software_reset mask
  timo ← reset_rounds mask 10
  if timo == 0 then (do hwrite1 software_reset 0; pure etimedout) else pure 0

abbrev pub imask : ℕ
imask =
    card_removal ||| card_insertion ||| buffer_read_ready ||| buffer_write_ready ||| dma_interrupt
    ||| block_gap_event ||| transfer_complete ||| command_complete

unfoldable pub sdhc_host_reset : M ℕ
sdhc_host_reset = do
  hwrite2 nintr_signal_en 0
  error ← sdhc_soft_reset reset_all
  if error == 0
      then (do
        hwrite1 timeout_ctl timeout_max
        hwrite2 nintr_status_en imask
        hwrite2 eintr_status_en eintr_status_mask
        hwrite2 nintr_signal_en imask
        hwrite2 eintr_signal_en eintr_signal_mask
        pure 0)
      else pure error

-- `sdhc_shutdown`
unfoldable pub sdhc_shutdown : M (Unit {0})
sdhc_shutdown = do _ ← sdhc_host_reset; pure tt
