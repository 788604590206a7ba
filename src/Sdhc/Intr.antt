-- ===== src/Sdhc/Intr.antt =====
-- `sdhc_intr` of armboot/storage/sdhc.c, the interrupt half of the driver.
use vwii_nand_tools.Base.{ℕ, ◌|||◌, is_set, ◌==◌, if◌then◌else◌}
use vwii_nand_tools.Machine.{M, pure, get, when, set_host, ◌>>=◌, ◌>>◌}
use vwii_nand_tools.Sdhc.Regs.{hread2, hwrite2, hclr2}
use vwii_nand_tools.Sdhc.Reset.{sdhc_soft_reset}
use vwii_nand_tools.Sdhc.Constants.{
  nintr_status, nintr_status_mask, nintr_status_en, error_interrupt, eintr_status, eintr_signal_en,
  reset_dat, reset_cmd, cmd_timeout_error, data_timeout_error, buffer_read_ready,
  buffer_write_ready, command_complete, transfer_complete, dma_interrupt, card_interrupt,
}

-- The service of an error interrupt.
unfoldable pub service_error : ℕ → M (Unit {0})
service_error status = do
  error ← hread2 eintr_status
  signal ← hread2 eintr_signal_en
  hwrite2 eintr_signal_en 0
  _ ← sdhc_soft_reset (reset_dat ||| reset_cmd)
  w ← get
  when (w.host.data_command == 1) (set_host (λ h. record h { data_command = 0 }))
  hwrite2 eintr_status error
  hwrite2 eintr_signal_en signal
  when (is_set error (cmd_timeout_error ||| data_timeout_error)) (
      set_host (λ h. record h {
        intr_error_status = h.intr_error_status ||| error;
        intr_status = h.intr_status ||| status;
      }))

abbrev pub wake_mask : ℕ
wake_mask =
    buffer_read_ready ||| buffer_write_ready ||| command_complete ||| transfer_complete
    ||| dma_interrupt

-- The part after the acknowledgement.
unfoldable pub service : ℕ → M ℕ
unfolding service_error
service status = do
  when (is_set status error_interrupt) (service_error status)
  when (is_set status wake_mask)
      (set_host (λ h. record h { intr_status = h.intr_status ||| status }))
  when (is_set status card_interrupt) (hclr2 nintr_status_en card_interrupt)
  pure 1

unfoldable pub sdhc_intr : M ℕ
unfolding service
sdhc_intr = do
  status ← hread2 nintr_status
  if is_set status nintr_status_mask
      then (do hwrite2 nintr_status status; service status)
      else pure 0

-- `sdhc_irq`
unfoldable pub sdhc_irq : M (Unit {0})
sdhc_irq = do _ ← sdhc_intr; pure tt
