-- ===== src/Sdhc/Attach.antt =====
-- The attachment of the host controller: `sdhc_host_found`, `sdhc_init` and `sdhc_exit` of
-- armboot/storage/sdhc.c, compiled with interrupts. The bus tag is not kept.
use vwii_nand_tools.Base.{
  ℕ, ◌*◌, ◌/◌, ◌>>>◌, ◌&&&◌, ◌|||◌, is_set, ◌==◌, ◌!=◌, ◌&&◌, ◌||◌, ltb, if◌then◌else◌, [], ◌∷◌,
}
use vwii_nand_tools.Machine.{M, Host, pure, get, when, set_host, gecko_printf, ◌>>=◌, ◌>>◌}
use vwii_nand_tools.Irq.Mask.{irq_enable, irq_disable, irq_sdhc}
use vwii_nand_tools.Sdhc.Regs.{hread4}
use vwii_nand_tools.Sdhc.Reset.{sdhc_host_reset, sdhc_shutdown}
use vwii_nand_tools.Sdhc.Constants.{capabilities, dma_support, base_freq_shift, base_freq_mask}
use vwii_nand_tools.Sdhc.Flags.{shf_use_dma, mmc_ocr_3_2v_3_3v, mmc_ocr_3_3v_3_4v}
use vwii_nand_tools.Sdmmc.Discover.{sdmmc_attach}

abbrev pub sdhc_reg_base : ℕ
sdhc_reg_base = 0xd070000

-- `SDHC_BASE_FREQ_KHZ`
abbrev pub base_freq_khz : ℕ → ℕ
base_freq_khz cap = ((cap >>> base_freq_shift) &&& base_freq_mask) * 1000

-- The host after `memset`, with its registers' address.
abbrev pub new_host : ℕ → Host
new_host ioh = record {
  ioh = ioh;
  clkbase = 0;
  flags = 0;
  ocr = 0;
  intr_status = 0;
  intr_error_status = 0;
  data_command = 0;
}

-- The two settings that the capabilities decide.
unfoldable pub take_capabilities : ℕ → ℕ → M (Unit {0})
take_capabilities usedma caps = do
  when ((usedma != 0) && is_set caps dma_support)
      (set_host (λ h. record h { flags = h.flags ||| shf_use_dma }))
  when (base_freq_khz caps != 0) (set_host (λ h. record h { clkbase = base_freq_khz caps }))

-- The checks of the base clock, and what follows them.
unfoldable pub check_clock : M ℕ
check_clock = do
  w ← get
  if w.host.clkbase == 0
      then (do gecko_printf "sdhc: base clock frequency unknown\n" []; pure 1)
      else if ltb w.host.clkbase 10000 || ltb 63000 w.host.clkbase
      then (do
        gecko_printf "sdhc: base clock frequency out of range: %u MHz\n"
            (w.host.clkbase / 1000 ∷ [])
        pure 1)
      else (do
        set_host (λ h. record h { ocr = h.ocr ||| (mmc_ocr_3_2v_3_3v ||| mmc_ocr_3_3v_3_4v) })
        sdmmc_attach
        pure 0)

unfoldable pub sdhc_host_found : ℕ → ℕ → M ℕ
unfolding take_capabilities check_clock
sdhc_host_found ioh usedma = do
  set_host (λ h. new_host ioh)
  _ ← sdhc_host_reset
  caps ← hread4 capabilities
  take_capabilities usedma caps
  check_clock

unfoldable pub sdhc_init : M (Unit {0})
unfolding sdhc_host_found
sdhc_init = do irq_enable irq_sdhc; _ ← sdhc_host_found sdhc_reg_base 1; pure tt

unfoldable pub sdhc_exit : M (Unit {0})
sdhc_exit = do irq_disable irq_sdhc; sdhc_shutdown
