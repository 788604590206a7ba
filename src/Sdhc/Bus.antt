-- ===== src/Sdhc/Bus.antt =====
-- Card detection, bus power and bus clock of armboot/storage/sdhc.c.
use vwii_nand_tools.Base.{
  ℕ, zero, suc, true, false, none, some, Option, ◌*◌, ◌/◌, ◌|||◌, ◌<<<◌, is_set, ◌==◌, leb,
  if◌then◌else◌, [], ◌∷◌,
}
use vwii_nand_tools.Machine.{M, Call, pure, get, run, gecko_printf, ◌>>=◌, ◌>>◌}
use vwii_nand_tools.Sdhc.Regs.{hread1, hread2, hread4, hwrite1, hwrite2, hset2, hclr2}
use vwii_nand_tools.Sdhc.Reset.{sdhc_host_reset}
use vwii_nand_tools.Sdhc.Constants.{
  present_state, card_inserted, power_ctl, voltage_3_3v, voltage_shift, bus_power, clock_ctl,
  sdclk_div_shift, intclk_enable, intclk_stable, sdclk_enable, nintr_status_en, nintr_signal_en,
  card_interrupt,
}
use vwii_nand_tools.Sdhc.Flags.{einval, enxio, etimedout, sdmmc_sdclk_off}

unfoldable pub sdhc_card_detect : M ℕ
sdhc_card_detect = do v ← hread4 present_state; pure (if is_set v card_inserted then 1 else 0)

unfoldable pub sdhc_bus_power : ℕ → M ℕ
sdhc_bus_power ocr = do
  gecko_printf "sdhc_bus_power(%u)\n" (ocr ∷ [])
  hwrite1 power_ctl 0
  if ocr == 0 then (do _ ← sdhc_host_reset; pure 0) else do
    hwrite1 power_ctl ((voltage_3_3v <<< voltage_shift) ||| bus_power)
    run (Call.udelay 10000)
    v ← hread1 power_ctl
    if is_set v bus_power
        then pure 0
        else (do gecko_printf "Host controller failed to enable bus power\n" []; pure enxio)

-- The loop of `sdhc_clock_divisor`, with the rounds left: `div` doubles up to 256.
unfoldable pub divisor_from : ℕ → ℕ → ℕ → ℕ → Option ℕ
divisor_from clkbase freq zero div = none
divisor_from clkbase freq (suc n) div =
    let next = divisor_from clkbase freq n (div * 2) in
    if leb (clkbase / div) freq then some (div / 2) else next

-- `none` is the -1 of the C code.
unfoldable pub sdhc_clock_divisor : ℕ → ℕ → Option ℕ
unfolding divisor_from
sdhc_clock_divisor clkbase freq = divisor_from clkbase freq 9 1

-- The wait for a stable clock: what `timo` is at its end.
unfoldable pub stable_rounds : ℕ → M ℕ
stable_rounds zero w = some (0, w)
stable_rounds (suc timo) w =
    (do
      v ← hread2 clock_ctl
      λ w'. elim (is_set v intclk_stable) [
        | true ↦ some (suc timo, w')
        | false ↦ (do run (Call.udelay 10); stable_rounds timo) w'
      ])
      w

-- The part that starts the clock with a divisor.
unfoldable pub start_clock : ℕ → M ℕ
unfolding stable_rounds
start_clock div = do
  hwrite2 clock_ctl (div <<< sdclk_div_shift)
  hset2 clock_ctl intclk_enable
  timo ← stable_rounds 1000
  if timo == 0
      then (do gecko_printf "sdhc: internal clock never stabilized\n" []; pure etimedout)
      else (do hset2 clock_ctl sdclk_enable; pure 0)

unfoldable pub sdhc_bus_clock : ℕ → M ℕ
unfolding start_clock
sdhc_bus_clock freq = do
  gecko_printf "%s(%d)\n" (freq ∷ [])
  hwrite2 clock_ctl 0
  if freq == sdmmc_sdclk_off then pure 0 else do
    w ← get
    elim (sdhc_clock_divisor w.host.clkbase freq) [
      | none ↦ pure einval
      | some div ↦ start_clock div
    ]

unfoldable pub sdhc_card_intr_mask : ℕ → M (Unit {0})
sdhc_card_intr_mask enable =
    if enable == 0
    then (do hclr2 nintr_signal_en card_interrupt; hclr2 nintr_status_en card_interrupt)
    else (do hset2 nintr_status_en card_interrupt; hset2 nintr_signal_en card_interrupt)

unfoldable pub sdhc_card_intr_ack : M (Unit {0})
sdhc_card_intr_ack = hset2 nintr_status_en card_interrupt
