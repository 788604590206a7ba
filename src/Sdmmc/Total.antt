-- ===== src/Sdmmc/Total.antt =====
-- The card's discovery, and the start and the end of the driver, are over whatever the board answers.
use vwii_nand_tools.Base.{
  ℕ, zero, suc, refl, ap, is_set, ◌&&◌, ◌==◌, ◌!=◌, ◌||◌, ◌|||◌, ◌>>>◌, ltb, not, List,
}
use vwii_nand_tools.Machine.{Board, World}
use vwii_nand_tools.Machine.Ends.{Ends, ends_at, ends_then, ends_if, ends_pick}
use vwii_nand_tools.Machine.Calm.{
  Kept, Stored, At, Quiet, Calm, when_or, Calm-Quiet, maybe_set, maybe_say,
}
use vwii_nand_tools.Irq.Mask.{irq_enable, irq_disable, irq_sdhc}
use vwii_nand_tools.Sdhc.Total.{
  hread4-Calm, sdhc_host_reset-Calm, sdhc_card_detect-Calm, sdhc_bus_power-Calm,
  sdhc_bus_clock-Calm,
}
use vwii_nand_tools.Sdhc.Reset.{sdhc_shutdown}
use vwii_nand_tools.Sdhc.Command.Start.{Command}
use vwii_nand_tools.Sdhc.Command.Total.{sdhc_exec_command-Calm}
use vwii_nand_tools.Sdhc.Constants.{capabilities, dma_support}
use vwii_nand_tools.Sdhc.Flags.{
  mmc_ocr_mem_ready, sdmmc_default_clock, sdmmc_sdclk_off, shf_use_dma,
}
use vwii_nand_tools.Sdhc.Attach.{
  take_capabilities, check_clock, sdhc_host_found, sdhc_init, sdhc_exit, base_freq_khz,
  sdhc_reg_base,
}
use vwii_nand_tools.Sdmmc.Csd.{is_high_capacity}
use vwii_nand_tools.Sdmmc.Discover.{
  Exit, done, out, out_power, out_clock, r1, sdmmc_select, set_blocklen, take_csd, read_csd,
  get_rca, get_cid, op_cond_tries, power_card, powered, idle_card, start_card, leave,
  sdmmc_needs_discover, sdmmc_attach, no_card,
}

pub sdmmc_select-Calm :
    {bd : Board} {fs : Kept} (w : World) → At bd fs w → Ends (sdmmc_select w) (Calm bd fs)
unfolding sdmmc_select
sdmmc_select-Calm w q =
    ends_then (sdhc_exec_command-Calm _ w refl q)
      λ cmd w1 q. ends_if (cmd.error != 0) _ _ _ (ends_at _ _ q) (ends_at _ _ q)

set_blocklen-Calm :
    {bd : Board} {fs : Kept} (w : World) → At bd fs w → Ends (set_blocklen w) (Calm bd fs)
unfolding set_blocklen
set_blocklen-Calm w q = ends_then (sdmmc_select-Calm w q) λ _ w1 q.
    ends_then (sdhc_exec_command-Calm _ w1 refl q)
      λ cmd w2 q. ends_if (cmd.error != 0) _ _ w2 (ends_at _ _ q) (ends_at _ _ q)

take_csd-Calm :
    {bd : Board} {fs : Kept} (resp : List ℕ) (w : World)
    → At bd fs w
    → Ends (take_csd resp w) (Calm bd fs)
unfolding take_csd
take_csd-Calm {bd = bd} {fs = fs} resp w q =
    ends_then
      (ends_if {Post = Calm bd fs} (is_high_capacity resp) _ _ w (ends_at _ _ q) (ends_at _ _ q))
      λ _ w1 q. ends_then (maybe_say (not (is_high_capacity resp)) _ _ _ q) λ _ w2 q. ends_at _ _ q

read_csd-Calm : {bd : Board} {fs : Kept} (w : World) → At bd fs w → Ends (read_csd w) (Calm bd fs)
unfolding read_csd
read_csd-Calm w q = ends_then (sdhc_exec_command-Calm _ _ refl q) λ cmd w1 q.
    ends_if (cmd.error != 0) _ _ w1 (ends_at _ _ q)
      (ends_then (take_csd-Calm cmd.resp _ q) λ _ w2 q. set_blocklen-Calm w2 q)

get_rca-Calm : {bd : Board} {fs : Kept} (w : World) → At bd fs w → Ends (get_rca w) (Calm bd fs)
unfolding get_rca
get_rca-Calm w q = ends_then (sdhc_exec_command-Calm _ w refl q) λ cmd w1 q.
    ends_if (cmd.error != 0) _ _ w1 (ends_at _ _ q)
      (read_csd-Calm (record w1 { card = record w1.card { rca = r1 cmd >>> 16 } }) q)

get_cid-Calm : {bd : Board} {fs : Kept} (w : World) → At bd fs w → Ends (get_cid w) (Calm bd fs)
unfolding get_cid
get_cid-Calm w q =
    ends_then (sdhc_exec_command-Calm _ w refl q)
      λ cmd w1 q. ends_if (cmd.error != 0) _ _ w1 (ends_at _ _ q) (get_rca-Calm _ q)

op_cond_tries-Calm :
    {bd : Board} {fs : Kept} (ocr n : ℕ) (last : Command) (w : World)
    → At bd fs w
    → Ends (op_cond_tries ocr n last w) (Calm bd fs)
unfolding op_cond_tries
op_cond_tries-Calm ocr zero last w q = ends_at _ _ q
op_cond_tries-Calm ocr (suc n) last w q = ends_then (sdhc_exec_command-Calm _ _ refl q) λ app w1 q.
    ends_pick (app.error == 0)
      (ends_then (sdhc_exec_command-Calm _ w1 refl q) λ cond w2 q.
        ends_pick (cond.error == 0 && is_set (r1 cond) mmc_ocr_mem_ready) (ends_at _ _ q)
          (op_cond_tries-Calm ocr n cond w2 q))
      (op_cond_tries-Calm ocr n app w1 q)

powered-Calm :
    {bd : Board} {fs : Kept} (cmd : Command) (w : World)
    → At bd fs w
    → Ends (powered cmd w) (Calm bd fs)
unfolding powered
powered-Calm cmd w q =
    ends_if (is_set (r1 cmd) mmc_ocr_mem_ready) _ _ w (get_cid-Calm _ q) (ends_at _ _ q)

power_card-Calm :
    {bd : Board} {fs : Kept} (ocr : ℕ) (last : Command) (w : World)
    → At bd fs w
    → Ends (power_card ocr last w) (Calm bd fs)
unfolding power_card
power_card-Calm ocr last w q =
    ends_then {rest = powered} (op_cond_tries-Calm ocr 100 last w q)
      λ cmd w1 q. powered-Calm cmd w1 q

idle_card-Calm : {bd : Board} {fs : Kept} (w : World) → At bd fs w → Ends (idle_card w) (Calm bd fs)
unfolding idle_card
idle_card-Calm w q = ends_then (sdhc_exec_command-Calm _ w refl q) λ cmd w1 q.
    ends_if (cmd.error != 0) _ _ w1 (ends_at _ _ q)
      (ends_then (sdhc_exec_command-Calm _ w1 refl q) λ cond w2 q. power_card-Calm _ cond w2 q)

start_card-Calm :
    {bd : Board} {fs : Kept} (w : World) → At bd fs w → Ends (start_card w) (Calm bd fs)
unfolding start_card
start_card-Calm w q = ends_then (sdhc_bus_power-Calm 1 w q) λ power w1 q.
    ends_if (power != 0) _ _ w1 (ends_at _ _ q) (
      ends_then (sdhc_bus_clock-Calm sdmmc_default_clock w1 q)
        λ clock w2 q. ends_if (clock != 0) _ _ w2 (ends_at _ _ q) (idle_card-Calm w2 q))

leave-Calm :
    {bd : Board} {fs : Kept} (exit : Exit) (w : World)
    → At bd fs w
    → Ends (leave exit w) (Calm bd fs)
unfolding leave
leave-Calm done w q = ends_at _ _ q
leave-Calm out w q = ends_at _ _ q
leave-Calm out_power w q = ends_then (sdhc_bus_power-Calm 0 w q) λ _ w1 q. ends_at _ _ q
leave-Calm out_clock w q =
    ends_then (sdhc_bus_clock-Calm sdmmc_sdclk_off w q)
      λ _ w1 q. ends_then (sdhc_bus_power-Calm 0 w1 q) λ _ w2 q. ends_at _ _ q

-- The card that was looked for is new, whatever was found.
pub sdmmc_needs_discover-Calm :
    {bd : Board} {fs : Kept} (w : World)
    → At bd fs w
    → Ends (sdmmc_needs_discover w) (Calm bd (fs.0, 1))
unfolding sdmmc_needs_discover
sdmmc_needs_discover-Calm w q = ends_then (sdhc_host_reset-Calm w q) λ _ w1 q.
    let q : At _ (_, 1) (record w1 { card = record w1.card { new_card = 1 } }) =
      (q.0, ap (λ (k : Kept). (k.0, 1)) q.1) in
    ends_then (sdhc_card_detect-Calm _ q) λ present w2 q.
      ends_if (present == 0) _ _ w2 (ends_at _ _ q)
        (ends_then (start_card-Calm w2 q) λ exit w3 q. leave-Calm exit w3 q)

sdmmc_attach-Quiet :
    {bd : Board} {fs : Stored} (w : World) → Quiet bd fs tt w → Ends (sdmmc_attach w) (Quiet bd fs)
unfolding sdmmc_attach
sdmmc_attach-Quiet w q =
    ends_then (sdhc_host_reset-Calm (record w { card = no_card }) (q.0, ap (λ l. (l, 0)) q.1))
      λ _ w1 q. ends_then (sdhc_card_detect-Calm w1 q) λ present w2 q.
        when_or (present != 0) sdmmc_needs_discover w2 (Calm-Quiet (sdmmc_needs_discover-Calm w2 q))
          (q.0, ap (λ (k : Kept). k.0) q.1)

check_clock-Quiet :
    {bd : Board} {fs : Stored} (w : World) → Quiet bd fs tt w → Ends (check_clock w) (Quiet bd fs)
unfolding check_clock
check_clock-Quiet w q = ends_if (w.host.clkbase == 0) _ _ w (ends_at _ _ q) (
    ends_if (ltb w.host.clkbase 10000 || ltb 63000 w.host.clkbase) _ _ w (ends_at _ _ q)
      (ends_then (sdmmc_attach-Quiet _ q) λ _ w1 q. ends_at _ _ q))

sdhc_host_found-Quiet :
    {bd : Board} {fs : Kept} (ioh usedma : ℕ) (w : World)
    → At bd fs w
    → Ends (sdhc_host_found ioh usedma w) (Quiet bd fs.0)
unfolding sdhc_host_found take_capabilities
sdhc_host_found-Quiet ioh usedma w q = ends_then (sdhc_host_reset-Calm _ q) λ _ w1 q.
    ends_then (hread4-Calm capabilities w1 q) λ caps w2 q.
      ends_then
        (ends_then
          (maybe_set ((usedma != 0) && is_set caps dma_support)
            (λ h. record h { flags = h.flags ||| shf_use_dma }) w2 q)
          λ _ w3 q.
            maybe_set (base_freq_khz caps != 0) (λ h. record h { clkbase = base_freq_khz caps }) w3
              q)
        λ _ w3 q. check_clock-Quiet w3 (q.0, ap (λ (k : Kept). k.0) q.1)

irq_enable-Calm :
    {bd : Board} {fs : Kept} (irq : ℕ) (w : World)
    → At bd fs w
    → Ends (irq_enable irq w) (Calm bd fs)
unfolding irq_enable
irq_enable-Calm irq w q = ends_at _ _ q

irq_disable-Calm :
    {bd : Board} {fs : Kept} (irq : ℕ) (w : World)
    → At bd fs w
    → Ends (irq_disable irq w) (Calm bd fs)
unfolding irq_disable
irq_disable-Calm irq w q = ends_at _ _ q

pub sdhc_init-Quiet :
    {bd : Board} {fs : Kept} (w : World) → At bd fs w → Ends (sdhc_init w) (Quiet bd fs.0)
unfolding sdhc_init
sdhc_init-Quiet w q =
    ends_then (irq_enable-Calm irq_sdhc w q)
      λ _ w1 q. ends_then (sdhc_host_found-Quiet sdhc_reg_base 1 w1 q) λ _ w2 q. ends_at _ _ q

pub sdhc_exit-Calm :
    {bd : Board} {fs : Kept} (w : World) → At bd fs w → Ends (sdhc_exit w) (Calm bd fs)
unfolding sdhc_exit sdhc_shutdown
sdhc_exit-Calm w q =
    ends_then (irq_disable-Calm irq_sdhc w q)
      λ _ w1 q. ends_then (sdhc_host_reset-Calm w1 q) λ _ w2 q. ends_at _ _ q
