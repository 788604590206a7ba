-- ===== src/Sdhc/Total.antt =====
-- Everything that the driver of the SD host controller waits for without data is over, whatever the
-- board answers: resets, power, clock, interrupts and commands.
use vwii_nand_tools.Base.{ℕ, zero, suc, none, some, Option, is_set, ◌==◌, ◌!=◌, ◌&&&◌}
use vwii_nand_tools.Machine.{Board, M, World, pure}
use vwii_nand_tools.Machine.Ends.{Ends, ends_at, ends_then, ends_if, ends_pick}
use vwii_nand_tools.Machine.Calm.{Kept, At, Calm}
use vwii_nand_tools.Sdhc.Regs.{
  bus_space_read_4, bus_space_read_2, bus_space_read_1, bus_space_write_4, bus_space_write_2,
  bus_space_write_1, hread1, hread2, hread4, hwrite1, hwrite2, hwrite4, hset2, hclr2,
}
use vwii_nand_tools.Sdhc.Reset.{reset_rounds, sdhc_soft_reset, sdhc_host_reset}
use vwii_nand_tools.Sdhc.Constants.{bus_power, intclk_stable}
use vwii_nand_tools.Sdhc.Flags.{sdmmc_sdclk_off, einval}
use vwii_nand_tools.Sdhc.Bus.{
  sdhc_card_detect, sdhc_bus_power, sdhc_bus_clock, sdhc_clock_divisor, stable_rounds, start_clock,
}

pub hread4-Calm :
    {bd : Board} {fs : Kept} (r : ℕ) (w : World) → At bd fs w → Ends (hread4 r w) (Calm bd fs)
unfolding bus_space_read_4
hread4-Calm r w q = ends_at _ _ q

pub hread2-Calm :
    {bd : Board} {fs : Kept} (r : ℕ) (w : World) → At bd fs w → Ends (hread2 r w) (Calm bd fs)
unfolding bus_space_read_2
hread2-Calm r w q = ends_if ((r &&& 3) != 0) _ _ w (ends_at _ _ q) (ends_at _ _ q)

pub hread1-Calm :
    {bd : Board} {fs : Kept} (r : ℕ) (w : World) → At bd fs w → Ends (hread1 r w) (Calm bd fs)
unfolding bus_space_read_1
hread1-Calm r w q = ends_at _ _ q

pub hwrite4-Calm :
    {bd : Board} {fs : Kept} (r v : ℕ) (w : World) → At bd fs w → Ends (hwrite4 r v w) (Calm bd fs)
unfolding bus_space_write_4
hwrite4-Calm r v w q = ends_at _ _ q

pub hwrite2-Calm :
    {bd : Board} {fs : Kept} (r v : ℕ) (w : World) → At bd fs w → Ends (hwrite2 r v w) (Calm bd fs)
unfolding bus_space_write_2
hwrite2-Calm r v w q = ends_if ((r &&& 3) != 0) _ _ w (ends_at _ _ q) (ends_at _ _ q)

pub hwrite1-Calm :
    {bd : Board} {fs : Kept} (r v : ℕ) (w : World) → At bd fs w → Ends (hwrite1 r v w) (Calm bd fs)
unfolding bus_space_write_1
hwrite1-Calm r v w q = ends_at _ _ q

pub hset2-Calm :
    {bd : Board} {fs : Kept} (r v : ℕ) (w : World) → At bd fs w → Ends (hset2 r v w) (Calm bd fs)
unfolding hset2
hset2-Calm r v w q = ends_then (hread2-Calm r w q) λ x w1 q. hwrite2-Calm r _ w1 q

pub hclr2-Calm :
    {bd : Board} {fs : Kept} (r v : ℕ) (w : World) → At bd fs w → Ends (hclr2 r v w) (Calm bd fs)
unfolding hclr2
hclr2-Calm r v w q = ends_then (hread2-Calm r w q) λ x w1 q. hwrite2-Calm r _ w1 q

pub reset_rounds-Calm :
    {bd : Board} {fs : Kept} (mask n : ℕ) (w : World)
    → At bd fs w
    → Ends (reset_rounds mask n w) (Calm bd fs)
unfolding reset_rounds
reset_rounds-Calm mask zero w q = ends_at _ _ q
reset_rounds-Calm mask (suc n) w q = ends_then (hread1-Calm _ w q) λ v w1 q.
    ends_pick (is_set v mask)
      (ends_then (hwrite1-Calm _ 0 _ q) λ _ w2 q. reset_rounds-Calm mask n w2 q) (ends_at _ _ q)

pub sdhc_soft_reset-Calm :
    {bd : Board} {fs : Kept} (mask : ℕ) (w : World)
    → At bd fs w
    → Ends (sdhc_soft_reset mask w) (Calm bd fs)
unfolding sdhc_soft_reset
sdhc_soft_reset-Calm mask w q = ends_then (hwrite1-Calm _ mask w q) λ _ w1 q.
    ends_then (reset_rounds-Calm mask 10 w1 q) λ timo w2 q.
      ends_if (timo == 0) _ _ _ (ends_then (hwrite1-Calm _ 0 w2 q) λ _ w3 q. ends_at _ _ q)
        (ends_at _ _ q)

pub sdhc_host_reset-Calm :
    {bd : Board} {fs : Kept} (w : World) → At bd fs w → Ends (sdhc_host_reset w) (Calm bd fs)
unfolding sdhc_host_reset
sdhc_host_reset-Calm w q = ends_then (hwrite2-Calm _ _ w q) λ _ w1 q.
    ends_then (sdhc_soft_reset-Calm _ w1 q) λ error w2 q.
      ends_if (error == 0) _ _ _
        (ends_then (hwrite1-Calm _ _ w2 q) λ _ w3 q. ends_then (hwrite2-Calm _ _ w3 q) λ _ w4 q.
          ends_then (hwrite2-Calm _ _ w4 q) λ _ w5 q.
            ends_then (hwrite2-Calm _ _ w5 q)
              λ _ w6 q. ends_then (hwrite2-Calm _ _ w6 q) λ _ w7 q. ends_at _ _ q)
        (ends_at _ _ q)

pub sdhc_card_detect-Calm :
    {bd : Board} {fs : Kept} (w : World) → At bd fs w → Ends (sdhc_card_detect w) (Calm bd fs)
unfolding sdhc_card_detect
sdhc_card_detect-Calm w q = ends_then (hread4-Calm _ w q) λ v w1 q. ends_at _ _ q

pub sdhc_bus_power-Calm :
    {bd : Board} {fs : Kept} (ocr : ℕ) (w : World)
    → At bd fs w
    → Ends (sdhc_bus_power ocr w) (Calm bd fs)
unfolding sdhc_bus_power
sdhc_bus_power-Calm ocr w q = ends_then (hwrite1-Calm _ 0 _ q) λ _ w1 q.
    ends_if (ocr == 0) _ _ _ (ends_then (sdhc_host_reset-Calm w1 q) λ _ w2 q. ends_at _ _ q) (
      ends_then (hwrite1-Calm _ _ w1 q) λ _ w2 q.
        ends_then (hread1-Calm _ _ q)
          λ v w3 q. ends_if (is_set v bus_power) _ _ _ (ends_at _ _ q) (ends_at _ _ q))

pub stable_rounds-Calm :
    {bd : Board} {fs : Kept} (n : ℕ) (w : World)
    → At bd fs w
    → Ends (stable_rounds n w) (Calm bd fs)
unfolding stable_rounds
stable_rounds-Calm zero w q = ends_at _ _ q
stable_rounds-Calm (suc n) w q =
    ends_then (hread2-Calm _ w q)
      λ v w1 q. ends_pick (is_set v intclk_stable) (ends_at _ _ q) (stable_rounds-Calm n _ q)

pub start_clock-Calm :
    {bd : Board} {fs : Kept} (div : ℕ) (w : World)
    → At bd fs w
    → Ends (start_clock div w) (Calm bd fs)
unfolding start_clock
start_clock-Calm div w q = ends_then (hwrite2-Calm _ _ w q) λ _ w1 q.
    ends_then (hset2-Calm _ _ w1 q) λ _ w2 q. ends_then (stable_rounds-Calm 1000 w2 q) λ timo w3 q.
      ends_if (timo == 0) _ _ _ (ends_at _ _ q)
        (ends_then (hset2-Calm _ _ w3 q) λ _ w4 q. ends_at _ _ q)

pub sdhc_bus_clock-Calm :
    {bd : Board} {fs : Kept} (freq : ℕ) (w : World)
    → At bd fs w
    → Ends (sdhc_bus_clock freq w) (Calm bd fs)
unfolding sdhc_bus_clock
sdhc_bus_clock-Calm {bd = bd} {fs = fs} freq w q = ends_then (hwrite2-Calm _ 0 _ q) λ _ w1 q.
    ends_if (freq == sdmmc_sdclk_off) _ _ _ (ends_at _ _ q)
      (chosen (sdhc_clock_divisor w1.host.clkbase freq) w1 q)
  where
    chosen :
        (d : Option ℕ) (w : World)
        → At bd fs w
        → Ends
            ((elim d as (λ _. M ℕ) [ none ↦ pure einval | some div ↦ start_clock div ]) w)
            (Calm bd fs)
    chosen none w q = ends_at _ _ q
    chosen (some div) w q = start_clock-Calm div w q
