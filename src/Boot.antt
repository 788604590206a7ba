-- ===== src/Boot.antt =====
-- armboot/main.c: `_main`, from the start of the ARM program to the reset of the system. `table_addr` is
-- where the page table lies, `page_buf` and `ecc_buf` are the static buffers of the dump. The dump is
-- called there by the name `nand_dump_slc_raw`; it is `_dump_slc_raw` of dump.c.
pub mod Calls
pub mod Runs
use vwii_nand_tools.Base.{ℕ, is_set, ◌!=◌, if◌then◌else◌, [], ◌∷◌, List}
use vwii_nand_tools.Machine.{
  M, Call, call, pure, ask, run, read32, write32, gecko_printf, ◌>>=◌, ◌>>◌,
}
use vwii_nand_tools.Hollywood.{hw_resets}
use vwii_nand_tools.Console.Gecko.{gecko_init}
use vwii_nand_tools.Console.Blink.{panic2_setup, panic2_pass}
use vwii_nand_tools.Exception.{exception_initialize}
use vwii_nand_tools.Memory.Mmu.{mem_initialize, mem_shutdown}
use vwii_nand_tools.Irq.Mask.{irq_enable}
use vwii_nand_tools.Irq.Handler.{irq_initialize, irq_set_alarm, irq_shutdown}
use vwii_nand_tools.Crypto.{crypto_initialize}
use vwii_nand_tools.Sdhc.Attach.{sdhc_init, sdhc_exit}
use vwii_nand_tools.Dump.{dump_slc_raw, nand_bank_slc}

-- How the program ends: the system is reset, or a blink code is shown for ever.
pub data Ending : Type 0 where
  system_reset panicked : Ending

abbrev pub panic_mount : List ℕ
panic_mount = 1 ∷ 1 ∷ []

-- The register whose bit 1 skips the dump.
abbrev pub skip_reg : ℕ
skip_reg = 0x0d800190

-- The messages with the flags that IOS left.
unfoldable pub show_flags : M (Unit {0})
show_flags = do
  a ← read32 0xffffff00
  b ← read32 0xffffff04
  c ← read32 0xffffff08
  gecko_printf "IOSflags: %08x %08x %08x\n" (a ∷ b ∷ c ∷ [])
  d ← read32 0xffffff0c
  e ← read32 0xffffff10
  f ← read32 0xffffff14
  gecko_printf "          %08x %08x %08x\n" (d ∷ e ∷ f ∷ [])

-- The part up to the crypto support. IRQ_GPIO1, IRQ_RESET and IRQ_TIMER are 11, 17 and 0.
unfoldable pub start_up : ℕ → M (Unit {0})
start_up table_addr = do
  gecko_init
  write32 hw_resets 0x031018ff
  run (Call.udelay 100000)
  write32 hw_resets 0xffffffff
  gecko_printf "Initializing exceptions...\n" []
  exception_initialize
  gecko_printf "Configuring caches and MMU...\n" []
  _ ← mem_initialize table_addr
  show_flags
  irq_initialize
  irq_enable 11
  irq_enable 17
  irq_enable 0
  irq_set_alarm 20 1
  gecko_printf "Interrupts initialized\n" []
  _ ← crypto_initialize
  gecko_printf "crypto support initialized\n" []

-- The part behind the label `shutdown`.
unfoldable pub shutdown : M Ending
shutdown = do
  gecko_printf "Shutting down SDHC...\n" []
  sdhc_exit
  gecko_printf "Shutting down interrupts...\n" []
  irq_shutdown
  gecko_printf "Shutting down caches and MMU...\n" []
  mem_shutdown
  run Call.system_reset
  pure system_reset

-- `panic2`, with one pass of its endless loop.
unfoldable pub panic_at_mount : M Ending
panic_at_mount = do panic2_setup; panic2_pass panic_mount; pure panicked

-- What follows the mounting of the card, by its result and the register.
unfoldable pub after_mount : ℕ → ℕ → ℕ → ℕ → M Ending
after_mount page_buf ecc_buf fres skip =
    if is_set skip 2
    then shutdown
    else if fres != 0
    then (do gecko_printf "Error %d while trying to mount SD\n" (fres ∷ []); panic_at_mount)
    else (do _ ← dump_slc_raw page_buf ecc_buf nand_bank_slc; shutdown)

-- `_main`
unfoldable pub main : ℕ → ℕ → ℕ → M Ending
main table_addr page_buf ecc_buf = do
  start_up table_addr
  gecko_printf "Initializing SDHC...\n" []
  sdhc_init
  gecko_printf "Mounting SD...\n" []
  fres ← ask (call Call.f_mount)
  skip ← read32 skip_reg
  after_mount page_buf ecc_buf fres skip
