-- ===== src/Irq/Mask.antt =====
-- The interrupt mask register: `irq_enable` and `irq_disable` of armboot/system/irq.c, and the
-- interrupt numbers and flags of irq.h.
use vwii_nand_tools.Base.{ℕ, ◌<<<◌}
use vwii_nand_tools.Machine.{M, set32, clear32}
use vwii_nand_tools.Hollywood.{hw_armirqmask}

abbrev pub irq_nand : ℕ
irq_nand = 1

abbrev pub irq_sdhc : ℕ
irq_sdhc = 7

unfoldable pub irq_enable : ℕ → M (Unit {0})
irq_enable irq = set32 hw_armirqmask (1 <<< irq)

unfoldable pub irq_disable : ℕ → M (Unit {0})
irq_disable irq = clear32 hw_armirqmask (1 <<< irq)
