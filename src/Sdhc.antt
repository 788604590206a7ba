-- ===== src/Sdhc.antt =====
-- armboot/storage/sdhc.c: the SD host controller driver.
pub mod Constants
pub mod Flags
pub mod Regs
pub mod Reset
pub mod Bus
pub mod Clock
pub mod Intr
pub mod Wait
pub mod Bounded
pub mod Tries
pub mod Command
pub mod Total
pub mod Attach
