-- ===== src/Irq.antt =====
-- armboot/system/irq.c.
pub mod Mask
pub mod Handler
pub mod Total
