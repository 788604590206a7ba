-- ===== src/Memory.antt =====
-- armboot/system/memory.c. Its own routines call one another here; other files see the flushes as
-- calls (Machine/Events).
pub mod Dma
pub mod Ahb
pub mod Cache
pub mod Mmu
pub mod Pages
pub mod Lines
