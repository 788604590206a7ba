-- ===== src/Sdmmc.antt =====
-- armboot/storage/sdmmc.c: the card behind the host controller.
pub mod Csd
pub mod Capacity
pub mod Discover
pub mod Total
pub mod Transfer
pub mod Acknowledge
