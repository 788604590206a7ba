-- ===== src/Examples.antt =====
-- The theorems at concrete inputs.
pub mod Boards
pub mod Dumps
pub mod Nand
pub mod Strings
pub mod Devices
pub mod Storage
pub mod Loaders
pub mod Installer
