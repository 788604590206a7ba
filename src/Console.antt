-- ===== src/Console.antt =====
-- The small services of armboot: delays and blink codes of common/utils.c, the USB console of
-- video/gecko.c, the blink codes of system/panic.c.
pub mod Delay
pub mod Timer
pub mod Gecko
pub mod Blink
pub mod Flashes
pub mod Hexdump
