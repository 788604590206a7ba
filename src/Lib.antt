-- ===== src/Lib.antt =====
-- The verification library of vwii-nand-tools: the dumper of the NAND of a Wii U's virtual Wii that
-- runs on the ARM processor (armboot/), and the patcher that starts it (nswitch/).
--
-- The ARM program drives devices by loads and stores of registers. A run of it is a function from a
-- `World` to a result and a `World`, or to nothing if a wait without a bound of its own was not
-- over within the rounds that the board gives (Machine/State: `M`, `Board.polls`). The world has
-- the static variables of the C files and a trace of events, the newest first: loads, stores, and
-- calls of assembly routines, of the FAT library and of services of other files. The board is a
-- parameter: it answers each load from the whole trace, so that nothing is assumed of a device
-- beyond what a theorem says; Machine/Ends has the rules for a run that is over, with what holds
-- then, and Machine/Calm those for a run that leaves the file as it was, the bank that the NAND driver
-- takes for initialized, and whether the card is a new one. Loops with a bound in the source are recursion on the rounds left. Machine words are the native
-- numbers, with every wrap-around written out (Base/Word).
--
-- The parts, from the root of the repository:
-- - armboot/common/utils.h: Machine/Ops (`read32`, `write32`, `set32`, ...), with the addresses of
--   armboot/system/hollywood.h in Hollywood.
-- - armboot/storage/nand.c: Nand, Nand/Wait (`nand_wait`, which sleeps until the interrupt handler sets
--   the flag), and Nand/Ecc for `nand_correct`; its theorems are in Nand/Ecc/.
-- - armboot/main.c: Boot, the start of the devices, the dump, the shut-down; Boot/Calls has the services
--   that are started and stopped, and Boot/Runs the whole of a run.
-- - armboot/dump.c: Dump, the loop that reads, corrects and writes pages. Dump/Chip says what it
--   relies on in the chip and the card, by what the trace shows: the bank selected and the page
--   addressed last, those delivered last, the bytes written; Dump/Image has the pages as the file keeps
--   them; Dump/Page, Dump/Read, Dump/Wait and Dump/File follow the
--   driver, the interrupt handler and the loop under it, Dump/Faults each error of the card, and
--   Dump/Size the place of a page in the file.
-- - armboot/storage/sdhc.c: Sdhc, by what it does: Regs, Reset, Bus, Command and Command/Start, Wait,
--   Intr, Attach; the clock, what a command tells of its blocks, the wait for a state and the reset have theorems in
--   Sdhc/Clock, Sdhc/Command/Blocks, over Sdhc/Command/Checks, Sdhc/Bounded and Sdhc/Tries, and that the driver's waits are over is followed from Sdhc/Total
--   by Irq/Total and Sdhc/Command/Total to Sdmmc/Total.
-- - armboot/storage/sdmmc.c: Sdmmc/Discover, Sdmmc/Csd (the decoding of the register) and
--   Sdmmc/Transfer; theorems in Sdmmc/Capacity and, for a card that was
--   discovered and not acknowledged, Sdmmc/Acknowledge.
-- - armboot/storage/diskio.c: Diskio, which calls the card; Diskio/Card on its state.
-- - armboot/system/exception.c: Exception, with the bounds of its tables and its blink code in Exception/Bounds.
-- - armboot/common/string.c: CString; theorems in CString/Length, CString/Compare, CString/Copy,
--   CString/Fill, CString/Search and CString/RoundTrip, on strings as CString/Length describes them.
-- - armboot/system/irq.c: Irq/Mask and Irq/Handler, which calls the services of Nand and Sdhc.
-- - armboot/system/memory.c: Memory/Ahb, Memory/Cache, Memory/Dma, Memory/Mmu; theorems in Memory/Pages
--   and Memory/Lines.
-- - armboot/system/seeprom.c and crypto.c: Seeprom and Crypto; theorems in Seeprom/Send,
--   Seeprom/Receive and Crypto/Decrypt. Seeprom/Select has what the EEPROM sees while it is selected, and
--   Seeprom/Words and Seeprom/Fetch follow a read of its words.
-- - armboot/common/utils.c, armboot/system/panic.c, armboot/video/gecko.c: Console;
--   Console/Timer has the delays against a timer that wraps around, and Console/Flashes what a blink
--   code looks like.
-- - armboot/elfloader/stub.c: Elf over Ram, which has the byte loops of armboot/elfloader/string.c;
--   theorems in Elf/Load, Ram/Laws and Ram/Bytes.
-- - nswitch/source/runtimeiospatch.c: IosPatch; theorems in IosPatch/Search and IosPatch/Full.
-- - nswitch/source/main.c: Installer, `main` and `LoadMINI` over Ram and IosPatch, with the console library
--   as the parameter `Library`; theorems in Installer/Image and Installer/Scan. Installer/Mailbox has the
--   exchange of characters with armboot/video/gecko.c as the turns of two processors, in any order;
--   theorems in Installer/Echo, Installer/Progress and, where the ARM program runs out of time,
--   Installer/Late.
-- Base has what they share: tests, lists, words, binary digits (Base/Bits), and facts that are checked
-- for all numbers below a bound (Base/Tables). Examples applies the theorems at concrete inputs.
--
-- Clients see the cache and bus flushes, the delays and the console by name and arguments alone, as
-- calls in the trace, which are taken to return, also where the service polls a device or the timer
-- without a bound; the modules of those services model what they do. `aes_decrypt` is given as many
-- rounds as there are blocks, since each round takes at least one. The string functions without a bound
-- take fuel, and more than the length of the strings is enough. The endless loop of the installer is
-- followed for so many characters, and its waits are given a number of rounds. What a message shows by
-- name is left out of its arguments.
--
-- Not modelled: the FAT library (armboot/storage/ff.c), formatting (armboot/common/vsprintf.c) and
-- assembly, which are third-party or not C; `VideoInitDefault` (nswitch/source/main.c), which only calls
-- the console library; `sdhc_dump_regs`, which only prints and is compiled for debugging; the IPC
-- entry points, which are not compiled.
pub mod Base
pub mod Machine
pub mod Hollywood
pub mod Irq
pub mod Memory
pub mod Nand
pub mod Sdhc
pub mod Sdmmc
pub mod Diskio
pub mod Dump
pub mod Seeprom
pub mod CString
pub mod Crypto
pub mod Console
pub mod Ram
pub mod Elf
pub mod IosPatch
pub mod Installer
pub mod Exception
pub mod Boot
pub mod Examples
