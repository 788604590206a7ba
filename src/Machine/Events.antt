-- ===== src/Machine/Events.antt =====
-- What a run of the ARM code does outside its own variables: loads and stores of device registers
-- (armboot/common/utils.h), and calls that leave the file at hand.
use vwii_nand_tools.Base.{ℕ, List, String}

pub data Width : Type 0 where
  byte half word : Width

-- Calls of assembly routines, of the third-party FAT library, and of services of other files which
-- their clients see by name and arguments alone (the cache and bus flushes of system/memory.c, the
-- delays of common/utils.c and the console of video/gecko.c). `memcpy` puts bytes at an address.
pub data Call : Type 0 where
  dc_inval_entries dc_flush_entries : ℕ → ℕ → Call
  dc_flush dc_inval ic_inval tlb_inval drain_write_buffer : Call
  irq_kill irq_wait irq_setup_stack exc_setup_stack : Call
  irq_restore : ℕ → Call
  get_cr get_ttbr get_dacr get_ifsr get_dfsr get_far get_cpsr : Call
  set_cr set_ttbr set_dacr : ℕ → Call
  memset32 : ℕ → ℕ → ℕ → Call
  debug_output : ℕ → Call
  gecko_printf : String → List ℕ → Call
  udelay : ℕ → Call
  dc_flushrange dc_invalidaterange : ℕ → ℕ → Call
  ahb_flush_to ahb_flush_from : ℕ → Call
  memcpy : ℕ → List ℕ → Call
  f_mount f_close system_reset : Call
  f_open : String → Call
  f_write : List ℕ → Call

pub data Event : Type 0 where
  load : Width → ℕ → Event
  store : Width → ℕ → ℕ → Event
  call : Call → Event
