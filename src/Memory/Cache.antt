-- ===== src/Memory/Cache.antt =====
-- The cache maintenance of armboot/system/memory.c, over the assembly of memory_asm.S.
use vwii_nand_tools.Base.{
  ℕ, ◌+◌, ◌-◌, ◌/◌, ◌^◌, u32, ◌&&&◌, ◌|||◌, ◌>>>◌, complement, is_set, ltb, not, ◌&&◌, Bool,
  if◌then◌else◌,
}
use vwii_nand_tools.Machine.{M, Call, call, when, ◌>>=◌, ◌>>◌, ask, run, read32, write32, write16}
use vwii_nand_tools.Hollywood.{mem_prot, mem_prot_start, mem_prot_end, hw_memmirr}
use vwii_nand_tools.Memory.Ahb.{ahb_flush_to, ahb_flush_from, ahb_starlet, ahb_1}

abbrev pub linesize : ℕ
linesize = 0x20

-- `ALIGN_FORWARD` and `ALIGN_BACKWARD`, at the size of a cache line.
unfoldable pub align_forward : ℕ → ℕ
align_forward x = u32 (x + linesize - 1) &&& complement (linesize - 1)

unfoldable pub align_backward : ℕ → ℕ
align_backward x = x &&& complement (linesize - 1)

-- The first line and the number of lines that a range is flushed by.
unfoldable pub line_range : ℕ → ℕ → ℕ × ℕ
unfolding align_forward align_backward
line_range start size = (
  align_backward start,
  u32 (align_forward (u32 (start + size)) + 2 ^ 32 - align_backward start) / linesize,
)

unfoldable pub dc_flushrange : ℕ → ℕ → M (Unit {0})
unfolding line_range
dc_flushrange start size = do
  cookie ← ask (call Call.irq_kill)
  if ltb 0x4000 size
      then run Call.dc_flush
      else (let (first, lines) = line_range start size in run (Call.dc_flush_entries first lines))
  run Call.drain_write_buffer
  ahb_flush_from ahb_1
  run (Call.irq_restore cookie)

unfoldable pub dc_invalidaterange : ℕ → ℕ → M (Unit {0})
unfolding line_range
dc_invalidaterange start size = do
  cookie ← ask (call Call.irq_kill)
  (let (first, lines) = line_range start size in run (Call.dc_inval_entries first lines))
  ahb_flush_to ahb_starlet
  run (Call.irq_restore cookie)

unfoldable pub dc_flushall : M (Unit {0})
dc_flushall = do
  cookie ← ask (call Call.irq_kill)
  run Call.dc_flush
  run Call.drain_write_buffer
  ahb_flush_from ahb_1
  run (Call.irq_restore cookie)

unfoldable pub ic_invalidateall : M (Unit {0})
ic_invalidateall = do
  cookie ← ask (call Call.irq_kill)
  run Call.ic_inval
  ahb_flush_to ahb_starlet
  run (Call.irq_restore cookie)

unfoldable pub mem_protect : Bool → ℕ → ℕ → M (Unit {0})
mem_protect enable start end = do
  write16 mem_prot (if enable then 1 else 0)
  write16 mem_prot_start ((start &&& 0xfffffff) >>> 12)
  write16 mem_prot_end ((end &&& 0xfffffff) >>> 12)
  run (Call.udelay 10)

unfoldable pub mem_setswap : Bool → M (Unit {0})
mem_setswap enable = do
  d ← read32 hw_memmirr
  when (is_set d 0x20 && not enable) (write32 hw_memmirr (d &&& complement 0x20))
  when (not (is_set d 0x20) && enable) (write32 hw_memmirr (d ||| 0x20))
