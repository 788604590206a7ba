-- ===== src/Memory/Mmu.antt =====
-- The page table of armboot/system/memory.c and the switching of caches and MMU. The table is a
-- function from the megabyte to its section entry.
use vwii_nand_tools.Base.{
  ℕ, zero, suc, ◌+◌, ◌<<<◌, ◌|||◌, ◌&&&◌, ◌==◌, complement, if◌then◌else◌, false, [],
}
use vwii_nand_tools.Machine.{M, Call, call, pure, ◌>>=◌, ◌>>◌, ask, run, gecko_printf}
use vwii_nand_tools.Memory.Cache.{mem_protect}

abbrev pub Table : Type 0
Table = ℕ → ℕ

abbrev pub section : ℕ
section = 0x012

abbrev pub writeback_cache : ℕ
writeback_cache = 0x00c

abbrev pub nonbufferable : ℕ
nonbufferable = 0x000

abbrev pub ap_rwuser : ℕ
ap_rwuser = 0xc00

-- `DOMAIN(x)`
abbrev pub domain : ℕ → ℕ
domain x = x <<< 5

abbrev pub write : Table → ℕ → ℕ → Table
write table i v j = if i == j then v else table j

-- The loop of `map_section`, the attributes being complete.
unfoldable pub map_from : ℕ → ℕ → ℕ → ℕ → Table → Table
map_from from to zero attributes table = table
map_from from to (suc size) attributes table =
    map_from (from + 1) (to + 1) size attributes (write table from ((to <<< 20) ||| attributes))

unfoldable pub map_section : ℕ → ℕ → ℕ → ℕ → Table → Table
unfolding map_from
map_section from to size attributes table = map_from from to size (attributes ||| section) table

-- The six sections that `mem_initialize` maps, in its order, from an empty table.
unfoldable pub sections : Table
unfolding map_section
sections = map_section 0xfff 0xfff 0x001 (writeback_cache ||| domain 0 ||| ap_rwuser) (
    map_section 0x0d8 0x0d8 0x001 (nonbufferable ||| domain 0 ||| ap_rwuser) (
      map_section 0x0d0 0x0d0 0x001 (nonbufferable ||| domain 0 ||| ap_rwuser) (
        map_section 0x0c0 0x0c0 0x001 (nonbufferable ||| domain 0 ||| ap_rwuser) (
          map_section 0x100 0x100 0x040 (writeback_cache ||| domain 0 ||| ap_rwuser) (
            map_section 0x000 0x000 0x018 (writeback_cache ||| domain 0 ||| ap_rwuser) (λ i. 0))))))

-- `table_addr` is where the table lies. The table is returned.
unfoldable pub mem_initialize : ℕ → M Table
mem_initialize table_addr = do
  cookie ← ask (call Call.irq_kill)
  gecko_printf "MEM: cleaning up\n" []
  run Call.ic_inval
  run Call.dc_inval
  run Call.tlb_inval
  gecko_printf "MEM: unprotecting memory\n" []
  mem_protect false 0 0
  gecko_printf "MEM: mapping sections\n" []
  run (Call.memset32 table_addr 0 16384)
  run (Call.set_dacr 0xffffffff)
  run (Call.set_ttbr table_addr)
  run Call.drain_write_buffer
  cr ← ask (call Call.get_cr)
  gecko_printf "MEM: enabling caches\n" []
  let cached = cr ||| (0x4 ||| 0x1000)
  run (Call.set_cr cached)
  gecko_printf "MEM: enabling MMU\n" []
  run (Call.set_cr (cached ||| 0x1))
  gecko_printf "MEM: init done\n" []
  run (Call.irq_restore cookie)
  pure sections

unfoldable pub mem_shutdown : M (Unit {0})
mem_shutdown = do
  cookie ← ask (call Call.irq_kill)
  run Call.dc_flush
  run Call.drain_write_buffer
  cr ← ask (call Call.get_cr)
  run (Call.set_cr (cr &&& complement (0x1 ||| 0x4 ||| 0x1000)))
  run Call.ic_inval
  run Call.dc_inval
  run Call.tlb_inval
  run (Call.irq_restore cookie)
