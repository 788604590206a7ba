-- ===== src/Memory/Dma.antt =====
-- `dma_addr` of armboot/system/memory.c: the address by which a device reaches a buffer.
use vwii_nand_tools.Base.{ℕ, Bool, ◌||◌, ◌==◌, ◌>>>◌, ◌&&&◌, ◌|||◌, ◌^^^◌, is_set, if◌then◌else◌}
use vwii_nand_tools.Machine.{M, pure, ◌>>=◌, read32}
use vwii_nand_tools.Hollywood.{hw_memmirr}

-- The three megabytes through which the internal memory is seen.
unfoldable pub is_internal : ℕ → Bool
is_internal addr = (addr >>> 20) == 0xfff || (addr >>> 20) == 0x0d4 || (addr >>> 20) == 0x0dc

unfoldable pub internal_addr : ℕ → ℕ
internal_addr addr = (addr &&& 0x0001ffff) ||| 0x0d400000

unfoldable pub dma_addr : ℕ → M ℕ
unfolding is_internal internal_addr
dma_addr addr =
    if is_internal addr
    then (do
      v ← read32 hw_memmirr
      pure (internal_addr (if is_set v 0x20 then addr ^^^ 0x10000 else addr)))
    else pure addr
