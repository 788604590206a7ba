-- ===== src/Sdhc/Regs.antt =====
-- The register accesses of armboot/storage/sdhc.c by bytes, halves and words. The bus does words
-- only, so the smaller writes read the word first. Register numbers are those of sdhc.h.
use vwii_nand_tools.Base.{
  ℕ, ◌+◌, ◌*◌, u8, u16, u32, ◌<<<◌, ◌>>>◌, ◌&&&◌, ◌|||◌, complement, ◌!=◌, if◌then◌else◌,
}
use vwii_nand_tools.Machine.{M, pure, ◌>>=◌, read32, write32, mask32}

unfoldable pub bus_space_read_4 : ℕ → ℕ → M ℕ
bus_space_read_4 ioh reg = read32 (u32 (ioh + reg))

unfoldable pub bus_space_read_2 : ℕ → ℕ → M ℕ
bus_space_read_2 ioh reg =
    if (reg &&& 3) != 0
    then (do v ← read32 (u32 (ioh + reg) &&& complement 3); pure ((v &&& 0xffff0000) >>> 16))
    else (do v ← read32 (u32 (ioh + reg)); pure (v &&& 0xffff))

-- The shift and the mask of a byte in its word.
abbrev pub byte_shift : ℕ → ℕ
byte_shift reg = (reg &&& 3) * 8

abbrev pub byte_mask : ℕ → ℕ
byte_mask reg = 0xff <<< byte_shift reg

unfoldable pub bus_space_read_1 : ℕ → ℕ → M ℕ
bus_space_read_1 ioh reg = do
  v ← read32 (u32 (ioh + reg) &&& complement 3)
  pure (u8 ((v &&& byte_mask reg) >>> byte_shift reg))

unfoldable pub bus_space_write_4 : ℕ → ℕ → ℕ → M (Unit {0})
bus_space_write_4 ioh r v = write32 (u32 (ioh + r)) v

unfoldable pub bus_space_write_2 : ℕ → ℕ → ℕ → M (Unit {0})
bus_space_write_2 ioh r v =
    if (r &&& 3) != 0
    then mask32 (u32 (ioh + r) &&& complement 3) 0xffff0000 (u16 v <<< 16)
    else mask32 (u32 (ioh + r)) 0xffff (u16 v)

unfoldable pub bus_space_write_1 : ℕ → ℕ → ℕ → M (Unit {0})
bus_space_write_1 ioh r v =
    mask32 (u32 (ioh + r) &&& complement 3) (byte_mask r) (u8 v <<< byte_shift r)

-- HREAD and HWRITE, HSET and HCLR, on the one host.
abbrev pub hread1 : ℕ → M ℕ
hread1 reg w = bus_space_read_1 w.host.ioh reg w

abbrev pub hread2 : ℕ → M ℕ
hread2 reg w = bus_space_read_2 w.host.ioh reg w

abbrev pub hread4 : ℕ → M ℕ
hread4 reg w = bus_space_read_4 w.host.ioh reg w

abbrev pub hwrite1 : ℕ → ℕ → M (Unit {0})
hwrite1 reg v w = bus_space_write_1 w.host.ioh reg v w

abbrev pub hwrite2 : ℕ → ℕ → M (Unit {0})
hwrite2 reg v w = bus_space_write_2 w.host.ioh reg v w

abbrev pub hwrite4 : ℕ → ℕ → M (Unit {0})
hwrite4 reg v w = bus_space_write_4 w.host.ioh reg v w

unfoldable pub hset2 : ℕ → ℕ → M (Unit {0})
hset2 reg bits = do v ← hread2 reg; hwrite2 reg (v ||| bits)

unfoldable pub hclr2 : ℕ → ℕ → M (Unit {0})
hclr2 reg bits = do v ← hread2 reg; hwrite2 reg (v &&& complement bits)
