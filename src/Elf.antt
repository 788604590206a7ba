-- ===== src/Elf.antt =====
-- armboot/elfloader/stub.c: loading the ELF image that follows the loader. The image and the segments
-- lie in one memory. Offsets of fields are those of elf.h.
pub mod Load
use vwii_nand_tools.Base.{
  ℕ, zero, suc, Bool, true, false, ◌+◌, ◌*◌, u32, ◌==◌, if◌then◌else◌, List, [], ◌∷◌, Option, none,
  some,
}
use vwii_nand_tools.Ram.{Ram, memcpy, matches, half_at, full_at}

-- `panic` never returns: its code is what is left.
pub data Loaded : Type 0 where
  entry : ℕ → Ram → Loaded
  panic : ℕ → Loaded

-- A program header.
pub record Phdr : Type 0 where
  pub p_type : ℕ
  pub p_offset : ℕ
  pub p_paddr : ℕ
  pub p_filesz : ℕ

abbrev pub pt_load : ℕ
pt_load = 1

unfoldable pub phdr_at : Ram → ℕ → Phdr
phdr_at mem a = record {
  p_type = full_at mem a;
  p_offset = full_at mem (a + 4);
  p_paddr = full_at mem (a + 12);
  p_filesz = full_at mem (a + 16);
}

-- The body of the loop, for one header.
unfoldable pub load_segment : ℕ → Phdr → Ram → Ram
load_segment elf phdr mem =
    if phdr.p_type == pt_load
    then memcpy phdr.p_paddr (u32 (elf + phdr.p_offset)) phdr.p_filesz mem
    else mem

-- `while (count--)`, at the header `phdr`. A header has 32 bytes.
unfoldable pub load_segments : ℕ → ℕ → ℕ → Ram → Ram
unfolding phdr_at load_segment
load_segments elf zero phdr mem = mem
load_segments elf (suc count) phdr mem =
    load_segments elf count (u32 (phdr + 32)) (load_segment elf (phdr_at mem phdr) mem)

-- The seven bytes that an image begins with.
abbrev pub magic : List ℕ
magic = 0x7f ∷ 0x45 ∷ 0x4c ∷ 0x46 ∷ 1 ∷ 2 ∷ 1 ∷ []

unfoldable pub loadelf : ℕ → Ram → Loaded
unfolding load_segments
loadelf elf mem =
    if matches mem elf magic
    then if full_at mem (elf + 28) == 0
      then panic 0xe4
      else (let loaded =
            load_segments elf (half_at mem (elf + 44)) (u32 (elf + full_at mem (elf + 28))) mem in
          entry (full_at loaded (elf + 24)) loaded)
    else panic 0xe3

-- `_main`, less its register writes: the image stands behind the header and the loader.
unfoldable pub elf_base : ℕ → Ram → ℕ
elf_base base mem = u32 (base + u32 (full_at mem base + full_at mem (base + 4)))

unfoldable pub main : ℕ → Ram → Loaded
unfolding elf_base
main base mem = loadelf (elf_base base mem) mem
