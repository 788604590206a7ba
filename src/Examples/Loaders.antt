-- ===== src/Examples/Loaders.antt =====
-- The loader and the patches at concrete inputs.
use vwii_nand_tools.Base.{
  ℕ, Bool, true, false, ◌-◌, ◌≡◌, ◌≢◌, ◌⊎◌, ◌↔◌, ◌==◌, arith, inr, length, if◌then◌else◌,
}
use vwii_nand_tools.Ram.{Ram, full_at}
use vwii_nand_tools.Elf.{load_segments, phdr_at}
use vwii_nand_tools.Elf.Load.{headers, placed, AllFit, load_segments_lem}
use vwii_nand_tools.IosPatch.{
  Ppc, apply_patch, patch_full, patch_runtime, patch_ahbprot, error_patch, ptr_end,
}
use vwii_nand_tools.IosPatch.Patches.{es_set_ahbprot}
use vwii_nand_tools.IosPatch.Search.{NoMatch, apply_patch-zero_iff}
use vwii_nand_tools.IosPatch.Full.{patch_full-ne-error_patch}

-- A header at 0x1000 of a loadable segment of 4 bytes at offset 0x20, for address 0x2000.
abbrev image : Ram
image a =
    if a == 0x1003
    then 1
    else if a == 0x1007
    then 0x20
    else if a == 0x100e
    then 0x20
    else if a == 0x1013
    then 4
    else if a == 0x1021
    then 0x77
    else 0

image-AllFit : AllFit 0x1000 0x1024 (headers 1 0x1000 image)
unfolding phdr_at full_at
image-AllFit = (record { inside = omega arith; apart = inr (omega arith) }, tt)

load_segments_example :
    load_segments 0x1000 1 0x1000 image 0x2001
    ≡ placed 0x1000 image (headers 1 0x1000 image) (image 0x2001) 0x2001
load_segments_example =
    load_segments_lem 0x1000 0x1024 image (omega arith) 1 0x1000 0x2001 (omega arith) (omega arith)
      image-AllFit

-- The search begins at 0x93ffff00.
abbrev ios : Ppc
ios = record {
  memory = λ a.
      if a == 0x80003134
      then 0x93
      else if a == 0x80003135
      then 0xff
      else if a == 0x80003136
      then 0xff
      else 0;
  mem_prot = 0xffffffff;
}

apply_patch_example :
    (((apply_patch es_set_ahbprot ios).1 ≡ 0)
      ↔ NoMatch es_set_ahbprot
          (ptr_end - length es_set_ahbprot.new - full_at ios.memory 0x80003134)
          (full_at ios.memory 0x80003134)
          ios.memory)
    × (((apply_patch es_set_ahbprot ios).1 ≢ 0) ⊎ ((apply_patch es_set_ahbprot ios).0 ≡ ios))
apply_patch_example = apply_patch-zero_iff es_set_ahbprot ios

abbrev open_register : Ppc → Bool
open_register s = true

abbrev reload : ℕ → Ppc → Ppc
reload n s = record s { mem_prot = 0xffffffff }

patch_full_example :
    ((patch_full open_register reload true true true 58 ios).1 ≢ error_patch)
    × ((open_register ios ≡ false)
        ⊎ (patch_full open_register reload true true true 58 ios
            ≡ patch_runtime open_register reload true true true
                (reload 58 (patch_ahbprot open_register reload ios).0)))
patch_full_example = patch_full-ne-error_patch open_register reload true true true 58 ios
