-- ===== src/IosPatch.antt =====
-- nswitch/source/runtimeiospatch.c: patching IOS in memory. What the console library does is a
-- parameter: whether the register that guards the hardware reads as open in a state, and what
-- reloading IOS makes of a state. Cache flushes and messages are left out.
pub mod Patches
pub mod Search
pub mod Full
use vwii_nand_tools.Base.{
  ℕ, zero, suc, Bool, true, false, ◌+◌, ◌-◌, ◌&&&◌, ◌==◌, ◌!=◌, if◌then◌else◌, List, [], ◌∷◌,
  length, ◌++◌, ℤ, pos, negsuc, minus,
}
use vwii_nand_tools.Ram.{Ram, store_bytes, matches, full_at}
use vwii_nand_tools.IosPatch.Patches.{
  Patch, es_set_ahbprot, isfs_permissions, sciifii_patches, vwii_patches,
}

-- The memory, and the register of the memory protection.
pub record Ppc : Type 0 where
  pub memory : Ram
  pub mem_prot : ℕ

-- The loop of `apply_patch`, with the places left: the memory and the matches so far.
unfoldable pub search : Patch → ℕ → ℕ → Ram → ℕ → Ram × ℕ
search p zero ptr mem found = (mem, found)
search p (suc n) ptr mem found =
    let hit = matches mem ptr p.old in
    search p n (ptr + 1) (if hit then store_bytes (ptr + p.offset) p.new mem else mem)
      (if hit then found + 1 else found)

-- `ptr_end`
abbrev pub ptr_end : ℕ
ptr_end = 0x94000000

-- The pointer at 0x80003134 says where the search begins.
unfoldable pub apply_patch : Patch → Ppc → Ppc × ℕ
unfolding search
apply_patch p s =
    let ptr_start = full_at s.memory 0x80003134 in
    let (mem, found) = search p (ptr_end - length p.new - ptr_start) ptr_start s.memory 0 in
    (record s { memory = mem }, found)

-- `count += apply_patch(...)`, for each of a list of patches.
unfoldable pub apply_patches : List Patch → Ppc → ℕ → Ppc × ℕ
apply_patches [] s count = (s, count)
apply_patches (p ∷ ps) s count =
    let (s', found) = apply_patch p s in apply_patches ps s' (count + found)

unfoldable pub disable_memory_protection : Ppc → Ppc
disable_memory_protection s = record s { mem_prot = s.mem_prot &&& 0x0000ffff }

abbrev pub error_ahbprot : ℤ
error_ahbprot = minus 5

abbrev pub error_patch : ℤ
error_patch = minus 7

module _ (ahbprot_disabled : Ppc → Bool) (reload_ios : ℕ → Ppc → Ppc) where
  unfoldable pub patch_ahbprot : Ppc → Ppc × ℤ
  unfolding apply_patch disable_memory_protection
  patch_ahbprot s =
      if ahbprot_disabled s
      then (let (s', ret) = apply_patch es_set_ahbprot (disable_memory_protection s) in
          (s', if ret != 0 then pos ret else error_patch))
      else (s, error_ahbprot)

  unfoldable pub patch_list : Bool → Bool → Bool → List Patch
  patch_list wii sciifii vwii =
      (if wii then isfs_permissions ∷ [] else [])
      ++ (if sciifii then sciifii_patches else [])
      ++ (if vwii then vwii_patches else [])

  unfoldable pub patch_runtime : Bool → Bool → Bool → Ppc → Ppc × ℤ
  unfolding apply_patches disable_memory_protection patch_list
  patch_runtime wii sciifii vwii s =
      if ahbprot_disabled s
      then (let (s', count) =
            apply_patches (patch_list wii sciifii vwii) (disable_memory_protection s) 0 in
          (s', pos count))
      else (s, error_ahbprot)

  -- `if (ret)`
  abbrev pub nonzero : ℤ → Bool
  nonzero (pos n) = n != 0
  nonzero (negsuc n) = true

  unfoldable pub patch_full : Bool → Bool → Bool → ℕ → Ppc → Ppc × ℤ
  unfolding patch_ahbprot patch_runtime
  patch_full wii sciifii vwii ios s =
      if ahbprot_disabled s
      then (let (s', ret) = patch_ahbprot s in
          if nonzero ret
          then patch_runtime wii sciifii vwii (reload_ios ios s')
          else (s', error_patch))
      else (s, error_ahbprot)
