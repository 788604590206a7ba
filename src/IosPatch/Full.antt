-- ===== src/IosPatch/Full.antt =====
-- The failure branch of `IosPatch_FULL`.
use vwii_nand_tools.Base.{ℕ, ◌⊎◌, false, Bool, ◌≡◌, ◌≢◌, arith, Bool-cases, inl, inr}
use vwii_nand_tools.IosPatch.{Ppc, patch_ahbprot, patch_runtime, patch_full, error_patch}

module _ (ahbprot_disabled : Ppc → Bool) (reload_ios : ℕ → Ppc → Ppc) where
  -- Whatever the memory holds, `IosPatch_FULL` does not return ERROR_PATCH; unless the guard register
  -- reads as closed, it reloads IOS and applies the run-time patches, also if the first patch was not
  -- found.
  pub patch_full-ne-error_patch :
      (wii sciifii vwii : Bool) (ios : ℕ) (s : Ppc)
      → ((patch_full ahbprot_disabled reload_ios wii sciifii vwii ios s).1 ≢ error_patch)
        × ((ahbprot_disabled s ≡ false)
            ⊎ (patch_full ahbprot_disabled reload_ios wii sciifii vwii ios s
                ≡ patch_runtime ahbprot_disabled reload_ios wii sciifii vwii
                    (reload_ios ios (patch_ahbprot ahbprot_disabled reload_ios s).0)))
  unfolding patch_full patch_runtime patch_ahbprot
  patch_full-ne-error_patch wii sciifii vwii ios s = (
    ground arith,
    elim (Bool-cases (ahbprot_disabled s)) [ inl e ↦ inr (ground arith) | inr e ↦ inl e ],
  )
