-- ===== src/Installer/Scan.antt =====
-- Where the loop of `LoadMINI` of nswitch/source/main.c leaves the ARM program and the code that starts it.
use vwii_nand_tools.Base.{
  ℕ, zero, suc, Bool, true, false, ◌+◌, ◌-◌, ◌*◌, ◌≤◌, ◌<◌, ◌≡◌, inl, inr, refl, sym, ap, ◌∙◌,
  if◌then◌else◌, Option, none, some, get_or, arith, Bool-cases,
}
use native.Mathlib.Decide.{dec_lt}
use vwii_nand_tools.Ram.{Ram, matches}
use vwii_nand_tools.Ram.Bytes.{bytes_at, bytes_at-equal, bytes_at-list}
use vwii_nand_tools.IosPatch.{Ppc}
use vwii_nand_tools.Installer.{
  Library, start_mini, scan, load_mini, stub, es_import_boot2, mini, scan_start, scan_places,
}
use vwii_nand_tools.Installer.Image.{
  find, scan_end, stub-ne-first, first_byte, Apart, start-outside, start-stub, start-image,
  from_ios, from_mini,
}

module _ (lib : Library) (ptr size : ℕ) (fine : Apart lib ptr size) where
  -- The program stands behind its copy, and the stub at a place.
  record Placed (source : Ram) (i : ℕ) (s : Ppc) : Type 0 where
    stub_at : (k : ℕ) → k < 24 → s.memory (i + k) ≡ get_or stub k 0
    image_at : (k : ℕ) → k < size → s.memory (mini + k) ≡ source (ptr + k)
    source_at : (k : ℕ) → k < size → s.memory (ptr + k) ≡ source (ptr + k)

  started-Placed :
      (source : Ram) (i : ℕ) (s : Ppc)
      → scan_start ≤ i
      → i < scan_end
      → ((k : ℕ) → k < size → s.memory (ptr + k) ≡ source (ptr + k))
      → Placed source i (start_mini lib ptr size i s)
  started-Placed source i s low high same = record {
    stub_at = λ k p. start-stub lib ptr size fine i s k low high p;
    image_at = λ k p. start-image lib ptr size fine i s k low high p ∙ same k p;
    source_at = λ k p.
        start-outside lib ptr size fine i s (ptr + k) (inl (omega arith, omega arith))
          (from_ios lib ptr size fine i k low high p) (from_mini lib ptr size fine k p)
        ∙ same k p;
  }

  -- The bytes that are looked for do not begin within the stub.
  behind_stub :
      (source : Ram) (i j : ℕ) (s : Ppc)
      → Placed source i s
      → i < j
      → matches s.memory j es_import_boot2 ≡ true
      → i + 24 ≤ j
  behind_stub source i j s d p e = elim (dec_lt j (i + 24)) [
    | no far ↦ omega arith
    | yes near ↦ absurd (
        stub-ne-first (j - i) (omega arith) (
          sym (d.stub_at (j - i) (omega arith))
          ∙ ap s.memory (omega arith)
          ∙ first_byte s.memory j e))
  ]

  again-Placed :
      (source : Ram) (i j : ℕ) (s : Ppc)
      → scan_start ≤ i
      → i + 24 ≤ j
      → j < scan_end
      → Placed source i s
      → Placed source i (start_mini lib ptr size j s)
  again-Placed source i j s low p high d =
      let fits = fine.fits in
      let again = started-Placed source j s (omega arith) high d.source_at in
      record {
        stub_at = λ k q.
            start-outside lib ptr size fine j s (i + k) (inr (inr (omega arith, omega arith)))
              (inl (omega arith)) (inr (omega arith))
            ∙ d.stub_at k q;
        image_at = again.image_at;
        source_at = again.source_at;
      }

  scan-Placed :
      (source : Ram) (n i j : ℕ) (s : Ppc)
      → scan_start ≤ i
      → i < j
      → j + 2 * n ≤ scan_end
      → Placed source i s
      → Placed source i (scan lib ptr size n j s)
  unfolding scan
  scan-Placed source zero i j s low p high d = d
  scan-Placed source (suc n) i j s low p high d =
      scan-Placed source n i (j + 2)
        (if matches s.memory j es_import_boot2 then start_mini lib ptr size j s else s) low
        (omega arith) (omega arith) (round (matches s.memory j es_import_boot2) refl)
    where
      round :
          (b : Bool)
          → matches s.memory j es_import_boot2 ≡ b
          → Placed source i (if b then start_mini lib ptr size j s else s)
      round true e = again-Placed source i j s low (behind_stub source i j s d p e) (omega arith) d
      round false e = d

  -- What is left of a scan: nothing was found and done, or the stub stands at the first place.
  abbrev pub Outcome : Ppc → Option ℕ → Ppc → Type 0
  Outcome s found s' = elim found [
    | none ↦ s' ≡ s
    | some i ↦
        (bytes_at s'.memory i 24 ≡ stub)
        × (bytes_at s'.memory mini size ≡ bytes_at s.memory ptr size)
  ]

  scan-Outcome :
      (n i : ℕ) (s : Ppc)
      → scan_start ≤ i
      → i + 2 * n ≤ scan_end
      → Outcome s (find n i s.memory) (scan lib ptr size n i s)
  unfolding scan find
  scan-Outcome zero i s low high = refl
  scan-Outcome (suc n) i s low high = elim (Bool-cases (matches s.memory i es_import_boot2)) [
    | inr e ↦ rw e (scan-Outcome n (i + 2) s (omega arith) (omega arith))
    | inl e ↦ rw e (
        placed (
          scan-Placed s.memory n i (i + 2) (start_mini lib ptr size i s) low (omega arith)
            (omega arith) (started-Placed s.memory i s low (omega arith) (λ k p. refl))))
  ]
    where
      placed :
          {s' : Ppc}
          → Placed s.memory i s'
          → (bytes_at s'.memory i 24 ≡ stub)
            × (bytes_at s'.memory mini size ≡ bytes_at s.memory ptr size)
      placed {s' = s'} d = (
        bytes_at-list stub s'.memory i d.stub_at,
        bytes_at-equal size s'.memory s.memory mini ptr d.image_at,
      )

  -- Let the library leave alone the program, the place that it is put at and the code of IOS, which do
  -- not meet. If the 16 bytes of ES_ImportBoot2 begin at none of the even addresses from 0x939F0000 to
  -- 0x939FDFFE, `LoadMINI` changes nothing. Else, when it is done, the stub stands at the first such
  -- address, in full, and the whole program at 0x90100000, however many more places were found.
  pub load_mini-Outcome :
      (s : Ppc) → Outcome s (find scan_places scan_start s.memory) (load_mini lib ptr size s)
  unfolding load_mini
  load_mini-Outcome s = scan-Outcome scan_places scan_start s (omega arith) (omega arith)
