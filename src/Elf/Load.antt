-- ===== src/Elf/Load.antt =====
-- Where the loader puts the segments of an image, against a description that no order of copying enters.
use vwii_nand_tools.Base.{
  ℕ, zero, suc, ◌+◌, ◌-◌, ◌*◌, ◌^◌, ◌&&◌, u32, ◌==◌, leb, ltb, if◌then◌else◌, ◌≡◌, ◌∙◌, ap, ◌⊎◌,
  ◌<◌, ◌≤◌, inl, inr, refl, arith, Bool, Bool-cases, true, false, List, [], ◌∷◌,
}
use vwii_nand_tools.Ram.{Ram, memcpy, full_at}
use vwii_nand_tools.Ram.Laws.{memcpy-outside, memcpy-inside}
use vwii_nand_tools.Elf.{Phdr, phdr_at, pt_load, load_segment, load_segments}

-- The headers of the table at `phdr`.
abbrev pub headers : ℕ → ℕ → Ram → List Phdr
headers zero phdr mem = []
headers (suc count) phdr mem = phdr_at mem phdr ∷ headers count (u32 (phdr + 32)) mem

-- The byte at an address is one of the segment's.
abbrev pub covers : Phdr → ℕ → Bool
covers h a = (h.p_type == pt_load) && leb h.p_paddr a && ltb a (h.p_paddr + h.p_filesz)

-- What an address holds in the end: the byte of the last segment over it, or what it held.
abbrev pub placed : ℕ → Ram → List Phdr → ℕ → ℕ → ℕ
placed elf mem [] old a = old
placed elf mem (h ∷ hs) old a =
    placed elf mem hs (if covers h a then mem (elf + h.p_offset + (a - h.p_paddr)) else old) a

-- A range of addresses that a segment neither takes from the image nor puts into it.
abbrev pub Apart : ℕ → ℕ → Phdr → Type 0
Apart low high h = (h.p_paddr + h.p_filesz ≤ low) ⊎ (high ≤ h.p_paddr)

-- A segment lies in the image, from `elf` to `high`, and its target outside.
pub record Fits (elf high : ℕ) (h : Phdr) : Type 0 where
  pub inside : elf + h.p_offset + h.p_filesz ≤ high
  pub apart : Apart elf high h

is_load :
    (h : Phdr) (a : ℕ)
    → covers h a ≡ true
    → ((h.p_type == pt_load) ≡ true) × (h.p_paddr ≤ a) × (a < h.p_paddr + h.p_filesz)
is_load h a c = ground arith

source_word : (x high : ℕ) (n i : ℕ) → x + n ≤ high → high ≤ 2 ^ 32 → i < n → u32 x ≡ x
source_word x high n i p q r = omega arith

no_overlap :
    {elf high : ℕ} {h : Phdr}
    → Fits elf high h
    → (elf + h.p_offset + h.p_filesz ≤ h.p_paddr) ⊎ (h.p_paddr + h.p_filesz ≤ elf + h.p_offset)
no_overlap {elf} {high} {h} f = elim f.apart [
  | inl p ↦ inr (omega arith)
  | inr p ↦ inl (omega (arith, f.inside))
]

copy_covered :
    (elf high : ℕ) (h : Phdr) (mem : Ram) (a : ℕ)
    → high ≤ 2 ^ 32
    → Fits elf high h
    → covers h a ≡ true
    → load_segment elf h mem a ≡ mem (elf + h.p_offset + (a - h.p_paddr))
unfolding load_segment
copy_covered elf high h mem a b f c =
    let (t, l, u) = is_load h a c in
    let word : u32 (elf + h.p_offset) ≡ elf + h.p_offset =
      source_word (elf + h.p_offset) high h.p_filesz (a - h.p_paddr) f.inside b (omega arith) in
    let place : a ≡ h.p_paddr + (a - h.p_paddr) = omega arith in
    rw (t, word)
      (ap (memcpy h.p_paddr (elf + h.p_offset) h.p_filesz mem) place
        ∙ memcpy-inside h.p_filesz h.p_paddr (elf + h.p_offset) mem (no_overlap f) (a - h.p_paddr)
            (omega arith))

outside :
    (h : Phdr) (a : ℕ)
    → covers h a ≡ false
    → (h.p_type == pt_load) ≡ true
    → (a < h.p_paddr) ⊎ (h.p_paddr + h.p_filesz ≤ a)
outside h a c t = ground arith

copy_other :
    (elf : ℕ) (h : Phdr) (mem : Ram) (a : ℕ) → covers h a ≡ false → load_segment elf h mem a ≡ mem a
unfolding load_segment
copy_other elf h mem a c = elim (Bool-cases (h.p_type == pt_load)) [
  | inl t ↦
      rw t (memcpy-outside h.p_filesz h.p_paddr (u32 (elf + h.p_offset)) mem a (outside h a c t))
  | inr n ↦ rw n
]

not_covered :
    (low high : ℕ) (h : Phdr) (a : ℕ) → Apart low high h → low ≤ a → a < high → covers h a ≡ false
not_covered low high h a (inl p) l u = ground arith
not_covered low high h a (inr p) l u = ground arith

-- Two memories hold the same image.
abbrev pub SameImage : ℕ → ℕ → Ram → Ram → Type 0
SameImage elf high mem mem' = (a : ℕ) → elf ≤ a → a < high → mem a ≡ mem' a

abbrev pub AllFit : ℕ → ℕ → List Phdr → Type 0
AllFit elf high [] = Unit {0}
AllFit elf high (h ∷ hs) = Fits elf high h × AllFit elf high hs

same_word :
    (elf high x : ℕ) (mem mem' : Ram)
    → SameImage elf high mem mem'
    → elf ≤ x
    → x + 4 ≤ high
    → full_at mem x ≡ full_at mem' x
unfolding full_at
same_word elf high x mem mem' s l u =
    rw
      (
        s x l (omega arith),
        s (x + 1) (omega arith) (omega arith),
        s (x + 2) (omega arith) (omega arith),
        s (x + 3) (omega arith) (omega arith),
      )
      refl

same_header :
    (elf high phdr : ℕ) (mem mem' : Ram)
    → SameImage elf high mem mem'
    → elf ≤ phdr
    → phdr + 32 ≤ high
    → phdr_at mem phdr ≡ phdr_at mem' phdr
unfolding phdr_at
same_header elf high phdr mem mem' s l u =
    let word : (k : ℕ) → k + 4 ≤ 32 → full_at mem (phdr + k) ≡ full_at mem' (phdr + k) =
      λ k p. same_word elf high (phdr + k) mem mem' s (omega arith) (omega arith) in
    rw
      (
        same_word elf high phdr mem mem' s l (omega arith),
        word 4 (omega arith),
        word 12 (omega arith),
        word 16 (omega arith),
      )
      refl

-- One segment, against the description.
placed_one :
    (elf high : ℕ) (h : Phdr) (mem mem0 : Ram) (a : ℕ)
    → high ≤ 2 ^ 32
    → Fits elf high h
    → SameImage elf high mem mem0
    → load_segment elf h mem a
      ≡ (if covers h a then mem0 (elf + h.p_offset + (a - h.p_paddr)) else mem a)
placed_one elf high h mem mem0 a b f s = elim (Bool-cases (covers h a)) [
  | inl c ↦
      let (t, l, u) = is_load h a c in
      rw c (
        copy_covered elf high h mem a b f c
        ∙ s (elf + h.p_offset + (a - h.p_paddr)) (omega arith) (omega (arith, f.inside)))
  | inr c ↦ rw c (copy_other elf h mem a c)
]

module _ (elf high : ℕ) (mem0 : Ram) (bound : high < 2 ^ 32) where
  load_from :
      (count phdr : ℕ) (mem : Ram) (a : ℕ)
      → SameImage elf high mem mem0
      → elf ≤ phdr
      → phdr + 32 * count ≤ high
      → AllFit elf high (headers count phdr mem0)
      → load_segments elf count phdr mem a ≡ placed elf mem0 (headers count phdr mem0) (mem a) a
  unfolding load_segments
  load_from zero phdr mem a s l u fits = refl
  load_from (suc count) phdr mem a s l u (f, fits) =
      let header = same_header elf high phdr mem mem0 s l (omega arith) in
      let next : Ram = load_segment elf (phdr_at mem0 phdr) mem in
      let kept : SameImage elf high next mem0 = λ b p q.
        copy_other elf (phdr_at mem0 phdr) mem b
          (not_covered elf high (phdr_at mem0 phdr) b f.apart p q)
        ∙ s b p q in
      ap (λ h. load_segments elf count (u32 (phdr + 32)) (load_segment elf h mem) a) header
      ∙ load_from count (u32 (phdr + 32)) next a kept (omega arith) (omega arith) fits
      ∙ ap (λ v. placed elf mem0 (headers count (u32 (phdr + 32)) mem0) v a)
          (placed_one elf high (phdr_at mem0 phdr) mem mem0 a (omega arith) f s)

  -- Let the image lie from `elf` to below `high`, which is below 2 ^ 32, and hold the table of headers
  -- and the bytes of every segment, and let no segment's target meet it. Then `load_segments` leaves at
  -- every address the byte of the last loadable segment over it, and elsewhere what was there.
  pub load_segments_lem :
      (count phdr a : ℕ)
      → elf ≤ phdr
      → phdr + 32 * count ≤ high
      → AllFit elf high (headers count phdr mem0)
      → load_segments elf count phdr mem0 a ≡ placed elf mem0 (headers count phdr mem0) (mem0 a) a
  load_segments_lem count phdr a l u fits = load_from count phdr mem0 a (λ b p q. refl) l u fits
