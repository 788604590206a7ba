-- ===== src/Installer/Image.antt =====
-- What `LoadMINI` of nswitch/source/main.c does at one place: the program and the code that starts it.
use vwii_nand_tools.Base.{
  ℕ, zero, suc, true, ◌+◌, ◌!=◌, ◌≤◌, ◌<◌, ◌≡◌, ◌≢◌, ◌⊎◌, inl, inr, refl, ◌∙◌, if◌then◌else◌,
  Option, none, some, get_or, arith,
}
use vwii_nand_tools.Base.Tables.{passes_below, passes_below_sound}
use vwii_nand_tools.Ram.{Ram, matches, store_bytes}
use vwii_nand_tools.Ram.Bytes.{store_bytes-outside, store_bytes-inside}
use vwii_nand_tools.Ram.Laws.{memcpy-inside, memcpy-outside}
use vwii_nand_tools.CString.{memset}
use vwii_nand_tools.CString.Fill.{memset_lem}
use vwii_nand_tools.IosPatch.{Ppc}
use vwii_nand_tools.Installer.{Library, start_mini, stub, es_import_boot2, mini, scan_start}

-- The first of the places where `ES_ImportBoot2` begins.
unfoldable pub find : ℕ → ℕ → Ram → Option ℕ
find zero i mem = none
find (suc n) i mem =
    let rest = find n (i + 2) mem in if matches mem i es_import_boot2 then some i else rest

abbrev pub scan_end : ℕ
scan_end = 0x939fe000

-- No byte of the stub is the first byte looked for.
stub_table : passes_below (λ k. get_or stub k 0 != 0x68) 24 ≡ true
unfolding passes_below
stub_table = refl

differs : (x y : ℕ) → (x != y) ≡ true → x ≢ y
differs x y e = ground arith

pub stub-ne-first : (k : ℕ) → k < 24 → get_or stub k 0 ≢ 0x68
stub-ne-first k p = differs _ _ (passes_below_sound (λ k. get_or stub k 0 != 0x68) stub_table p)

pub first_byte : (mem : Ram) (i : ℕ) → matches mem i es_import_boot2 ≡ true → mem i ≡ 0x68
unfolding matches
first_byte mem i e = ground arith

-- The ranges that the calls of the library leave alone: the program that is loaded, the place it is
-- put at, and the code of IOS that is searched.
abbrev pub Own : ℕ → ℕ → ℕ → Type 0
Own ptr size a =
    ((ptr ≤ a) × (a < ptr + size))
    ⊎ ((mini ≤ a) × (a < mini + size))
    ⊎ ((scan_start ≤ a) × (a < scan_end + 24))

-- These ranges do not meet, and the library neither writes to them nor gives out memory in them.
pub record Apart (lib : Library) (ptr size : ℕ) : Type 0 where
  pub fits : mini + size ≤ scan_start
  pub from_mini : (ptr + size ≤ mini) ⊎ (mini + size ≤ ptr)
  pub from_ios : (ptr + size ≤ scan_start) ⊎ (scan_end + 24 ≤ ptr)
  pub shutdown_subsystems :
      (s : Ppc) (a : ℕ) → Own ptr size a → (lib.shutdown_subsystems s).memory a ≡ s.memory a
  pub open_es : (s : Ppc) (a : ℕ) → Own ptr size a → (lib.open_es s).0.memory a ≡ s.memory a
  pub memalign : (s : Ppc) (a : ℕ) → Own ptr size a → (lib.memalign s).0.memory a ≡ s.memory a
  pub buffer :
      (s : Ppc) (a : ℕ)
      → Own ptr size a
      → (a < (lib.memalign s).1) ⊎ ((lib.memalign s).1 + 0x100 ≤ a)
  pub ioctlv_async :
      (fd buffer : ℕ) (s : Ppc) (a : ℕ)
      → Own ptr size a
      → (lib.ioctlv_async fd buffer s).memory a ≡ s.memory a

module _ (lib : Library) (ptr size : ℕ) (fine : Apart lib ptr size) where
  -- What follows the copy leaves the ranges alone.
  behind :
      (s : Ppc) (a : ℕ)
      → Own ptr size a
      → (let (s2, fd) = lib.open_es s in
            let (s3, buffer) = lib.memalign s2 in
            lib.ioctlv_async fd buffer
              (record s3 { memory = memset buffer 0 0x100 s3.memory })).memory
          a
        ≡ s.memory a
  behind s a own =
      let s2 = (lib.open_es s).0 in
      let (s3, buffer) = lib.memalign s2 in
      fine.ioctlv_async _ buffer (record s3 { memory = memset buffer 0 0x100 s3.memory }) a own
      ∙ (memset_lem buffer 0 0x100 s3.memory).1 a (fine.buffer s2 a own)
      ∙ fine.memalign s2 a own
      ∙ fine.open_es s a own

  stubbed : ℕ → Ppc → Ppc
  stubbed i s = lib.shutdown_subsystems (record s { memory = store_bytes i stub s.memory })

  stubbed-outside :
      (i : ℕ) (s : Ppc) (a : ℕ)
      → Own ptr size a
      → (a < i) ⊎ (i + 24 ≤ a)
      → (stubbed i s).memory a ≡ s.memory a
  unfolding stubbed
  stubbed-outside i s a own h =
      fine.shutdown_subsystems (record s { memory = store_bytes i stub s.memory }) a own
      ∙ store_bytes-outside stub i s.memory a h

  pub start-outside :
      (i : ℕ) (s : Ppc) (a : ℕ)
      → Own ptr size a
      → (a < i) ⊎ (i + 24 ≤ a)
      → (a < mini) ⊎ (mini + size ≤ a)
      → (start_mini lib ptr size i s).memory a ≡ s.memory a
  unfolding start_mini stubbed
  start-outside i s a own h g =
      behind _ a own
      ∙ memcpy-outside size mini ptr (stubbed i s).memory a g
      ∙ stubbed-outside i s a own h

  pub start-stub :
      (i : ℕ) (s : Ppc) (k : ℕ)
      → scan_start ≤ i
      → i < scan_end
      → k < 24
      → (start_mini lib ptr size i s).memory (i + k) ≡ get_or stub k 0
  unfolding start_mini stubbed
  start-stub i s k low high p =
      let fits = fine.fits in
      let own : Own ptr size (i + k) = inr (inr (omega arith, omega arith)) in
      behind _ (i + k) own
      ∙ memcpy-outside size mini ptr (stubbed i s).memory (i + k) (inr (omega arith))
      ∙ fine.shutdown_subsystems (record s { memory = store_bytes i stub s.memory }) (i + k) own
      ∙ store_bytes-inside stub i s.memory k p

  pub from_ios :
      (i k : ℕ) → scan_start ≤ i → i < scan_end → k < size → (ptr + k < i) ⊎ (i + 24 ≤ ptr + k)
  from_ios i k low high p = elim fine.from_ios [
    | inl h ↦ inl (omega arith)
    | inr h ↦ inr (omega arith)
  ]

  pub from_mini : (k : ℕ) → k < size → (ptr + k < mini) ⊎ (mini + size ≤ ptr + k)
  from_mini k p = elim fine.from_mini [ inl h ↦ inl (omega arith) | inr h ↦ inr (omega arith) ]

  pub start-image :
      (i : ℕ) (s : Ppc) (k : ℕ)
      → scan_start ≤ i
      → i < scan_end
      → k < size
      → (start_mini lib ptr size i s).memory (mini + k) ≡ s.memory (ptr + k)
  unfolding start_mini stubbed
  start-image i s k low high p =
      behind _ (mini + k) (inr (inl (omega arith, omega arith)))
      ∙ memcpy-inside size mini ptr (stubbed i s).memory fine.from_mini k p
      ∙ stubbed-outside i s (ptr + k) (inl (omega arith, omega arith)) (from_ios i k low high p)
