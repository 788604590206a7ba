-- ===== src/Dump/Size.antt =====
-- Where a page stands in the file of a dump.
use vwii_nand_tools.Base.{
  ℕ, zero, suc, ◌≡◌, refl, sym, ap, ◌∙◌, ◌<◌, ◌+◌, ◌-◌, ◌*◌, ◌^^^◌, arith, List, [], ◌∷◌, ◌++◌,
  take, drop, length, length-append, length-set, length-take, ◌⊎◌, pos,
}
use vwii_nand_tools.Machine.{World}
use vwii_nand_tools.Machine.Calm.{saved}
use vwii_nand_tools.Machine.Ends.{Ends, ends_weaken}
use vwii_nand_tools.Nand.{page_size, page_spare_size, nand_max_page}
use vwii_nand_tools.Nand.Ecc.{Tally, correction, correct_from, correct_chunk, flip_bit, odd_half}
use vwii_nand_tools.Dump.{dump_slc_raw, nand_bank_slc, nand_bank_slccmpt, ecc_buffer_alloc}
use vwii_nand_tools.Dump.Chip.{Chip, Works}
use vwii_nand_tools.Dump.Read.{InStep}
use vwii_nand_tools.Dump.Image.{page_image, image, image-step, image-append}
use vwii_nand_tools.Dump.File.{dump_slc_raw-image}

module _ {ℓ} {A : Type ℓ} where
  drop-append : (xs ys : List A) → drop (length xs) (xs ++ ys) ≡ ys
  drop-append [] ys = refl
  drop-append (x ∷ xs) ys = drop-append xs ys

  take-append : (xs ys : List A) → take (length xs) (xs ++ ys) ≡ xs
  take-append [] ys = refl
  take-append (x ∷ xs) ys = ap (λ l. x ∷ l) (take-append xs ys)

length-flip_bit : (offset odd : ℕ) (page : List ℕ) → length (flip_bit offset odd page) ≡ length page
unfolding flip_bit
length-flip_bit offset odd page = length-set page _ _

length-correct_chunk :
    (offset read calc : ℕ) (t : Tally)
    → length (correct_chunk offset read calc t).page ≡ length t.page
unfolding correct_chunk
length-correct_chunk offset read calc t =
    ground (arith, length-flip_bit offset (odd_half (read ^^^ calc)) t.page)

length-correct_from :
    (n index : ℕ) (ecc : List ℕ) (t : Tally)
    → length (correct_from n index ecc t).page ≡ length t.page
unfolding correct_from
length-correct_from zero index ecc t = refl
length-correct_from (suc n) index ecc t =
    length-correct_from n (index + 1) ecc _ ∙ length-correct_chunk _ _ _ t

length-correction : (page ecc : List ℕ) → length (correction page ecc).page ≡ length page
unfolding correction
length-correction page ecc = length-correct_from 4 0 ecc _

-- The size of a page in the file.
abbrev pub stride : ℕ
stride = page_size + page_spare_size

-- Every page of every bank fills the controller's two buffers.
pub record Whole (chip : Chip) : Type 0 where
  pub pages : (bank n : ℕ) → length (chip.pages bank n) ≡ page_size
  pub spares : (bank n : ℕ) → length (chip.spares bank n) ≡ ecc_buffer_alloc

module _ (chip : Chip) (whole : Whole chip) (bank : ℕ) where
  length-page_image : (n : ℕ) → length (page_image chip bank n) ≡ stride
  unfolding page_image
  length-page_image n =
      length-append (correction (chip.pages bank n) (chip.spares bank n)).page _
      ∙ omega (
        arith,
        length-correction (chip.pages bank n) (chip.spares bank n),
        whole.pages bank n,
        whole.spares bank n,
        length-take page_spare_size (chip.spares bank n),
      )

  length-image : (n p : ℕ) → length (image chip bank n p) ≡ n * stride
  unfolding image
  length-image zero p = refl
  length-image (suc n) p =
      length-append (page_image chip bank p) _
      ∙ omega (arith, length-page_image p, length-image n (p + 1))

  -- A run of pages, cut at one of them.
  image-split :
      (n m : ℕ)
      → n < m
      → image chip bank m 0
        ≡ image chip bank n 0 ++ (page_image chip bank n ++ image chip bank (m - suc n) (n + 1))
  image-split n m h =
      sym (image-append chip bank n (m - n) m 0 n (omega arith) (omega arith))
      ∙ ap (λ l. image chip bank n 0 ++ l)
          (image-step chip bank (m - n) (m - suc n) n (n + 1) (omega arith) refl)

  page_at-image :
      (n m : ℕ)
      → n < m
      → take stride (drop (n * stride) (image chip bank m 0)) ≡ page_image chip bank n
  page_at-image n m h =
      let rest = page_image chip bank n ++ image chip bank (m - suc n) (n + 1) in
      ap (λ l. take stride (drop (n * stride) l)) (image-split n m h)
      ∙ ap (λ k. take stride (drop k (image chip bank n 0 ++ rest))) (sym (length-image n 0))
      ∙ ap (take stride) (drop-append (image chip bank n 0) rest)
      ∙ ap (λ k. take k rest) (sym (length-page_image n))
      ∙ take-append (page_image chip bank n) (image chip bank (m - suc n) (n + 1))

  -- With a chip that works, whose pages and spare areas fill the two buffers, a bank that is selected if
  -- it counts as initialized, and a card that takes every byte, the dump of either bank into a new file
  -- returns 0, the file has as many bytes as all pages with their spare areas, and each page of the bank,
  -- corrected and followed by 64 bytes of its spare area, stands in it at its number times the size of one.
  pub dump_slc_raw-place :
      (n : ℕ) (w : World)
      → (bank ≡ nand_bank_slc) ⊎ (bank ≡ nand_bank_slccmpt)
      → n < nand_max_page
      → saved w.trace ≡ []
      → InStep bank w
      → Works chip w.board
      → Ends (dump_slc_raw chip.page_buf chip.ecc_buf bank w) (λ r w'.
        (r ≡ pos 0)
        × (length (saved w'.trace) ≡ nand_max_page * stride)
        × (take stride (drop (n * stride) (saved w'.trace)) ≡ page_image chip bank n))
  dump_slc_raw-place n w b h e k c =
      ends_weaken (dump_slc_raw-image chip bank w b k c) λ r w' (zero_result, s).
        let whole_file : saved w'.trace ≡ image chip bank nand_max_page 0 =
          s ∙ ap (λ l. l ++ image chip bank nand_max_page 0) e in
        (
          zero_result,
          ap length whole_file ∙ length-image nand_max_page 0,
          ap (λ l. take stride (drop (n * stride) l)) whole_file ∙ page_at-image n nand_max_page h,
        )
