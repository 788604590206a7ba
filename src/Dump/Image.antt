-- ===== src/Dump/Image.antt =====
-- The pages of a chip as the file of a dump has them: corrected, each with its spare area.
use vwii_nand_tools.Base.{
  ℕ, zero, suc, ◌≡◌, refl, sym, ap, ap₂, ◌∙◌, ◌+◌, arith, List, [], ◌++◌, take,
}
use mathlib.Core.List.{append_assoc}
use vwii_nand_tools.Nand.{page_spare_size}
use vwii_nand_tools.Nand.Ecc.{correction}
use vwii_nand_tools.Dump.Chip.{Chip}

-- A page of a bank as the dump keeps it.
unfoldable pub page_image : Chip → ℕ → ℕ → List ℕ
page_image chip bank pageno =
    (correction (chip.pages bank pageno) (chip.spares bank pageno)).page
    ++ take page_spare_size (chip.spares bank pageno)

-- `n` pages of a bank from `pageno` on.
unfoldable pub image : Chip → ℕ → ℕ → ℕ → List ℕ
unfolding page_image
image chip bank zero pageno = []
image chip bank (suc n) pageno = page_image chip bank pageno ++ image chip bank n (pageno + 1)

pub image-step :
    (chip : Chip) (bank m n pageno pageno' : ℕ)
    → m ≡ suc n
    → pageno' ≡ pageno + 1
    → image chip bank m pageno ≡ page_image chip bank pageno ++ image chip bank n pageno'
unfolding image
image-step chip bank m n pageno pageno' e e' =
    ap (λ k. image chip bank k pageno) e
    ∙ ap (λ p. page_image chip bank pageno ++ image chip bank n p) (sym e')

pub image-none : (chip : Chip) (bank m pageno : ℕ) → m ≡ 0 → image chip bank m pageno ≡ []
unfolding image
image-none chip bank m pageno e = ap (λ k. image chip bank k pageno) e

-- Two runs of pages, one behind the other.
pub image-append :
    (chip : Chip) (bank a b c p q : ℕ)
    → c ≡ a + b
    → q ≡ p + a
    → image chip bank a p ++ image chip bank b q ≡ image chip bank c p
image-append chip bank zero b c p q e e' =
    ap (λ l. l ++ image chip bank b q) (image-none chip bank 0 p refl)
    ∙ ap₂ (image chip bank) (omega arith) (omega arith)
image-append chip bank (suc a) b c p q e e' =
    ap (λ l. l ++ image chip bank b q) (image-step chip bank (suc a) a p (p + 1) refl refl)
    ∙ append_assoc (page_image chip bank p) (image chip bank a (p + 1)) (image chip bank b q)
    ∙ ap (λ l. page_image chip bank p ++ l)
        (image-append chip bank a b (a + b) (p + 1) q refl (omega arith))
    ∙ sym (image-step chip bank c (a + b) p (p + 1) (omega arith) refl)
