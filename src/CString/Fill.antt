-- ===== src/CString/Fill.antt =====
-- What `memset` leaves in memory.
use vwii_nand_tools.Base.{ℕ, zero, suc, ◌+◌, ◌≡◌, ◌∙◌, ap, refl, ◌<◌, ◌≤◌, ◌⊎◌, inl, inr, u8, arith}
use vwii_nand_tools.Ram.{Ram, poke}
use vwii_nand_tools.Ram.Laws.{poke-same, poke-other}
use vwii_nand_tools.CString.{memset, memset_from}

memset_from-outside :
    (left b c i : ℕ) (mem : Ram) (a : ℕ)
    → (a < b + i) ⊎ (b + i + left ≤ a)
    → memset_from left b c i mem a ≡ mem a
unfolding memset_from
memset_from-outside zero b c i mem a h = refl
memset_from-outside (suc left) b c i mem a (inl p) =
    memset_from-outside left b c (i + 1) (poke (b + i) (u8 c) mem) a (inl (omega arith))
    ∙ poke-other (b + i) (u8 c) mem a (λ e. omega arith)
memset_from-outside (suc left) b c i mem a (inr p) =
    memset_from-outside left b c (i + 1) (poke (b + i) (u8 c) mem) a (inr (omega arith))
    ∙ poke-other (b + i) (u8 c) mem a (λ e. omega arith)

memset_from-inside :
    (left b c i : ℕ) (mem : Ram) (j : ℕ) → j < left → memset_from left b c i mem (b + i + j) ≡ u8 c
unfolding memset_from
memset_from-inside zero b c i mem j p = absurd (omega arith)
memset_from-inside (suc left) b c i mem zero p =
    memset_from-outside left b c (i + 1) (poke (b + i) (u8 c) mem) (b + i + 0) (inl (omega arith))
    ∙ ap (poke (b + i) (u8 c) mem) (omega arith)
    ∙ poke-same (b + i) (u8 c) mem
memset_from-inside (suc left) b c i mem (suc j) p =
    ap (memset_from left b c (i + 1) (poke (b + i) (u8 c) mem)) (omega arith)
    ∙ memset_from-inside left b c (i + 1) (poke (b + i) (u8 c) mem) j (omega arith)

-- `memset` sets every byte of its range to the low byte of `c`, and no other.
pub memset_lem :
    (b c len : ℕ) (mem : Ram)
    → ((j : ℕ) → j < len → memset b c len mem (b + j) ≡ u8 c)
      × ((a : ℕ) → (a < b) ⊎ (b + len ≤ a) → memset b c len mem a ≡ mem a)
unfolding memset
memset_lem b c len mem = (
  λ j p. ap (memset_from len b c 0 mem) (omega arith) ∙ memset_from-inside len b c 0 mem j p,
  λ a h. memset_from-outside len b c 0 mem a (start a h),
)
  where
    start : (a : ℕ) → (a < b) ⊎ (b + len ≤ a) → (a < b + 0) ⊎ (b + 0 + len ≤ a)
    start a (inl p) = inl (omega arith)
    start a (inr p) = inr (omega arith)
