-- ===== src/Dump/Read.antt =====
-- What the driver's page reads and its start do under a working chip.
use vwii_nand_tools.Base.{
  ℕ, Bool, true, false, ◌≡◌, refl, sym, subst, ap, ◌∙◌, ◌<◌, arith, [], ◌∷◌, some, ◌^◌, is_set, u32,
  minus_one, ◌==◌, ◌!=◌, if◌then◌else◌, inl, inr,
}
use vwii_nand_tools.Machine.{
  World, Nand, Call, load, store, word, log, when, run, write32, set_nand, ◌>>=◌, ◌>>◌,
}
use vwii_nand_tools.Machine.Ends.{Ends, ends_at, ends_by, ends_then, ends_weaken}
use vwii_nand_tools.Hollywood.{nand_addr1, nand_addr0, nand_data, nand_ecc, hw_memmirr}
use vwii_nand_tools.Irq.Mask.{irq_enable, irq_disable, irq_nand}
use vwii_nand_tools.Memory.Dma.{dma_addr}
use vwii_nand_tools.Memory.Lines.{dma_addr_lem}
use vwii_nand_tools.Nand.{
  nand_send_command, command_word, nand_set_address, nand_setup_dma, setup_spare, nand_read_page,
  nand_initialize, nand_reset, nand_max_page, page_size, ecc_buffer_size,
}
use vwii_nand_tools.Machine.Calm.{saved}
use vwii_nand_tools.Dump.Chip.{Chip, Delivers, place, selected, awaits}
use vwii_nand_tools.Dump.Page.{
  Same, EndsSame, message, nand_wait_ctrl-Same, Selected, nand_reset-Selected,
}

-- The page was addressed, in the bank that was selected, and the flag is clear.
abbrev pub Addressed : ℕ → World → World → Type 0
Addressed pageno w w' =
    (w'.board ≡ w.board)
    × (place w'.trace ≡ (selected w.trace, pageno))
    × (saved w'.trace ≡ saved w.trace)
    × (w'.nand.irq_flag ≡ 0)
    × (w'.nand.initialized ≡ w.nand.initialized)

Addressed-Same :
    (pageno : ℕ) (u v w : World) → Addressed pageno u v → Same v w → Addressed pageno u w
Addressed-Same pageno u v w (b, r, f, g, i) ((b', r', d', f'), n) = (
  b' ∙ b,
  r' ∙ r,
  f' ∙ f,
  ap (λ (x : Nand). x.irq_flag) n ∙ g,
  ap (λ (x : Nand). x.initialized) n ∙ i,
)

translated : (w0 : World) (addr : ℕ) (w : World) → Same w0 w → EndsSame w0 (dma_addr addr w)
translated w0 addr w s = elim (dma_addr_lem addr w) [
  | inl (e, runs) ↦ ends_by runs (ends_at _ w s)
  | inr (e, runs) ↦ ends_by runs (ends_at _ (log (load word hw_memmirr) w) s)
]

data_address :
    (w0 : World) (b : Bool) (data_buf : ℕ) (w : World)
    → Same w0 w
    → EndsSame w0 (when b (do addr ← dma_addr data_buf; write32 nand_data addr) w)
data_address w0 true data_buf w s =
    ends_then (translated w0 data_buf w s)
      λ a w1 s1. ends_at tt (log (store word nand_data (u32 a)) w1) s1
data_address w0 false data_buf w s = ends_at tt w s

spare_address :
    (w0 : World) (b : Bool) (spare : ℕ) (w : World)
    → Same w0 w
    → EndsSame w0 (when b (setup_spare spare) w)
unfolding setup_spare
spare_address w0 true spare w s = ends_then (translated w0 spare w s) λ a w1 s1.
    ends_then
      (message w0 (is_set a 0x7f)
        "NAND: Spare buffer 0x%08x is not aligned, data will be corrupted\n" (a ∷ []) w1 s1)
      λ _ w2 s2. ends_at tt (log (store word nand_ecc (u32 a)) w2) s2
spare_address w0 false spare w s = ends_at tt w s

set_up :
    (w0 : World) (data_buf spare : ℕ) (w : World)
    → Same w0 w
    → EndsSame w0 (nand_setup_dma data_buf spare w)
unfolding nand_setup_dma
set_up w0 data_buf spare w s =
    ends_then (data_address w0 (data_buf != minus_one) data_buf w s)
      λ _ w1 s1. spare_address w0 (spare != minus_one) spare w1 s1

may_invalidate :
    (w0 : World) (b : Bool) (a n : ℕ) (w : World)
    → Same w0 w
    → EndsSame w0 (when b (run (Call.dc_invalidaterange a n)) w)
may_invalidate w0 true a n w s = ends_at tt _ s
may_invalidate w0 false a n w s = ends_at tt w s

row_address :
    (pageno : ℕ) (w : World)
    → pageno < nand_max_page
    → w.nand.irq_flag ≡ 0
    → Ends
        (when (pageno != minus_one) (write32 nand_addr1 pageno) w)
        (λ _ w'. Addressed pageno w w')
row_address pageno w p flag = ends_by (ap (λ b. when b (write32 nand_addr1 pageno) w) is_page) (
    ends_at tt (log (store word nand_addr1 (u32 pageno)) w)
      (refl, ap (λ r. (selected w.trace, r)) small, refl, flag, refl))
  where
    is_page : (pageno != minus_one) ≡ true
    is_page = ground arith

    small : u32 pageno ≡ pageno
    small = omega arith

-- With a chip that works, `nand_read_page` into two buffers is over: the page is addressed, and the
-- command that was sent asks for an interrupt.
pub nand_read_page-Addressed :
    (chip : Chip) (pageno : ℕ) (w : World)
    → Delivers chip w.board
    → pageno < nand_max_page
    → Ends
        (nand_read_page pageno chip.page_buf chip.ecc_buf w)
        (λ _ w'. Addressed pageno w w' × (awaits w'.trace ≡ true))
unfolding nand_read_page nand_set_address nand_send_command command_word
nand_read_page-Addressed chip pageno w c p =
    let w1 =
      log (store word nand_addr0 0)
        (record w { nand = record w.nand { irq_flag = 0; last_page_read = pageno } }) in
    ends_then (row_address pageno w1 p refl) λ _ w2 a.
      let same : Same w2 w2 = ((refl, refl, refl, refl), refl) in
      let c2 : Delivers chip w2.board = subst (Delivers chip) (sym a.0) c in
      ends_weaken
        (ends_then (may_invalidate w2 (chip.page_buf != minus_one) chip.page_buf page_size _ same)
          λ _ w3 s3.
            ends_then
              (may_invalidate w2 (chip.ecc_buf != minus_one) chip.ecc_buf ecc_buffer_size w3 s3)
              λ _ w4 s4. ends_then (nand_wait_ctrl-Same chip w2 c2 w4 s4) λ _ w5 s5.
                ends_then (set_up w2 chip.page_buf chip.ecc_buf w5 s5) λ _ w6 s6.
                  ends_at {Post = λ _ w7. Same w2 w7 × (awaits w7.trace ≡ true)} tt _ (s6, refl))
        λ _ w7 (s7, h). (Addressed-Same pageno w w2 w7 a s7, h)

mask_off-Same : (w : World) → EndsSame w (irq_disable irq_nand w)
unfolding irq_disable
mask_off-Same w = ends_at tt _ ((refl, refl, refl, refl), refl)

mask_on-Same : (w : World) → EndsSame w (irq_enable irq_nand w)
unfolding irq_enable
mask_on-Same w = ends_at tt _ ((refl, refl, refl, refl), refl)

-- What the driver relies on when it leaves out the reset: if the bank counts as initialized, then it is
-- the one that is selected.
abbrev pub InStep : ℕ → World → Type 0
InStep bank w = w.nand.initialized ≡ bank → selected w.trace ≡ bank

-- With a chip that works, `nand_initialize` is over, and the bank is selected.
pub nand_initialize-Selected :
    (chip : Chip) (bank : ℕ) (w : World)
    → Delivers chip w.board
    → bank < 2 ^ 32
    → InStep bank w
    → Ends (nand_initialize bank w) (λ _ w'. Selected bank w w')
unfolding nand_initialize
nand_initialize-Selected chip bank w c p k = started (w.nand.initialized == bank) refl
  where
    started :
        (b : Bool)
        → (w.nand.initialized == bank) ≡ b
        → Ends
            (if b
              then some (tt, w)
              else (do
                irq_disable irq_nand
                nand_reset bank
                irq_enable irq_nand
                set_nand (λ n. record n { initialized = bank }))
                  w)
            (λ _ w'. Selected bank w w')
    started true e = ends_at tt w (refl, k (ground arith), refl)
    started false e = ends_then (mask_off-Same w) λ _ w1 s1.
        ends_then (nand_reset-Selected chip bank w1 (subst (Delivers chip) (sym s1.0.0) c))
          λ _ w2 s2. ends_then (mask_on-Same w2) λ _ w3 s3. ends_at tt _ (
            s3.0.0 ∙ s2.0 ∙ s1.0.0,
            ap (λ (p : ℕ × ℕ). p.0) s3.0.1 ∙ s2.1 ∙ (ground arith),
            s3.0.3 ∙ s2.2 ∙ s1.0.3,
          )
