-- ===== src/Dump/File.antt =====
-- What the dump of a working chip writes to the file: every page, corrected, with its spare area.
use vwii_nand_tools.Base.{
  ℕ, zero, suc, Bool, true, false, ◌≡◌, refl, sym, subst, ap, ap₂, ◌∙◌, ◌<◌, ◌≤◌, ◌+◌, ◌*◌, ◌%◌,
  ◌/◌, ◌^◌, ◌!=◌, ◌||◌, ◌==◌, arith, List, [], ◌∷◌, ◌++◌, take, Option, inl, inr, ◌⊎◌, ℤ, pos,
  String,
}
use mathlib.Core.List.{append_assoc, append-nil}
use vwii_nand_tools.Machine.{World, M, Call, call, log, when, ask, pure, gecko_printf, ◌>>=◌, ◌>>◌}
use vwii_nand_tools.Machine.Ends.{Ends, ends_at, ends_by, ends_then, ends_weaken}
use vwii_nand_tools.Nand.{page_size, page_spare_size, nand_max_page}
use vwii_nand_tools.Nand.Ecc.{correction, nand_correct}
use vwii_nand_tools.Dump.{
  dump_page, write_fails, dump_pages, dump_iterations, dump_file, dump_slc_raw, dump_opened, finish,
  report_close, ecc_buffer_alloc, pages_per_iteration, total_iterations, nand_bank_slc,
  nand_bank_slccmpt,
}
use vwii_nand_tools.Machine.Calm.{saved}
use vwii_nand_tools.Dump.Chip.{Chip, Delivers, Works, selected}
use vwii_nand_tools.Dump.Image.{page_image, image, image-none, image-append}
use vwii_nand_tools.Dump.Page.{message}
use vwii_nand_tools.Dump.Wait.{nand_wait-Delivered}
use vwii_nand_tools.Dump.Read.{InStep, nand_read_page-Addressed, nand_initialize-Selected}

-- The result is `bytes`, and the file and the bank are as they were.
abbrev pub Gives : List ℕ → World → List ℕ → World → Type 0
Gives bytes w r w' =
    (r ≡ bytes)
    × (w'.board ≡ w.board)
    × (saved w'.trace ≡ saved w.trace)
    × (selected w'.trace ≡ selected w.trace)

module _ (chip : Chip) (bank : ℕ) where
  dump_page-Gives :
      (pageno : ℕ) (w : World)
      → Delivers chip w.board
      → selected w.trace ≡ bank
      → pageno < nand_max_page
      → Ends (dump_page chip.page_buf chip.ecc_buf pageno w) (Gives (page_image chip bank pageno) w)
  unfolding dump_page page_image nand_correct
  dump_page-Gives pageno w c k p =
      ends_then (nand_read_page-Addressed chip pageno w c p) λ _ w1 ((b1, r1, f1, g1, i1), h1).
        let c1 : Delivers chip w1.board = subst (Delivers chip) (sym b1) c in
        ends_then (nand_wait-Delivered chip w1 c1 h1 g1) λ _ w2 (b2, r2, d2, f2, g2, i2).
          let c2 : Delivers chip w2.board = subst (Delivers chip) (sym b2) c1 in
          let page = w2.board.buffer w2.trace chip.page_buf page_size in
          let ecc = w2.board.buffer w2.trace chip.ecc_buf ecc_buffer_alloc in
          let t = correction page ecc in
          let here = d2 ∙ r1 ∙ ap (λ b. (b, pageno)) k in
          ends_then
            (ends_then
              (message w2 (t.uncorrectable != 0 || t.corrected != 0)
                "ECC stats for NAND page 0x%X: %d uncorrectable, %d corrected\n"
                (pageno ∷ t.uncorrectable ∷ t.corrected ∷ []) w2 ((refl, refl, refl, refl), refl))
              λ _ w3 s3.
                ends_at
                  {Post = λ (r : List ℕ × ℤ) w'.
                    (r.0 ≡ t.page)
                    × (w'.board ≡ w2.board)
                    × (saved w'.trace ≡ saved w2.trace)
                    × (selected w'.trace ≡ selected w2.trace)}
                  _ w3 (refl, s3.0.0, s3.0.3, ap (λ (q : ℕ × ℕ). q.0) s3.0.1))
            λ r w3 (e, b3, f3, k3). ends_at _ w3 (
              ap (λ x. x ++ take page_spare_size ecc) e
                  ∙ ap₂ (λ x y. (correction x y).page ++ take page_spare_size y)
                      (c2.page w2.trace ∙ ap (λ (q : ℕ × ℕ). chip.pages q.0 q.1) here)
                      (c2.spare w2.trace ∙ ap (λ (q : ℕ × ℕ). chip.spares q.0 q.1) here),
              b3 ∙ b2 ∙ b1,
              f3 ∙ f2 ∙ f1,
              k3 ∙ ap (λ (q : ℕ × ℕ). q.0) (r2 ∙ r1),
            )

  pub dump_pages-Gives :
      (n pageno : ℕ) (w : World)
      → Delivers chip w.board
      → selected w.trace ≡ bank
      → pageno + n ≤ nand_max_page
      → Ends (dump_pages chip.page_buf chip.ecc_buf n pageno w) (Gives (image chip bank n pageno) w)
  unfolding dump_pages image
  dump_pages-Gives zero pageno w c k p = ends_at [] w (refl, refl, refl, refl)
  dump_pages-Gives (suc n) pageno w c k p =
      ends_then (dump_page-Gives pageno w c k (omega arith)) λ first w1 (e1, b1, f1, k1).
        ends_then
          (dump_pages-Gives n (pageno + 1) w1 (subst (Delivers chip) (sym b1) c) (k1 ∙ k)
            (omega arith))
          λ rest w2 (e2, b2, f2, k2).
            ends_at (first ++ rest) w2 (ap₂ (λ x y. x ++ y) e1 e2, b2 ∙ b1, f2 ∙ f1, k2 ∙ k1)

  dump_iterations-image :
      (name : String) (n i : ℕ) (w : World)
      → Works chip w.board
      → selected w.trace ≡ bank
      → (i + n) * pages_per_iteration ≤ nand_max_page
      → Ends (dump_iterations chip.page_buf chip.ecc_buf name n i w) (λ r w'.
        (r ≡ true)
        × (w'.board ≡ w.board)
        × (saved w'.trace
            ≡ saved w.trace ++ image chip bank (n * pages_per_iteration) (i * pages_per_iteration)))
  unfolding dump_iterations
  dump_iterations-image name zero i w c k p = ends_at true w (
    refl,
    refl,
    sym (ap (λ l. saved w.trace ++ l) (image-none chip bank _ _ (omega arith)) ∙ append-nil _),
  )
  dump_iterations-image name (suc n) i w c k p =
      ends_then
        (dump_pages-Gives pages_per_iteration (i * pages_per_iteration) w c.delivers k
          (omega arith))
        λ bytes w1 (e1, b1, f1, k1).
          let c1 : Works chip w1.board = subst (Works chip) (sym b1) c in
          ends_by (ap (after w1 bytes) (c1.writes bytes w1.trace)) (
            let w2 = log (call (Call.f_write bytes)) w1 in
            ends_then
              (message w2 ((i % 0x100) == 0) "%s-RAW: Page 0x%05lX completed\n"
                (i * pages_per_iteration ∷ []) w2 ((refl, refl, refl, refl), refl))
              λ _ w3 ((b3, r3, d3, f3), n3).
                let c3 : Works chip w3.board = subst (Works chip) (sym b3) c1 in
                ends_weaken
                  (dump_iterations-image name n (i + 1) w3 c3 (ap (λ (q : ℕ × ℕ). q.0) r3 ∙ k1 ∙ k)
                    (omega arith))
                  λ r w4 (e4, b4, f4). (
                    e4,
                    b4 ∙ b3 ∙ b1,
                    f4
                        ∙ ap
                            (λ l.
                              l
                              ++ image chip bank (n * pages_per_iteration)
                                  ((i + 1) * pages_per_iteration))
                            f3
                        ∙ ap₂
                            (λ x y.
                              (x ++ y)
                              ++ image chip bank (n * pages_per_iteration)
                                  ((i + 1) * pages_per_iteration))
                            f1 e1
                        ∙ append_assoc (saved w.trace)
                            (image chip bank pages_per_iteration (i * pages_per_iteration)) _
                        ∙ ap (λ l. saved w.trace ++ l)
                            (image-append chip bank _ _ _ _ _ (omega arith) (omega arith)),
                  ))
    where
      shown : M (Unit {0})
      shown =
          when ((i % 0x100) == 0)
            (gecko_printf "%s-RAW: Page 0x%05lX completed\n" (i * pages_per_iteration ∷ []))

      after : World → List ℕ → ℕ → Option (Bool × World)
      after w1 bytes reply = elim (write_fails reply) [
        | true ↦
            (do
              _ ← ask (call Call.f_close)
              gecko_printf "Failed to write %s (%d).\n" (reply / 2 ^ 32 ∷ [])
              pure false)
              (log (call (Call.f_write bytes)) w1)
        | false ↦
            (do shown; dump_iterations chip.page_buf chip.ecc_buf name n (i + 1))
              (log (call (Call.f_write bytes)) w1)
      ]

  dump_file-image :
      (name path : String) (w : World)
      → Works chip w.board
      → bank < 2 ^ 32
      → InStep bank w
      → Ends (dump_file chip.page_buf chip.ecc_buf name path bank w) (λ r w'.
        (r ≡ pos 0) × (saved w'.trace ≡ saved w.trace ++ image chip bank nand_max_page 0))
  unfolding dump_file
  dump_file-image name path w c small step =
      let w1 = log (call (Call.f_open path)) w in
      ends_by
        (ap (λ fres. dump_opened chip.page_buf chip.ecc_buf name bank fres w1)
          (c.opens path w.trace))
        (ends_then
          (nand_initialize-Selected chip bank
            (log (call (Call.gecko_printf "Initializing %s...\n" [])) w1) c.delivers small step)
          λ _ w2 (b2, k2, f2).
            let c2 : Works chip w2.board = subst (Works chip) (sym b2) c in
            ends_then (dump_iterations-image name total_iterations 0 w2 c2 k2 (omega arith))
              λ written w3 (e3, b3, f3).
                let c3 : Works chip w3.board = subst (Works chip) (sym b3) c2 in
                ends_by
                  (ap (λ b. finish b w3) e3
                    ∙ ap (λ closed. report_close closed (log (call Call.f_close) w3))
                        (c3.closes w3.trace))
                  (ends_at (pos 0) _
                    (refl, f3 ∙ ap (λ l. l ++ image chip bank nand_max_page 0) f2)))

pub dump_slc_raw-image :
    (chip : Chip) (bank : ℕ) (w : World)
    → (bank ≡ nand_bank_slc) ⊎ (bank ≡ nand_bank_slccmpt)
    → InStep bank w
    → Works chip w.board
    → Ends
        (dump_slc_raw chip.page_buf chip.ecc_buf bank w)
        (λ r w'. (r ≡ pos 0) × (saved w'.trace ≡ saved w.trace ++ image chip bank nand_max_page 0))
unfolding dump_slc_raw
dump_slc_raw-image chip bank w b k c = elim b [
  | inl e ↦
      subst Done (sym e)
        (λ k. dump_file-image chip nand_bank_slc "SLC" "SLC.RAW" w c (omega arith) k) k
  | inr e ↦
      subst Done (sym e)
        (λ k. dump_file-image chip nand_bank_slccmpt "SLCCMPT" "SLCCMPT.RAW" w c (omega arith) k) k
]
  where
    Done : ℕ → Type 0
    Done bank =
        InStep bank w
        → Ends (dump_slc_raw chip.page_buf chip.ecc_buf bank w) (λ r w'.
          (r ≡ pos 0) × (saved w'.trace ≡ saved w.trace ++ image chip bank nand_max_page 0))
