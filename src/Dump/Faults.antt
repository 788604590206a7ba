-- ===== src/Dump/Faults.antt =====
-- The dump onto any card: what each of the file library's answers makes of the result and of the file.
use vwii_nand_tools.Base.{
  ◌<◌, ℕ, zero, suc, Bool, true, false, ◌≡◌, refl, sym, subst, ap, ap₂, ◌∙◌, ◌≤◌, ◌||◌, ◌+◌, ◌*◌,
  ◌%◌, ◌/◌, ◌^◌, ◌!=◌, ◌==◌, arith, List, [], ◌∷◌, ◌++◌, inl, inr, ℤ, pos, minus, String, not,
  if◌then◌else◌, Bool-cases,
}
use vwii_nand_tools.Machine.{
  World, Board, Event, M, Call, call, log, when, ask, pure, gecko_printf, ◌>>=◌, ◌>>◌,
}
use vwii_nand_tools.Machine.Ends.{Ends, ends_at, ends_by, ends_then, ends_weaken}
use vwii_nand_tools.Nand.{nand_max_page}
use vwii_nand_tools.Dump.{
  write_fails, dump_iterations, dump_file, dump_slc_raw, dump_opened, finish, pages_per_iteration,
  total_iterations, nand_bank_slc, nand_bank_slccmpt,
}
use vwii_nand_tools.Machine.Calm.{saved}
use vwii_nand_tools.Dump.Chip.{Chip, Delivers, selected}
use vwii_nand_tools.Dump.Page.{message}
use vwii_nand_tools.Dump.Read.{InStep, nand_initialize-Selected}
use vwii_nand_tools.Dump.Image.{image, image-append}
use vwii_nand_tools.Dump.File.{dump_pages-Gives}

-- A card as the file library shows it: whether it opens the file, takes a write when the file was
-- handed so much before, and closes the file.
pub record FileCard : Type 0 where
  pub opens : Bool
  pub takes : List ℕ → Bool
  pub closes : Bool

-- The board answers as such a card does.
pub record Follows (card : FileCard) (board : Board) : Type 0 where
  pub open_reply :
      (path : String) (t : List Event)
      → (board.answer (call (Call.f_open path) ∷ t) != 0) ≡ not card.opens
  pub write_reply :
      (bytes : List ℕ) (t : List Event)
      → write_fails (board.answer (call (Call.f_write bytes) ∷ t)) ≡ not (card.takes (saved t))
  pub close_reply : (t : List Event) → (board.answer (call Call.f_close ∷ t) != 0) ≡ not card.closes

module _ (chip : Chip) (bank : ℕ) (card : FileCard) where
  -- The pages handed over in the iterations before iteration `i`.
  abbrev pub before : ℕ → List ℕ
  before i = image chip bank (i * pages_per_iteration) 0

  -- With `n` iterations left: whether the card takes them all, and what it was handed at the end,
  -- the write that it refused included.
  pub stored : ℕ → ℕ → Bool × List ℕ
  stored zero i = (true, before i)
  stored (suc n) i =
      let rest = stored n (i + 1) in if card.takes (before i) then rest else (false, before (i + 1))

  -- What the dump of a bank returns, and what the card was handed.
  reaction_if : Bool → ℤ × List ℕ
  reaction_if opened =
      let (all, handed) = stored total_iterations 0 in
      if opened
      then (if all then (if card.closes then pos 0 else minus 5) else minus 4, handed)
      else (minus 3, [])

  pub reaction : ℤ × List ℕ
  reaction =
      if bank == nand_bank_slc || bank == nand_bank_slccmpt
      then reaction_if card.opens
      else (minus 2, [])

  next_before :
      (i : ℕ)
      → before i ++ image chip bank pages_per_iteration (i * pages_per_iteration) ≡ before (i + 1)
  next_before i = image-append chip bank _ _ _ _ _ (omega arith) (omega arith)

  -- An iteration behind its write.
  abbrev behind : String → ℕ → ℕ → ℕ → Bool → M Bool
  behind name n i reply failed w = elim failed [
    | true ↦
        (do
          _ ← ask (call Call.f_close)
          gecko_printf "Failed to write %s (%d).\n" (reply / 2 ^ 32 ∷ [])
          pure false)
          w
    | false ↦
        (do
          when ((i % 0x100) == 0)
              (gecko_printf "%s-RAW: Page 0x%05lX completed\n" (i * pages_per_iteration ∷ []))
          dump_iterations chip.page_buf chip.ecc_buf name n (i + 1))
          w
  ]

  -- The run ends with this, and the board is as it was.
  abbrev Gave : {A : Type 0} → Board → A × List ℕ → A → World → Type 0
  Gave board expected r w = (r ≡ expected.0) × (saved w.trace ≡ expected.1) × (w.board ≡ board)

  dump_iterations-stored :
      (name : String) (n i : ℕ) (w : World)
      → Delivers chip w.board
      → Follows card w.board
      → selected w.trace ≡ bank
      → (i + n) * pages_per_iteration ≤ nand_max_page
      → saved w.trace ≡ before i
      → Ends (dump_iterations chip.page_buf chip.ecc_buf name n i w) (Gave w.board (stored n i))
  unfolding dump_iterations stored
  dump_iterations-stored name zero i w c f k p s = ends_at true w (refl, s, refl)
  dump_iterations-stored name (suc n) i w c f k p s =
      ends_then
        (dump_pages-Gives chip bank pages_per_iteration (i * pages_per_iteration) w c k
          (omega arith))
        λ bytes w1 (e1, b1, f1, k1).
          let c1 : Delivers chip w1.board = subst (Delivers chip) (sym b1) c in
          let f1' : Follows card w1.board = subst (Follows card) (sym b1) f in
          let w2 = log (call (Call.f_write bytes)) w1 in
          let reply = w1.board.answer w2.trace in
          let answer : write_fails reply ≡ not (card.takes (before i)) =
            f1'.write_reply bytes w1.trace ∙ ap (λ l. not (card.takes l)) (f1 ∙ s) in
          let handed : saved w2.trace ≡ before (i + 1) =
            ap₂ (λ x y. x ++ y) (f1 ∙ s) e1 ∙ next_before i in
          elim (Bool-cases (card.takes (before i))) [
            | inr e ↦
                ends_by (ap (λ b. behind name n i reply b w2) (answer ∙ ap not e))
                  (rw e (ends_at false _ (refl, handed, b1)))
            | inl e ↦ ends_by (ap (λ b. behind name n i reply b w2) (answer ∙ ap not e)) (
                ends_then
                  (message w2 ((i % 0x100) == 0) "%s-RAW: Page 0x%05lX completed\n"
                    (i * pages_per_iteration ∷ []) w2 ((refl, refl, refl, refl), refl))
                  λ _ w3 ((b3, r3, d3, f3), n3). rw e (
                    ends_weaken
                      (dump_iterations-stored name n (i + 1) w3 (subst (Delivers chip) (sym b3) c1)
                        (subst (Follows card) (sym b3) f1') (ap (λ (q : ℕ × ℕ). q.0) r3 ∙ k1 ∙ k)
                        (omega arith) (f3 ∙ handed))
                      λ r w4 (e4, f4, b4). (e4, f4, b4 ∙ b3 ∙ b1)))
          ]

  closed_so :
      (w : World) (s : List ℕ) (board : Board)
      → Follows card w.board
      → saved w.trace ≡ s
      → w.board ≡ board
      → Ends (finish true w) (Gave board (if card.closes then pos 0 else minus 5, s))
  closed_so w s board f e b =
      let w1 = log (call Call.f_close) w in
      let reply = w.board.answer w1.trace in
      ends_by {run' = reported reply (reply != 0) w1} refl (
        ends_by (ap (λ b. reported reply b w1) (f.close_reply w.trace))
          (elim (Bool-cases card.closes) [
            | inl y ↦ rw y (ends_at _ _ (refl, e, b))
            | inr n ↦ rw n (ends_at _ _ (refl, e, b))
          ]))
    where
      reported : ℕ → Bool → M ℤ
      reported closed failed =
          if failed
          then (do gecko_printf "Failed to close %s (%d).\n" (closed ∷ []); pure (minus 5))
          else (do gecko_printf "SLC dump completed successfully!\n" []; pure (pos 0))

  finish-Gave :
      (all : Bool) (w : World) (s : List ℕ) (board : Board)
      → Follows card w.board
      → saved w.trace ≡ s
      → w.board ≡ board
      → Ends
          (finish all w)
          (Gave board (if all then (if card.closes then pos 0 else minus 5) else minus 4, s))
  finish-Gave true w s board f e b = closed_so w s board f e b
  finish-Gave false w s board f e b = ends_at _ w (refl, e, b)

  opened_so :
      (name : String) (fres : ℕ) (opened : Bool) (w : World)
      → Delivers chip w.board
      → Follows card w.board
      → bank < 2 ^ 32
      → InStep bank w
      → saved w.trace ≡ []
      → (fres != 0) ≡ not opened
      → Ends
          (dump_opened chip.page_buf chip.ecc_buf name bank fres w)
          (Gave w.board (reaction_if opened))
  unfolding reaction_if image
  opened_so name fres false w c f small k s e = rw e (ends_at _ _ (refl, s, refl))
  opened_so name fres true w c f small k s e = rw e (
      ends_then
        (nand_initialize-Selected chip bank
          (log (call (Call.gecko_printf "Initializing %s...\n" [])) w) c small k)
        λ _ w2 (b2, k', f2).
          let k2 : Follows card w2.board = subst (Follows card) (sym b2) f in
          ends_then
            (dump_iterations-stored name total_iterations 0 w2 (subst (Delivers chip) (sym b2) c) k2
              k' (omega arith) (f2 ∙ s))
            λ written w3 (e3, f3, b3). ends_by (ap (λ b. finish b w3) e3) (
              finish-Gave (stored total_iterations 0).0 w3 (stored total_iterations 0).1 w.board
                (subst (Follows card) (sym b3) k2) f3 (b3 ∙ b2)))

  dump_file-Gave :
      (name path : String) (w : World)
      → Delivers chip w.board
      → Follows card w.board
      → bank < 2 ^ 32
      → InStep bank w
      → saved w.trace ≡ []
      → Ends
          (dump_file chip.page_buf chip.ecc_buf name path bank w)
          (Gave w.board (reaction_if card.opens))
  unfolding dump_file
  dump_file-Gave name path w c f small k s =
      opened_so name _ card.opens (log (call (Call.f_open path)) w) c f small k s
        (f.open_reply path w.trace)

  -- Let the chip deliver its pages, let the bank be selected if it counts as initialized, let nothing be written to the file yet, and let the card open the
  -- file or not, take each write or not by what it was handed before, and close the file or not. Then
  -- the dump of either bank comes to an end. Without the file it returns -3 and hands nothing over. At
  -- the first write that is refused it returns -4, and has handed over the corrected pages of the bank up to the
  -- end of that write. If none is refused it has handed over all pages, and returns 0, or -5 if the file
  -- is not closed. For a number that is no bank it returns -2 and hands nothing over.
  pub dump_slc_raw-reaction :
      (w : World)
      → Delivers chip w.board
      → Follows card w.board
      → InStep bank w
      → saved w.trace ≡ []
      → Ends
          (dump_slc_raw chip.page_buf chip.ecc_buf bank w)
          (λ r w'. (r ≡ reaction.0) × (saved w'.trace ≡ reaction.1))
  unfolding dump_slc_raw reaction
  dump_slc_raw-reaction w c f k s = elim (Bool-cases (bank == nand_bank_slc)) [
    | inl e ↦
        rw e (
          ends_weaken (dump_file-Gave "SLC" "SLC.RAW" w c f (ground arith) k s)
            λ r w1 g. (g.0, g.1))
    | inr e ↦ elim (Bool-cases (bank == nand_bank_slccmpt)) [
      | inl e' ↦
          rw (e, e')
            (ends_weaken (dump_file-Gave "SLCCMPT" "SLCCMPT.RAW" w c f (ground arith) k s)
              λ r w1 g. (g.0, g.1))
      | inr e' ↦ rw (e, e') (ends_at _ w (refl, s))
    ]
  ]
