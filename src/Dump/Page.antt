-- ===== src/Dump/Page.antt =====
-- The steps of the driver under a working chip: what each does to the bank and the page
-- addressed, those delivered, and the file.
use vwii_nand_tools.Base.{
  ℕ, Bool, true, false, ◌≡◌, sym, subst, ap, ◌∙◌, refl, List, [], ◌∷◌, Option, is_set, u32, leb,
  String,
}
use vwii_nand_tools.Machine.{
  World, Board, load, store, word, log, spin_done, when, run, gecko_printf, while_read32,
}
use vwii_nand_tools.Machine.Ends.{Ends, ends_at, ends_by, ends_then}
use vwii_nand_tools.Hollywood.{nand_bank, nand_ctrl, nand_unk2}
use vwii_nand_tools.Nand.{nand_wait_ctrl, nand_error, nand_busy_mask, nand_send_command, nand_reset}
use vwii_nand_tools.Dump.Chip.{Chip, Delivers, Keeps, selected}
use vwii_nand_tools.Machine.Calm.{saved}

-- `Keeps`, with the driver's variables as they were.
abbrev pub Same : World → World → Type 0
Same w w' = Keeps w w' × (w'.nand ≡ w.nand)

abbrev pub EndsSame : {A : Type 0} → World → Option (A × World) → Type 0
EndsSame w run = Ends run (λ _ w'. Same w w')

-- What a load gives.
abbrev pub read_at : ℕ → World → ℕ
read_at a w = u32 (w.board.answer (load word a ∷ w.trace))

-- A message, or none.
pub message :
    (w0 : World) (b : Bool) (text : String) (args : List ℕ) (w : World)
    → Same w0 w
    → EndsSame w0 (when b (gecko_printf text args) w)
message w0 true text args w s = ends_at tt _ s
message w0 false text args w s = ends_at tt _ s

module _ (chip : Chip) (w0 : World) (c : Delivers chip w0.board) where
  pub still-Delivers : {board : Board} → board ≡ w0.board → Delivers chip board
  still-Delivers e = subst (Delivers chip) (sym e) c

  not_busy :
      (w : World)
      → Same w0 w
      → EndsSame w0 (while_read32 nand_ctrl (λ v. is_set v nand_busy_mask) w)
  not_busy w s =
      let c' = still-Delivers s.0.0 in
      ends_by
        (spin_done w.board.polls nand_ctrl (λ v. is_set v nand_busy_mask) w c'.polls
          (c'.free w.trace))
        (ends_at tt (log (load word nand_ctrl) w) s)

  pub nand_wait_ctrl-Same : (w : World) → Same w0 w → EndsSame w0 (nand_wait_ctrl w)
  unfolding nand_wait_ctrl
  nand_wait_ctrl-Same w s = ends_then (not_busy w s) λ _ w1 s1.
      ends_then
        (message w0 (is_set (read_at nand_ctrl w1) nand_error) "NAND: Error on wait\n" []
          (log (load word nand_ctrl) w1) s1)
        λ _ w2 s2. ends_at tt _ s2

-- From here on.
here : (w : World) → Same w w
here w = ((refl, refl, refl, refl), refl)

module _ (chip : Chip) (w : World) (c : Delivers chip w.board) where
  idle_here : EndsSame w (while_read32 nand_ctrl (λ v. is_set v nand_busy_mask) w)
  idle_here = not_busy chip w c w (here w)

  settled_here : EndsSame w (while_read32 nand_unk2 (λ v. leb 0x80000000 v) w)
  settled_here =
      ends_by
        (spin_done w.board.polls nand_unk2 (λ v. leb 0x80000000 v) w c.polls (c.settled w.trace))
        (ends_at tt (log (load word nand_unk2) w) (here w))

-- The bank is selected, and the file is as it was.
abbrev pub Selected : ℕ → World → World → Type 0
Selected bank w w' =
    (w'.board ≡ w.board) × (selected w'.trace ≡ bank) × (saved w'.trace ≡ saved w.trace)

-- `nand_reset` selects the bank, behind its clearing loop, in which another one is.
pub nand_reset-Selected :
    (chip : Chip) (bank : ℕ) (w : World)
    → Delivers chip w.board
    → Ends (nand_reset bank w) (λ _ w'. Selected (u32 bank) w w')
unfolding nand_reset nand_send_command
nand_reset-Selected chip bank w c =
    ends_then (idle_here chip (log (store word nand_ctrl 0) w) c) λ _ w1 s1.
      let c1 : Delivers chip w1.board = subst (Delivers chip) (sym s1.0.0) c in
      ends_then (settled_here chip _ c1) λ _ w2 s2.
        let c2 : Delivers chip w2.board = subst (Delivers chip) (sym s2.0.0) c1 in
        ends_then (idle_here chip _ c2) λ _ w3 s3.
          let c3 : Delivers chip w3.board = subst (Delivers chip) (sym s3.0.0) c2 in
          let w4 = log (store word nand_bank (u32 bank)) (log (store word nand_ctrl 0) w3) in
          ends_then (nand_wait_ctrl-Same chip w4 c3 _ (here w4)) λ _ w5 s5. ends_at _ _ (
            s5.0.0 ∙ s3.0.0 ∙ s2.0.0 ∙ s1.0.0,
            ap (λ (p : ℕ × ℕ). p.0) s5.0.1,
            s5.0.3 ∙ s3.0.3 ∙ s2.0.3 ∙ s1.0.3,
          )
