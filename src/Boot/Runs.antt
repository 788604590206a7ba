-- ===== src/Boot/Runs.antt =====
-- How `_main` ends, and what it has written then.
use vwii_nand_tools.Base.{
  ℕ, Option, none, some, take, arith, Bool, ◌≡◌, refl, ap, ap₂, ◌∙◌, sym, subst, is_set, ◌!=◌, ◌++◌,
  List, [], ◌∷◌, u32, inl, inr, Bool-cases, if◌then◌else◌,
}
use vwii_nand_tools.Machine.{World, Board, Event, load, call, word, Call, log, ◌>>=◌}
use vwii_nand_tools.Machine.Ends.{Ends, ends_at, ends_by, ends_then, ends_weaken}
use vwii_nand_tools.Machine.Calm.{Stored, Kept, kept, At, Calm, saved}
use vwii_nand_tools.Console.Blink.{panic2_setup}
use vwii_nand_tools.Console.Flashes.{flashes, panic2-flashes}
use vwii_nand_tools.Nand.{nand_max_page}
use vwii_nand_tools.Sdmmc.Total.{sdhc_init-Quiet, sdhc_exit-Calm}
use vwii_nand_tools.Dump.{dump_slc_raw, nand_bank_slc}
use vwii_nand_tools.Dump.Chip.{Chip, Works}
use vwii_nand_tools.Dump.Image.{image}
use vwii_nand_tools.Dump.File.{dump_slc_raw-image}
use vwii_nand_tools.Boot.{
  main, start_up, shutdown, after_mount, panic_at_mount, Ending, system_reset, panicked, skip_reg,
  panic_mount,
}
use vwii_nand_tools.Boot.Calls.{
  Idle, gecko_init-Calm, exception_initialize-Calm, mem_initialize-Calm, mem_shutdown-Calm,
  show_flags-Calm, irq_initialize-Calm, irq_enable-Calm, irq_set_alarm-Calm, irq_shutdown-Calm,
  crypto_initialize-Calm,
}

-- The event that came last.
abbrev pub newest : List Event → Option Event
newest [] = none
newest (e ∷ t) = some e

-- The system is reset, and this was written to the file.
abbrev pub Reset : List ℕ → Ending → World → Type 0
Reset file r w =
    (r ≡ system_reset) × (newest w.trace ≡ some (call Call.system_reset)) × (saved w.trace ≡ file)

-- The sensor bar flashed for 200 ms, twice, and this was written to the file.
abbrev pub Blinked : List ℕ → Ending → World → Type 0
Blinked file r w =
    (r ≡ panicked) × (take 2 (flashes w.trace) ≡ 200000 ∷ 200000 ∷ []) × (saved w.trace ≡ file)

module _ {bd : Board} {fs : Kept} where
  start_up-Calm : Idle bd → (a : ℕ) (w : World) → At bd fs w → Ends (start_up a w) (Calm bd fs)
  unfolding start_up
  start_up-Calm idle a w q = ends_then (gecko_init-Calm w q) λ _ w1 q.
      ends_then (exception_initialize-Calm _ q) λ _ w2 q.
        ends_then (mem_initialize-Calm a _ q) λ _ w3 q. ends_then (show_flags-Calm w3 q) λ _ w4 q.
          ends_then (irq_initialize-Calm w4 q) λ _ w5 q.
            ends_then (irq_enable-Calm 11 w5 q) λ _ w6 q.
              ends_then (irq_enable-Calm 17 w6 q) λ _ w7 q.
                ends_then (irq_enable-Calm 0 w7 q) λ _ w8 q.
                  ends_then (irq_set_alarm-Calm w8 q)
                    λ _ w9 q. ends_then (crypto_initialize-Calm idle _ q) λ _ w10 q. ends_at _ _ q

  shutdown-Reset : (w : World) → At bd fs w → Ends (shutdown w) (Reset fs.0.0)
  unfolding shutdown
  shutdown-Reset w q = ends_then (sdhc_exit-Calm _ q) λ _ w1 q.
      ends_then (irq_shutdown-Calm _ q) λ _ w2 q.
        ends_then (mem_shutdown-Calm _ q)
          λ _ w3 q. ends_at _ _ (refl, refl, ap (λ (k : Kept). k.0.0) q.1)

  panic_at_mount-Blinked : (w : World) → At bd fs w → Ends (panic_at_mount w) (Blinked fs.0.0)
  unfolding panic_at_mount panic2_setup
  panic_at_mount-Blinked w q =
      ends_then (panic2-flashes panic_mount w q)
        λ _ w1 (q1, e). ends_at _ w1 (refl, ap (take 2) e, ap (λ (k : Kept). k.0.0) q1.1)

-- The dump, and the shut-down behind it.
dumped :
    (chip : Chip) (w : World)
    → Works chip w.board
    → w.nand.initialized ≡ 0
    → Ends
        ((do _ ← dump_slc_raw chip.page_buf chip.ecc_buf nand_bank_slc; shutdown) w)
        (Reset (saved w.trace ++ image chip nand_bank_slc nand_max_page 0))
dumped chip w c fresh =
    ends_then (dump_slc_raw-image chip nand_bank_slc w (inl refl) (λ e. absurd (omega arith)) c)
      λ r w1 d. ends_weaken (shutdown-Reset w1 (refl, refl)) λ _ w2 (e, last, f). (e, last, f ∙ d.1)

-- What a run of `_main` gives: whether the register's bit is set and the card was mounted decides it.
abbrev pub Outcome : Chip → Bool → Bool → List ℕ → Ending → World → Type 0
Outcome chip skip failed file r w =
    if skip
    then Reset file r w
    else if failed
    then Blinked file r w
    else Reset (file ++ image chip nand_bank_slc nand_max_page 0) r w

decided :
    (chip : Chip) (skip fres : ℕ) (w : World)
    → Works chip w.board
    → w.nand.initialized ≡ 0
    → Ends
        (after_mount chip.page_buf chip.ecc_buf fres skip w)
        (Outcome chip (is_set skip 2) (fres != 0) (saved w.trace))
unfolding after_mount
decided chip skip fres w c fresh = elim (Bool-cases (is_set skip 2)) [
  | inl e ↦ rw e (shutdown-Reset w (refl, refl))
  | inr e ↦ rw e (elim (Bool-cases (fres != 0)) [
    | inl f ↦ rw f (panic_at_mount-Blinked _ (refl, refl))
    | inr f ↦ rw f (dumped chip w c fresh)
  ])
]

module _ (chip : Chip) (table_addr : ℕ) (w : World) (c : Works chip w.board) (idle : Idle w.board)
    (fresh : w.nand.initialized ≡ 0) (skip fres : ℕ)
    (reads : (t : List Event) → u32 (w.board.answer (load word skip_reg ∷ t)) ≡ skip)
    (mounts : (t : List Event) → w.board.answer (call Call.f_mount ∷ t) ≡ fres) where
  -- With a chip that works, a driver that has initialized no bank yet, an AES engine that is not busy, and a
  -- card that takes every byte, `_main` comes to an end that the bit 0x2 of register 0x0d800190 and the
  -- mounting of the card decide. If the bit is set, the last event is the reset of the system, and nothing
  -- was written. If it is clear and the card was not mounted, the sensor bar has at last flashed twice for
  -- 200 ms, the blink code 1, 1, and nothing was written. Else the last event is the reset of the system,
  -- and what was written are all pages that the chip holds in the bank SLC, in order, each corrected and
  -- followed by its spare area.
  pub main-Outcome :
      Ends
        (main table_addr chip.page_buf chip.ecc_buf w)
        (Outcome chip (is_set skip 2) (fres != 0) (saved w.trace))
  unfolding main
  main-Outcome = ends_then (start_up-Calm {fs = kept w} idle table_addr w (refl, refl)) λ _ w1 q.
      ends_then (sdhc_init-Quiet _ q) λ _ w2 q.
        let w2' = log (call (Call.gecko_printf "Mounting SD...\n" [])) w2 in
        let w3 = log (call Call.f_mount) w2' in
        let w4 = log (load word skip_reg) w3 in
        ends_by
          (ap₂ (λ f k. after_mount chip.page_buf chip.ecc_buf f k w4)
            (ap (λ (b : Board). b.answer (call Call.f_mount ∷ w2'.trace)) q.0 ∙ mounts w2'.trace)
            (ap (λ (b : Board). u32 (b.answer (load word skip_reg ∷ w3.trace))) q.0
              ∙ reads w3.trace))
          (subst
            (λ l.
              Ends (after_mount chip.page_buf chip.ecc_buf fres skip w4)
                (Outcome chip (is_set skip 2) (fres != 0) l))
            (ap (λ (k : Stored). k.0) q.1)
            (decided chip skip fres w4 (subst (Works chip) (sym q.0) c)
              (ap (λ (k : Stored). k.1) q.1 ∙ fresh)))
