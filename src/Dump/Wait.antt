-- ===== src/Dump/Wait.antt =====
-- What the driver's wait does under a working chip, with the interrupt that ends it.
use vwii_nand_tools.Base.{
  u32, ℕ, zero, suc, Bool, true, false, ◌≡◌, refl, sym, subst, ap, ◌∙◌, ◌<◌, arith, [], ◌∷◌, some,
  none, Option, is_set, ◌==◌, if◌then◌else◌, bit_and,
}
use vwii_nand_tools.Machine.{World, Nand, Call, load, store, call, word, log, and_then, when, run}
use vwii_nand_tools.Machine.Ends.{Ends, ends_at, ends_by, ends_then, ends_weaken}
use vwii_nand_tools.Hollywood.{nand_ctrl, hw_armirqmask, hw_armirqflag}
use vwii_nand_tools.Irq.Handler.{irq_handler, service_flags, let_in, acknowledge}
use vwii_nand_tools.Nand.{nand_error, nand_irq}
use vwii_nand_tools.Nand.Wait.{sleep, wait_rounds, nand_wait}
use vwii_nand_tools.Machine.Calm.{saved}
use vwii_nand_tools.Dump.Chip.{Chip, Delivers, Keeps, place, awaits, delivered}
use vwii_nand_tools.Dump.Page.{Same, message, read_at}

-- The page addressed was delivered, and the driver's flag is set.
abbrev pub Delivered : World → World → Type 0
Delivered w w' =
    (w'.board ≡ w.board)
    × (place w'.trace ≡ place w.trace)
    × (delivered w'.trace ≡ place w.trace)
    × (saved w'.trace ≡ saved w.trace)
    × (w'.nand.irq_flag ≡ 1)
    × (w'.nand.initialized ≡ w.nand.initialized)

-- `nand_irq` sets the flag, and settles the bus.
abbrev Flagged : World → World → Type 0
Flagged w w' = Keeps w w' × (w'.nand.irq_flag ≡ 1) × (w'.nand.initialized ≡ w.nand.initialized)

nand_irq-Flagged : (w : World) → Ends (nand_irq w) (λ _ w'. Flagged w w')
unfolding nand_irq
nand_irq-Flagged w =
    ends_then
      (message w (is_set (read_at nand_ctrl w) nand_error) "NAND: Error on IRQ\n" []
        (log (load word nand_ctrl) w) ((refl, refl, refl, refl), refl))
      λ _ w1 s.
        ends_at tt
          (record w1 {
            trace = call (Call.ahb_flush_to 0) ∷ call (Call.ahb_flush_from 3) ∷ w1.trace;
            nand = record w1.nand { irq_flag = 1 };
          })
          (s.0, refl, ap (λ (n : Nand). n.initialized) s.1)

-- The service of the chip's interrupt, alone.
service_flags-Delivered : (w : World) → Ends (service_flags 2 w) (λ _ w'. Delivered w w')
unfolding service_flags acknowledge
service_flags-Delivered w =
    ends_then
      (nand_irq-Flagged
        (log (store word hw_armirqflag 2) (log (store word nand_ctrl 0x7fffffff) w)))
      λ _ w1 f. ends_at tt w1 (f.0.0, f.0.1, f.0.2, f.0.3, f.1, f.2)

irq_handler-Delivered :
    (chip : Chip) (w : World)
    → Delivers chip w.board
    → awaits w.trace ≡ true
    → Ends (irq_handler w) (λ _ w'. Delivered w w')
unfolding irq_handler
irq_handler-Delivered chip w c h =
    let w1 = log (load word hw_armirqmask) w in
    let w2 = log (load word hw_armirqflag) w1 in
    let enabled = u32 (w.board.answer w1.trace) in
    ends_by
      (ap (λ f. service_flags f w2)
        (ap (λ x. bit_and x enabled) (c.pending w1.trace h) ∙ c.enabled w.trace h))
      (service_flags-Delivered w2)

let_in-Delivered :
    (chip : Chip) (w : World)
    → Delivers chip w.board
    → awaits w.trace ≡ true
    → Ends (let_in w) (λ _ w'. Delivered w w')
unfolding let_in
let_in-Delivered chip w c h =
    ends_by (ap (λ b. if b then irq_handler w else some (tt, w)) (c.taken w.trace h))
      (irq_handler-Delivered chip w c h)

-- Sleep, or none.
may_sleep :
    (b : Bool) (w : World)
    → Ends (when b (run Call.irq_wait) w) (λ _ w'. Same w w' × (awaits w'.trace ≡ awaits w.trace))
may_sleep true w = ends_at tt _ (((refl, refl, refl, refl), refl), refl)
may_sleep false w = ends_at tt _ (((refl, refl, refl, refl), refl), refl)

Delivered-Same : (u v w : World) → Same u v → Delivered v w → Delivered u w
Delivered-Same u v w ((b, r, d, f), n) (b', r', d', f', g, i) =
    (b' ∙ b, r' ∙ r, d' ∙ r, f' ∙ f, g, i ∙ ap (λ (x : Nand). x.initialized) n)

-- A round of the wait, which an interrupt ends.
sleep-Delivered :
    (chip : Chip) (w : World)
    → Delivers chip w.board
    → awaits w.trace ≡ true
    → Ends (sleep w) (λ _ w'. Delivered w w')
unfolding sleep
sleep-Delivered chip w c h =
    let w1 = log (call Call.irq_kill) w in
    let cookie = w.board.answer w1.trace in
    ends_then (may_sleep (w.nand.irq_flag == 0) w1) λ _ w2 (s, k).
      let w3 = log (call (Call.irq_restore cookie)) w2 in
      ends_weaken (let_in-Delivered chip w3 (subst (Delivers chip) (sym s.0.0) c) (k ∙ h))
        λ _ w4 d. Delivered-Same w w2 w4 s d

flag_set : (x : ℕ) → x ≡ 1 → (x == 0) ≡ false
flag_set x e = ground arith

awake : (n : ℕ) (w : World) → w.nand.irq_flag ≡ 1 → wait_rounds n w ≡ some (tt, w)
unfolding wait_rounds
awake zero w e = ap (λ b. if b then none else some (tt, w)) (flag_set _ e)
awake (suc n) w e = ap picked (flag_set _ e)
  where
    picked : Bool → Option (Unit {0} × World)
    picked b = elim b [ true ↦ and_then (sleep w) (λ _. wait_rounds n) | false ↦ some (tt, w) ]

rounds-Delivered :
    (chip : Chip) (n : ℕ) (w : World)
    → Delivers chip w.board
    → awaits w.trace ≡ true
    → 0 < n
    → w.nand.irq_flag ≡ 0
    → Ends (wait_rounds n w) (λ _ w'. Delivered w w')
unfolding wait_rounds
rounds-Delivered chip zero w c h p e = absurd (omega arith)
rounds-Delivered chip (suc n) w c h p e =
    ends_by (ap picked (flag_clear _ e))
      (ends_then (sleep-Delivered chip w c h) λ _ w1 d. ends_by (awake n w1 d.4) (ends_at tt w1 d))
  where
    picked : Bool → Option (Unit {0} × World)
    picked b = elim b [ true ↦ and_then (sleep w) (λ _. wait_rounds n) | false ↦ some (tt, w) ]

    flag_clear : (x : ℕ) → x ≡ 0 → (x == 0) ≡ true
    flag_clear x e = ground arith

-- With a chip that works, `nand_wait` behind a command is over: the page addressed was delivered.
pub nand_wait-Delivered :
    (chip : Chip) (w : World)
    → Delivers chip w.board
    → awaits w.trace ≡ true
    → w.nand.irq_flag ≡ 0
    → Ends (nand_wait w) (λ _ w'. Delivered w w')
unfolding nand_wait
nand_wait-Delivered chip w c h e = rounds-Delivered chip w.board.polls w c h c.polls e
