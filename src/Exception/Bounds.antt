-- ===== src/Exception/Bounds.antt =====
-- The handler of exceptions comes to its blink code and reads no table out of its bounds.
use vwii_nand_tools.Base.{
  ap, ℕ, zero, suc, ◌+◌, ◌<◌, ◌≡◌, u32, ◌&&&◌, ◌>>>◌, ◌==◌, ◌!=◌, List, [], ◌∷◌, length, take,
  String, arith,
}
use vwii_nand_tools.Base.Bits.{bit_and_mask}
use vwii_nand_tools.Machine.{Board, M, World, Call, call, ask, gecko_printf, ◌>>=◌, ◌>>◌}
use vwii_nand_tools.Machine.Ends.{Ends, ends_at, ends_then, ends_if, ends_weaken}
use vwii_nand_tools.Machine.Calm.{Kept, At, Calm, when_ends, maybe_say}
use vwii_nand_tools.Console.Blink.{panic2_setup, panic2_pass}
use vwii_nand_tools.Console.Flashes.{flashes, panic2-flashes}
use vwii_nand_tools.Exception.{
  exceptions, aborts, domvalid, panic_exception, entry, clamped, fault_pc, less, show_four,
  show_last, show_abort, show_cause, show_code, exc_handler,
}

-- An entry within the bounds.
entry-Calm :
    {bd : Board} {fs : Kept} (A : Type 0) (xs : List A) (i : ℕ) (w : World)
    → i < length xs
    → At bd fs w
    → Ends (entry xs i w) (Calm bd fs)
unfolding entry
entry-Calm A [] i w p q = absurd (omega arith)
entry-Calm A (x ∷ xs) zero w p q = ends_at x w q
entry-Calm A (x ∷ xs) (suc i) w p q = entry-Calm A xs i w (omega arith) q

clamped_lt : (kind : ℕ) → clamped kind < 9
unfolding clamped
clamped_lt kind = ground arith

low_lt : (fsr : ℕ) → (fsr &&& 0xf) < 16
low_lt fsr = omega (arith, bit_and_mask 4 fsr)

show_four-Calm :
    {bd : Board} {fs : Kept} (regs : List ℕ) (whole : length regs ≡ 16) (text : String) (i : ℕ)
    (w : World)
    → i + 3 < 16
    → At bd fs w
    → Ends (show_four text regs i w) (Calm bd fs)
unfolding show_four
show_four-Calm regs whole text i w p q = ends_then (entry-Calm _ regs i w (omega arith) q) λ a w1 q.
    ends_then (entry-Calm _ regs (i + 1) w1 (omega arith) q) λ b w2 q.
      ends_then (entry-Calm _ regs (i + 2) w2 (omega arith) q)
        λ c w3 q. ends_then (entry-Calm _ regs (i + 3) w3 (omega arith) q) λ d w4 q. ends_at _ _ q

show_last-Calm :
    {bd : Board} {fs : Kept} (regs : List ℕ) (whole : length regs ≡ 16) (pc : ℕ) (w : World)
    → At bd fs w
    → Ends (show_last regs pc w) (Calm bd fs)
unfolding show_last
show_last-Calm regs whole pc w q = ends_then (entry-Calm _ regs 12 w (omega arith) q) λ a w1 q.
    ends_then (entry-Calm _ regs 13 w1 (omega arith) q)
      λ b w2 q. ends_then (entry-Calm _ regs 14 w2 (omega arith) q) λ c w3 q. ends_at _ _ q

show_abort-Calm :
    {bd : Board} {fs : Kept} (kind fsr : ℕ) (w : World)
    → At bd fs w
    → Ends (show_abort kind fsr w) (Calm bd fs)
unfolding show_abort
show_abort-Calm kind fsr w q =
    ends_then (entry-Calm _ aborts (fsr &&& 0xf) w (low_lt fsr) q) λ name w1 q.
      ends_then (entry-Calm _ domvalid (fsr &&& 0xf) _ (low_lt fsr) q) λ valid w2 q.
        ends_then (maybe_say (valid != 0) "Domain: %d\n" (((fsr >>> 4) &&& 0xf) ∷ []) w2 q)
          λ _ w3 q.
            when_ends (kind == 4)
              (do far ← ask (call Call.get_far); gecko_printf "Address: 0x%08x\n" (u32 far ∷ [])) w3
              (ends_at _ _ q) q

show_cause-Calm :
    {bd : Board} {fs : Kept} (kind : ℕ) (w : World)
    → At bd fs w
    → Ends (show_cause kind w) (Calm bd fs)
unfolding show_cause
show_cause-Calm {bd = bd} {fs = fs} kind w q =
    ends_if (kind == 3) _ _ w (ends_then (ifsr w q) λ fsr w1 q. show_abort-Calm kind (u32 fsr) w1 q)
      (ends_if (kind == 4) _ _ w
        (ends_then (dfsr w q) λ fsr w1 q. show_abort-Calm kind (u32 fsr) w1 q) (ends_at _ _ q))
  where
    ifsr : (w : World) → At bd fs w → Ends (ask (call Call.get_ifsr) w) (Calm bd fs)
    ifsr w q = ends_at _ _ q

    dfsr : (w : World) → At bd fs w → Ends (ask (call Call.get_dfsr) w) (Calm bd fs)
    dfsr w q = ends_at _ _ q

-- The code 1, 3, 1 was shown at last: the sensor bar flashed for 200, 600 and 200 ms.
abbrev pub Shown : Board → Kept → {A : Type 0} → A → World → Type 0
Shown bd fs a w = At bd fs w × (take 3 (flashes w.trace) ≡ 200000 ∷ 600000 ∷ 200000 ∷ [])

panic2-Shown :
    {bd : Board} {fs : Kept} (w : World)
    → At bd fs w
    → Ends ((do panic2_setup; panic2_pass panic_exception) w) (Shown bd fs)
panic2-Shown w q =
    ends_weaken (panic2-flashes panic_exception w q) λ _ w1 (q1, e). (q1, ap (take 3) e)

-- With all sixteen registers saved, the handler of exceptions comes to its blink code for every type of
-- exception and every fault status that the processor gives: its tables are never read out of bounds,
-- nothing is written to the file, and the last three flashes of the sensor bar are of 200, 600 and 200 ms.
pub exc_handler-Shown :
    {bd : Board} {fs : Kept} (type spsr : ℕ) (regs : List ℕ) (w : World)
    → length regs ≡ 16
    → At bd fs w
    → Ends (exc_handler type spsr regs w) (Shown bd fs)
unfolding exc_handler
exc_handler-Shown type spsr regs w whole q =
    let kind = clamped type in
    ends_then (entry-Calm _ exceptions kind w (clamped_lt type) q) λ name w1 q.
      ends_then (entry-Calm _ regs 15 _ (omega arith) q) λ r15 w2 q.
        let pc = fault_pc kind r15 in
        ends_then (show_four-Calm regs whole _ 0 _ (omega arith) q) λ _ w3 q.
          ends_then (show_four-Calm regs whole _ 4 w3 (omega arith) q) λ _ w4 q.
            ends_then (show_four-Calm regs whole _ 8 w4 (omega arith) q) λ _ w5 q.
              ends_then (show_last-Calm regs whole pc w5 q) λ _ w6 q.
                ends_then (show_cause-Calm kind _ q) λ _ w7 q.
                  ends_then (when_ends (kind != 3) (code_dump pc) w7 (ends_at _ _ q) q)
                    λ _ w8 q. panic2-Shown w8 q
  where
    code_dump : ℕ → M (Unit {0})
    code_dump pc = do
      gecko_printf "Code dump:\n" []
      show_code "%08x:  %08x %08x %08x %08x\n" (less pc 16)
      show_code "%08x: *%08x %08x %08x %08x\n" pc
      show_code "%08x:  %08x %08x %08x %08x\n" (u32 (pc + 16))
