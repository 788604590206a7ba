-- ===== src/Console/Timer.antt =====
-- `udelay` of armboot/common/utils.c on a timer that counts up and wraps around at 2 ^ 32.
use native.Mathlib.Decide.{dec_lt}
use vwii_nand_tools.Base.{
  ℕ, zero, suc, Bool, true, false, ◌≡◌, refl, sym, subst, ap, ◌∙◌, ◌<◌, ◌≤◌, ◌+◌, ◌*◌, ◌/◌, ◌^◌,
  arith, List, ◌∷◌, Bool-cases, inl, inr, u32, ltb, leb, if◌then◌else◌, none, some, Option,
}
use vwii_nand_tools.Machine.{
  M, read32, ◌>>=◌, ◌>>◌, World, Board, Event, load, word, log, spin, while_read32,
}
use vwii_nand_tools.Machine.Ends.{Ends, ends_at, ends_by, ends_then, ends_weaken}
use vwii_nand_tools.Hollywood.{hw_timer}
use vwii_nand_tools.Console.Delay.{ticks_of, until, until_polls, udelay}

-- The register shows the ticks so far, cut to 32 bits. A read takes at least one tick and at most
-- `step` of them.
pub record Ticks (ticks : List Event → ℕ) (step : ℕ) (board : Board) : Type 0 where
  pub shows :
      (t : List Event)
      → u32 (board.answer (load word hw_timer ∷ t)) ≡ u32 (ticks (load word hw_timer ∷ t))
  pub goes_on : (t : List Event) → ticks t < ticks (load word hw_timer ∷ t)
  pub slow : (t : List Event) → ticks (load word hw_timer ∷ t) ≤ ticks t + step

ltb-false : (a b : ℕ) → b ≤ a → ltb a b ≡ false
ltb-false a b h = ground arith

ltb-true : (a b : ℕ) → a < b → ltb a b ≡ true
ltb-true a b h = ground arith

ltb-false-le : (a b : ℕ) → ltb a b ≡ false → b ≤ a
ltb-false-le a b h = ground arith

ltb-true-lt : (a b : ℕ) → ltb a b ≡ true → a < b
ltb-true-lt a b h = ground arith

leb-true : (a b : ℕ) → a ≤ b → leb a b ≡ true
leb-true a b h = ground arith

leb-false : (a b : ℕ) → b < a → leb a b ≡ false
leb-false a b h = ground arith

module _ (ticks : List Event → ℕ) (step : ℕ) where
  abbrev time : World → ℕ
  time w = ticks w.trace

  -- The loop that waits for `last`, from a reading on: it ends, at or behind `last` in the same turn of
  -- the timer, at which the waiting began.
  until-reached :
      (n turn last : ℕ) (w : World)
      → Ticks ticks step w.board
      → last + step ≤ 2 ^ 32
      → turn * 2 ^ 32 ≤ time w
      → time w < suc turn * 2 ^ 32
      → turn * 2 ^ 32 + last ≤ time w + n
      → Ends (until n last (u32 (time w)) w) (λ r w'. turn * 2 ^ 32 + last ≤ time w')
  unfolding until
  until-reached zero turn last w c fits low high fuel =
      ends_by
        (ap (λ b. if b then none else some (u32 (time w), w))
          (ltb-false (u32 (time w)) last (omega arith)))
        (ends_at _ w (omega arith))
  until-reached (suc n) turn last w c fits low high fuel =
      elim (Bool-cases (ltb (u32 (time w)) last)) [
        | inr over ↦
            rw (over, until) (ends_at _ w (omega (arith, ltb-false-le (u32 (time w)) last over)))
        | inl more ↦
            let before : u32 (time w) < last = ltb-true-lt (u32 (time w)) last more in
            let w1 = log (load word hw_timer) w in
            let later = c.goes_on w.trace in
            let soon = c.slow w.trace in
            rw (more, until)
              (ends_by (ap (λ r. until n last r w1) (c.shows w.trace))
                (until-reached n turn last w1 c fits (omega arith) (omega arith) (omega arith)))
      ]

  -- The loop that waits for the timer to wrap around: it ends in the next turn.
  wrapped :
      (n turn now : ℕ) (w : World)
      → Ticks ticks step w.board
      → step ≤ now
      → now < 2 ^ 32
      → turn * 2 ^ 32 + now ≤ time w
      → time w < suc turn * 2 ^ 32
      → suc turn * 2 ^ 32 ≤ time w + n
      → Ends (spin n hw_timer (λ v. leb now v) w) (λ r w'.
        (w'.board ≡ w.board) × (suc turn * 2 ^ 32 ≤ time w') × (time w' < suc turn * 2 ^ 32 + step))
  unfolding spin
  wrapped zero turn now w c long short low high fuel = absurd (omega arith)
  wrapped (suc n) turn now w c long short low high fuel =
      let w1 = log (load word hw_timer) w in
      let later = c.goes_on w.trace in
      let soon = c.slow w.trace in
      let shown = c.shows w.trace in
      elim (dec_lt (time w1) (suc turn * 2 ^ 32)) [
        | yes same ↦
            ends_by (ap picked (ap (leb now) shown ∙ leb-true now (u32 (time w1)) (omega arith)))
              (wrapped n turn now w1 c long short (omega arith) same (omega arith))
        | no next ↦
            ends_by (ap picked (ap (leb now) shown ∙ leb-false now (u32 (time w1)) (omega arith)))
              (ends_at tt w1 (refl, omega arith, omega arith))
      ]
    where
      picked : Bool → Option (Unit {0} × World)
      picked b = elim b [
        | true ↦ spin n hw_timer (λ v. leb now v) (log (load word hw_timer) w)
        | false ↦ some (tt, log (load word hw_timer) w)
      ]

  ticks_of-lt : (d : ℕ) → ticks_of d < 2 ^ 29
  unfolding ticks_of
  ticks_of-lt d = ground arith

  ticks_of-enough : (d : ℕ) → d * 19 < 2 ^ 32 → d * 19 / 10 ≤ ticks_of d
  unfolding ticks_of
  ticks_of-enough d h = ground arith

  -- What follows on the first reading, which gave `now`.
  abbrev waiting : ℕ → ℕ → World → Option (ℕ × World)
  waiting d now w =
      let last = u32 (now + ticks_of d) in
      (if ltb last now
          then (do
            while_read32 hw_timer (λ v. leb now v)
            now' ← read32 hw_timer
            until_polls last now')
          else until_polls last now)
        w

  waiting-reached :
      (d turn : ℕ) (w : World)
      → Ticks ticks step w.board
      → 2 ^ 32 ≤ w.board.polls
      → step ≤ 2 ^ 31
      → turn * 2 ^ 32 ≤ time w
      → time w < suc turn * 2 ^ 32
      → u32 (time w + ticks_of d) + step ≤ 2 ^ 32
      → Ends (waiting d (u32 (time w)) w) (λ r w'. time w + ticks_of d ≤ time w')
  waiting-reached d turn w c polls small low high fits =
      let now = u32 (time w) in
      let last = u32 (now + ticks_of d) in
      let short = ticks_of-lt d in
      elim (dec_lt last now) [
        | no straight ↦
            ends_by
              (ap (λ b. (if b then around else until_polls last now) w)
                (ltb-false last now (omega arith)))
              (ends_weaken
                (until-reached w.board.polls turn last w c (omega arith) low high (omega arith))
                λ r w' h. omega arith)
        | yes over ↦
            ends_by
              (ap (λ b. (if b then around else until_polls last now) w) (ltb-true last now over))
              (ends_then {rest = λ _. do now' ← read32 hw_timer; until_polls last now'}
                (wrapped w.board.polls turn now w c (omega arith) (omega arith) (omega arith) high
                  (omega arith))
                λ _ w1 (b, low1, high1).
                  let c1 : Ticks ticks step w1.board = subst (Ticks ticks step) (sym b) c in
                  let polls1 : 2 ^ 32 ≤ w1.board.polls =
                    subst (λ (board : Board). 2 ^ 32 ≤ board.polls) (sym b) polls in
                  let w2 = log (load word hw_timer) w1 in
                  let later = c1.goes_on w1.trace in
                  let soon = c1.slow w1.trace in
                  ends_by (ap (λ r. until_polls last r w2) (c1.shows w1.trace)) (
                    ends_weaken
                      (until-reached w1.board.polls (suc turn) last w2 c1 (omega arith)
                        (omega arith) (omega arith) (omega arith))
                      λ r w' h. omega arith))
      ]
    where
      around : M ℕ
      around = do
        while_read32 hw_timer (λ v. leb (u32 (time w)) v)
        now' ← read32 hw_timer
        until_polls (u32 (u32 (time w) + ticks_of d)) now'

  -- Let the timer show the ticks so far cut to 32 bits, each reading take at least one tick and at most
  -- `step`, no more than 2 ^ 31, let the waits be given 2 ^ 32 rounds, let 19 d fit into 32 bits, and
  -- let the delay not end within the last `step` ticks before the timer wraps around. Then `udelay` of d
  -- microseconds is over, with the timer wrapping around meanwhile or not, and not before 1.9 d ticks,
  -- rounded down, have passed.
  pub udelay-enough :
      (d : ℕ) (w : World)
      → Ticks ticks step w.board
      → 2 ^ 32 ≤ w.board.polls
      → step ≤ 2 ^ 31
      → d * 19 < 2 ^ 32
      → u32 (ticks (load word hw_timer ∷ w.trace) + ticks_of d) + step ≤ 2 ^ 32
      → Ends (udelay d w) (λ r w'. ticks w.trace + d * 19 / 10 ≤ ticks w'.trace)
  unfolding udelay
  udelay-enough d w c polls small short fits =
      let w1 = log (load word hw_timer) w in
      let turn = time w1 / 2 ^ 32 in
      let later = c.goes_on w.trace in
      let enough = ticks_of-enough d short in
      ends_by (ap (λ now. waiting d now w1) (c.shows w.trace)) (
        ends_weaken (waiting-reached d turn w1 c polls small (omega arith) (omega arith) fits)
          λ r w' h. omega arith)
