-- ===== src/Console/Flashes.antt =====
-- What the blink codes of armboot/system/panic.c look like: how long the sensor bar is lit, and how often.
use vwii_nand_tools.Base.{
  ℕ, ◌≡◌, refl, ap, ◌∙◌, ◌==◌, ◌*◌, if◌then◌else◌, arith, u32, bit_or, bit_and, complement, List,
  [], ◌∷◌, Option, none, some,
}
use vwii_nand_tools.Base.Bits.{bit, bit-lt, bit-bit_or, bit-bit_and}
use vwii_nand_tools.Machine.{World, Event, Call, load, store, call, word, half, byte, log}
use vwii_nand_tools.Machine.Ends.{Ends, ends_at, ends_then}
use vwii_nand_tools.Machine.Calm.{Kept, At}
use vwii_nand_tools.Machine.{Board, ◌>>◌}
use vwii_nand_tools.Hollywood.{hw_gpio1out, hw_gpio1_sense}
use vwii_nand_tools.Seeprom.Send.{bit-u32}
use vwii_nand_tools.Console.Blink.{panic2_setup, panic2_args, panic2_pass}

-- What an event makes of the sensor bar: its line is bit 8 of the output register.
abbrev pub switched : Event → Option ℕ
switched (load width a) = none
switched (store word a v) = if a == hw_gpio1out then some (bit 8 v) else none
switched (store half a v) = none
switched (store byte a v) = none
switched (call c) = none

-- Whether the sensor bar is lit.
abbrev pub lit : List Event → ℕ
lit [] = 0
lit (e ∷ t) = elim (switched e) [ none ↦ lit t | some v ↦ v ]

-- How long an event waits.
abbrev pub waits : Event → Option ℕ
waits (load width a) = none
waits (store width a v) = none
waits (call c) = elim c [ Call.udelay d ↦ some d | _ ↦ none ]

-- The waits with the sensor bar lit, the last one first.
abbrev pub flashes : List Event → List ℕ
flashes [] = []
flashes (e ∷ t) = elim (waits e) [
  | none ↦ flashes t
  | some d ↦ if lit t == 1 then d ∷ flashes t else flashes t
]

-- The flashes of a code, one of 200 ms for each unit of an entry, in front of those before.
abbrev pub coded : List ℕ → List ℕ → List ℕ
coded [] before = before
coded (arg ∷ args) before = coded args (u32 (arg * 200000) ∷ before)

raised_bit : bit 8 hw_gpio1_sense ≡ 1
unfolding bit
raised_bit = refl

lowered_bit : bit 8 (complement hw_gpio1_sense) ≡ 0
unfolding bit
lowered_bit = refl

switched_on : (x : ℕ) → bit 8 (u32 (bit_or x hw_gpio1_sense)) ≡ 1
switched_on x =
    bit-u32 8 (bit_or x hw_gpio1_sense) (omega arith)
    ∙ bit-bit_or 8 x hw_gpio1_sense
    ∙ omega (arith, raised_bit, bit-lt 8 x)

switched_off : (x : ℕ) → bit 8 (u32 (bit_and x (complement hw_gpio1_sense))) ≡ 0
switched_off x =
    bit-u32 8 (bit_and x (complement hw_gpio1_sense)) (omega arith)
    ∙ bit-bit_and 8 x (complement hw_gpio1_sense)
    ∙ omega (arith, lowered_bit, bit-lt 8 x)

-- A wait with the sensor bar lit, and one with it dark.
kept_lit : (x d : ℕ) (l : List ℕ) → x ≡ 1 → (if x == 1 then d ∷ l else l) ≡ d ∷ l
kept_lit x d l e = ground arith

kept_dark : (x d : ℕ) (l : List ℕ) → x ≡ 0 → (if x == 1 then d ∷ l else l) ≡ l
kept_dark x d l e = ground arith

-- The sensor bar is dark, and so many flashes were seen.
abbrev Dark : Board → Kept → List ℕ → World → Type 0
Dark bd fs l w = At bd fs w × (lit w.trace ≡ 0) × (flashes w.trace ≡ l)

module _ {bd : Board} {fs : Kept} where
  args-Dark :
      (args : List ℕ) (l : List ℕ) (w : World)
      → Dark bd fs l w
      → Ends (panic2_args args w) (λ _ w'. Dark bd fs (coded args l) w')
  unfolding panic2_args
  args-Dark [] l w q = ends_at tt w q
  args-Dark (arg ∷ args) l w (q, dark, e) =
      let d = u32 (arg * 200000) in
      let w1 = log (load word hw_gpio1out) w in
      let x = u32 (w.board.answer w1.trace) in
      let w2 =
        log (call (Call.udelay d))
          (log (store word hw_gpio1out (u32 (bit_or x hw_gpio1_sense))) w1) in
      let w3 = log (load word hw_gpio1out) w2 in
      let y = u32 (w.board.answer w3.trace) in
      let w4 =
        log (call (Call.udelay 300000))
          (log (store word hw_gpio1out (u32 (bit_and y (complement hw_gpio1_sense)))) w3) in
      args-Dark args (d ∷ l) w4 (
        q,
        switched_off y,
        kept_dark _ 300000 _ (switched_off y) ∙ kept_lit _ d _ (switched_on x) ∙ ap (λ r. d ∷ r) e,
      )

  -- The code is shown, behind the flashes before.
  pub panic2-flashes :
      (args : List ℕ) (w : World)
      → At bd fs w
      → Ends
          ((do panic2_setup; panic2_pass args) w)
          (λ _ w'. At bd fs w' × (flashes w'.trace ≡ coded args (flashes w.trace)))
  unfolding panic2_setup panic2_pass
  panic2-flashes args w q =
      ends_then
        (args-Dark args (flashes w.trace) _
          (q, switched_off (u32 (w.board.answer (load word hw_gpio1out ∷ w.trace))), refl))
        λ _ w1 (q1, dark, e).
          ends_at tt (log (call (Call.udelay 1000000)) w1) (q1, kept_dark _ 1000000 _ dark ∙ e)
