-- ===== src/Seeprom/Send.antt =====
-- What `send_bits` of armboot/system/seeprom.c puts on the wire, as the EEPROM sees it: a data bit
-- each time that the clock rises.
use mathlib.Core.List.{append_assoc, append-nil}
use native.Mathlib.Nat.{pow-le-pow_right, one-le-pow}
use vwii_nand_tools.Base.{
  ℕ, ◌≤◌, zero, suc, Bool, true, false, ◌*◌, ◌^◌, ◌<◌, ◌≡◌, refl, sym, ap, ◌∙◌, arith, some, none,
  Option, List, [], ◌∷◌, ◌++◌, is_set, ◌<<<◌, complement, if◌then◌else◌, ◌==◌, ◌&&◌, u32, ◌!=◌,
  Bool-cases, inl, inr, bit_or, bit_and, max, min,
}
use vwii_nand_tools.Base.Bits.{bit, bit_and_mask, bit_and_pow, bit-lt, bit-bit_or, bit-bit_and}
use vwii_nand_tools.Base.Tables.{passes_below, passes_below_sound}
use vwii_nand_tools.Machine.{M, World, Board, Event, Call, load, store, call, word, half, byte, log}
use vwii_nand_tools.Hollywood.{hw_gpio1out}
use vwii_nand_tools.Seeprom.{send_bits, gp_eep_mosi, gp_eep_clk}

-- The most significant of the first `n` digits of `b` first.
abbrev pub digits_from : ℕ → ℕ → List ℕ
digits_from b zero = []
digits_from b (suc n) = bit n b ∷ digits_from b n

-- The value that an event puts into the output register.
abbrev pub output : Event → Option ℕ
output (load width a) = none
output (store word a v) = if a == hw_gpio1out then some (u32 v) else none
output (store half a v) = none
output (store byte a v) = none
output (call c) = none

-- The lines after a trace.
abbrev pub lines : List Event → ℕ
lines [] = 0
lines (e ∷ t) = elim (output e) [ none ↦ lines t | some v ↦ v ]

pub lines-word : (t : List Event) → u32 (lines t) ≡ lines t
lines-word [] = refl
lines-word (load width a ∷ t) = lines-word t
lines-word (store word a v ∷ t) = go (lines-word t) (a == hw_gpio1out)
  where
    picked : Bool → ℕ
    picked b = elim (if b then some (u32 v) else none) [ none ↦ lines t | some x ↦ x ]

    go : u32 (lines t) ≡ lines t → (b : Bool) → u32 (picked b) ≡ picked b
    go h true = omega arith
    go h false = h
lines-word (store half a v ∷ t) = lines-word t
lines-word (store byte a v ∷ t) = lines-word t
lines-word (call c ∷ t) = lines-word t

-- The data bits on the rising edges of the clock in a trace, the oldest first.
abbrev pub clocked : List Event → List ℕ
clocked [] = []
clocked (e ∷ t) = elim (output e) [
  | none ↦ clocked t
  | some v ↦
      if (bit 11 v == 1) && (bit 11 (lines t) == 0) then clocked t ++ (bit 12 v ∷ []) else clocked t
]

-- The output register reads back as it was written.
abbrev pub ReadsBack : Board → Type 0
ReadsBack board = (t : List Event) → u32 (board.answer (load word hw_gpio1out ∷ t)) ≡ lines t

abbrev pub put : ℕ → World → World
put v w =
    log (call (Call.udelay 5)) (log (store word hw_gpio1out v) (log (load word hw_gpio1out) w))

abbrev pub seen : World → ℕ
seen w = u32 (w.board.answer (load word hw_gpio1out ∷ w.trace))

abbrev pub raised : ℕ → World → World
raised m w = put (u32 (bit_or (seen w) m)) w

abbrev pub lowered : ℕ → World → World
lowered m w = put (u32 (bit_and (seen w) (complement m))) w

mask_table : passes_below (λ j. bit j 0xffff_ffff == 1) 32 ≡ true
unfolding passes_below bit
mask_table = refl

mask_bit : (k : ℕ) → k < 32 → bit k 0xffff_ffff ≡ 1
mask_bit k h =
    let e : (bit k 0xffff_ffff == 1) ≡ true =
      passes_below_sound (λ j. bit j 0xffff_ffff == 1) mask_table h in
    ground arith

pub bit-u32 : (k x : ℕ) → k < 32 → bit k (u32 x) ≡ bit k x
bit-u32 k x h =
    sym (ap (bit k) (bit_and_mask 32 x))
    ∙ bit-bit_and k x 0xffff_ffff
    ∙ omega (arith, mask_bit k h, bit-lt k x)

pub raised-bit :
    (m k : ℕ) (w : World)
    → ReadsBack w.board
    → k < 32
    → bit k (lines (raised m w).trace) ≡ max (bit k (lines w.trace)) (bit k m)
raised-bit m k w h p =
    bit-u32 k (u32 (bit_or (seen w) m)) p
    ∙ bit-u32 k (bit_or (seen w) m) p
    ∙ bit-bit_or k (seen w) m
    ∙ ap (λ x. max (bit k x) (bit k m)) (h w.trace)

pub lowered-bit :
    (m k : ℕ) (w : World)
    → ReadsBack w.board
    → k < 32
    → bit k (lines (lowered m w).trace) ≡ min (bit k (lines w.trace)) (bit k (complement m))
lowered-bit m k w h p =
    bit-u32 k (u32 (bit_and (seen w) (complement m))) p
    ∙ bit-u32 k (bit_and (seen w) (complement m)) p
    ∙ bit-bit_and k (seen w) (complement m)
    ∙ ap (λ x. min (bit k x) (bit k (complement m))) (h w.trace)

clocked-quiet : (v : ℕ) (w : World) → bit 11 (u32 v) ≡ 0 → clocked (put v w).trace ≡ clocked w.trace
clocked-quiet v w h = rw h

clocked-rise :
    (v : ℕ) (w : World)
    → bit 11 (u32 v) ≡ 1
    → bit 11 (lines w.trace) ≡ 0
    → clocked (put v w).trace ≡ clocked w.trace ++ (bit 12 (u32 v) ∷ [])
clocked-rise v w h l = rw (h, l)

-- One bit on the wire.
abbrev pub data_line : Bool → World → World
data_line true w = raised gp_eep_mosi w
data_line false w = lowered gp_eep_mosi w

abbrev pub pulse : World → World
pulse w = lowered gp_eep_clk (raised gp_eep_clk w)

pub send_bits-suc :
    (b n : ℕ) (w : World)
    → send_bits b (suc n) w ≡ send_bits b n (pulse (data_line (is_set b (1 <<< n)) w))
unfolding send_bits
send_bits-suc b n w = elim (Bool-cases (is_set b (1 <<< n))) [ inl e ↦ rw e | inr e ↦ rw e ]

-- The line of the clock, of the data and of the chip select: what the masks hold there.
pub masks :
    (bit 10 gp_eep_mosi ≡ 0)
    × (bit 11 gp_eep_mosi ≡ 0)
    × (bit 12 gp_eep_mosi ≡ 1)
    × (bit 10 gp_eep_clk ≡ 0)
    × (bit 11 gp_eep_clk ≡ 1)
    × (bit 12 gp_eep_clk ≡ 0)
unfolding bit
masks = (refl, refl, refl, refl, refl, refl)

pub complements :
    (bit 10 (complement gp_eep_mosi) ≡ 1)
    × (bit 11 (complement gp_eep_mosi) ≡ 1)
    × (bit 12 (complement gp_eep_mosi) ≡ 0)
    × (bit 10 (complement gp_eep_clk) ≡ 1)
    × (bit 11 (complement gp_eep_clk) ≡ 0)
    × (bit 12 (complement gp_eep_clk) ≡ 1)
unfolding bit
complements = (refl, refl, refl, refl, refl, refl)

digit_test : (d m : ℕ) → d < 2 → 1 ≤ m → (d * m != 0) ≡ (d == 1)
digit_test zero m p q = ground arith
digit_test (suc zero) m p q = ground arith
digit_test (suc (suc d)) m p q = absurd (omega arith)

is_set_digit : (b n : ℕ) → n < 32 → is_set b (1 <<< n) ≡ (bit n b == 1)
is_set_digit b n h =
    let bound : 2 ^ n ≤ 2 ^ 31 = pow-le-pow_right {n = 2} (omega arith) {j = 31} (omega arith) in
    let word : 1 <<< n ≡ 2 ^ n = omega (arith, bound) in
    rw (word, bit_and_pow n b)
      (digit_test (bit n b) (2 ^ n) (bit-lt n b) (one-le-pow n 2 (omega arith)))

-- The lines after the data line was set for a digit.
pub lines-data_line :
    (d : Bool) (w : World)
    → ReadsBack w.board
    → bit 11 (lines w.trace) ≡ 0
    → (bit 10 (lines (data_line d w).trace) ≡ bit 10 (lines w.trace))
      × (bit 11 (lines (data_line d w).trace) ≡ 0)
      × (bit 12 (lines (data_line d w).trace) ≡ (if d then 1 else 0))
      × (clocked (data_line d w).trace ≡ clocked w.trace)
lines-data_line true w h c =
    let (a, b, d, _, _, _) = masks in
    let low : bit 11 (lines (data_line true w).trace) ≡ 0 =
      omega (arith, raised-bit gp_eep_mosi 11 w h (omega arith), b) in
    (
      omega (arith, raised-bit gp_eep_mosi 10 w h (omega arith), a),
      low,
      omega (arith, raised-bit gp_eep_mosi 12 w h (omega arith), d, bit-lt 12 (lines w.trace)),
      clocked-quiet _ w low,
    )
lines-data_line false w h c =
    let (a, b, d, _, _, _) = complements in
    let low : bit 11 (lines (data_line false w).trace) ≡ 0 =
      omega (arith, lowered-bit gp_eep_mosi 11 w h (omega arith), b) in
    (
      omega (arith, lowered-bit gp_eep_mosi 10 w h (omega arith), a, bit-lt 10 (lines w.trace)),
      low,
      omega (arith, lowered-bit gp_eep_mosi 12 w h (omega arith), d, bit-lt 12 (lines w.trace)),
      clocked-quiet _ w low,
    )

pub lines-pulse :
    (w : World)
    → ReadsBack w.board
    → bit 11 (lines w.trace) ≡ 0
    → (bit 10 (lines (pulse w).trace) ≡ bit 10 (lines w.trace))
      × (bit 11 (lines (pulse w).trace) ≡ 0)
      × (clocked (pulse w).trace ≡ clocked w.trace ++ (bit 12 (lines w.trace) ∷ []))
lines-pulse w h c =
    let (_, _, _, a, b, d) = masks in
    let (_, _, _, a', b', d') = complements in
    let up = raised gp_eep_clk w in
    let high : bit 11 (lines up.trace) ≡ 1 =
      omega (arith, raised-bit gp_eep_clk 11 w h (omega arith), b) in
    let low : bit 11 (lines (pulse w).trace) ≡ 0 =
      omega (arith, lowered-bit gp_eep_clk 11 up h (omega arith), b') in
    let sample : bit 12 (lines up.trace) ≡ bit 12 (lines w.trace) =
      omega (arith, raised-bit gp_eep_clk 12 w h (omega arith), d) in
    (
      omega (
        arith,
        raised-bit gp_eep_clk 10 w h (omega arith),
        lowered-bit gp_eep_clk 10 up h (omega arith),
        a,
        a',
        bit-lt 10 (lines w.trace),
      ),
      low,
      clocked-quiet _ up low
          ∙ clocked-rise _ w high c
          ∙ ap (λ x. clocked w.trace ++ (x ∷ [])) sample,
    )

pub kept_board : (d : Bool) (w : World) → (data_line d w).board ≡ w.board
kept_board true w = refl
kept_board false w = refl

pub same_board : (d : Bool) (w : World) → ReadsBack w.board → ReadsBack (data_line d w).board
same_board true w h = h
same_board false w h = h

-- What a run that sends leaves: a quiet clock, the chip select as it was, and the digits clocked.
pub record Sent (digits : List ℕ) (run : M (Unit {0})) (w : World) : Type 0 where
  pub last : World
  pub runs : run w ≡ some (tt, last)
  pub board : last.board ≡ w.board
  pub quiet : bit 11 (lines last.trace) ≡ 0
  pub select : bit 10 (lines last.trace) ≡ bit 10 (lines w.trace)
  pub clocks : clocked last.trace ≡ clocked w.trace ++ digits

digit_of : (d : ℕ) → d < 2 → (if d == 1 then 1 else 0) ≡ d
digit_of d h = ground arith

pub digit_value : (b n : ℕ) → n < 32 → (if is_set b (1 <<< n) then 1 else 0) ≡ bit n b
digit_value b n h = rw (is_set_digit b n h) (digit_of (bit n b) (bit-lt n b))

-- Let the output register read back as it was written, and the clock be low. Then `send_bits` with up to
-- 32 bits returns, the EEPROM has seen these bits of the value clocked in, the most significant first,
-- the clock is low again and the chip select as it was.
pub send_bits_lem :
    (b n : ℕ) (w : World)
    → n ≤ 32
    → ReadsBack w.board
    → bit 11 (lines w.trace) ≡ 0
    → Sent (digits_from b n) (send_bits b n) w
unfolding send_bits
send_bits_lem b zero w p h c = record {
  last = w;
  runs = refl;
  board = refl;
  quiet = c;
  select = refl;
  clocks = sym (append-nil _);
}
send_bits_lem b (suc n) w p h c =
    let d = is_set b (1 <<< n) in
    let x = data_line d w in
    let (select1, low, value, clocks1) = lines-data_line d w h c in
    let (select2, low2, clocks2) = lines-pulse x (same_board d w h) low in
    let rest = send_bits_lem b n (pulse x) (omega arith) (same_board d w h) low2 in
    record {
      last = rest.last;
      runs = send_bits-suc b n w ∙ rest.runs;
      board = rest.board ∙ kept_board d w;
      quiet = rest.quiet;
      select = rest.select ∙ select2 ∙ select1;
      clocks =
          rest.clocks
          ∙ ap (λ l. l ++ digits_from b n)
              (clocks2 ∙ ap (λ l. l ++ (bit 12 (lines x.trace) ∷ [])) clocks1)
          ∙ append_assoc (clocked w.trace) (bit 12 (lines x.trace) ∷ []) (digits_from b n)
          ∙ ap (λ v. clocked w.trace ++ (v ∷ digits_from b n))
              (value ∙ digit_value b n (omega arith));
    }
