-- ===== src/Seeprom/Select.antt =====
-- What the EEPROM sees of armboot/system/seeprom.c while it is selected: the data bits on the rising
-- edges of the clock since the select line was low.
use mathlib.Core.List.{append_assoc, append-nil}
use vwii_nand_tools.Base.{
  ℕ, zero, suc, Bool, true, false, ◌≡◌, ◌≤◌, refl, sym, ap, ◌∙◌, arith, some, none, List, [], ◌∷◌,
  ◌++◌, if◌then◌else◌, ◌==◌, ◌&&◌, u32, is_set, ◌<<<◌,
}
use vwii_nand_tools.Base.Bits.{bit, bit-lt}
use vwii_nand_tools.Machine.{M, World, Event}
use vwii_nand_tools.Machine.Ends.{Ends, ends_at, ends_by}
use vwii_nand_tools.Seeprom.{send_bits, gp_eep_clk}
use vwii_nand_tools.Seeprom.Send.{
  output, lines, digits_from, ReadsBack, put, raised, data_line, pulse, raised-bit, lowered-bit,
  lines-data_line, lines-pulse, masks, complements, send_bits-suc, kept_board, same_board,
  digit_value,
}

-- The bits clocked in since the select line was low, the oldest first.
abbrev pub since : List Event → List ℕ
since [] = []
since (e ∷ t) = elim (output e) [
  | none ↦ since t
  | some v ↦
      if bit 10 v == 0
      then []
      else if (bit 11 v == 1) && (bit 11 (lines t) == 0)
      then since t ++ (bit 12 v ∷ [])
      else since t
]

pub since-quiet :
    (v : ℕ) (w : World)
    → bit 10 (u32 v) ≡ 1
    → bit 11 (u32 v) ≡ 0
    → since (put v w).trace ≡ since w.trace
since-quiet v w s h = rw (s, h)

since-rise :
    (v : ℕ) (w : World)
    → bit 10 (u32 v) ≡ 1
    → bit 11 (u32 v) ≡ 1
    → bit 11 (lines w.trace) ≡ 0
    → since (put v w).trace ≡ since w.trace ++ (bit 12 (u32 v) ∷ [])
since-rise v w s h l = rw (s, h, l)

-- The chip is selected, and the clock is low.
abbrev pub Selected : World → Type 0
Selected w = (bit 10 (lines w.trace) ≡ 1) × (bit 11 (lines w.trace) ≡ 0)

since-data_line :
    (d : Bool) (w : World)
    → ReadsBack w.board
    → Selected w
    → since (data_line d w).trace ≡ since w.trace
since-data_line true w h (s, c) =
    let (a, b, _, _) = lines-data_line true w h c in since-quiet _ w (a ∙ s) b
since-data_line false w h (s, c) =
    let (a, b, _, _) = lines-data_line false w h c in since-quiet _ w (a ∙ s) b

-- A pulse of the clock takes the data line in.
pub since-pulse :
    (w : World)
    → ReadsBack w.board
    → Selected w
    → since (pulse w).trace ≡ since w.trace ++ (bit 12 (lines w.trace) ∷ [])
since-pulse w h (s, c) =
    let (_, _, _, a, b, d) = masks in
    let (_, _, _, a', b', d') = complements in
    let up = raised gp_eep_clk w in
    let on : bit 10 (lines up.trace) ≡ 1 =
      omega (arith, raised-bit gp_eep_clk 10 w h (omega arith), a) in
    let high : bit 11 (lines up.trace) ≡ 1 =
      omega (arith, raised-bit gp_eep_clk 11 w h (omega arith), b, bit-lt 11 (lines w.trace)) in
    let sample : bit 12 (lines up.trace) ≡ bit 12 (lines w.trace) =
      omega (arith, raised-bit gp_eep_clk 12 w h (omega arith), d) in
    since-quiet _ up (omega (arith, lowered-bit gp_eep_clk 10 up h (omega arith), on, a'))
      (omega (arith, lowered-bit gp_eep_clk 11 up h (omega arith), b'))
    ∙ since-rise _ w on high c
    ∙ ap (λ x. since w.trace ++ (x ∷ [])) sample

-- A run that tells the selected chip these bits.
pub record Told (digits : List ℕ) (run : M (Unit {0})) (w : World) : Type 0 where
  pub last : World
  pub runs : run w ≡ some (tt, last)
  pub board : last.board ≡ w.board
  pub selected : Selected last
  pub tells : since last.trace ≡ since w.trace ++ digits

pub send_bits-Told :
    (b n : ℕ) (w : World)
    → n ≤ 32
    → ReadsBack w.board
    → Selected w
    → Told (digits_from b n) (send_bits b n) w
unfolding send_bits
send_bits-Told b zero w p h c = record {
  last = w;
  runs = refl;
  board = refl;
  selected = c;
  tells = sym (append-nil _);
}
send_bits-Told b (suc n) w p h c =
    let d = is_set b (1 <<< n) in
    let x = data_line d w in
    let (select1, low, value, _) = lines-data_line d w h c.1 in
    let h' = same_board d w h in
    let (select2, low2, _) = lines-pulse x h' low in
    let rest = send_bits-Told b n (pulse x) (omega arith) h' (select2 ∙ select1 ∙ c.0, low2) in
    record {
      last = rest.last;
      runs = send_bits-suc b n w ∙ rest.runs;
      board = rest.board ∙ kept_board d w;
      selected = rest.selected;
      tells =
          rest.tells
          ∙ ap (λ l. l ++ digits_from b n)
              (since-pulse x h' (select1 ∙ c.0, low)
                ∙ ap (λ l. l ++ (bit 12 (lines x.trace) ∷ [])) (since-data_line d w h c))
          ∙ append_assoc (since w.trace) (bit 12 (lines x.trace) ∷ []) (digits_from b n)
          ∙ ap (λ v. since w.trace ++ (v ∷ digits_from b n))
              (value ∙ digit_value b n (omega arith));
    }

pub Told-ends :
    {digits : List ℕ} {run : M (Unit {0})} {w : World}
    → Told digits run w
    → Ends
        (run w)
        (λ _ w'. (w'.board ≡ w.board) × Selected w' × (since w'.trace ≡ since w.trace ++ digits))
Told-ends d = ends_by d.runs (ends_at tt d.last (d.board, d.selected, d.tells))
