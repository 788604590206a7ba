-- ===== src/Seeprom/Fetch.antt =====
-- `seeprom_read` of armboot/system/seeprom.c on an EEPROM that answers as the chip is documented to: the
-- select line, and the words of a read one after the other.
use mathlib.Core.List.{append-nil}
use vwii_nand_tools.Base.{
  ℕ, zero, suc, ◌≡◌, ◌≤◌, ◌+◌, ◌%◌, ◌^◌, refl, sym, subst, ap, ap₂, ◌∙◌, arith, List, [], ◌∷◌, ◌++◌,
  if◌then◌else◌, ◌==◌, ◌&&&◌, u16, u32, ◌|||◌, bit_or, bit_and, complement, ℤ, pos, minus,
  Bool-cases, ◌⊎◌, inl, inr,
}
use vwii_nand_tools.Base.Bits.{bit, bit_and_mask}
use vwii_nand_tools.Machine.{World, load, store, word, log, and_then, pure, ◌>>=◌}
use vwii_nand_tools.Machine.Ends.{Ends, ends_at, ends_then}
use vwii_nand_tools.Hollywood.{hw_gpio1out}
use vwii_nand_tools.Seeprom.{recv_bits, read_words, seeprom_read, gp_eep_clk, gp_eep_cs}
use vwii_nand_tools.Seeprom.Send.{lines, ReadsBack, put, seen, lowered, raised-bit, lowered-bit}
use vwii_nand_tools.Seeprom.Select.{since, since-quiet, Selected, Told-ends, send_bits-Told}
use vwii_nand_tools.Seeprom.Words.{Stores, read_command, command_digits, recv_bits-word}

select_mask : (bit 10 gp_eep_cs ≡ 1) × (bit 11 gp_eep_cs ≡ 0)
unfolding bit
select_mask = (refl, refl)

select_complement : (bit 10 (complement gp_eep_cs) ≡ 0) × (bit 11 (complement gp_eep_cs) ≡ 1)
unfolding bit
select_complement = (refl, refl)

clock_complement : bit 11 (complement gp_eep_clk) ≡ 0
unfolding bit
clock_complement = refl

since-none : (v : ℕ) (w : World) → bit 10 (u32 v) ≡ 0 → since (put v w).trace ≡ []
since-none v w s = rw s

module _ (words : ℕ → ℕ) where
  -- The chip is not selected, and the clock is low.
  abbrev Resting : World → Type 0
  Resting w = (bit 10 (lines w.trace) ≡ 0) × (bit 11 (lines w.trace) ≡ 0) × (since w.trace ≡ [])

  -- The select line is set, with nothing clocked in yet.
  abbrev chosen : World → World
  chosen w =
      log (store word hw_gpio1out (u32 (bit_or (seen w) gp_eep_cs))) (log (load word hw_gpio1out) w)

  chosen-Selected :
      (w : World)
      → ReadsBack w.board
      → Resting w
      → Selected (chosen w) × (since (chosen w).trace ≡ [])
  chosen-Selected w h (s, c, e) =
      let (on, quiet) = select_mask in
      let high : bit 10 (lines (chosen w).trace) ≡ 1 =
        omega (arith, raised-bit gp_eep_cs 10 w h (omega arith), on, s) in
      let low : bit 11 (lines (chosen w).trace) ≡ 0 =
        omega (arith, raised-bit gp_eep_cs 11 w h (omega arith), quiet, c) in
      ((high, low), since-quiet _ w high low ∙ e)

  -- The select line is cleared.
  released-Resting :
      (w : World) → ReadsBack w.board → bit 11 (lines w.trace) ≡ 0 → Resting (lowered gp_eep_cs w)
  released-Resting w h c =
      let (off, quiet) = select_complement in
      let low : bit 10 (lines (lowered gp_eep_cs w).trace) ≡ 0 =
        omega (arith, lowered-bit gp_eep_cs 10 w h (omega arith), off) in
      (low, omega (arith, lowered-bit gp_eep_cs 11 w h (omega arith), c), since-none _ w low)

  -- So many words from an address on, as far as 16 bits go.
  unfoldable pub contents : ℕ → ℕ → List ℕ
  contents addr zero = []
  contents addr (suc n) = u16 (words addr) ∷ contents (addr + 1) n

  read_words-contents :
      (offset n i : ℕ) (w : World)
      → offset + i + n ≤ 2 ^ 8
      → Stores words w.board
      → Resting w
      → Ends (read_words offset n i w) (λ r w'. r ≡ contents (offset + i) n)
  unfolding read_words contents
  read_words-contents offset zero i w p h r = ends_at [] w refl
  read_words-contents offset (suc n) i w p h r =
      let addr = offset + i in
      let (chip, nothing) = chosen-Selected w h.reads_back r in
      let rest = λ (recv : ℕ) (w : World).
        and_then (read_words offset n (i + 1) (lowered gp_eep_cs w)) (λ l. pure (u16 recv ∷ l)) in
      ends_then {rest = λ _. recv_bits 16 >>= rest}
        (Told-ends (send_bits-Told (0x600 ||| addr) 11 (chosen w) (omega arith) h.reads_back chip))
        λ _ w1 (b1, chip1, told).
          let h1 : Stores words w1.board = subst (Stores words) (sym b1) h in
          let command : since w1.trace ≡ read_command addr ++ [] =
            told
            ∙ ap₂ (λ x y. x ++ y) nothing (command_digits addr (omega arith))
            ∙ sym (append-nil _) in
          ends_then {rest = rest} (recv_bits-word words addr w1 (omega arith) h1 chip1 command)
            λ recv w2 (e, b2, chip2).
              let h2 : Stores words w2.board = subst (Stores words) (sym b2) h1 in
              ends_then {rest = λ l. pure (u16 recv ∷ l)}
                (read_words-contents offset n (i + 1) (lowered gp_eep_cs w2) (omega arith) h2
                  (released-Resting w2 h2.reads_back chip2.1))
                λ l w3 e3.
                  ends_at _ w3 (ap₂ (λ x y. x ∷ y) e (e3 ∙ ap (λ a. contents a n) (omega arith)))

  -- What `seeprom_read` returns, and puts into memory.
  abbrev pub Fetched : ℕ → ℕ → ℤ × List ℕ → World → Type 0
  Fetched offset size r w =
      if size % 2 == 0
      then (r.0 ≡ pos size) × (r.1 ≡ contents offset size)
      else (r.0 ≡ minus 1) × (r.1 ≡ [])

  parity : (size : ℕ) → (size % 2 ≡ 0) ⊎ (size % 2 ≡ 1)
  parity size = elim (Bool-cases (size % 2 == 0)) [
    | inl e ↦ inl (ground arith)
    | inr e ↦ inr (ground arith)
  ]

  even_words :
      (offset size : ℕ) (l : List ℕ) (w : World)
      → size % 2 ≡ 0
      → l ≡ contents offset size
      → Fetched offset size (pos size, l) w
  even_words offset size l w e c = rw e (refl, c)

  odd_words : (offset size : ℕ) (w : World) → size % 2 ≡ 1 → Fetched offset size (minus 1, []) w
  odd_words offset size w e = rw e (refl, refl)

  odd_test : (size : ℕ) → (size &&& 1) ≡ size % 2
  odd_test size = bit_and_mask 1 size

  -- Let the output register read back as it was written, and let the EEPROM put a bit of the word that a
  -- read command addressed on its line at each clock behind the command, the most significant first.
  -- Then `seeprom_read` of words whose addresses have eight bits is over. For an even number of them it
  -- returns the number, and has fetched just these words in order, 16 bits of each; for an odd number it
  -- returns -1 and fetches nothing.
  pub seeprom_read-Fetched :
      (offset size : ℕ) (w : World)
      → offset + size ≤ 2 ^ 8
      → Stores words w.board
      → Ends (seeprom_read offset size w) (Fetched offset size)
  unfolding seeprom_read
  seeprom_read-Fetched offset size w p h = elim (parity size) [
    | inr odd ↦ rw (odd_test size, odd) (ends_at _ w (odd_words offset size w odd))
    | inl even ↦
        let w1 =
          log (store word hw_gpio1out (u32 (bit_and (seen w) (complement gp_eep_clk))))
            (log (load word hw_gpio1out) w) in
        let low : bit 11 (lines w1.trace) ≡ 0 =
          omega (arith, lowered-bit gp_eep_clk 11 w h.reads_back (omega arith), clock_complement) in
        rw (odd_test size, even)
          (ends_then {rest = λ l. pure (pos size, l)}
            (read_words-contents offset size 0 (lowered gp_eep_cs w1) (omega arith) h
              (released-Resting w1 h.reads_back low))
            λ l w2 e.
              ends_at {Post = Fetched offset size} (pos size, l) w2
                (even_words offset size l w2 even (e ∙ ap (λ a. contents a size) (omega arith))))
  ]
