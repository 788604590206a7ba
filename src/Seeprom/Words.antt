-- ===== src/Seeprom/Words.antt =====
-- One word of `seeprom_read` of armboot/system/seeprom.c, from an EEPROM that answers as the chip is
-- documented to.
use mathlib.Core.List.{append_assoc}
use native.Mathlib.Nat.{pow-suc}
use vwii_nand_tools.Base.{
  ℕ, zero, suc, ◌≡◌, ◌<◌, ◌+◌, ◌-◌, ◌*◌, ◌%◌, ◌^◌, refl, ap, ap₂, ◌∙◌, arith, List, [], ◌∷◌, ◌++◌,
  length, length-append, if◌then◌else◌, u16, u32, is_set, ◌|||◌,
}
use vwii_nand_tools.Base.Bits.{bit, bit-lt, bit_or_sum, mod-pow_suc}
use vwii_nand_tools.Machine.{World, Board, Event, load, word}
use vwii_nand_tools.Machine.Ends.{Ends, ends_at, ends_by, ends_weaken}
use vwii_nand_tools.Hollywood.{hw_gpio1in}
use vwii_nand_tools.Seeprom.{recv_from, recv_bits, gp_eep_miso}
use vwii_nand_tools.Seeprom.Send.{lines, digits_from, ReadsBack, pulse, lines-pulse}
use vwii_nand_tools.Seeprom.Receive.{
  number_from, clocked_load, answered, recv_from-suc, answered-lt, pushed,
}
use vwii_nand_tools.Seeprom.Select.{since, since-pulse, Selected}

-- The read command as the chip takes it: a start bit, the operation 10, and eight bits of address.
abbrev pub read_command : ℕ → List ℕ
read_command addr = 1 ∷ 1 ∷ 0 ∷ digits_from addr 8

-- The output register reads back as it was written. On each clock behind a read command the chip puts
-- the next bit of the word addressed on its line, the most significant first.
pub record Stores (words : ℕ → ℕ) (board : Board) : Type 0 where
  pub reads_back : ReadsBack board
  pub line :
      (t : List Event) (addr j : ℕ) (clocks : List ℕ)
      → addr < 2 ^ 8
      → j < 16
      → length clocks ≡ suc j
      → since t ≡ read_command addr ++ clocks
      → (if is_set (u32 (board.answer (load word hw_gpio1in ∷ t))) gp_eep_miso then 1 else 0)
        ≡ bit (15 - j) (words addr)

-- The number of a number's digits is the number.
number_from-digits : (n x b : ℕ) → number_from x (digits_from b n) ≡ x * 2 ^ n + b % 2 ^ n
number_from-digits zero x b = omega arith
number_from-digits (suc n) x b = omega (
  arith,
  number_from-digits n (x * 2 + bit n b) b,
  mod-pow_suc n b,
  pow-suc 2 n,
  ap (λ (t : ℕ). x * t) (pow-suc 2 n),
)

both : {x y : ℕ} {xs ys : List ℕ} → x ≡ y → xs ≡ ys → x ∷ xs ≡ y ∷ ys
both p q = ap₂ (λ a l. a ∷ l) p q

-- The digits below the eighth are those of the address.
low_digits : (addr : ℕ) → digits_from (0x600 + addr) 8 ≡ digits_from addr 8
unfolding bit
low_digits addr = ground arith

-- The command that the code makes of an address.
pub command_digits : (addr : ℕ) → addr < 2 ^ 8 → digits_from (0x600 ||| addr) 11 ≡ read_command addr
unfolding bit
command_digits addr h =
    ap (λ x. digits_from x 11) (bit_or_sum 8 6 addr h)
    ∙ both (omega arith) (both (omega arith) (both (omega arith) (low_digits addr)))

pulsed-Selected : (w : World) → ReadsBack w.board → Selected w → Selected (pulse w)
pulsed-Selected w h (s, c) = let (a, b, _) = lines-pulse w h c in (a ∙ s, b)

module _ (words : ℕ → ℕ) where
  -- The rest of a word comes in behind the bits that were received.
  recv_from-word :
      (n j res addr : ℕ) (clocks : List ℕ) (w : World)
      → j + n ≡ 16
      → res < 2 ^ j
      → addr < 2 ^ 8
      → length clocks ≡ j
      → Stores words w.board
      → Selected w
      → since w.trace ≡ read_command addr ++ clocks
      → Ends (recv_from n res w) (λ r w'.
        (r ≡ number_from res (digits_from (words addr) n)) × (w'.board ≡ w.board) × Selected w')
  unfolding recv_from
  recv_from-word zero j res addr clocks w e p a l h s c = ends_at res w (refl, refl, s)
  recv_from-word (suc n) j res addr clocks w e p a l h s c =
      let more = clocks ++ (bit 12 (lines w.trace) ∷ []) in
      let clocked : since (pulse w).trace ≡ read_command addr ++ more =
        since-pulse w h.reads_back s
        ∙ ap (λ l. l ++ (bit 12 (lines w.trace) ∷ [])) c
        ∙ append_assoc (read_command addr) clocks (bit 12 (lines w.trace) ∷ []) in
      let counted : length more ≡ suc j =
        length-append clocks (bit 12 (lines w.trace) ∷ []) ∙ omega (arith, l) in
      let heard : answered w ≡ bit n (words addr) =
        h.line (pulse w).trace addr j more a (omega arith) counted clocked
        ∙ ap (λ k. bit k (words addr)) (omega arith) in
      ends_by
        (recv_from-suc n res w
          ∙ ap (λ x. recv_from n x (clocked_load w))
              (pushed j res (answered w) p (omega arith) (answered-lt w)
                ∙ ap (λ b. res * 2 + b) heard))
        (recv_from-word n (suc j) (res * 2 + bit n (words addr)) addr more (clocked_load w)
          (omega arith) (omega (arith, pow-suc 2 j, bit-lt n (words addr))) a counted h
          (pulsed-Selected w h.reads_back s) clocked)

  pub recv_bits-word :
      (addr : ℕ) (w : World)
      → addr < 2 ^ 8
      → Stores words w.board
      → Selected w
      → since w.trace ≡ read_command addr ++ []
      → Ends
          (recv_bits 16 w)
          (λ r w'. (u16 r ≡ u16 (words addr)) × (w'.board ≡ w.board) × Selected w')
  unfolding recv_bits
  recv_bits-word addr w a h s c =
      ends_weaken (recv_from-word 16 0 0 addr [] w refl (omega arith) a refl h s c)
        λ r w' (e, b, s'). (omega (arith, e, number_from-digits 16 0 (words addr)), b, s')
