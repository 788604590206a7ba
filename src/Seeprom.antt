-- ===== src/Seeprom.antt =====
-- armboot/system/seeprom.c: the serial EEPROM, bit by bit over the GPIO lines.
pub mod Send
pub mod Receive
pub mod Select
pub mod Words
pub mod Fetch
use vwii_nand_tools.Base.{
  ℕ, zero, suc, Bool, true, false, some, ◌+◌, ◌*◌, ◌^◌, ◌%◌, u16, u32, ◌<<<◌, ◌&&&◌, ◌|||◌, is_set,
  ◌==◌, ◌!=◌, if◌then◌else◌, List, [], ◌∷◌, ◌++◌, ℤ, pos, minus,
}
use vwii_nand_tools.Machine.{M, Call, pure, run, read32, set32, clear32, ◌>>=◌, ◌>>◌}
use vwii_nand_tools.Hollywood.{hw_gpio1out, hw_gpio1in}

abbrev pub gp_eep_cs : ℕ
gp_eep_cs = 0x400

abbrev pub gp_eep_clk : ℕ
gp_eep_clk = 0x800

abbrev pub gp_eep_mosi : ℕ
gp_eep_mosi = 0x1000

abbrev pub gp_eep_miso : ℕ
gp_eep_miso = 0x2000

abbrev eeprom_delay : M (Unit {0})
eeprom_delay = run (Call.udelay 5)

-- `while (bits--)`: bit `bits - 1` goes first.
unfoldable pub send_bits : ℕ → ℕ → M (Unit {0})
send_bits b zero w = some (tt, w)
send_bits b (suc bits) w =
    (do
      if is_set b (1 <<< bits)
          then set32 hw_gpio1out gp_eep_mosi
          else clear32 hw_gpio1out gp_eep_mosi
      eeprom_delay
      set32 hw_gpio1out gp_eep_clk
      eeprom_delay
      clear32 hw_gpio1out gp_eep_clk
      eeprom_delay
      send_bits b bits)
      w

-- The loop of `recv_bits`, with the bits left and the result so far.
unfoldable pub recv_from : ℕ → ℕ → M ℕ
recv_from zero res w = some (res, w)
recv_from (suc bits) res w =
    (do
      set32 hw_gpio1out gp_eep_clk
      eeprom_delay
      clear32 hw_gpio1out gp_eep_clk
      eeprom_delay
      v ← read32 hw_gpio1in
      recv_from bits ((res <<< 1) ||| (if is_set v gp_eep_miso then 1 else 0)))
      w

unfoldable pub recv_bits : ℕ → M ℕ
unfolding recv_from
recv_bits bits = recv_from bits 0

-- The loop of `seeprom_read`, with the words left, at word `i`: the words read.
unfoldable pub read_words : ℕ → ℕ → ℕ → M (List ℕ)
read_words offset zero i w = some ([], w)
read_words offset (suc n) i w =
    (do
      set32 hw_gpio1out gp_eep_cs
      send_bits (0x600 ||| (offset + i)) 11
      recv ← recv_bits 16
      clear32 hw_gpio1out gp_eep_cs
      eeprom_delay
      rest ← read_words offset n (i + 1)
      pure (u16 recv ∷ rest))
      w

-- Returns the size or -1, and the words put to `dst`.
unfoldable pub seeprom_read : ℕ → ℕ → M (ℤ × List ℕ)
unfolding read_words
seeprom_read offset size = if (size &&& 1) != 0 then pure (minus 1, []) else (do
  clear32 hw_gpio1out gp_eep_clk
  clear32 hw_gpio1out gp_eep_cs
  eeprom_delay
  words ← read_words offset size 0
  pure (pos size, words))
