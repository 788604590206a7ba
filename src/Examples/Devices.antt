-- ===== src/Examples/Devices.antt =====
-- The EEPROM, the AES engine and the memory set-up at concrete inputs.
use vwii_nand_tools.Base.{
  ◌+◌, ◌-◌, ◌*◌, ◌%◌, ◌≤◌, ◌<◌, ◌≡◌, refl, arith, [], ◌∷◌, if◌then◌else◌, is_set, u32,
}
use vwii_nand_tools.Base.Bits.{bit_zero}
use vwii_nand_tools.Machine.{World, Board, load}
use vwii_nand_tools.Memory.Mmu.{sections}
use vwii_nand_tools.Memory.Pages.{expected, sections_lem}
use vwii_nand_tools.Memory.Cache.{line_range}
use vwii_nand_tools.Memory.Lines.{line_range_lem}
use vwii_nand_tools.Base.{ℕ, zero, suc, length, length-append, List, ◌∙◌, ap, ◌==◌}
use vwii_nand_tools.Base.Bits.{bit, bit-lt}
use vwii_nand_tools.Machine.{Event, store, call}
use vwii_nand_tools.Hollywood.{hw_gpio1in}
use vwii_nand_tools.Base.{◌/◌, ◌^◌}
use vwii_nand_tools.Console.Delay.{udelay, ticks_of}
use vwii_nand_tools.Console.Timer.{Ticks, udelay-enough}
use vwii_nand_tools.Seeprom.{send_bits, seeprom_read, gp_eep_miso}
use vwii_nand_tools.Seeprom.Select.{since}
use vwii_nand_tools.Seeprom.Words.{Stores, read_command}
use vwii_nand_tools.Seeprom.Fetch.{Fetched, seeprom_read-Fetched}
use vwii_nand_tools.Seeprom.Send.{Sent, ReadsBack, lines, lines-word, digits_from, send_bits_lem}
use vwii_nand_tools.Crypto.{aes_decrypt}
use vwii_nand_tools.Crypto.Decrypt.{Works, Idle, aes_decrypt_lem}
use vwii_nand_tools.Base.{replicate}
use vwii_nand_tools.Machine.Ends.{Ends}
use vwii_nand_tools.Exception.{exc_handler}
use vwii_nand_tools.Exception.Bounds.{Shown, exc_handler-Shown}
use vwii_nand_tools.Examples.Boards.{board_of, card_of, world_of, still}

-- Every load is answered with the output register.
abbrev lines_board : Board
lines_board = board_of (λ t. elim t [ [] ↦ 0 | e ∷ rest ↦ lines rest ])

lines_board-ReadsBack : ReadsBack lines_board
lines_board-ReadsBack t = lines-word t

lined : World
lined = world_of lines_board (card_of 0 0 0)

send_bits_example : Sent (digits_from 0x605 11) (send_bits 0x605 11) lined
unfolding lined
send_bits_example = send_bits_lem 0x605 11 lined (omega arith) lines_board-ReadsBack (bit_zero 11)

idle : Idle still.board
idle = record { polls = omega arith; free = λ t. refl }

aes_decrypt_example : Works 300 (aes_decrypt 0x100000 0x200000 300 0) still
aes_decrypt_example = aes_decrypt_lem 0x100000 0x200000 300 0 still idle (omega arith)

sections_example : sections 0x0d0 ≡ expected 0x0d0
sections_example = sections_lem 0x0d0 (omega arith)

line_range_example :
    ((line_range 0x1005 100).0 % 32 ≡ 0)
    × ((line_range 0x1005 100).0 ≤ 0x1005)
    × (0x1005 < (line_range 0x1005 100).0 + 32)
    × (0x1005 + 100 ≤ (line_range 0x1005 100).0 + (line_range 0x1005 100).1 * 32)
    × ((line_range 0x1005 100).0 + (line_range 0x1005 100).1 * 32 < 0x1005 + 100 + 32)
line_range_example = line_range_lem 0x1005 100 (omega arith)

exc_handler_example :
    Ends (exc_handler 4 0x1f (replicate 16 0x100) still) (Shown still.board (([], 0), 0))
exc_handler_example = exc_handler-Shown 4 0x1f (replicate 16 0x100) still refl (refl, refl)

-- An EEPROM full of one word, whose line shows the bit that the number of clocks so far asks for.
abbrev shown_bit : ℕ → ℕ
shown_bit clocks = bit (15 - (clocks - 12)) 0xa5c3

abbrev eeprom_answer : List Event → ℕ
eeprom_answer [] = 0
eeprom_answer (load width a ∷ t) =
    if a == hw_gpio1in then (if shown_bit (length (since t)) == 1 then 0x2000 else 0) else lines t
eeprom_answer (store width a v ∷ t) = 0
eeprom_answer (call c ∷ t) = 0

line_value :
    (b : ℕ) → b < 2 → (if is_set (u32 (if b == 1 then 0x2000 else 0)) gp_eep_miso then 1 else 0) ≡ b
line_value zero p = refl
line_value (suc zero) p = refl
line_value (suc (suc b)) p = absurd (omega arith)

eeprom_board-Stores : Stores (λ a. 0xa5c3) (board_of eeprom_answer)
eeprom_board-Stores = record {
  reads_back = λ t. lines-word t;
  line = λ t addr j clocks a p l c.
      line_value (shown_bit (length (since t))) (bit-lt _ _)
      ∙ ap (λ n. bit (15 - (n - 12)) 0xa5c3)
          (ap length c ∙ length-append (read_command addr) clocks ∙ ap (λ k. 11 + k) l)
      ∙ ap (λ k. bit k 0xa5c3) (omega arith);
}

abbrev with_eeprom : World
with_eeprom = world_of (board_of eeprom_answer) (card_of 0 0 0)

seeprom_read-Fetched_example : Ends (seeprom_read 4 10 with_eeprom) (Fetched (λ a. 0xa5c3) 4 10)
seeprom_read-Fetched_example =
    seeprom_read-Fetched (λ a. 0xa5c3) 4 10 with_eeprom (omega arith) eeprom_board-Stores

-- A timer that counts events, from 15 ticks before it wraps around.
abbrev count_ticks : List Event → ℕ
count_ticks t = 0xfffffff1 + length t

abbrev timer_board : Board
timer_board = record (board_of (λ t. count_ticks t)) { polls = 2 ^ 32 }

timer_board-Ticks : Ticks count_ticks 1 timer_board
timer_board-Ticks = record {
  shows = λ t. refl;
  goes_on = λ t. omega arith;
  slow = λ t. omega arith;
}

timed : World
timed = world_of timer_board (card_of 0 0 0)

udelay-enough_example :
    Ends (udelay 10 timed) (λ r w'. count_ticks timed.trace + 10 * 19 / 10 ≤ count_ticks w'.trace)
unfolding timed ticks_of
udelay-enough_example =
    udelay-enough count_ticks 1 10 timed timer_board-Ticks (omega arith) (omega arith) (omega arith)
      (omega arith)
