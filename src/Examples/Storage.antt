-- ===== src/Examples/Storage.antt =====
-- The card and its host controller at concrete inputs.
use vwii_nand_tools.Base.{ℕ, true, false, ◌+◌, ◌*◌, ◌/◌, ◌^◌, ◌≡◌, ◌≢◌, ◌⊎◌, refl, arith, [], some}
use vwii_nand_tools.Machine.{World}
use vwii_nand_tools.Sdhc.Bus.{sdhc_clock_divisor}
use vwii_nand_tools.Sdhc.Clock.{Chosen, Refused, sdhc_clock_divisor_lem}
use vwii_nand_tools.Sdhc.Bounded.{Waited, sdhc_wait_state_lem}
use vwii_nand_tools.Sdhc.Flags.{mmc_read_block_multiple}
use vwii_nand_tools.Sdhc.Command.Start.{Command, sdhc_wait_state}
use vwii_nand_tools.Sdhc.Reset.{sdhc_soft_reset}
use vwii_nand_tools.Sdhc.Tries.{ResetFrom, reset_word, put, sdhc_soft_reset_lem}
use vwii_nand_tools.Sdmmc.Csd.{num_sectors, is_high_capacity}
use vwii_nand_tools.Sdmmc.Capacity.{
  response_of, field, capacity, num_sectors-standard, num_sectors-high,
}
use vwii_nand_tools.Sdmmc.Discover.{command}
use vwii_nand_tools.Diskio.{disk_initialize, disk_status, sta_noinit}
use vwii_nand_tools.Diskio.Card.{disk_initialize_lem}
use vwii_nand_tools.Machine.Ends.{Ends}
use vwii_nand_tools.Sdmmc.Discover.{sdmmc_needs_discover}
use vwii_nand_tools.Sdmmc.Acknowledge.{
  read, write, sectors, serve_all, AllRefused, discovered-AllRefused,
}
use vwii_nand_tools.Base.{some, ◌∷◌}
use vwii_nand_tools.Machine.{World, ◌>>◌}
use vwii_nand_tools.Examples.Boards.{still, board_of, world_of, card_of}

sdhc_clock_divisor_example :
    Chosen 48000 400 0 9 (sdhc_clock_divisor 48000 400)
    ⊎ Refused 48000 400 0 9 (sdhc_clock_divisor 48000 400)
sdhc_clock_divisor_example = sdhc_clock_divisor_lem 48000 400

sdhc_wait_state_example : Waited 500 3 0 (sdhc_wait_state 3 0) still
sdhc_wait_state_example = sdhc_wait_state_lem 3 0 still

sdhc_soft_reset_example :
    (r : ℕ) × (w' : World) × (sdhc_soft_reset 1 still ≡ some (r, w'))
    × ResetFrom 1 still.board.answer
        (reset_word 0x0d070000)
        (put still.board.answer (reset_word 0x0d070000) 1 [])
        r
        w'
sdhc_soft_reset_example = sdhc_soft_reset_lem 1 still

-- A read of so many bytes in blocks of 512.
abbrev read_of : ℕ → Command
read_of datalen = record (command mmc_read_block_multiple 0 0x1c40) {
  buf = 0x100000;
  datalen = datalen;
  blklen = 512;
}

-- C_SIZE 3839, C_SIZE_MULT 7, READ_BL_LEN 9: a card of a gigabyte at most.
abbrev standard_csd : ℕ
standard_csd = 0x26 * 2 ^ 112 + 9 * 2 ^ 80 + 3839 * 2 ^ 62 + 7 * 2 ^ 47

standard_is_standard : is_high_capacity (response_of standard_csd) ≡ false
unfolding is_high_capacity
standard_is_standard = refl

num_sectors-standard_example : num_sectors (response_of standard_csd) ≡ capacity standard_csd / 512
num_sectors-standard_example = num_sectors-standard standard_csd standard_is_standard (omega arith)

abbrev high_csd : ℕ
high_csd = 0x0e * 2 ^ 112 + 9 * 2 ^ 80 + 7579 * 2 ^ 48

high_is_high : is_high_capacity (response_of high_csd) ≡ true
unfolding is_high_capacity
high_is_high = refl

num_sectors-high_example : num_sectors (response_of high_csd) ≡ (field high_csd 48 22 + 1) * 1024
num_sectors-high_example = num_sectors-high high_csd high_is_high refl (omega arith)

abbrev fresh : World
fresh = world_of (board_of (λ t. 0)) (card_of 1 1 1)

disk_initialize_example :
    ((fresh.card.inserted ≡ 0) × (disk_initialize fresh ≡ some (sta_noinit, fresh)))
    ⊎ (fresh.card.inserted ≢ 0)
      × (w' : World) × (disk_initialize fresh ≡ some (0, w'))
      × (w'.card.new_card ≢ 1)
      × (w'.trace ≡ fresh.trace)
      × (disk_status w' ≡ some (0, w'))
disk_initialize_example = disk_initialize_lem fresh

discovered-AllRefused_example :
    Ends
      ((do sdmmc_needs_discover; serve_all (read 0 8 0x1000 ∷ sectors ∷ write 7 1 0x2000 ∷ []))
        still)
      (AllRefused still.board ([], 0) (read 0 8 0x1000 ∷ sectors ∷ write 7 1 0x2000 ∷ []))
discovered-AllRefused_example =
    discovered-AllRefused (read 0 8 0x1000 ∷ sectors ∷ write 7 1 0x2000 ∷ []) still
