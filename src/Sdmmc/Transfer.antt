-- ===== src/Sdmmc/Transfer.antt =====
-- The card as the file system's glue uses it: `sdmmc_check_card`, `sdmmc_ack_card`, `sdmmc_read`,
-- `sdmmc_write` and `sdmmc_get_sectors` of armboot/storage/sdmmc.c.
use vwii_nand_tools.Base.{
  ltb, ◌^◌, ◌-◌, ℕ, Bool, true, false, ◌*◌, u32, ◌|||◌, ◌==◌, ◌!=◌, if◌then◌else◌, [], ◌∷◌, ℤ, pos,
  negsuc, minus,
}
use vwii_nand_tools.Machine.{M, Card, pure, get, set_card, gecko_printf, ◌>>=◌, ◌>>◌}
use vwii_nand_tools.Sdhc.Command.{sdhc_exec_command}
use vwii_nand_tools.Sdhc.Command.Start.{Command}
use vwii_nand_tools.Sdhc.Flags.{
  scf_rsp_r1, scf_cmd_read, mmc_read_block_multiple, mmc_write_block_multiple,
  sdmmc_default_blocklen,
}
use vwii_nand_tools.Sdmmc.Discover.{command, sdmmc_select}

abbrev pub sdmmc_no_card : ℕ
sdmmc_no_card = 1

abbrev pub sdmmc_new_card : ℕ
sdmmc_new_card = 2

abbrev pub sdmmc_inserted : ℕ
sdmmc_inserted = 3

unfoldable pub sdmmc_check_card : Card → ℕ
sdmmc_check_card card =
    if card.inserted == 0
    then sdmmc_no_card
    else if card.new_card == 1
    then sdmmc_new_card
    else sdmmc_inserted

unfoldable pub sdmmc_ack_card : M ℤ
sdmmc_ack_card = do
  w ← get
  if w.card.new_card == 1
      then (do set_card (λ c. record c { new_card = 0 }); pure (pos 0))
      else pure (minus 1)

-- The command of a transfer of blocks.
unfoldable pub transfer_command : Card → ℕ → ℕ → ℕ → ℕ → ℕ → Command
transfer_command card opcode flags blk_start blk_count buf =
    record (command opcode
      (if card.sdhc_blockmode == 0 then u32 (blk_start * sdmmc_default_blocklen) else blk_start)
      flags) {
        buf = buf;
        datalen = u32 (blk_count * sdmmc_default_blocklen);
        blklen = sdmmc_default_blocklen;
      }

unfoldable pub is_negative : ℤ → Bool
is_negative (pos n) = false
is_negative (negsuc n) = true

-- The part of both transfers behind the selection of the card.
unfoldable pub transfer : ℕ → ℕ → ℕ → ℕ → ℕ → M ℤ
unfolding transfer_command
transfer opcode flags blk_start blk_count buf = do
  w ← get
  if w.card.new_card == 1
      then (do
        gecko_printf "sdmmc: new card inserted but not acknowledged yet.\n" []
        pure (minus 1))
      else do
        cmd ← sdhc_exec_command (transfer_command w.card opcode flags blk_start blk_count buf)
        if cmd.error != 0
            then (do
              gecko_printf "sdmmc: MMC_READ_BLOCK_MULTIPLE failed with %d\n" (cmd.error ∷ [])
              pure (minus 1))
            else pure (pos 0)

-- Both transfers: the checks for a card and its selection come first.
unfoldable pub selected_transfer : ℕ → ℕ → ℕ → ℕ → ℕ → M ℤ
unfolding transfer is_negative
selected_transfer opcode flags blk_start blk_count buf = do
  w ← get
  if w.card.inserted == 0
      then (do gecko_printf "sdmmc: READ: no card inserted.\n" []; pure (minus 1))
      else do
        status ← if w.card.selected == 0 then sdmmc_select else pure (pos 0)
        if is_negative status
            then (do gecko_printf "sdmmc: READ: cannot select card.\n" []; pure (minus 1))
            else transfer opcode flags blk_start blk_count buf

unfoldable pub sdmmc_read : ℕ → ℕ → ℕ → M ℤ
unfolding selected_transfer
sdmmc_read blk_start blk_count buf =
    selected_transfer mmc_read_block_multiple (scf_rsp_r1 ||| scf_cmd_read) blk_start blk_count buf

unfoldable pub sdmmc_write : ℕ → ℕ → ℕ → M ℤ
unfolding selected_transfer
sdmmc_write blk_start blk_count buf =
    selected_transfer mmc_write_block_multiple scf_rsp_r1 blk_start blk_count buf

-- A u32 as an int.
unfoldable pub to_int : ℕ → ℤ
to_int n = if ltb n (2 ^ 31) then pos n else minus (2 ^ 32 - n)

unfoldable pub sdmmc_get_sectors : M ℤ
unfolding to_int
sdmmc_get_sectors = do
  w ← get
  if w.card.inserted == 0
      then (do gecko_printf "sdmmc: READ: no card inserted.\n" []; pure (minus 1))
      else if w.card.new_card == 1
      then (do
        gecko_printf "sdmmc: new card inserted but not acknowledged yet.\n" []
        pure (minus 1))
      else pure (to_int w.card.num_sectors)
