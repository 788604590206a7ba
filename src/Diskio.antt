-- ===== src/Diskio.antt =====
-- armboot/storage/diskio.c: the glue between the FAT library and the card. `buffer` is the address of
-- the static sector buffer.
pub mod Card
use vwii_nand_tools.Base.{
  ℕ, zero, suc, Bool, true, false, some, ◌+◌, ◌*◌, u32, ◌==◌, if◌then◌else◌, List, [], ◌∷◌, ◌++◌,
  take, drop, ℤ, pos, negsuc,
}
use vwii_nand_tools.Machine.{M, Call, World, pure, get, run, ◌>>=◌, ◌>>◌}
use vwii_nand_tools.Sdmmc.Transfer.{
  sdmmc_check_card, sdmmc_ack_card, sdmmc_read, sdmmc_write, sdmmc_no_card, sdmmc_inserted,
}

abbrev pub sta_noinit : ℕ
sta_noinit = 1

abbrev pub sta_nodisk : ℕ
sta_nodisk = 2

abbrev pub res_ok : ℕ
res_ok = 0

abbrev pub res_error : ℕ
res_error = 1

abbrev pub res_parerr : ℕ
res_parerr = 4

unfoldable pub disk_status : M ℕ
disk_status = do w ← get; pure (if sdmmc_check_card w.card == sdmmc_inserted then 0 else sta_nodisk)

unfoldable pub disk_initialize : M ℕ
unfolding disk_status
disk_initialize = do
  w ← get
  if sdmmc_check_card w.card == sdmmc_no_card
      then pure sta_noinit
      else do _ ← sdmmc_ack_card; disk_status

-- `x != 0`
abbrev pub fails : ℤ → Bool
fails (pos n) = if n == 0 then false else true
fails (negsuc n) = true

-- The loop of `disk_read`, with the sectors left, at `sector + i`: the result and the bytes that
-- were put behind `buff` so far.
unfoldable pub read_sectors : ℕ → ℕ → ℕ → List ℕ → M (ℕ × List ℕ)
read_sectors buffer zero sector buff w = some ((res_ok, buff), w)
read_sectors buffer (suc n) sector buff w =
    (do
      status ← sdmmc_read sector 1 buffer
      λ w'. elim (fails status) [
        | true ↦ some ((res_error, buff), w')
        | false ↦
            read_sectors buffer n (u32 (sector + 1)) (buff ++ w'.board.buffer w'.trace buffer 512)
              w'
      ])
      w

unfoldable pub disk_read : ℕ → ℕ → ℕ → M (ℕ × List ℕ)
unfolding read_sectors
disk_read buffer sector count = read_sectors buffer count sector []

-- The loop of `disk_write`, on what is left of `buff`.
unfoldable pub write_sectors : ℕ → ℕ → ℕ → List ℕ → M ℕ
write_sectors buffer zero sector buff w = some (res_ok, w)
write_sectors buffer (suc n) sector buff w =
    (do
      run (Call.memcpy buffer (take 512 buff))
      status ← sdmmc_write sector 1 buffer
      λ w'. elim (fails status) [
        | true ↦ some (res_error, w')
        | false ↦ write_sectors buffer n (u32 (sector + 1)) (drop 512 buff) w'
      ])
      w

unfoldable pub disk_write : ℕ → List ℕ → ℕ → ℕ → M ℕ
unfolding write_sectors
disk_write buffer buff sector count = write_sectors buffer count sector buff

-- CTRL_SYNC is 0.
unfoldable pub disk_ioctl : ℕ → ℕ
disk_ioctl ctrl = if ctrl == 0 then res_ok else res_parerr
