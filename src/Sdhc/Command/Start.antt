-- ===== src/Sdhc/Command/Start.antt =====
-- `struct sdmmc_command` of armboot/storage/sdmmc.h, and the start of a command in sdhc.c:
-- `sdhc_wait_state` and `sdhc_start_command`.
use vwii_nand_tools.Base.{
  ℕ, zero, suc, Bool, true, false, some, ◌/◌, ◌%◌, ◌^◌, u16, ◌&&&◌, ◌|||◌, ◌<<<◌, is_set, ◌==◌,
  ◌!=◌, ltb, ◌&&◌, min, if◌then◌else◌, List, [], ◌∷◌,
}
use vwii_nand_tools.Machine.{M, Call, pure, get, run, when, gecko_printf, ◌>>=◌, ◌>>◌}
use vwii_nand_tools.Memory.Ahb.{ahb_sdhc}
use vwii_nand_tools.Sdhc.Regs.{hread4, hwrite2, hwrite4}
use vwii_nand_tools.Sdhc.Constants.{
  dma_addr, block_size, block_count, block_count_max, argument, transfer_mode, multi_block_mode,
  read_mode, auto_cmd12_enable, block_count_enable, dma_enable, command_index_shift,
  command_index_mask, data_present_select, index_check_enable, crc_check_enable,
  resp_len_48_chk_busy, resp_len_48, resp_len_136, no_response, present_state, cmd_inhibit_mask,
}
use vwii_nand_tools.Sdhc.Flags.{
  scf_cmd_read, scf_rsp_present, scf_rsp_136, scf_rsp_bsy, scf_rsp_crc, scf_rsp_idx, etimedout,
  einval, shf_use_dma,
}

-- `resp` is the response buffer as its sixteen bytes, `buf` the address of the data.
pub record Command : Type 0 where
  pub opcode : ℕ
  pub arg : ℕ
  pub resp : List ℕ
  pub buf : ℕ
  pub datalen : ℕ
  pub blklen : ℕ
  pub flags : ℕ
  pub error : ℕ
  pub timeout : ℕ
  pub resid : ℕ
  pub rest : ℕ

-- `x > 0`, for an int in 32 bits.
unfoldable pub positive : ℕ → Bool
positive x = ltb 0 x && ltb x (2 ^ 31)

-- The loop of `sdhc_wait_state`, with the rounds left.
unfoldable pub state_rounds : ℕ → ℕ → ℕ → M ℕ
state_rounds mask value zero w = some (etimedout, w)
state_rounds mask value (suc timeout) w =
    (do
      state ← hread4 present_state
      λ w'. elim ((state &&& mask) == value) [
        | true ↦ some (0, w')
        | false ↦ (do run (Call.udelay 10000); state_rounds mask value timeout) w'
      ])
      w

unfoldable pub sdhc_wait_state : ℕ → ℕ → M ℕ
unfolding state_rounds
sdhc_wait_state mask value = state_rounds mask value 500

-- `MIN` of two ints in 32 bits, the first of them positive.
unfoldable pub int_min : ℕ → ℕ → ℕ
int_min a b = if ltb b (2 ^ 31) then min a b else b

-- The block size and the block count, as they are stored in 16 bits.
unfoldable pub blksize_of : Command → ℕ
unfolding int_min
blksize_of cmd = if positive cmd.datalen then u16 (int_min cmd.datalen cmd.blklen) else 0

unfoldable pub blkcount_of : Command → ℕ
blkcount_of cmd = if positive cmd.datalen then u16 (cmd.datalen / blksize_of cmd) else 0

unfoldable pub mode_word : ℕ → Command → ℕ → ℕ
mode_word host_flags cmd blkcount =
    (if is_set cmd.flags scf_cmd_read then read_mode else 0)
    ||| (if ltb 0 blkcount
        then block_count_enable ||| multi_block_mode ||| auto_cmd12_enable
        else 0)
    ||| (if is_set host_flags shf_use_dma then dma_enable else 0)

unfoldable pub response_type : ℕ → ℕ
response_type flags =
    if is_set flags scf_rsp_present
    then if is_set flags scf_rsp_136
      then resp_len_136
      else if is_set flags scf_rsp_bsy
      then resp_len_48_chk_busy
      else resp_len_48
    else no_response

unfoldable pub command_reg : Command → ℕ
unfolding response_type
command_reg cmd =
    ((cmd.opcode &&& command_index_mask) <<< command_index_shift)
    ||| (if is_set cmd.flags scf_rsp_crc then crc_check_enable else 0)
    ||| (if is_set cmd.flags scf_rsp_idx then index_check_enable else 0)
    ||| (if cmd.buf != 0 then data_present_select else 0)
    ||| response_type cmd.flags

-- The preparation of a transfer by DMA.
unfoldable pub prepare_dma : ℕ → Command → M Command
prepare_dma blkcount cmd = do
  if is_set cmd.flags scf_cmd_read
      then run (Call.dc_invalidaterange cmd.buf cmd.datalen)
      else (do run (Call.dc_flushrange cmd.buf cmd.datalen); run (Call.ahb_flush_to ahb_sdhc))
  hwrite4 dma_addr cmd.buf
  pure (record cmd { resid = blkcount; rest = cmd.buf })

-- The part after the checks. The write of the last register starts the command.
unfoldable pub issue : ℕ → ℕ → Command → M (ℕ × Command)
unfolding prepare_dma mode_word command_reg
issue blksize blkcount cmd = do
  error ← sdhc_wait_state cmd_inhibit_mask 0
  if error == 0
      then (do
        w ← get
        prepared ←
            if is_set w.host.flags shf_use_dma && positive cmd.datalen
            then prepare_dma blkcount cmd
            else pure cmd
        hwrite2 block_size (blksize ||| (7 <<< 12))
        when (ltb 0 blkcount) (hwrite2 block_count blkcount)
        hwrite4 argument cmd.arg
        hwrite4 transfer_mode ((command_reg cmd <<< 16) ||| mode_word w.host.flags cmd blkcount)
        pure (0, prepared))
      else pure (error, cmd)

-- Returns 0 or an error number, and the command with its remaining I/O.
unfoldable pub sdhc_start_command : Command → M (ℕ × Command)
unfolding issue
sdhc_start_command cmd =
    if positive cmd.datalen && (cmd.datalen % blksize_of cmd) != 0
    then (do
      gecko_printf "sdhc: data not a multiple of %d bytes\n" (blksize_of cmd ∷ [])
      pure (einval, cmd))
    else if ltb block_count_max (blkcount_of cmd)
    then (do gecko_printf "sdhc: too much data\n" []; pure (einval, cmd))
    else issue (blksize_of cmd) (blkcount_of cmd) cmd
