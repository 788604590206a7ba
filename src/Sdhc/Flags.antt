-- ===== src/Sdhc/Flags.antt =====
-- The flags of commands and the opcodes of armboot/storage/sdmmc.h, the limits of sdhc.c, and the
-- error numbers of common/errno.h.
use vwii_nand_tools.Base.{ℕ}

abbrev pub scf_itsdone : ℕ
scf_itsdone = 0x1

abbrev pub scf_cmd_read : ℕ
scf_cmd_read = 0x40

abbrev pub scf_rsp_bsy : ℕ
scf_rsp_bsy = 0x100

abbrev pub scf_rsp_136 : ℕ
scf_rsp_136 = 0x200

abbrev pub scf_rsp_crc : ℕ
scf_rsp_crc = 0x400

abbrev pub scf_rsp_idx : ℕ
scf_rsp_idx = 0x800

abbrev pub scf_rsp_present : ℕ
scf_rsp_present = 0x1000

abbrev pub scf_rsp_r0 : ℕ
scf_rsp_r0 = 0x0

abbrev pub scf_rsp_r1 : ℕ
scf_rsp_r1 = 0x1c00

abbrev pub scf_rsp_r1b : ℕ
scf_rsp_r1b = 0x1d00

abbrev pub scf_rsp_r2 : ℕ
scf_rsp_r2 = 0x1600

abbrev pub scf_rsp_r3 : ℕ
scf_rsp_r3 = 0x1000

abbrev pub scf_rsp_r6 : ℕ
scf_rsp_r6 = 0x1c00

abbrev pub scf_rsp_r7 : ℕ
scf_rsp_r7 = 0x1c00

abbrev pub mmc_go_idle_state : ℕ
mmc_go_idle_state = 0

abbrev pub mmc_all_send_cid : ℕ
mmc_all_send_cid = 2

abbrev pub sd_send_relative_addr : ℕ
sd_send_relative_addr = 3

abbrev pub mmc_select_card : ℕ
mmc_select_card = 7

abbrev pub sd_send_if_cond : ℕ
sd_send_if_cond = 8

abbrev pub mmc_send_csd : ℕ
mmc_send_csd = 9

abbrev pub mmc_stop_transmission : ℕ
mmc_stop_transmission = 12

abbrev pub mmc_set_blocklen : ℕ
mmc_set_blocklen = 16

abbrev pub mmc_read_block_multiple : ℕ
mmc_read_block_multiple = 18

abbrev pub mmc_write_block_multiple : ℕ
mmc_write_block_multiple = 25

abbrev pub sd_app_op_cond : ℕ
sd_app_op_cond = 41

abbrev pub mmc_app_cmd : ℕ
mmc_app_cmd = 55

abbrev pub mmc_ocr_mem_ready : ℕ
mmc_ocr_mem_ready = 0x80000000

abbrev pub sd_ocr_sdhc_cap : ℕ
sd_ocr_sdhc_cap = 0x40000000

abbrev pub mmc_ocr_3_2v_3_3v : ℕ
mmc_ocr_3_2v_3_3v = 0x100000

abbrev pub mmc_ocr_3_3v_3_4v : ℕ
mmc_ocr_3_3v_3_4v = 0x200000

abbrev pub sdmmc_default_clock : ℕ
sdmmc_default_clock = 25000

abbrev pub sdmmc_sdclk_off : ℕ
sdmmc_sdclk_off = 0

abbrev pub sdmmc_default_blocklen : ℕ
sdmmc_default_blocklen = 512

abbrev pub shf_use_dma : ℕ
shf_use_dma = 0x0001

abbrev pub sdhc_command_timeout : ℕ
sdhc_command_timeout = 500

abbrev pub sdhc_transfer_timeout : ℕ
sdhc_transfer_timeout = 5000

abbrev pub einval : ℕ
einval = 22

abbrev pub enxio : ℕ
enxio = 6

abbrev pub etimedout : ℕ
etimedout = 60
