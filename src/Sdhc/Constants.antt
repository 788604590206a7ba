-- ===== src/Sdhc/Constants.antt =====
-- Register numbers and bits of the SD host controller, from armboot/storage/sdhc.h.
use vwii_nand_tools.Base.{ℕ}

abbrev pub dma_addr : ℕ
dma_addr = 0x0

abbrev pub block_size : ℕ
block_size = 0x4

abbrev pub block_count : ℕ
block_count = 0x6

abbrev pub block_count_max : ℕ
block_count_max = 0x200

abbrev pub argument : ℕ
argument = 0x8

abbrev pub transfer_mode : ℕ
transfer_mode = 0xc

abbrev pub multi_block_mode : ℕ
multi_block_mode = 0x20

abbrev pub read_mode : ℕ
read_mode = 0x10

abbrev pub auto_cmd12_enable : ℕ
auto_cmd12_enable = 0x4

abbrev pub block_count_enable : ℕ
block_count_enable = 0x2

abbrev pub dma_enable : ℕ
dma_enable = 0x1

abbrev pub command_index_shift : ℕ
command_index_shift = 0x8

abbrev pub command_index_mask : ℕ
command_index_mask = 0x3f

abbrev pub data_present_select : ℕ
data_present_select = 0x20

abbrev pub index_check_enable : ℕ
index_check_enable = 0x10

abbrev pub crc_check_enable : ℕ
crc_check_enable = 0x8

abbrev pub resp_len_48_chk_busy : ℕ
resp_len_48_chk_busy = 0x3

abbrev pub resp_len_48 : ℕ
resp_len_48 = 0x2

abbrev pub resp_len_136 : ℕ
resp_len_136 = 0x1

abbrev pub no_response : ℕ
no_response = 0x0

abbrev pub response : ℕ
response = 0x10

abbrev pub present_state : ℕ
present_state = 0x24

abbrev pub card_inserted : ℕ
card_inserted = 0x10000

abbrev pub cmd_inhibit_mask : ℕ
cmd_inhibit_mask = 0x3

abbrev pub power_ctl : ℕ
power_ctl = 0x29

abbrev pub voltage_shift : ℕ
voltage_shift = 0x1

abbrev pub voltage_3_3v : ℕ
voltage_3_3v = 0x7

abbrev pub bus_power : ℕ
bus_power = 0x1

abbrev pub clock_ctl : ℕ
clock_ctl = 0x2c

abbrev pub sdclk_div_shift : ℕ
sdclk_div_shift = 0x8

abbrev pub sdclk_enable : ℕ
sdclk_enable = 0x4

abbrev pub intclk_stable : ℕ
intclk_stable = 0x2

abbrev pub intclk_enable : ℕ
intclk_enable = 0x1

abbrev pub timeout_ctl : ℕ
timeout_ctl = 0x2e

abbrev pub timeout_max : ℕ
timeout_max = 0xe

abbrev pub software_reset : ℕ
software_reset = 0x2f

abbrev pub reset_dat : ℕ
reset_dat = 0x4

abbrev pub reset_cmd : ℕ
reset_cmd = 0x2

abbrev pub reset_all : ℕ
reset_all = 0x1

abbrev pub nintr_status : ℕ
nintr_status = 0x30

abbrev pub error_interrupt : ℕ
error_interrupt = 0x8000

abbrev pub error_timeout : ℕ
error_timeout = 0x4000

abbrev pub card_interrupt : ℕ
card_interrupt = 0x100

abbrev pub card_removal : ℕ
card_removal = 0x80

abbrev pub card_insertion : ℕ
card_insertion = 0x40

abbrev pub buffer_read_ready : ℕ
buffer_read_ready = 0x20

abbrev pub buffer_write_ready : ℕ
buffer_write_ready = 0x10

abbrev pub dma_interrupt : ℕ
dma_interrupt = 0x8

abbrev pub block_gap_event : ℕ
block_gap_event = 0x4

abbrev pub transfer_complete : ℕ
transfer_complete = 0x2

abbrev pub command_complete : ℕ
command_complete = 0x1

abbrev pub nintr_status_mask : ℕ
nintr_status_mask = 0x81ff

abbrev pub eintr_status : ℕ
eintr_status = 0x32

abbrev pub data_timeout_error : ℕ
data_timeout_error = 0x10

abbrev pub cmd_timeout_error : ℕ
cmd_timeout_error = 0x1

abbrev pub eintr_status_mask : ℕ
eintr_status_mask = 0x3ff

abbrev pub nintr_status_en : ℕ
nintr_status_en = 0x34

abbrev pub eintr_status_en : ℕ
eintr_status_en = 0x36

abbrev pub nintr_signal_en : ℕ
nintr_signal_en = 0x38

abbrev pub eintr_signal_en : ℕ
eintr_signal_en = 0x3a

abbrev pub eintr_signal_mask : ℕ
eintr_signal_mask = 0x3ff

abbrev pub capabilities : ℕ
capabilities = 0x40

abbrev pub dma_support : ℕ
dma_support = 0x400000

abbrev pub base_freq_shift : ℕ
base_freq_shift = 0x8

abbrev pub base_freq_mask : ℕ
base_freq_mask = 0x3f
