-- ===== src/Nand.antt =====
-- armboot/storage/nand.c: the driver of the NAND controller. Addresses of buffers are words, and
-- -1 there means that no buffer is given. `nand_erase_block` is compiled only under
-- NAND_SUPPORT_ERASE, and `nand_write_page` under NAND_SUPPORT_WRITE; the device RB_FLA that it names,
-- and that no header has, is an argument.
pub mod Ecc
pub mod Wait
use vwii_nand_tools.Base.{
  ℕ, zero, suc, Bool, true, false, ◌+◌, ◌<<<◌, ◌|||◌, is_set, ltb, leb, ◌||◌, ◌==◌, ◌!=◌,
  if◌then◌else◌, minus_one, none, some, ℤ, pos, [], ◌∷◌,
}
use vwii_nand_tools.Machine.{
  Call, call, World, M, pure, ◌>>=◌, ◌>>◌, get, ask, when, set_nand, read32, write32, write8, run,
  gecko_printf, while_read32,
}
use vwii_nand_tools.Hollywood.{
  nand_ctrl, nand_conf, nand_addr0, nand_addr1, nand_data, nand_ecc, nand_bank, nand_unk2,
  nand_unk3,
}
use vwii_nand_tools.Irq.Mask.{irq_enable, irq_disable, irq_nand}
use vwii_nand_tools.Memory.Dma.{dma_addr}

abbrev pub nand_busy_mask : ℕ
nand_busy_mask = 0x80000000

abbrev pub nand_error : ℕ
nand_error = 0x20000000

abbrev pub ahb_nand : ℕ
ahb_nand = 3

abbrev pub ahb_starlet : ℕ
ahb_starlet = 0

abbrev pub page_size : ℕ
page_size = 2048

abbrev pub page_spare_size : ℕ
page_spare_size = 64

abbrev pub ecc_buffer_size : ℕ
ecc_buffer_size = 80

abbrev pub nand_max_page : ℕ
nand_max_page = 0x40000

abbrev pub nand_min_page : ℕ
nand_min_page = 0x200

abbrev flags_irq : ℕ
flags_irq = 0x40000000

abbrev flags_wait : ℕ
flags_wait = 0x8000

abbrev flags_wr : ℕ
flags_wr = 0x4000

abbrev flags_rd : ℕ
flags_rd = 0x2000

abbrev flags_ecc : ℕ
flags_ecc = 0x1000

-- The two flushes that end an interrupt and a wait.
abbrev settle : M (Unit {0})
settle = do run (Call.ahb_flush_from ahb_nand); run (Call.ahb_flush_to ahb_starlet)

unfoldable pub nand_irq : M (Unit {0})
nand_irq = do
  v ← read32 nand_ctrl
  when (is_set v nand_error) (gecko_printf "NAND: Error on IRQ\n" [])
  settle
  set_nand (λ n. record n { irq_flag = 1 })

-- `__nand_wait`
unfoldable pub nand_wait_ctrl : M (Unit {0})
nand_wait_ctrl = do
  while_read32 nand_ctrl (λ v. is_set v nand_busy_mask)
  v ← read32 nand_ctrl
  when (is_set v nand_error) (gecko_printf "NAND: Error on wait\n" [])
  settle

-- The command word of `nand_send_command`.
unfoldable pub command_word : ℕ → ℕ → ℕ → ℕ → ℕ
command_word command bitmask flags num_bytes =
    nand_busy_mask ||| (bitmask <<< 24) ||| (command <<< 16) ||| flags ||| num_bytes

unfoldable pub nand_send_command : ℕ → ℕ → ℕ → ℕ → M (Unit {0})
nand_send_command command bitmask flags num_bytes = do
  let cmd = command_word command bitmask flags num_bytes
  write32 nand_ctrl 0x7fffffff
  write32 nand_ctrl 0
  write32 nand_ctrl cmd

-- `__nand_set_address`
unfoldable pub nand_set_address : ℕ → ℕ → M (Unit {0})
nand_set_address page_off pageno = do
  when (page_off != minus_one) (write32 nand_addr0 page_off)
  when (pageno != minus_one) (write32 nand_addr1 pageno)

-- The spare half of `__nand_setup_dma`.
unfoldable pub setup_spare : ℕ → M (Unit {0})
setup_spare spare = do
  addr ← dma_addr spare
  when (is_set addr 0x7f) (
      gecko_printf "NAND: Spare buffer 0x%08x is not aligned, data will be corrupted\n" (addr ∷ []))
  write32 nand_ecc addr

-- `__nand_setup_dma`
unfoldable pub nand_setup_dma : ℕ → ℕ → M (Unit {0})
unfolding setup_spare
nand_setup_dma data_buf spare = do
  when (data_buf != minus_one) (do addr ← dma_addr data_buf; write32 nand_data addr)
  when (spare != minus_one) (setup_spare spare)

-- The round of the clearing loop of `nand_reset`, for the six words at `base`.
abbrev clear_six : ℕ → M (Unit {0})
clear_six base = do
  write32 (base + 0x00) 0
  write32 (base + 0x04) 0
  write32 (base + 0x08) 0
  write32 (base + 0x0c) 0
  write32 (base + 0x10) 0
  write32 (base + 0x14) 0

-- `do { ...; base += 0x18; } while (base != NAND_UNK3 + 0xC0);`, with the rounds left.
clear_from : ℕ → ℕ → M (Unit {0})
clear_from zero base w = some (tt, w)
clear_from (suc n) base w = (do clear_six base; clear_from n (base + 0x18)) w

unfoldable pub nand_reset : ℕ → M ℤ
unfolding clear_from
nand_reset bank = do
  write32 nand_ctrl 0
  while_read32 nand_ctrl (λ v. is_set v nand_busy_mask)
  write32 nand_ctrl 0
  write32 nand_conf 0x743e3eff
  write32 nand_bank 0x00000001
  write32 nand_conf 0xcb3e0e7f
  write32 nand_unk2 0
  while_read32 nand_unk2 (λ v. leb 0x80000000 v)
  write32 nand_unk2 0
  clear_from 8 nand_unk3
  write32 nand_ctrl 0
  while_read32 nand_ctrl (λ v. is_set v nand_busy_mask)
  write32 nand_ctrl 0
  write32 nand_bank bank
  nand_send_command 0xff 0 flags_wait 0
  nand_wait_ctrl
  write32 nand_conf 0x08000000
  write32 nand_conf 0x7c3e3eff
  pure (pos 0)

abbrev clear_irq_flag : M (Unit {0})
clear_irq_flag = set_nand (λ n. record n { irq_flag = 0 })

unfoldable pub nand_get_id : ℕ → M (Unit {0})
nand_get_id idbuf = do
  clear_irq_flag
  nand_set_address 0 0
  run (Call.dc_invalidaterange idbuf 0x40)
  nand_setup_dma idbuf minus_one
  nand_send_command 0x90 1 (flags_irq ||| flags_rd) 0x40

-- The store of 0 to the first byte of the buffer is an access like any other.
unfoldable pub nand_get_status : ℕ → M (Unit {0})
nand_get_status status_buf = do
  clear_irq_flag
  write8 status_buf 0
  run (Call.dc_invalidaterange status_buf 0x40)
  nand_setup_dma status_buf minus_one
  nand_send_command 0x70 0 (flags_irq ||| flags_rd) 0x40

unfoldable pub nand_read_page : ℕ → ℕ → ℕ → M (Unit {0})
nand_read_page pageno data_buf ecc = do
  clear_irq_flag
  set_nand (λ n. record n { last_page_read = pageno })
  nand_set_address 0 pageno
  nand_send_command 0x00 0x1f 0 0
  when (data_buf != minus_one) (run (Call.dc_invalidaterange data_buf page_size))
  when (ecc != minus_one) (run (Call.dc_invalidaterange ecc ecc_buffer_size))
  nand_wait_ctrl
  nand_setup_dma data_buf ecc
  nand_send_command 0x30 0 (flags_irq ||| flags_wait ||| flags_rd ||| flags_ecc) 0x840

-- The page range that writes and erasures are held to.
unfoldable pub page_forbidden : ℕ → Bool
page_forbidden pageno = ltb pageno nand_min_page || leb nand_max_page pageno

unfoldable pub nand_write_page : ℕ → ℕ → ℕ → ℕ → M (Unit {0})
unfolding page_forbidden
nand_write_page rb_fla pageno data_buf ecc = do
  clear_irq_flag
  if page_forbidden pageno
      then gecko_printf "Error: nand_write to page %d forbidden\n" (pageno ∷ [])
      else do
        when (data_buf != minus_one) (run (Call.dc_flushrange data_buf page_size))
        when (ecc != minus_one) (run (Call.dc_flushrange ecc page_spare_size))
        run (Call.ahb_flush_to rb_fla)
        nand_set_address 0 pageno
        nand_setup_dma data_buf ecc
        nand_send_command 0x80 0x1f flags_wr 0x840
        nand_wait_ctrl
        nand_send_command 0x10 0 (flags_irq ||| flags_wait) 0

unfoldable pub nand_erase_block : ℕ → M (Unit {0})
unfolding page_forbidden
nand_erase_block pageno = do
  clear_irq_flag
  if page_forbidden pageno
      then gecko_printf "Error: nand_erase to page %d forbidden\n" (pageno ∷ [])
      else do
        nand_set_address 0 pageno
        nand_send_command 0x60 0x1c 0 0
        nand_wait_ctrl
        nand_send_command 0xd0 0 (flags_irq ||| flags_wait) 0

unfoldable pub nand_initialize : ℕ → M (Unit {0})
nand_initialize bank w =
    if w.nand.initialized == bank
    then some (tt, w)
    else (do
      irq_disable irq_nand
      nand_reset bank
      irq_enable irq_nand
      set_nand (λ n. record n { initialized = bank }))
        w
