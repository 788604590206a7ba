-- ===== src/Crypto.antt =====
-- armboot/system/crypto.c: one-time-programmable memory, SEEPROM contents, and the AES engine.
pub mod Decrypt
use vwii_nand_tools.Base.{
  ℕ, zero, suc, Bool, true, false, none, some, ◌+◌, ◌-◌, ◌*◌, ◌^◌, u32, ◌<<<◌, ◌&&&◌, ◌|||◌, is_set,
  ltb, leb, ◌==◌, ◌!=◌, ◌&&◌, if◌then◌else◌, List, [], ◌∷◌,
}
use vwii_nand_tools.Machine.{M, Call, World, pure, run, read32, write32, while_read32, ◌>>=◌, ◌>>◌}
use vwii_nand_tools.Hollywood.{hw_otpcmd, hw_otpdata, aes_cmd, aes_src, aes_dest, aes_key, aes_iv}
use vwii_nand_tools.Irq.Mask.{irq_enable}
use vwii_nand_tools.Memory.Dma.{dma_addr}
use vwii_nand_tools.Seeprom.{seeprom_read}

-- The loop of `crypto_read_otp`, with the words left, at word `i`.
unfoldable pub otp_words : ℕ → ℕ → M (List ℕ)
otp_words zero i w = some ([], w)
otp_words (suc n) i w =
    (do
      write32 hw_otpcmd (0x80000000 ||| i)
      v ← read32 hw_otpdata
      rest ← otp_words n (i + 1)
      pure (v ∷ rest))
      w

unfoldable pub crypto_read_otp : M (List ℕ)
unfolding otp_words
crypto_read_otp = otp_words 0x20 0

-- `sizeof(seeprom) / 2` is 128.
unfoldable pub crypto_read_seeprom : M (List ℕ)
crypto_read_seeprom = do (status, words) ← seeprom_read 0 128; pure words

unfoldable pub aes_reset : M (Unit {0})
aes_reset = do write32 aes_cmd 0; while_read32 aes_cmd (λ v. v != 0)

-- IRQ_AES is 2. Returns the two stores that it fills.
unfoldable pub crypto_initialize : M (List ℕ × List ℕ)
crypto_initialize = do
  otp ← crypto_read_otp
  seeprom ← crypto_read_seeprom
  write32 aes_cmd 0
  while_read32 aes_cmd (λ v. v != 0)
  irq_enable 2
  pure (otp, seeprom)

abbrev set_aes_irq : ℕ → M (Unit {0})
set_aes_irq n w = some (tt, record w { aes_irq = n })

unfoldable pub aes_irq : M (Unit {0})
aes_irq = set_aes_irq 1

-- The word that starts the engine: the count in it is one less than the blocks.
unfoldable pub aes_word : ℕ → ℕ → ℕ → ℕ
aes_word cmd iv_keep blocks =
    (cmd <<< 16) ||| (if iv_keep != 0 then 0x1000 else 0) ||| ((blocks - 1) &&& 0x7f)

unfoldable pub aes_command : ℕ → ℕ → ℕ → M (Unit {0})
aes_command cmd iv_keep blocks = do
  set_aes_irq 0
  write32 aes_cmd (aes_word cmd iv_keep blocks)
  while_read32 aes_cmd (λ v. is_set v 0x80000000)

-- `aes_set_iv` and `aes_set_key`, on the four words of the buffer.
unfoldable pub write_words : ℕ → List ℕ → M (Unit {0})
write_words reg [] w = some (tt, w)
write_words reg (v ∷ vs) w = (do write32 reg v; write_words reg vs) w

unfoldable pub aes_set_iv : ℕ → ℕ → ℕ → ℕ → M (Unit {0})
unfolding write_words
aes_set_iv a b c d = write_words aes_iv (a ∷ b ∷ c ∷ d ∷ [])

unfoldable pub aes_empty_iv : M (Unit {0})
unfolding write_words
aes_empty_iv = write_words aes_iv (0 ∷ 0 ∷ 0 ∷ 0 ∷ [])

unfoldable pub aes_set_key : ℕ → ℕ → ℕ → ℕ → M (Unit {0})
unfolding write_words
aes_set_key a b c d = write_words aes_key (a ∷ b ∷ c ∷ d ∷ [])

-- The blocks of one round. `this_blocks` is an int: a count from 2 ^ 31 on is taken whole.
unfoldable pub this_round : ℕ → ℕ
this_round blocks = if ltb 0x80 blocks && ltb blocks (2 ^ 31) then 0x80 else blocks

-- The devices of the bus flushes are numbered as in Memory/Ahb.
unfoldable pub aes_round : ℕ → ℕ → ℕ → ℕ → M (Unit {0})
unfolding this_round
aes_round src dst blocks keep_iv = do
  from ← dma_addr src
  write32 aes_src from
  to ← dma_addr dst
  write32 aes_dest to
  run (Call.dc_flushrange src (u32 (blocks * 16)))
  run (Call.dc_invalidaterange dst (u32 (blocks * 16)))
  run (Call.ahb_flush_to 4)
  aes_command 0x9800 keep_iv (this_round blocks)
  run (Call.ahb_flush_from 4)
  run (Call.ahb_flush_to 0)

-- The loop of `aes_decrypt`. Each round takes a block at least, so as many rounds as blocks are given.
unfoldable pub aes_rounds : ℕ → ℕ → ℕ → ℕ → ℕ → M (Unit {0})
aes_rounds zero src dst blocks keep_iv w = if blocks == 0 then some (tt, w) else none
aes_rounds (suc n) src dst blocks keep_iv w = elim (blocks == 0) [
  | true ↦ some (tt, w)
  | false ↦
      (do
        aes_round src dst blocks keep_iv
        aes_rounds n (u32 (src + this_round blocks * 16)) (u32 (dst + this_round blocks * 16))
            (blocks - this_round blocks) 1)
        w
]

unfoldable pub aes_decrypt : ℕ → ℕ → ℕ → ℕ → M (Unit {0})
unfolding aes_rounds
aes_decrypt src dst blocks keep_iv = aes_rounds blocks src dst blocks keep_iv
