-- ===== src/Memory/Ahb.antt =====
-- The bus flushes of armboot/system/memory.c: `_mc_read32`, `_ahb_flush_to`, `ahb_flush_to` and
-- `ahb_flush_from`.
use vwii_nand_tools.Base.{
  ℕ, zero, suc, Bool, true, false, ◌&&&◌, ◌|||◌, complement, is_set, ◌==◌, ◌!=◌, ◌||◌, not, Option,
  none, some, [], ◌∷◌, if◌then◌else◌,
}
use vwii_nand_tools.Machine.{
  M, Call, call, pure, when, ◌>>=◌, ◌>>◌, ask, run, read32, write32, read16, write16, set32,
  clear32, mask32, while_read32, gecko_printf,
}
use vwii_nand_tools.Hollywood.{
  hw_version, hw_130, hw_138, hw_188, hw_18c, hw_124, hw_134, hw_100, hw_104, hw_108, hw_10c,
  hw_110, hw_114, hw_118, hw_11c, hw_120, mem_flushreq, mem_flushack,
}

-- `enum AHBDEV`
abbrev pub ahb_starlet : ℕ
ahb_starlet = 0

abbrev pub ahb_1 : ℕ
ahb_1 = 1

abbrev pub ahb_nand : ℕ
ahb_nand = 3

abbrev pub ahb_aes : ℕ
ahb_aes = 4

abbrev pub ahb_sha1 : ℕ
ahb_sha1 = 5

abbrev pub ahb_sdhc : ℕ
ahb_sdhc = 9

abbrev old_version : ℕ → Bool
old_version v = not (is_set v 0xf0)

abbrev save_130 : M ℕ
save_130 = do
  tmp130 ← read32 hw_130
  write32 hw_130 (tmp130 ||| 0x400)
  _ ← read32 hw_138
  _ ← read32 hw_138
  _ ← read32 hw_138
  _ ← read32 hw_138
  pure tmp130

unfoldable pub mc_read32 : ℕ → M ℕ
mc_read32 addr = do
  v ← read32 hw_version
  tmp130 ← if old_version v then save_130 else pure 0
  found ← read32 addr
  _ ← read32 hw_version
  v' ← read32 hw_version
  when (old_version v') (write32 hw_130 tmp130)
  pure found

-- The bit of a device in the flush register.
unfoldable pub device_mask : ℕ → Option ℕ
device_mask dev =
    if dev == ahb_starlet
    then some 0x8000
    else if dev == ahb_1
    then some 0x4000
    else if dev == ahb_nand
    then some 0x0002
    else if dev == ahb_aes
    then some 0x0004
    else if dev == ahb_sha1
    then some 0x0008
    else if dev == ahb_sdhc
    then some 0x0080
    else none

abbrev flush_reg : ℕ
flush_reg = 0xd8b0008

-- `while ((read32(HW_18C) & 0xF) == 9) set32(HW_188, 0x10000);`
leave_nine : ℕ → M (Unit {0})
leave_nine zero w = none
leave_nine (suc n) w =
    (do
      v ← read32 hw_18c
      λ w'. elim ((v &&& 0xf) == 9) [
        | true ↦ (do set32 hw_188 0x10000; leave_nine n) w'
        | false ↦ some (tt, w')
      ])
      w

abbrev leave_nine_polls : M (Unit {0})
leave_nine_polls w = leave_nine w.board.polls w

abbrev stall_bus : M (Unit {0})
stall_bus = do
  set32 hw_100 0x400
  set32 hw_104 0x400
  set32 hw_108 0x400
  set32 hw_10c 0x400
  set32 hw_110 0x400
  set32 hw_114 0x400
  set32 hw_118 0x400
  set32 hw_11c 0x400
  set32 hw_120 0x400

abbrev resume_bus : M (Unit {0})
resume_bus = do
  clear32 hw_134 0x400
  clear32 hw_100 0x400
  clear32 hw_104 0x400
  clear32 hw_108 0x400
  clear32 hw_10c 0x400
  clear32 hw_110 0x400
  clear32 hw_114 0x400
  clear32 hw_118 0x400
  clear32 hw_11c 0x400
  clear32 hw_120 0x400

-- The case of the four engines, which falls through to that of the processors.
flush_engine : ℕ → M (Unit {0})
unfolding leave_nine mc_read32
flush_engine mask = do
  leave_nine_polls
  clear32 hw_188 0x10000
  set32 hw_188 0x2000000
  mask32 hw_124 0x7c0 0x280
  set32 hw_134 0x400
  while_read32 hw_18c (λ v. (v &&& 0xf) != 9)
  stall_bus
  low ← mc_read32 flush_reg
  write32 flush_reg (low &&& complement mask)
  high ← mc_read32 flush_reg
  write32 flush_reg (high ||| mask)
  resume_bus
  clear32 hw_188 0x2000000
  mask32 hw_124 0x7c0 0xc0

abbrev is_engine : ℕ → Bool
is_engine dev = dev == ahb_nand || dev == ahb_aes || dev == ahb_sha1 || dev == ahb_sdhc

-- `_ahb_flush_to`
unfoldable pub ahb_flush_to_one : ℕ → M (Unit {0})
unfolding device_mask flush_engine mc_read32
ahb_flush_to_one dev = elim (device_mask dev) [
  | none ↦ gecko_printf "ahb_invalidate(%d): Invalid device\n" (dev ∷ [])
  | some mask ↦ do
    val ← mc_read32 flush_reg
    when (not (is_set val mask)) (do
      when (is_engine dev) (flush_engine mask)
      write32 flush_reg (val &&& complement mask)
      write32 flush_reg (val ||| mask)
      write32 flush_reg (val ||| mask)
      write32 flush_reg (val ||| mask))
]

unfoldable pub ahb_flush_to : ℕ → M (Unit {0})
ahb_flush_to dev = do
  cookie ← ask (call Call.irq_kill)
  ahb_flush_to_one dev
  when (dev != ahb_starlet) (ahb_flush_to_one ahb_starlet)
  run (Call.irq_restore cookie)

unfoldable pub request_of : ℕ → Option ℕ
request_of dev =
    if dev == ahb_starlet || dev == ahb_1
    then some 1
    else if dev == ahb_aes || dev == ahb_sha1
    then some 2
    else if dev == ahb_nand || dev == ahb_sdhc
    then some 8
    else none

-- The rounds of the wait of `ahb_flush_from`: whether the request was acknowledged.
flush_rounds : ℕ → ℕ → M Bool
flush_rounds zero req w = some (false, w)
flush_rounds (suc n) req w =
    (do
      ack ← read16 mem_flushack
      ahb_flush_to_one ahb_starlet
      λ w'. elim (ack == req) [ true ↦ some (true, w') | false ↦ flush_rounds n req w' ])
      w

unfoldable pub ahb_flush_from : ℕ → M (Unit {0})
unfolding request_of flush_rounds
ahb_flush_from dev = do
  cookie ← ask (call Call.irq_kill)
  elim (request_of dev) [
    | none ↦ gecko_printf "ahb_flush(%d): Invalid device\n" (dev ∷ [])
    | some req ↦ do
      write16 mem_flushreq req
      acked ← flush_rounds 1000000 req
      write16 mem_flushreq 0
      when (not acked) (gecko_printf "ahb_flush(%d): Flush (0x%x) did not ack!\n" (dev ∷ req ∷ []))
  ]
  run (Call.irq_restore cookie)
