-- ===== src/Irq/Handler.antt =====
-- `irq_handler` of armboot/system/irq.c with the set-up, the shut-down and the alarm. Which flags are
-- pending and enabled is read once; each is then acknowledged, with its device's service.
use vwii_nand_tools.Base.{
  ℕ, ◌+◌, ◌*◌, ◌&&&◌, ◌|||◌, complement, is_set, u32, ◌!=◌, if◌then◌else◌, [], ◌∷◌, some,
}
use vwii_nand_tools.Machine.{
  M, Call, call, pure, get, ask, run, when, read32, write32, gecko_printf, ◌>>=◌, ◌>>◌,
}
use vwii_nand_tools.Hollywood.{
  hw_armirqmask, hw_armirqflag, hw_timer, hw_alarm, nand_ctrl, hw_gpio1bintflag, hw_gpio1intflag,
}
use vwii_nand_tools.Nand.{nand_irq}
use vwii_nand_tools.Sdhc.Intr.{sdhc_irq}

abbrev pub irqf_timer : ℕ
irqf_timer = 0x1

abbrev pub irqf_nand : ℕ
irqf_nand = 0x2

abbrev pub irqf_aes : ℕ
irqf_aes = 0x4

abbrev pub irqf_sdhc : ℕ
irqf_sdhc = 0x80

abbrev pub irqf_gpio1b : ℕ
irqf_gpio1b = 0x400

abbrev pub irqf_gpio1 : ℕ
irqf_gpio1 = 0x800

abbrev pub irqf_reset : ℕ
irqf_reset = 0x20000

abbrev pub irqf_ipc : ℕ
irqf_ipc = 0x80000000

abbrev pub irqf_all : ℕ
irqf_all =
    irqf_timer ||| irqf_nand ||| irqf_gpio1b ||| irqf_gpio1 ||| irqf_reset ||| irqf_ipc ||| irqf_aes
    ||| irqf_sdhc

unfoldable pub acknowledge : ℕ → M (Unit {0})
acknowledge flag = write32 hw_armirqflag flag

unfoldable pub rearm : M (Unit {0})
rearm = do
  w ← get
  when (w.alarm_frequency != 0)
      (do now ← read32 hw_timer; write32 hw_alarm (now + w.alarm_frequency))

-- The handler's tests, for the flags that are pending and enabled.
unfoldable pub service_flags : ℕ → M (Unit {0})
service_flags flags = do
  when (is_set flags irqf_timer) (do rearm; acknowledge irqf_timer)
  when (is_set flags irqf_nand) (do write32 nand_ctrl 0x7fffffff; acknowledge irqf_nand; nand_irq)
  when (is_set flags irqf_gpio1b) (do write32 hw_gpio1bintflag 0xffffff; acknowledge irqf_gpio1b)
  when (is_set flags irqf_gpio1) (do write32 hw_gpio1intflag 0xffffff; acknowledge irqf_gpio1)
  when (is_set flags irqf_reset) (acknowledge irqf_reset)
  when (is_set flags irqf_ipc) (acknowledge irqf_ipc)
  when (is_set flags irqf_aes) (acknowledge irqf_aes)
  when (is_set flags irqf_sdhc) (do acknowledge irqf_sdhc; sdhc_irq)
  let unknown = flags &&& complement irqf_all
  when (unknown != 0) (do gecko_printf "IRQ: unknown 0x%08x\n" (unknown ∷ []); acknowledge unknown)

unfoldable pub irq_handler : M (Unit {0})
unfolding service_flags
irq_handler = do
  enabled ← read32 hw_armirqmask
  flags ← read32 hw_armirqflag
  service_flags (flags &&& enabled)

-- The handler runs if the board says that an interrupt is taken now.
unfoldable pub let_in : M (Unit {0})
let_in w = if w.board.taken w.trace then irq_handler w else some (tt, w)

-- CPSR_FIQDIS is 0x40.
unfoldable pub irq_initialize : M (Unit {0})
irq_initialize = do
  run Call.irq_setup_stack
  write32 hw_armirqmask 0
  write32 hw_armirqflag 0xffffffff
  run (Call.irq_restore 0x40)
  write32 (hw_armirqmask + 0x04) 0
  write32 (hw_armirqmask + 0x20) 0
  write32 hw_alarm 0

unfoldable pub irq_shutdown : M (Unit {0})
irq_shutdown = do
  write32 hw_armirqmask 0
  write32 hw_armirqflag 0xffffffff
  _ ← ask (call Call.irq_kill)
  pure tt

abbrev set_alarm_frequency : ℕ → M (Unit {0})
set_alarm_frequency f w = some (tt, record w { alarm_frequency = f })

unfoldable pub irq_set_alarm : ℕ → ℕ → M (Unit {0})
irq_set_alarm ms enable = do
  let frequency = u32 (1898 * ms)
  set_alarm_frequency frequency
  when (enable != 0) (do now ← read32 hw_timer; write32 hw_alarm (now + frequency))
