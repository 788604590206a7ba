-- ===== src/Irq/Total.antt =====
-- The interrupt handler, with the services that it calls, is over whatever the board answers.
use vwii_nand_tools.Base.{
  ℕ, ◌+◌, u32, [], ◌∷◌, Bool, true, is_set, ◌|||◌, ◌==◌, ◌!=◌, ◌&&&◌, complement,
}
use vwii_nand_tools.Machine.{
  Board, World, load, word, log, read32, write32, gecko_printf, when, ◌>>=◌, ◌>>◌,
}
use vwii_nand_tools.Machine.Ends.{Ends, ends_at, ends_then, ends_if}
use vwii_nand_tools.Machine.Calm.{Kept, At, Calm, when_ends, maybe_set, maybe_say}
use vwii_nand_tools.Sdhc.Regs.{hclr2}
use vwii_nand_tools.Hollywood.{
  hw_armirqmask, hw_armirqflag, hw_gpio1bintflag, hw_gpio1intflag, hw_timer, hw_alarm, nand_ctrl,
}
use vwii_nand_tools.Nand.{nand_irq, nand_error}
use vwii_nand_tools.Irq.Handler.{
  let_in, irq_handler, service_flags, rearm, acknowledge, irqf_timer, irqf_nand, irqf_gpio1b,
  irqf_gpio1, irqf_reset, irqf_ipc, irqf_aes, irqf_sdhc, irqf_all,
}
use vwii_nand_tools.Sdhc.Constants.{
  cmd_timeout_error, data_timeout_error, error_interrupt, card_interrupt, nintr_status_mask,
  nintr_status_en,
}
use vwii_nand_tools.Sdhc.Intr.{service_error, service, sdhc_intr, sdhc_irq, wake_mask}
use vwii_nand_tools.Sdhc.Total.{hread2-Calm, hwrite2-Calm, hclr2-Calm, sdhc_soft_reset-Calm}

-- The interrupts that come while the driver waits.
service_error-Calm :
    {bd : Board} {fs : Kept} (status : ℕ) (w : World)
    → At bd fs w
    → Ends (service_error status w) (Calm bd fs)
unfolding service_error
service_error-Calm status w q = ends_then (hread2-Calm _ w q) λ error w1 q.
    ends_then (hread2-Calm _ w1 q) λ signal w2 q. ends_then (hwrite2-Calm _ 0 w2 q) λ _ w3 q.
      ends_then (sdhc_soft_reset-Calm _ w3 q) λ _ w4 q.
        ends_then (maybe_set (w4.host.data_command == 1) (λ h. record h { data_command = 0 }) w4 q)
          λ _ w5 q. ends_then (hwrite2-Calm _ error w5 q) λ _ w6 q.
            ends_then (hwrite2-Calm _ signal w6 q) λ _ w7 q.
              maybe_set (is_set error (cmd_timeout_error ||| data_timeout_error))
                (λ h. record h {
                  intr_error_status = h.intr_error_status ||| error;
                  intr_status = h.intr_status ||| status;
                })
                w7 q

service-Calm :
    {bd : Board} {fs : Kept} (status : ℕ) (w : World)
    → At bd fs w
    → Ends (service status w) (Calm bd fs)
unfolding service
service-Calm status w q =
    ends_then
      (when_ends (is_set status error_interrupt) (service_error status) w
        (service_error-Calm status w q) q)
      λ _ w1 q.
        ends_then
          (maybe_set (is_set status wake_mask)
            (λ h. record h { intr_status = h.intr_status ||| status }) w1 q)
          λ _ w2 q.
            ends_then
              (when_ends (is_set status card_interrupt) (hclr2 nintr_status_en card_interrupt) w2
                (hclr2-Calm _ _ w2 q) q)
              λ _ w3 q. ends_at _ _ q

sdhc_irq-Calm : {bd : Board} {fs : Kept} (w : World) → At bd fs w → Ends (sdhc_irq w) (Calm bd fs)
unfolding sdhc_irq sdhc_intr
sdhc_irq-Calm {bd = bd} {fs = fs} w q =
    ends_then
      (ends_then (hread2-Calm _ w q) λ status w1 q.
        ends_if {Post = Calm bd fs} (is_set status nintr_status_mask) _ _ _
          (ends_then (hwrite2-Calm _ status w1 q) λ _ w2 q. service-Calm status w2 q)
          (ends_at _ _ q))
      λ _ w3 q. ends_at _ _ q

nand_irq-Calm : {bd : Board} {fs : Kept} (w : World) → At bd fs w → Ends (nand_irq w) (Calm bd fs)
unfolding nand_irq
nand_irq-Calm w q =
    ends_then
      (maybe_say (is_set (u32 (w.board.answer (load word nand_ctrl ∷ w.trace))) nand_error)
        "NAND: Error on IRQ\n" [] (log (load word nand_ctrl) w) q)
      λ _ w1 q. ends_at tt _ q

read32-Calm :
    {bd : Board} {fs : Kept} (a : ℕ) (w : World) → At bd fs w → Ends (read32 a w) (Calm bd fs)
read32-Calm a w q = ends_at _ _ q

rearm-Calm : {bd : Board} {fs : Kept} (w : World) → At bd fs w → Ends (rearm w) (Calm bd fs)
unfolding rearm
rearm-Calm w q =
    when_ends (w.alarm_frequency != 0)
      (do now ← read32 hw_timer; write32 hw_alarm (now + w.alarm_frequency)) w (ends_at tt _ q) q

acknowledge-Calm :
    {bd : Board} {fs : Kept} (b : Bool) (flag : ℕ) (w : World)
    → At bd fs w
    → Ends (when b (acknowledge flag) w) (Calm bd fs)
unfolding acknowledge
acknowledge-Calm b flag w q = when_ends b (acknowledge flag) w (ends_at tt _ q) q

-- A flag whose registers are written before it is acknowledged.
written-Calm :
    {bd : Board} {fs : Kept} (b : Bool) (a v flag : ℕ) (w : World)
    → At bd fs w
    → Ends (when b (do write32 a v; acknowledge flag) w) (Calm bd fs)
unfolding acknowledge
written-Calm b a v flag w q = when_ends b (do write32 a v; acknowledge flag) w (ends_at tt _ q) q

service_flags-Calm :
    {bd : Board} {fs : Kept} (flags : ℕ) (w : World)
    → At bd fs w
    → Ends (service_flags flags w) (Calm bd fs)
unfolding service_flags
service_flags-Calm flags w q =
    ends_then
      (when_ends (is_set flags irqf_timer) (do rearm; acknowledge irqf_timer) w
        (ends_then (rearm-Calm w q) λ _ w1 q. acknowledge-Calm true irqf_timer w1 q) q)
      λ _ w1 q.
        ends_then
          (when_ends (is_set flags irqf_nand)
            (do write32 nand_ctrl 0x7fffffff; acknowledge irqf_nand; nand_irq) w1
            (ends_then (acknowledge-Calm true irqf_nand _ q) λ _ w2 q. nand_irq-Calm w2 q) q)
          λ _ w2 q.
            ends_then
              (written-Calm (is_set flags irqf_gpio1b) hw_gpio1bintflag 0xffffff irqf_gpio1b w2 q)
              λ _ w3 q.
                ends_then
                  (written-Calm (is_set flags irqf_gpio1) hw_gpio1intflag 0xffffff irqf_gpio1 w3 q)
                  λ _ w4 q.
                    ends_then (acknowledge-Calm (is_set flags irqf_reset) irqf_reset w4 q) λ _ w5 q.
                      ends_then (acknowledge-Calm (is_set flags irqf_ipc) irqf_ipc w5 q) λ _ w6 q.
                        ends_then (acknowledge-Calm (is_set flags irqf_aes) irqf_aes w6 q) λ _ w7 q.
                          ends_then
                            (when_ends (is_set flags irqf_sdhc) (do acknowledge irqf_sdhc; sdhc_irq)
                              w7
                              (ends_then (acknowledge-Calm true irqf_sdhc w7 q)
                                λ _ w8 q. sdhc_irq-Calm w8 q)
                              q)
                            λ _ w8 q.
                              let unknown = flags &&& complement irqf_all in
                              when_ends (unknown != 0)
                                (do
                                  gecko_printf "IRQ: unknown 0x%08x\n" (unknown ∷ [])
                                  acknowledge unknown)
                                w8 (acknowledge-Calm true unknown _ q) q

pub irq_handler-Calm :
    {bd : Board} {fs : Kept} (w : World) → At bd fs w → Ends (irq_handler w) (Calm bd fs)
unfolding irq_handler
irq_handler-Calm w q = ends_then (read32-Calm hw_armirqmask w q) λ enabled w1 q.
    ends_then (read32-Calm hw_armirqflag w1 q)
      λ flags w2 q. service_flags-Calm (flags &&& enabled) w2 q

pub let_in-Calm : {bd : Board} {fs : Kept} (w : World) → At bd fs w → Ends (let_in w) (Calm bd fs)
unfolding let_in
let_in-Calm w q = when_ends (w.board.taken w.trace) irq_handler w (irq_handler-Calm w q) q
