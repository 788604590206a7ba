-- ===== src/Sdhc/Command/Total.antt =====
-- A command without data is over, whatever the board answers.
use vwii_nand_tools.Base.{
  ℕ, arith, zero, suc, Bool, true, false, ◌≡◌, is_set, ◌==◌, ◌!=◌, ◌&&&◌, ◌&&◌, ◌+◌, ◌%◌,
  if◌then◌else◌, ltb,
}
use vwii_nand_tools.Machine.{Board, World, Call, run, pure, ◌>>◌}
use vwii_nand_tools.Machine.Ends.{Ends, ends_at, ends_then, ends_if, ends_pick, ends_weaken}
use vwii_nand_tools.Machine.Calm.{Kept, At, Calm, when_ends, maybe_set}
use vwii_nand_tools.Memory.Ahb.{ahb_sdhc}
use vwii_nand_tools.Irq.Total.{let_in-Calm}
use vwii_nand_tools.Sdhc.Regs.{hwrite2}
use vwii_nand_tools.Sdhc.Total.{
  hread1-Calm, hread4-Calm, hwrite2-Calm, hwrite4-Calm, sdhc_soft_reset-Calm,
}
use vwii_nand_tools.Sdhc.Wait.{intr_rounds, judge, sdhc_wait_intr}
use vwii_nand_tools.Sdhc.Command.Start.{
  Command, positive, state_rounds, sdhc_wait_state, issue, sdhc_start_command, blksize_of,
  blkcount_of, prepare_dma,
}
use vwii_nand_tools.Sdhc.Command.{
  long_response, read_response, finish_command, with_timeout, sdhc_exec_command, sdhc_transfer_data,
}
use vwii_nand_tools.Sdhc.Constants.{
  error_interrupt, error_timeout, dma_addr, present_state, cmd_inhibit_mask, block_count,
  block_count_max, command_complete,
}
use vwii_nand_tools.Sdhc.Flags.{
  scf_cmd_read, sdhc_transfer_timeout, sdhc_command_timeout, shf_use_dma, scf_rsp_present,
  scf_rsp_136,
}

intr_rounds-Calm :
    {bd : Board} {fs : Kept} (mask status n : ℕ) (w : World)
    → At bd fs w
    → Ends (intr_rounds mask status n w) (Calm bd fs)
unfolding intr_rounds
intr_rounds-Calm mask status zero w q = ends_at _ _ q
intr_rounds-Calm mask status (suc n) w q = ends_then (let_in-Calm w q) λ _ w1 q.
    ends_pick (w1.host.intr_status == 0) (intr_rounds-Calm mask status n _ q) (ends_at _ _ q)

judge-Calm :
    {bd : Board} {fs : Kept} (status : ℕ) (w : World)
    → At bd fs w
    → Ends (judge status w) (Calm bd fs)
unfolding judge
judge-Calm status w q =
    ends_if (is_set status error_interrupt) _ _ w
      (ends_then (sdhc_soft_reset-Calm _ _ q) λ _ w1 q. ends_at _ _ q)
      (ends_if (is_set status error_timeout) _ _ w (ends_at _ _ q) (ends_at _ _ q))

sdhc_wait_intr-Calm :
    {bd : Board} {fs : Kept} (mask timo : ℕ) (w : World)
    → At bd fs w
    → Ends (sdhc_wait_intr mask timo w) (Calm bd fs)
unfolding sdhc_wait_intr
sdhc_wait_intr-Calm mask timo w q =
    ends_then (intr_rounds-Calm _ _ timo w q) λ status w1 q. judge-Calm status _ q

state_rounds-Calm :
    {bd : Board} {fs : Kept} (mask value n : ℕ) (w : World)
    → At bd fs w
    → Ends (state_rounds mask value n w) (Calm bd fs)
unfolding state_rounds
state_rounds-Calm mask value zero w q = ends_at _ _ q
state_rounds-Calm mask value (suc n) w q = ends_then (hread4-Calm present_state w q) λ state w1 q.
    ends_pick ((state &&& mask) == value) (ends_at _ _ q) (state_rounds-Calm mask value n _ q)

sdhc_wait_state-Calm :
    {bd : Board} {fs : Kept} (mask value : ℕ) (w : World)
    → At bd fs w
    → Ends (sdhc_wait_state mask value w) (Calm bd fs)
unfolding sdhc_wait_state
sdhc_wait_state-Calm mask value w q = state_rounds-Calm mask value 500 w q

long_response-Calm :
    {bd : Board} {fs : Kept} (n i : ℕ) (w : World)
    → At bd fs w
    → Ends (long_response n i w) (Calm bd fs)
unfolding long_response
long_response-Calm zero i w q = ends_at _ _ q
long_response-Calm (suc n) i w q =
    ends_then (hread1-Calm _ w q)
      λ b w1 q. ends_then (long_response-Calm n (i + 1) w1 q) λ rest w2 q. ends_at _ _ q

-- The result is a command without data.
abbrev NoData : Board → Kept → Command → World → Type 0
NoData bd fs cmd w = (cmd.datalen ≡ 0) × At bd fs w

no_transfer : (error datalen : ℕ) → datalen ≡ 0 → (error == 0 && positive datalen) ≡ false
unfolding positive
no_transfer error datalen e = ground arith

-- What a start gives: a command without data.
abbrev Started : Board → Kept → ℕ × Command → World → Type 0
Started bd fs r w = (r.1.datalen ≡ 0) × At bd fs w

module _ {bd : Board} {fs : Kept} where
  read_response-NoData :
      (cmd : Command) (w : World) → NoData bd fs cmd w → Ends (read_response cmd w) (NoData bd fs)
  unfolding read_response
  read_response-NoData cmd w (e, q) =
      ends_if (cmd.error == 0 && is_set cmd.flags scf_rsp_present) _ _ w
        (ends_if (is_set cmd.flags scf_rsp_136) _ _ w
          (ends_then (long_response-Calm 15 0 w q) λ bytes w1 q. ends_at _ _ (e, q))
          (ends_then (hread4-Calm _ w q) λ v w1 q. ends_at _ _ (e, q)))
        (ends_at cmd w (e, q))

  finish_command-NoData :
      (cmd : Command) (w : World) → NoData bd fs cmd w → Ends (finish_command cmd w) (NoData bd fs)
  unfolding finish_command
  finish_command-NoData cmd w (e, q) =
      ends_then (sdhc_wait_intr-Calm command_complete cmd.timeout w q) λ status w1 q.
        ends_if (is_set status command_complete) _ _ w1
          (ends_then (read_response-NoData cmd w1 (e, q))
            λ answered w2 d. ends_then (moved answered w2 d) λ m w3 d. ends_at _ _ d)
          (ends_at _ _ (e, q))
    where
      moved :
          (c : Command) (w : World)
          → NoData bd fs c w
          → Ends
              ((if c.error == 0 && positive c.datalen then sdhc_transfer_data c else pure c) w)
              (NoData bd fs)
      moved c w d = rw (no_transfer c.error c.datalen d.0) (ends_at c w d)

  prepare_dma-NoData :
      (blkcount : ℕ) (cmd : Command) (w : World)
      → NoData bd fs cmd w
      → Ends (prepare_dma blkcount cmd w) (NoData bd fs)
  unfolding prepare_dma
  prepare_dma-NoData blkcount cmd w (e, q) =
      ends_then
        (ends_if {Post = Calm bd fs} (is_set cmd.flags scf_cmd_read)
          (run (Call.dc_invalidaterange cmd.buf cmd.datalen))
          (do run (Call.dc_flushrange cmd.buf cmd.datalen); run (Call.ahb_flush_to ahb_sdhc)) w
          (ends_at _ _ q) (ends_at _ _ q))
        λ _ w1 q. ends_then (hwrite4-Calm dma_addr cmd.buf w1 q) λ _ w2 q. ends_at _ _ (e, q)

  issue-Started :
      (blksize blkcount : ℕ) (cmd : Command) (w : World)
      → NoData bd fs cmd w
      → Ends (issue blksize blkcount cmd w) (Started bd fs)
  unfolding issue
  issue-Started blksize blkcount cmd w (e, q) =
      ends_then (sdhc_wait_state-Calm cmd_inhibit_mask 0 w q) λ error w1 q.
        ends_if (error == 0) _ _ w1
          (ends_then (ready (is_set w1.host.flags shf_use_dma && positive cmd.datalen) w1 (e, q))
            λ prepared w2 d. ends_then (hwrite2-Calm _ _ w2 d.1) λ _ w3 q.
              ends_then
                (when_ends (ltb 0 blkcount) (hwrite2 block_count blkcount) w3
                  (hwrite2-Calm _ _ w3 q) q)
                λ _ w4 q.
                  ends_then (hwrite4-Calm _ _ w4 q)
                    λ _ w5 q. ends_then (hwrite4-Calm _ _ w5 q) λ _ w6 q. ends_at _ _ (d.0, q))
          (ends_at _ _ (e, q))
    where
      ready :
          (b : Bool) (w : World)
          → NoData bd fs cmd w
          → Ends ((if b then prepare_dma blkcount cmd else pure cmd) w) (NoData bd fs)
      ready true w d = prepare_dma-NoData blkcount cmd w d
      ready false w d = ends_at cmd w d

  sdhc_start_command-Started :
      (cmd : Command) (w : World)
      → NoData bd fs cmd w
      → Ends (sdhc_start_command cmd w) (Started bd fs)
  unfolding sdhc_start_command
  sdhc_start_command-Started cmd w d =
      ends_if (positive cmd.datalen && (cmd.datalen % blksize_of cmd) != 0) _ _ w (ends_at _ _ d) (
        ends_if (ltb block_count_max (blkcount_of cmd)) _ _ w (ends_at _ _ d)
          (issue-Started _ _ cmd w d))

timed : (cmd : Command) → cmd.datalen ≡ 0 → (with_timeout cmd).datalen ≡ 0
unfolding with_timeout
timed cmd e = given (cmd.timeout == 0)
  where
    given :
        (b : Bool)
        → (if b
            then record cmd {
              timeout =
                  if positive cmd.datalen then sdhc_transfer_timeout else sdhc_command_timeout;
            }
            else cmd).datalen
          ≡ 0
    given true = e
    given false = e

-- A command without data is over, and the file is as it was.
pub sdhc_exec_command-Calm :
    {bd : Board} {fs : Kept} (cmd : Command) (w : World)
    → cmd.datalen ≡ 0
    → At bd fs w
    → Ends (sdhc_exec_command cmd w) (Calm bd fs)
unfolding sdhc_exec_command
sdhc_exec_command-Calm cmd w e q =
    ends_then (maybe_set (positive cmd.datalen) (λ h. record h { data_command = 1 }) w q) λ _ w1 q.
      ends_then (sdhc_start_command-Started (with_timeout cmd) _ (timed cmd e, q)) λ r w2 d.
        ends_if (r.0 == 0) _ _ w2 (ends_weaken (finish_command-NoData r.1 w2 d) λ _ _ d. d.1)
          (ends_at _ _ d.1)
