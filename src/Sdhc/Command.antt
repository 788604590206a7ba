-- ===== src/Sdhc/Command.antt =====
-- Issuing a command: `sdhc_wait_state`, `sdhc_start_command`, `sdhc_transfer_data` and
-- `sdhc_exec_command` of armboot/storage/sdhc.c. A command is passed by value and returned.
pub mod Start
pub mod Total
pub mod Checks
pub mod Blocks
use vwii_nand_tools.Base.{
  ℕ, zero, suc, Bool, true, false, none, some, ◌+◌, ◌*◌, ◌/◌, ◌%◌, ◌^◌, u16, u32, ◌&&&◌, ◌|||◌,
  ◌<<<◌, is_set, ◌==◌, ltb, ◌&&◌, min, if◌then◌else◌, List, [], ◌∷◌, set, get_or, drop, ◌++◌, not,
}
use vwii_nand_tools.Machine.{
  M, Call, World, pure, get, run, when, set_host, gecko_printf, ◌>>=◌, ◌>>◌,
}
use vwii_nand_tools.Memory.Ahb.{ahb_sdhc}
use vwii_nand_tools.Sdhc.Regs.{hread1, hread4, hwrite4}
use vwii_nand_tools.Sdhc.Wait.{sdhc_wait_intr}
use vwii_nand_tools.Sdhc.Command.Start.{Command, positive, sdhc_start_command}
use vwii_nand_tools.Sdhc.Constants.{
  response, transfer_complete, command_complete, dma_interrupt, dma_addr,
}
use vwii_nand_tools.Sdhc.Flags.{
  scf_itsdone, scf_cmd_read, scf_rsp_present, scf_rsp_136, etimedout, shf_use_dma,
  sdhc_command_timeout, sdhc_transfer_timeout,
}

-- The loop of `sdhc_transfer_data`: the error at its end.
unfoldable pub dma_rounds : ℕ → M ℕ
dma_rounds zero w = none
dma_rounds (suc n) w =
    (do
      status ← sdhc_wait_intr (transfer_complete ||| dma_interrupt) sdhc_transfer_timeout
      λ w'. elim (status == 0) [
        | true ↦ (do gecko_printf "DMA timeout %08x\n" (status ∷ []); pure etimedout) w'
        | false ↦ elim (is_set status transfer_complete) [
          | true ↦ some (0, w')
          | false ↦
              (do
                when (is_set status dma_interrupt)
                    (do addr ← hread4 dma_addr; hwrite4 dma_addr addr)
                dma_rounds n)
                w'
        ]
      ])
      w

abbrev dma_polls : M ℕ
dma_polls w = dma_rounds w.board.polls w

unfoldable pub sdhc_transfer_data : Command → M Command
unfolding dma_rounds
sdhc_transfer_data cmd = do
  w ← get
  error ←
      if is_set w.host.flags shf_use_dma then dma_polls else (do gecko_printf "fail.\n" []; pure 0)
  when (is_set cmd.flags scf_cmd_read) (run (Call.ahb_flush_from ahb_sdhc))
  let failed = if error == 0 then cmd.error else error
  pure (record cmd { error = failed; flags = cmd.flags ||| scf_itsdone })

-- The bytes of a long response, from byte `i` on.
unfoldable pub long_response : ℕ → ℕ → M (List ℕ)
long_response zero i w = some ([], w)
long_response (suc n) i w =
    (do b ← hread1 (response + i); rest ← long_response n (i + 1); pure (b ∷ rest)) w

-- A word as its four bytes, in the processor's order.
abbrev pub bytes_of : ℕ → List ℕ
bytes_of v = v / 2 ^ 24 % 256 ∷ v / 2 ^ 16 % 256 ∷ v / 2 ^ 8 % 256 ∷ v % 256 ∷ []

-- The response, put into the buffer of the command.
unfoldable pub read_response : Command → M Command
unfolding long_response
read_response cmd =
    if cmd.error == 0 && is_set cmd.flags scf_rsp_present
    then if is_set cmd.flags scf_rsp_136
      then (do bytes ← long_response 15 0; pure (record cmd { resp = bytes ++ drop 15 cmd.resp }))
      else (do v ← hread4 response; pure (record cmd { resp = bytes_of v ++ drop 4 cmd.resp }))
    else pure cmd

abbrev done_with_data : M (Unit {0})
done_with_data = set_host (λ h. record h { data_command = 0 })

-- The part after a command that was started.
unfoldable pub finish_command : Command → M Command
unfolding read_response
finish_command cmd = do
  status ← sdhc_wait_intr command_complete cmd.timeout
  if is_set status command_complete
      then (do
        answered ← read_response cmd
        moved ←
            if answered.error == 0 && positive answered.datalen
            then sdhc_transfer_data answered
            else pure answered
        done_with_data
        pure (record moved { flags = moved.flags ||| scf_itsdone }))
      else do
        w ← get
        gecko_printf "timeout dump: error_intr: 0x%x intr: 0x%x\n"
            (w.host.intr_error_status ∷ w.host.intr_status ∷ [])
        done_with_data
        pure (record cmd { error = etimedout; flags = cmd.flags ||| scf_itsdone })

-- The timeout that a command is given if it has none.
unfoldable pub with_timeout : Command → Command
with_timeout cmd =
    if cmd.timeout == 0
    then record cmd {
      timeout = if positive cmd.datalen then sdhc_transfer_timeout else sdhc_command_timeout;
    }
    else cmd

unfoldable pub sdhc_exec_command : Command → M Command
unfolding with_timeout finish_command
sdhc_exec_command cmd = do
  when (positive cmd.datalen) (set_host (λ h. record h { data_command = 1 }))
  set_host (λ h. record h { intr_status = 0 })
  (error, started) ← sdhc_start_command (with_timeout cmd)
  if error == 0 then finish_command started else do
    done_with_data
    pure (record started { error = error; flags = started.flags ||| scf_itsdone })
