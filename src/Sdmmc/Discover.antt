-- ===== src/Sdmmc/Discover.antt =====
-- The card's start: `sdmmc_attach`, `sdmmc_abort`, `sdmmc_needs_discover` and `sdmmc_select` of
-- armboot/storage/sdmmc.c. The stages of `sdmmc_needs_discover` stand last to first; the labels that
-- it jumps to are the values of `Exit`.
use vwii_nand_tools.Base.{
  ℕ, zero, suc, true, false, some, ◌*◌, ◌+◌, ◌<<<◌, ◌>>>◌, ◌&&&◌, ◌|||◌, complement, is_set, ◌==◌,
  ◌!=◌, ◌&&◌, if◌then◌else◌, List, [], ◌∷◌, ℤ, pos, minus, word_at, replicate, u32, not,
}
use vwii_nand_tools.Machine.{
  M, Call, Card, pure, get, run, when, set_card, gecko_printf, ◌>>=◌, ◌>>◌,
}
use vwii_nand_tools.Sdhc.Reset.{sdhc_host_reset}
use vwii_nand_tools.Sdhc.Bus.{sdhc_card_detect, sdhc_bus_power, sdhc_bus_clock}
use vwii_nand_tools.Sdhc.Command.{sdhc_exec_command}
use vwii_nand_tools.Sdhc.Command.Start.{Command}
use vwii_nand_tools.Sdhc.Flags.{
  scf_rsp_r0, scf_rsp_r1, scf_rsp_r1b, scf_rsp_r2, scf_rsp_r3, scf_rsp_r6, scf_rsp_r7,
  mmc_go_idle_state, mmc_all_send_cid, sd_send_relative_addr, mmc_select_card, sd_send_if_cond,
  mmc_send_csd, mmc_stop_transmission, mmc_set_blocklen, sd_app_op_cond, mmc_app_cmd,
  mmc_ocr_mem_ready, sd_ocr_sdhc_cap, sdmmc_default_clock, sdmmc_sdclk_off, sdmmc_default_blocklen,
}
use vwii_nand_tools.Sdmmc.Csd.{
  byte_of, is_high_capacity, high_c_size, c_size, c_size_mult, read_bl_len, num_sectors,
  card_timeout,
}

-- A command that is cleared but for its opcode, argument and flags.
abbrev pub command : ℕ → ℕ → ℕ → Command
command opcode arg flags = record {
  opcode = opcode;
  arg = arg;
  resp = replicate 16 0;
  buf = 0;
  datalen = 0;
  blklen = 0;
  flags = flags;
  error = 0;
  timeout = 0;
  resid = 0;
  rest = 0;
}

-- `MMC_R1(cmd.c_resp)`
abbrev pub r1 : Command → ℕ
r1 cmd = word_at cmd.resp 0

pub data Exit : Type 0 where
  done out out_power out_clock : Exit

abbrev pub no_card : Card
no_card = record {
  inserted = 0;
  sdhc_blockmode = 0;
  selected = 0;
  new_card = 0;
  timeout = 0;
  num_sectors = 0;
  cid = 0;
  rca = 0;
}

unfoldable pub sdmmc_abort : M (Unit {0})
sdmmc_abort = do
  gecko_printf "abortion kthx\n" []
  _ ← sdhc_exec_command (command mmc_stop_transmission 0 scf_rsp_r1b)
  pure tt

unfoldable pub sdmmc_select : M ℤ
sdmmc_select = do
  w ← get
  cmd ← sdhc_exec_command (command mmc_select_card (w.card.rca <<< 16) scf_rsp_r1b)
  gecko_printf "%s: resp=%x\n" (r1 cmd ∷ [])
  if cmd.error != 0
      then (do
        gecko_printf "sdmmc: MMC_SELECT card failed with %d.\n" (cmd.error ∷ [])
        pure (minus 1))
      else (do set_card (λ c. record c { selected = 1 }); pure (pos 0))

unfoldable pub set_blocklen : M Exit
set_blocklen = do
  _ ← sdmmc_select
  cmd ← sdhc_exec_command (command mmc_set_blocklen sdmmc_default_blocklen scf_rsp_r1)
  if cmd.error != 0
      then (do
        gecko_printf "sdmmc: MMC_SET_BLOCKLEN failed with %d\n" (cmd.error ∷ [])
        set_card (λ c. record c { inserted = 0; selected = 0 })
        pure out_clock)
      else pure done

-- `for (i = 15; i >= 0; i--)`, with the rounds left.
unfoldable pub print_bytes : ℕ → List ℕ → M (Unit {0})
print_bytes zero resp w = some (tt, w)
print_bytes (suc i) resp w = (do gecko_printf "%02x " (byte_of resp i ∷ []); print_bytes i resp) w

-- What the card-specific data says, with the messages about it.
unfoldable pub take_csd : List ℕ → M (Unit {0})
take_csd resp = do
  if is_high_capacity resp
      then gecko_printf "sdmmc: sdhc mode, c_size=%u, card size = %uk\n"
          (high_c_size resp ∷ u32 ((high_c_size resp + 1) * 512) ∷ [])
      else gecko_printf
          "taac=%u nsac=%u read_bl_len=%u c_size=%u c_size_mult=%u card size=%u bytes\n"
          (byte_of resp 13
            ∷ byte_of resp 12
            ∷ read_bl_len resp
            ∷ c_size resp
            ∷ c_size_mult resp
            ∷ u32 (u32 ((c_size resp + 1) * (4 <<< c_size_mult resp)) * (1 <<< read_bl_len resp))
            ∷ [])
  set_card (λ c. record c { timeout = card_timeout resp })
  when (not (is_high_capacity resp))
      (gecko_printf "calculated timeout =  %uns\n" (card_timeout resp ∷ []))
  set_card (λ c. record c { num_sectors = num_sectors resp })

unfoldable pub read_csd : M Exit
unfolding set_blocklen print_bytes take_csd
read_csd = do
  set_card (λ c. record c { selected = 0; inserted = 1 })
  w ← get
  cmd ← sdhc_exec_command (command mmc_send_csd (w.card.rca <<< 16) scf_rsp_r2)
  if cmd.error != 0
      then (do gecko_printf "sdmmc: MMC_SEND_CSD failed with %d\n" (cmd.error ∷ []); pure out_power)
      else do
        gecko_printf "csd: " []
        print_bytes 16 cmd.resp
        gecko_printf "\n" []
        take_csd cmd.resp
        set_blocklen

unfoldable pub get_rca : M Exit
unfolding read_csd
get_rca = do
  cmd ← sdhc_exec_command (command sd_send_relative_addr 0 scf_rsp_r6)
  if cmd.error != 0
      then (do gecko_printf "sdmmc: SD_SEND_RCA failed with %d\n" (cmd.error ∷ []); pure out_clock)
      else do set_card (λ c. record c { rca = r1 cmd >>> 16 }); read_csd

-- What the message about the card's identity shows.
unfoldable pub cid_fields : List ℕ → List ℕ
cid_fields resp =
    byte_of resp 14
    ∷ byte_of resp 13
    ∷ byte_of resp 12
    ∷ byte_of resp 11
    ∷ byte_of resp 10
    ∷ byte_of resp 9
    ∷ byte_of resp 8
    ∷ byte_of resp 7
    ∷ byte_of resp 6
    ∷ (byte_of resp 5 >>> 4)
    ∷ (byte_of resp 5 &&& 0xf)
    ∷ byte_of resp 4
    ∷ byte_of resp 3
    ∷ byte_of resp 2
    ∷ (byte_of resp 0 &&& 0xf)
    ∷ (2000 + (byte_of resp 0 >>> 4))
    ∷ []

unfoldable pub get_cid : M Exit
unfolding get_rca cid_fields
get_cid = do
  cmd ← sdhc_exec_command (command mmc_all_send_cid 0 scf_rsp_r2)
  if cmd.error != 0
      then (do
        gecko_printf "sdmmc: MMC_ALL_SEND_CID failed with %d\n" (cmd.error ∷ [])
        pure out_clock)
      else do
        set_card (λ c. record c { cid = r1 cmd })
        gecko_printf
            "CID: mid=%02x name='%c%c%c%c%c%c%c' prv=%d.%d psn=%02x%02x%02x%02x mdt=%d/%d\n"
            (cid_fields cmd.resp)
        get_rca

-- The loop that waits for the card's power, with the tries left: the last command.
unfoldable pub op_cond_tries : ℕ → ℕ → Command → M Command
op_cond_tries ocr zero last w = some (last, w)
op_cond_tries ocr (suc tries) last w =
    (do
      run (Call.udelay 100000)
      app ← sdhc_exec_command (command mmc_app_cmd 0 scf_rsp_r1)
      λ w'. elim (app.error == 0) [
        | false ↦ op_cond_tries ocr tries app w'
        | true ↦
            (do
              cond ← sdhc_exec_command (command sd_app_op_cond ocr scf_rsp_r3)
              λ w''. elim (cond.error == 0 && is_set (r1 cond) mmc_ocr_mem_ready) [
                | false ↦ op_cond_tries ocr tries cond w''
                | true ↦ some (cond, w'')
              ])
              w'
      ])
      w

-- What follows the tries.
unfoldable pub powered : Command → M Exit
unfolding get_cid
powered cmd =
    if is_set (r1 cmd) mmc_ocr_mem_ready
    then (do
      set_card (λ c. record c { sdhc_blockmode = if is_set (r1 cmd) sd_ocr_sdhc_cap then 1 else 0 })
      get_cid)
    else (do gecko_printf "sdmmc: card failed to powerup.\n" []; pure out_power)

unfoldable pub power_card : ℕ → Command → M Exit
unfolding powered
power_card ocr last = do cmd ← op_cond_tries ocr 100 last; powered cmd

-- The OCR that is asked for: high capacity only if the card echoed the check pattern.
unfoldable pub ocr_for : ℕ → Command → ℕ
ocr_for ocr cmd =
    if cmd.error != 0
    then ocr &&& complement sd_ocr_sdhc_cap
    else if (r1 cmd &&& 0xff) != 0xaa
    then ocr &&& complement sd_ocr_sdhc_cap
    else ocr ||| sd_ocr_sdhc_cap

unfoldable pub idle_card : M Exit
unfolding ocr_for
idle_card = do
  cmd ← sdhc_exec_command (command mmc_go_idle_state 0 scf_rsp_r0)
  if cmd.error != 0
      then (do
        gecko_printf "sdmmc: GO_IDLE_STATE failed with %d\n" (cmd.error ∷ [])
        pure out_clock)
      else do
        cond ←
            sdhc_exec_command (record (command sd_send_if_cond 0x1aa scf_rsp_r7) { timeout = 100 })
        w ← get
        power_card (ocr_for w.host.ocr cond) cond

unfoldable pub start_card : M Exit
unfolding idle_card
start_card = do
  power ← sdhc_bus_power 1
  if power != 0 then (do gecko_printf "sdmmc: powerup failed for card\n" []; pure out) else do
    clock ← sdhc_bus_clock sdmmc_default_clock
    if clock != 0
        then (do gecko_printf "sdmmc: could not enable clock for card\n" []; pure out_power)
        else idle_card

abbrev power_off : M (Unit {0})
power_off = do _ ← sdhc_bus_power 0; pure tt

-- The code behind the labels.
unfoldable pub leave : Exit → M (Unit {0})
leave done = pure tt
leave out = pure tt
leave out_power = power_off
leave out_clock = do _ ← sdhc_bus_clock sdmmc_sdclk_off; power_off

unfoldable pub sdmmc_needs_discover : M (Unit {0})
unfolding start_card leave
sdmmc_needs_discover = do
  _ ← sdhc_host_reset
  set_card (λ c. record c { new_card = 1 })
  present ← sdhc_card_detect
  if present == 0
      then set_card (λ c. record c { inserted = 0 })
      else do exit ← start_card; leave exit

unfoldable pub sdmmc_attach : M (Unit {0})
sdmmc_attach = do
  set_card (λ c. no_card)
  _ ← sdhc_host_reset
  present ← sdhc_card_detect
  when (present != 0) sdmmc_needs_discover
