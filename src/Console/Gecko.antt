-- ===== src/Console/Gecko.antt =====
-- armboot/video/gecko.c: the console over a mailbox in memory. `vsnprintf` is third-party: the
-- formatted characters are an argument.
use vwii_nand_tools.Base.{
  ℕ, zero, suc, true, false, none, some, ◌+◌, u32, ltb, ◌==◌, if◌then◌else◌, List, [], ◌∷◌,
}
use vwii_nand_tools.Machine.{M, Call, pure, get, run, read8, read16, read32, write8, ◌>>=◌, ◌>>◌}
use vwii_nand_tools.Hollywood.{hw_timer}

abbrev pub mailbox : ℕ
mailbox = 0x01200000

abbrev set_gecko_enabled : ℕ → M (Unit {0})
set_gecko_enabled n w = some (tt, record w { gecko_enabled = n })

unfoldable pub gecko_init : M (Unit {0})
gecko_init = do
  magic ← read16 0x01200002
  if magic == 0xdeb6
      then (do
        enabled ← read8 0x01200001
        set_gecko_enabled enabled
        write8 0x01200001 0
        run (Call.dc_flushrange 0x01200000 32))
      else pure tt

-- `do ... while (read8(mailbox) && read32(HW_TIMER) < timeout);`, with the polls left.
unfoldable pub drain : ℕ → ℕ → M (Unit {0})
drain timeout zero w = none
drain timeout (suc n) w =
    (do
      run (Call.dc_invalidaterange mailbox 32)
      full ← read8 mailbox
      λ w'. elim (full == 0) [
        | true ↦ some (tt, w')
        | false ↦
            (do
              now ← read32 hw_timer
              λ w''. elim (ltb now timeout) [ true ↦ drain timeout n w'' | false ↦ some (tt, w'') ])
              w'
      ])
      w

abbrev drain_polls : ℕ → M (Unit {0})
drain_polls timeout w = drain timeout w.board.polls w

-- The loop over the characters, which stops at a zero.
unfoldable pub send : List ℕ → M (Unit {0})
unfolding drain
send [] w = some (tt, w)
send (c ∷ text) w = elim (c == 0) [
  | true ↦ some (tt, w)
  | false ↦
      (do
        now ← read32 hw_timer
        drain_polls (u32 (now + 38000))
        write8 mailbox c
        run (Call.dc_flushrange mailbox 32)
        send text)
        w
]

unfoldable pub gecko_print : List ℕ → M (Unit {0})
unfolding send
gecko_print text = do w ← get; if w.gecko_enabled == 0 then pure tt else send text
