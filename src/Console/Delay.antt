-- ===== src/Console/Delay.antt =====
-- `udelay` of armboot/common/utils.c.
use vwii_nand_tools.Base.{
  ℕ, zero, suc, true, false, none, some, ◌+◌, ◌*◌, ◌/◌, u32, ltb, leb, if◌then◌else◌,
}
use vwii_nand_tools.Machine.{M, read32, while_read32, ◌>>=◌, ◌>>◌}
use vwii_nand_tools.Hollywood.{hw_timer}

unfoldable pub ticks_of : ℕ → ℕ
ticks_of d = let ticks = u32 (d * 19) / 10 in if ltb ticks 2 then 2 else ticks

-- `while (now < last) now = read32(HW_TIMER);`, with the polls left: the last time read.
unfoldable pub until : ℕ → ℕ → ℕ → M ℕ
until zero last now w = if ltb now last then none else some (now, w)
until (suc n) last now w = elim (ltb now last) [
  | true ↦ (do now' ← read32 hw_timer; until n last now') w
  | false ↦ some (now, w)
]

abbrev pub until_polls : ℕ → ℕ → M ℕ
until_polls last now w = until w.board.polls last now w

-- Returns the last time read.
unfoldable pub udelay : ℕ → M ℕ
unfolding ticks_of until
udelay d = do
  now ← read32 hw_timer
  let last = u32 (now + ticks_of d)
  if ltb last now
      then (do
        while_read32 hw_timer (λ v. leb now v)
        now' ← read32 hw_timer
        until_polls last now')
      else until_polls last now
