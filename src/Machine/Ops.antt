-- ===== src/Machine/Ops.antt =====
-- The register accesses of armboot/common/utils.h, and the calls as commands.
use vwii_nand_tools.Base.{
  ◌<◌, ◌≡◌, arith, ◌∷◌, ℕ, zero, suc, Bool, true, false, List, String, u8, u16, u32, ◌|||◌, ◌&&&◌,
  complement, none, some,
}
use vwii_nand_tools.Machine.Events.{Call, load, store, call, byte, half, word}
use vwii_nand_tools.Machine.State.{M, pure, ◌>>=◌, ◌>>◌, emit, ask, log, World}

abbrev pub read32 : ℕ → M ℕ
read32 addr = do v ← ask (load word addr); pure (u32 v)

abbrev pub write32 : ℕ → ℕ → M (Unit {0})
write32 addr v = emit (store word addr (u32 v))

abbrev pub set32 : ℕ → ℕ → M (Unit {0})
set32 addr set = do v ← read32 addr; write32 addr (v ||| set)

abbrev pub clear32 : ℕ → ℕ → M (Unit {0})
clear32 addr clear = do v ← read32 addr; write32 addr (v &&& complement clear)

abbrev pub mask32 : ℕ → ℕ → ℕ → M (Unit {0})
mask32 addr clear set = do v ← read32 addr; write32 addr ((v &&& complement clear) ||| set)

abbrev pub read16 : ℕ → M ℕ
read16 addr = do v ← ask (load half addr); pure (u16 v)

abbrev pub write16 : ℕ → ℕ → M (Unit {0})
write16 addr v = emit (store half addr (u16 v))

abbrev pub read8 : ℕ → M ℕ
read8 addr = do v ← ask (load byte addr); pure (u8 v)

abbrev pub write8 : ℕ → ℕ → M (Unit {0})
write8 addr v = emit (store byte addr (u8 v))

-- The 16-bit and 8-bit accesses that change bits give what they stored.
unfoldable pub set16 : ℕ → ℕ → M ℕ
set16 addr set = do v ← read16 addr; write16 addr (v ||| set); pure (u16 (v ||| set))

unfoldable pub clear16 : ℕ → ℕ → M ℕ
clear16 addr clear = do
  v ← read16 addr
  let value = v &&& complement clear
  write16 addr value
  pure (u16 value)

unfoldable pub mask16 : ℕ → ℕ → ℕ → M ℕ
mask16 addr clear set = do
  v ← read16 addr
  let value = (v &&& complement clear) ||| set
  write16 addr value
  pure (u16 value)

unfoldable pub set8 : ℕ → ℕ → M ℕ
set8 addr set = do v ← read8 addr; write8 addr (v ||| set); pure (u8 (v ||| set))

unfoldable pub clear8 : ℕ → ℕ → M ℕ
clear8 addr clear = do
  v ← read8 addr
  let value = v &&& complement clear
  write8 addr value
  pure (u8 value)

unfoldable pub mask8 : ℕ → ℕ → ℕ → M ℕ
mask8 addr clear set = do
  v ← read8 addr
  let value = (v &&& complement clear) ||| set
  write8 addr value
  pure (u8 value)

abbrev pub run : Call → M (Unit {0})
run c = emit (call c)

abbrev pub gecko_printf : String → List ℕ → M (Unit {0})
gecko_printf fmt args = emit (call (Call.gecko_printf fmt args))

-- `while (test(read32(addr)));`, for so many rounds.
unfoldable pub spin : ℕ → ℕ → (ℕ → Bool) → M (Unit {0})
spin zero addr test w = none
spin (suc n) addr test w =
    (do v ← read32 addr; λ w'. elim (test v) [ true ↦ spin n addr test w' | false ↦ some (tt, w') ])
      w

pub spin_done :
    (n addr : ℕ) (test : ℕ → Bool) (w : World)
    → 0 < n
    → test (u32 (w.board.answer (load word addr ∷ w.trace))) ≡ false
    → spin n addr test w ≡ some (tt, log (load word addr) w)
unfolding spin
spin_done zero addr test w p e = absurd (omega arith)
spin_done (suc n) addr test w p e = rw e

abbrev pub while_read32 : ℕ → (ℕ → Bool) → M (Unit {0})
while_read32 addr test w = spin w.board.polls addr test w
