-- ===== src/Console/Hexdump.antt =====
-- `hexdump` of armboot/common/utils.c, on the bytes of a range.
use vwii_nand_tools.Base.{
  ℕ, zero, suc, ◌+◌, ◌%◌, some, ltb, leb, true, false, ◌-◌, if◌then◌else◌, [], ◌∷◌,
}
use vwii_nand_tools.Machine.{M, gecko_printf, ◌>>◌}

-- `ascii(X)`: what cannot be printed is shown as a dot.
unfoldable pub ascii : ℕ → ℕ
ascii x = if ltb ((x + 256 - 0x20) % 256) 0x5f then x else b'.'

module _ (bytes : ℕ → ℕ) (len : ℕ) where
  -- The first loop over a row, with the columns left, at `i + off`.
  unfoldable pub hex_cells : ℕ → ℕ → M (Unit {0})
  hex_cells zero at w = some (tt, w)
  hex_cells (suc n) at w =
      (do
        if leb len at then gecko_printf "   " [] else gecko_printf "%02x " (bytes at ∷ [])
        hex_cells n (at + 1))
        w

  -- The second one.
  unfoldable pub text_cells : ℕ → ℕ → M (Unit {0})
  text_cells zero at w = some (tt, w)
  text_cells (suc n) at w =
      (do
        if leb len at then gecko_printf " " [] else gecko_printf "%c" (ascii (bytes at) ∷ [])
        text_cells n (at + 1))
        w

  unfoldable pub row : ℕ → M (Unit {0})
  unfolding hex_cells text_cells
  row off = do
    gecko_printf "%08x  " (off ∷ [])
    hex_cells 16 off
    gecko_printf " " []
    text_cells 16 off
    gecko_printf "\n" []

  -- `for (off = 0; off < len; off += 16)`, with the rounds left.
  unfoldable pub rows : ℕ → ℕ → M (Unit {0})
  rows zero off w = some (tt, w)
  rows (suc n) off w = elim (ltb off len) [
    | true ↦ (do row off; rows n (off + 16)) w
    | false ↦ some (tt, w)
  ]

  -- There are fewer rows than bytes, or as many.
  unfoldable pub hexdump : M (Unit {0})
  hexdump = rows len 0
