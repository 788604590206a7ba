-- ===== src/Memory/Lines.antt =====
-- The lines that a cache operation covers, and the address that a device is given.
use vwii_nand_tools.Base.{
  ◌⊎◌, ℕ, true, false, ◌+◌, ◌-◌, ◌*◌, ◌%◌, ◌^◌, ◌≤◌, ◌<◌, ◌≡◌, ◌∙◌, ap, arith, some, ◌∷◌, is_set,
  bit_xor, bit_and, u32, if◌then◌else◌, Bool-cases, inl, inr,
}
use vwii_nand_tools.Base.Bits.{bit_and_high, bit_and_mask, bit_or_sum, bit_or_comm}
use vwii_nand_tools.Machine.{World, load, word, log}
use vwii_nand_tools.Hollywood.{hw_memmirr}
use vwii_nand_tools.Memory.Cache.{line_range}
use vwii_nand_tools.Memory.Dma.{is_internal, internal_addr, dma_addr}

-- For a range that ends a line or more below 2 ^ 32, the lines that `dc_flushrange` and
-- `dc_invalidaterange` name begin at a multiple of 32, contain the range, and neither begin nor end a
-- whole line outside it.
pub line_range_lem :
    (start size : ℕ)
    → start + size + 32 ≤ 2 ^ 32
    → ((line_range start size).0 % 32 ≡ 0)
      × ((line_range start size).0 ≤ start)
      × (start < (line_range start size).0 + 32)
      × (start + size ≤ (line_range start size).0 + (line_range start size).1 * 32)
      × ((line_range start size).0 + (line_range start size).1 * 32 < start + size + 32)
unfolding line_range
line_range_lem start size h = omega (
  arith,
  bit_and_high 32 5 start (omega arith) (omega arith),
  bit_and_high 32 5 (u32 (u32 (start + size) + 32 - 1)) (omega arith) (omega arith),
)

internal_addr_lem : (a : ℕ) → internal_addr a ≡ 0x0d400000 + a % 0x20000
unfolding internal_addr
internal_addr_lem a =
    let low : bit_and a 0x1ffff ≡ a % 0x20000 = bit_and_mask 17 a in
    bit_or_comm (bit_and a 0x1ffff) 0x0d400000
    ∙ bit_or_sum 17 0x6a0 (bit_and a 0x1ffff) (omega (arith, low))
    ∙ ap (λ (t : ℕ). 0x0d400000 + t) low

-- For every board, `dma_addr` answers an address outside the three megabytes of the internal memory
-- with itself and reads no register. Any other it answers with 0x0d400000 plus its low 17 bits, bit 16
-- inverted if the swap bit of the mirror register is set.
pub dma_addr_lem :
    (addr : ℕ) (w : World)
    → (is_internal addr ≡ false) × (dma_addr addr w ≡ some (addr, w))
      ⊎ (is_internal addr ≡ true)
        × (dma_addr addr w
            ≡ some (
              0x0d400000
                  + (if is_set (u32 (w.board.answer (load word hw_memmirr ∷ w.trace))) 0x20
                      then bit_xor addr 0x10000
                      else addr)
                    % 0x20000,
              log (load word hw_memmirr) w,
            ))
unfolding dma_addr
dma_addr_lem addr w = elim (Bool-cases (is_internal addr)) [
  | inl e ↦ inr (
    e,
    rw (e, dma_addr) (ap (λ (a : ℕ). some (a, log (load word hw_memmirr) w)) (internal_addr_lem _)),
  )
  | inr e ↦ inl (e, rw (e, dma_addr))
]
