-- ===== src/Nand/Ecc/Syndrome.antt =====
-- Where the error-correcting code of the controller puts a single wrong bit. The code is the
-- controller's; its documented layout is written down here once more, apart from the C expressions.
use vwii_nand_tools.Base.{
  ℕ, ◌+◌, ◌-◌, ◌*◌, ◌/◌, ◌%◌, ◌^◌, ◌<◌, ◌≡◌, refl, Bool, true, ◌&&◌, ◌==◌, ◌!=◌, bit_xor, bit_and,
}
use vwii_nand_tools.Base.Tables.{passes_below, passes_below_sound}
use vwii_nand_tools.Nand.Ecc.{even_half, odd_half}

-- The syndrome of bit `p` of a chunk: the odd half is `p`, the even half its complement on twelve
-- bits, and the bytes of the two halves are swapped.
unfoldable pub syndrome_of : ℕ → ℕ
syndrome_of p = (4095 - p) % 256 * 2 ^ 24 + (4095 - p) / 256 * 2 ^ 16 + p % 256 * 2 ^ 8 + p / 256

-- What the C code finds in such a syndrome.
abbrev read_back : ℕ → Bool
read_back p =
    syndrome_of p != 0
    && bit_and (syndrome_of p - 1) (syndrome_of p) != 0
    && odd_half (syndrome_of p) == p
    && bit_xor (even_half (syndrome_of p)) (odd_half (syndrome_of p)) == 0xfff

table : passes_below read_back 4096 ≡ true
unfolding passes_below syndrome_of even_half odd_half
table = refl

pub syndrome_reads_back : (p : ℕ) → p < 4096 → read_back p ≡ true
syndrome_reads_back p h = passes_below_sound read_back table h
