-- ===== src/Base/Word.antt =====
-- The unsigned machine words of C: casts, shifts, complement, and the test of a mask.
use Prim.Native.Nat.{ℕ, ◌+◌, ◌-◌, ◌*◌, ◌/◌, ◌%◌, ◌^◌, bit_and, bit_or, bit_xor}
use mathlib.Core.Bool.{Bool}
use mathlib.Core.List.{List}
use vwii_nand_tools.Base.Lists.{get_or}
use vwii_nand_tools.Base.Tests.{◌!=◌}

abbrev pub u8 : ℕ → ℕ
u8 n = n % 2 ^ 8

abbrev pub u16 : ℕ → ℕ
u16 n = n % 2 ^ 16

abbrev pub u32 : ℕ → ℕ
u32 n = n % 2 ^ 32

infixl 60 ◌|||◌
infixl 63 ◌&&&◌
infixl 62 ◌^^^◌
infixl 75 ◌<<<◌ ◌>>>◌
abbrev pub ◌<<<◌ : ℕ → ℕ → ℕ
x <<< k = u32 (x * 2 ^ k)

abbrev pub ◌>>>◌ : ℕ → ℕ → ℕ
x >>> k = x / 2 ^ k

abbrev pub ◌|||◌ : ℕ → ℕ → ℕ
◌|||◌ = bit_or

abbrev pub ◌&&&◌ : ℕ → ℕ → ℕ
◌&&&◌ = bit_and

abbrev pub ◌^^^◌ : ℕ → ℕ → ℕ
◌^^^◌ = bit_xor

-- `~x` on 32 bits.
abbrev pub complement : ℕ → ℕ
complement x = 0xffff_ffff - u32 x

-- `ISSET(x, mask)`: some bit of the mask is set.
abbrev pub is_set : ℕ → ℕ → Bool
is_set x mask = bit_and x mask != 0

-- -1 as a word.
abbrev pub minus_one : ℕ
minus_one = 0xffff_ffff

-- The big-endian word at a byte offset; bytes that are not there read as 0.
unfoldable pub word_at : List ℕ → ℕ → ℕ
word_at bytes off =
    get_or bytes off 0 * 2 ^ 24
    + get_or bytes (off + 1) 0 * 2 ^ 16
    + get_or bytes (off + 2) 0 * 2 ^ 8
    + get_or bytes (off + 3) 0
