-- ===== src/Ram.antt =====
-- Memory as bytes at addresses, for the loader and for the patches, and the copying and comparing of
-- bytes of armboot/elfloader/string.c.
pub mod Laws
pub mod Bytes
use vwii_nand_tools.Base.{
  ℕ, zero, suc, Bool, true, false, ◌+◌, ◌*◌, ◌^◌, ◌==◌, ◌&&◌, if◌then◌else◌, List, [], ◌∷◌,
}

abbrev pub Ram : Type 0
Ram = ℕ → ℕ

unfoldable pub poke : ℕ → ℕ → Ram → Ram
poke a v mem b = if a == b then v else mem b

-- `memcpy`, a byte at a time, with the bytes left.
unfoldable pub memcpy : ℕ → ℕ → ℕ → Ram → Ram
memcpy dst src zero mem = mem
memcpy dst src (suc len) mem = memcpy (dst + 1) (src + 1) len (poke dst (mem src) mem)

-- The bytes of a list, stored in order.
unfoldable pub store_bytes : ℕ → List ℕ → Ram → Ram
store_bytes a [] mem = mem
store_bytes a (v ∷ vs) mem = store_bytes (a + 1) vs (poke a v mem)

-- `!memcmp`, against bytes that are known.
unfoldable pub matches : Ram → ℕ → List ℕ → Bool
matches mem a [] = true
matches mem a (v ∷ vs) = (mem a == v) && matches mem (a + 1) vs

-- Big-endian halves and words.
unfoldable pub half_at : Ram → ℕ → ℕ
half_at mem a = mem a * 2 ^ 8 + mem (a + 1)

unfoldable pub full_at : Ram → ℕ → ℕ
full_at mem a = mem a * 2 ^ 24 + mem (a + 1) * 2 ^ 16 + mem (a + 2) * 2 ^ 8 + mem (a + 3)
