-- ===== src/Nand/Ecc.antt =====
-- `nand_correct` of armboot/storage/nand.c: four chunks of 512 bytes, each with an error-correcting
-- word read from the spare area (offset 0x30) and one computed by the controller (offset 0x40). The
-- processor is big-endian.
pub mod Syndrome
pub mod Flip
pub mod Repair
pub mod Outcome
use vwii_nand_tools.Base.{
  ℕ, zero, suc, word_at, ◌+◌, ◌-◌, ◌*◌, ◌^◌, u8, u16, u32, ◌<<<◌, ◌>>>◌, ◌|||◌, ◌&&&◌, ◌^^^◌, ◌==◌,
  ◌!=◌, ◌&&◌, ◌||◌, ltb, if◌then◌else◌, List, [], ◌∷◌, get_or, set, ℤ, pos, minus,
}
use vwii_nand_tools.Machine.{M, pure, ◌>>=◌, ◌>>◌, when, gecko_printf}

pub record Tally : Type 0 where
  pub page : List ℕ
  pub uncorrectable : ℕ
  pub corrected : ℕ

-- The even and the odd half of a syndrome.
unfoldable pub even_half : ℕ → ℕ
even_half syndrome = u16 ((syndrome >>> 24) ||| ((syndrome >>> 8) &&& 0xf00))

unfoldable pub odd_half : ℕ → ℕ
odd_half syndrome = u16 (((syndrome <<< 8) &&& 0xf00) ||| ((syndrome >>> 8) &&& 0x0ff))

-- `dp[odd >> 3] ^= 1 << (odd & 7)`, where `dp` stands at `offset`.
unfoldable pub flip_bit : ℕ → ℕ → List ℕ → List ℕ
flip_bit offset odd page =
    let i = offset + (odd >>> 3) in set page i (u8 (get_or page i 0 ^^^ (1 <<< (odd &&& 7))))

-- One round of the loop, for the two words of the chunk at `offset`.
unfoldable pub correct_chunk : ℕ → ℕ → ℕ → Tally → Tally
unfolding even_half odd_half
correct_chunk offset ecc_read ecc_calc t =
    let syndrome = ecc_read ^^^ ecc_calc in
    if (ecc_read != 0xffffffff) && (syndrome != 0)
    then if ((syndrome - 1) &&& syndrome) == 0
      then record t { corrected = t.corrected + 1 }
      else if (even_half syndrome ^^^ odd_half syndrome) != 0xfff
      then record t { uncorrectable = t.uncorrectable + 1 }
      else record t {
        page = flip_bit offset (odd_half syndrome) t.page;
        corrected = t.corrected + 1;
      }
    else t

-- The loop, with the rounds left, on the words at `index`.
unfoldable pub correct_from : ℕ → ℕ → List ℕ → Tally → Tally
correct_from zero index ecc t = t
correct_from (suc n) index ecc t = correct_from n (index + 1) ecc (
    correct_chunk (index * 0x200) (word_at ecc (0x30 + index * 4)) (word_at ecc (0x40 + index * 4))
      t)

abbrev pub start : List ℕ → Tally
start page = record { page = page; uncorrectable = 0; corrected = 0 }

unfoldable pub correction : List ℕ → List ℕ → Tally
unfolding correct_from
correction page ecc = correct_from 4 0 ecc (start page)

-- The code for the counts.
unfoldable pub code_of : Tally → ℤ
code_of t = if t.uncorrectable != 0 then minus 1 else if t.corrected != 0 then pos 1 else pos 0

unfoldable pub nand_correct : ℕ → List ℕ → List ℕ → M (List ℕ × ℤ)
nand_correct pageno page ecc = do
  let t = correction page ecc
  when (t.uncorrectable != 0 || t.corrected != 0) (
      gecko_printf "ECC stats for NAND page 0x%X: %d uncorrectable, %d corrected\n"
        (pageno ∷ t.uncorrectable ∷ t.corrected ∷ []))
  pure (t.page, code_of t)
