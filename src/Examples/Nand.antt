-- ===== src/Examples/Nand.antt =====
-- The error-correcting code at concrete inputs.
use vwii_nand_tools.Base.{
  ℕ, zero, suc, ◌≡◌, ◌↔◌, refl, arith, List, [], ◌∷◌, ◌++◌, Option, none, some, replicate,
  length-replicate, word_at, pos, ◌==◌, if◌then◌else◌,
}
use vwii_nand_tools.Machine.{World}
use vwii_nand_tools.Nand.Ecc.{nand_correct, correction, code_of}
use vwii_nand_tools.Nand.Ecc.Flip.{IsBytes}
use vwii_nand_tools.Nand.Ecc.Syndrome.{syndrome_of}
use vwii_nand_tools.Nand.Ecc.Repair.{damage, count, Explains, nand_correct-damage}
use vwii_nand_tools.Nand.Ecc.Outcome.{AllQuiet, code_of-zero_iff}
use vwii_nand_tools.Examples.Boards.{still}

abbrev blank : List ℕ
blank = replicate 2048 0

blank-IsBytes : (n : ℕ) → IsBytes (replicate n 0)
blank-IsBytes zero i = omega arith
blank-IsBytes (suc n) zero = omega arith
blank-IsBytes (suc n) (suc i) = blank-IsBytes n i

-- Bit 5 of the first chunk is wrong: its halves are 5 and 0xffa.
abbrev wrong_bit : List (Option ℕ)
wrong_bit = some 5 ∷ none ∷ none ∷ none ∷ []

-- The stored words are 0, but the first; so are the computed ones.
abbrev spare : List ℕ
spare = replicate 48 0 ++ (0xfa ∷ 0x0f ∷ 0x05 ∷ 0x00 ∷ []) ++ replicate 28 0

spare-Explains : Explains 0 spare wrong_bit
unfolding word_at syndrome_of
spare-Explains = (omega arith, omega arith, refl, (refl, (refl, (refl, tt))))

nand_correct-damage_example :
    (w' : World) × (nand_correct 7 (damage 0 wrong_bit blank) spare still
      ≡ some ((blank, if count wrong_bit == 0 then pos 0 else pos 1), w'))
nand_correct-damage_example =
    nand_correct-damage spare blank (length-replicate {A = ℕ} 2048 0) (blank-IsBytes 2048) wrong_bit
      7 still refl spare-Explains

code_of-zero_example : (code_of (correction blank spare) ≡ pos 0) ↔ AllQuiet 4 0 spare
code_of-zero_example = code_of-zero_iff blank spare
