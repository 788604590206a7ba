-- ===== src/Nand/Ecc/Outcome.antt =====
-- When `nand_correct` answers 0, on every page and spare area.
use vwii_nand_tools.Base.{
  word_at, ℕ, zero, suc, ◌+◌, ◌*◌, ◌≤◌, ◌≡◌, ◌↔◌, ◌⊎◌, inl, inr, refl, ap, ◌∙◌, arith, List,
  bit_xor, pos,
}
use vwii_nand_tools.Base.Bits.{bit_xor_self, eq_of_bit_xor}
use vwii_nand_tools.Nand.Ecc.{Tally, correct_chunk, correct_from, correction, code_of, start}

-- A chunk that is erased, or whose two words agree.
abbrev pub Quiet : ℕ → ℕ → Type 0
Quiet r c = (r ≡ 0xffffffff) ⊎ (r ≡ c)

-- Every one of `n` chunks from `index` on is quiet.
abbrev pub AllQuiet : ℕ → ℕ → List ℕ → Type 0
AllQuiet zero index ecc = Unit {0}
AllQuiet (suc n) index ecc =
    Quiet (word_at ecc (0x30 + index * 4)) (word_at ecc (0x40 + index * 4))
    × AllQuiet n (index + 1) ecc

abbrev events : Tally → ℕ
events t = t.uncorrectable + t.corrected

correct_chunk-Quiet : (offset r c : ℕ) (t : Tally) → Quiet r c → correct_chunk offset r c t ≡ t
unfolding correct_chunk
correct_chunk-Quiet offset r c t (inl e) = ground arith
correct_chunk-Quiet offset r c t (inr e) =
    ground (arith, ap (λ (x : ℕ). bit_xor r x) e, bit_xor_self r)

chunk_counted :
    (offset r c : ℕ) (t : Tally) → Quiet r c ⊎ (events (correct_chunk offset r c t) ≡ events t + 1)
unfolding correct_chunk
chunk_counted offset r c t = ground (arith, eq_of_bit_xor r c)

module _ (ecc : List ℕ) where
  abbrev round : ℕ → Tally → Tally
  round index t =
      correct_chunk (index * 0x200) (word_at ecc (0x30 + index * 4))
        (word_at ecc (0x40 + index * 4)) t

  from_quiet : (n index : ℕ) (t : Tally) → AllQuiet n index ecc → correct_from n index ecc t ≡ t
  unfolding correct_from
  from_quiet zero index t q = refl
  from_quiet (suc n) index t q =
      ap (correct_from n (index + 1) ecc) (correct_chunk-Quiet (index * 0x200) _ _ t q.0)
      ∙ from_quiet n (index + 1) t q.1

  from_grows : (n index : ℕ) (t : Tally) → events t ≤ events (correct_from n index ecc t)
  unfolding correct_from
  from_grows zero index t = omega arith
  from_grows (suc n) index t = ground (
    arith,
    from_grows n (index + 1) (round index t),
    chunk_counted (index * 0x200) (word_at ecc (0x30 + index * 4)) (word_at ecc (0x40 + index * 4))
        t,
    correct_chunk-Quiet (index * 0x200) (word_at ecc (0x30 + index * 4))
        (word_at ecc (0x40 + index * 4)) t,
  )

  from_counted :
      (n index : ℕ) (t : Tally)
      → AllQuiet n index ecc ⊎ (events t + 1 ≤ events (correct_from n index ecc t))
  unfolding correct_from
  from_counted zero index t = inl tt
  from_counted (suc n) index t =
      elim (chunk_counted (index * 0x200) (word_at ecc (0x30 + index * 4))
        (word_at ecc (0x40 + index * 4)) t) [
          | inl q ↦ elim (from_counted n (index + 1) (round index t)) [
            | inl r ↦ inl (q, r)
            | inr g ↦
                inr (omega (arith, g, ap events (correct_chunk-Quiet (index * 0x200) _ _ t q)))
          ]
          | inr e ↦ inr (omega (arith, e, from_grows n (index + 1) (round index t)))
        ]

-- For every page and spare area, the code of `nand_correct` is 0 exactly when each of the four
-- chunks is erased (its stored word is all ones) or has equal stored and computed words.
pub code_of-zero_iff :
    (page ecc : List ℕ) → (code_of (correction page ecc) ≡ pos 0) ↔ AllQuiet 4 0 ecc
unfolding code_of correction
code_of-zero_iff page ecc = (
  λ e. elim (from_counted ecc 4 0 (start page)) [ inl q ↦ q | inr g ↦ absurd (ground arith) ],
  λ q. rw (from_quiet ecc 4 0 (start page) q),
)
