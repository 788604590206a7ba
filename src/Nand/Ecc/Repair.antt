-- ===== src/Nand/Ecc/Repair.antt =====
-- `nand_correct` gives back a page in which at most one bit of each chunk is wrong.
use vwii_nand_tools.Base.{
  word_at, ℕ, suc, ◌+◌, ◌*◌, ◌≤◌, ◌<◌, ◌≡◌, ◌≢◌, refl, ap, ◌∙◌, arith, List, [], ◌∷◌, Option, none,
  some, length, bit_xor, pos, ◌==◌, ◌!=◌, ◌||◌, if◌then◌else◌, sym, Bool-cases, inl, inr,
}
use vwii_nand_tools.Base.Bits.{bit_xor_self}
use vwii_nand_tools.Machine.{World, log, call, Call}
use vwii_nand_tools.Nand.Ecc.{
  Tally, flip_bit, correct_chunk, correct_from, correction, code_of, nand_correct,
}
use vwii_nand_tools.Nand.Ecc.Syndrome.{syndrome_of, syndrome_reads_back}
use vwii_nand_tools.Nand.Ecc.Flip.{IsBytes, flip_bit_twice, flip_bit-IsBytes, length-flip_bit}

-- The page with the listed wrong bits, one entry for each chunk from chunk `index` on.
abbrev pub damage : ℕ → List (Option ℕ) → List ℕ → List ℕ
damage index [] page = page
damage index (none ∷ errors) page = damage (index + 1) errors page
damage index (some p ∷ errors) page = flip_bit (index * 0x200) p (damage (index + 1) errors page)

abbrev pub stored : List ℕ → ℕ → ℕ
stored ecc index = word_at ecc (0x30 + index * 4)

abbrev pub computed : List ℕ → ℕ → ℕ
computed ecc index = word_at ecc (0x40 + index * 4)

-- The two words of each chunk agree where the chunk is right, and differ by the syndrome of the
-- wrong bit where one is wrong, in a page that is not erased.
abbrev pub Explains : ℕ → List ℕ → List (Option ℕ) → Type 0
Explains index ecc [] = Unit {0}
Explains index ecc (none ∷ errors) =
    (stored ecc index ≡ computed ecc index) × Explains (index + 1) ecc errors
Explains index ecc (some p ∷ errors) =
    (p < 4096)
    × (stored ecc index ≢ 0xffffffff)
    × (bit_xor (stored ecc index) (computed ecc index) ≡ syndrome_of p)
    × Explains (index + 1) ecc errors

abbrev pub count : List (Option ℕ) → ℕ
count [] = 0
count (none ∷ errors) = count errors
count (some p ∷ errors) = suc (count errors)

abbrev tally : List ℕ → ℕ → ℕ → Tally
tally page u c = record { page = page; uncorrectable = u; corrected = c }

chunk_clean : (offset r c : ℕ) (t : Tally) → r ≡ c → correct_chunk offset r c t ≡ t
unfolding correct_chunk
chunk_clean offset r c t e = ground (arith, ap (λ (x : ℕ). bit_xor r x) e, bit_xor_self r)

chunk_repaired :
    (offset r c p : ℕ) (page : List ℕ) (u k : ℕ)
    → p < 4096
    → r ≢ 0xffffffff
    → bit_xor r c ≡ syndrome_of p
    → correct_chunk offset r c (tally page u k) ≡ tally (flip_bit offset p page) u (k + 1)
unfolding correct_chunk
chunk_repaired offset r c p page u k h ne e = rw e (ground (arith, syndrome_reads_back p h))

length-damage :
    (index : ℕ) (errors : List (Option ℕ)) (page : List ℕ)
    → length (damage index errors page) ≡ length page
length-damage index [] page = refl
length-damage index (none ∷ errors) page = length-damage (index + 1) errors page
length-damage index (some p ∷ errors) page =
    length-flip_bit (index * 0x200) p _ ∙ length-damage (index + 1) errors page

damage-IsBytes :
    (index : ℕ) (errors : List (Option ℕ)) (page : List ℕ)
    → IsBytes page
    → IsBytes (damage index errors page)
damage-IsBytes index [] page b = b
damage-IsBytes index (none ∷ errors) page b = damage-IsBytes (index + 1) errors page b
damage-IsBytes index (some p ∷ errors) page b =
    flip_bit-IsBytes (index * 0x200) p _ (damage-IsBytes (index + 1) errors page b)

-- The world after the message on the console, if there is one.
report : ℕ → Tally → World → World
report pageno t w =
    if t.uncorrectable != 0 || t.corrected != 0
    then log
        (call (
          Call.gecko_printf "ECC stats for NAND page 0x%X: %d uncorrectable, %d corrected\n"
            (pageno ∷ t.uncorrectable ∷ t.corrected ∷ [])))
        w
    else w

nand_correct_lem :
    (pageno : ℕ) (page ecc : List ℕ) (w : World)
    → nand_correct pageno page ecc w
      ≡ some (
        ((correction page ecc).page, code_of (correction page ecc)),
        report pageno (correction page ecc) w,
      )
unfolding nand_correct report
nand_correct_lem pageno page ecc w =
    elim (Bool-cases
      ((correction page ecc).uncorrectable != 0 || (correction page ecc).corrected != 0)) [
        | inl e ↦ rw e
        | inr e ↦ rw e
      ]

module _ (ecc page : List ℕ) (whole : length page ≡ 2048) (bytes : IsBytes page) where
  correct_from-damage :
      (index : ℕ) (errors : List (Option ℕ)) (u k : ℕ)
      → index + length errors ≤ 4
      → Explains index ecc errors
      → correct_from (length errors) index ecc (tally (damage index errors page) u k)
        ≡ tally page u (k + count errors)
  unfolding correct_from
  correct_from-damage index [] u k h x = ap (tally page u) (omega arith)
  correct_from-damage index (none ∷ errors) u k h x =
      ap (correct_from (length errors) (index + 1) ecc) (
        chunk_clean (index * 0x200) (stored ecc index) (computed ecc index)
          (tally (damage (index + 1) errors page) u k) x.0)
      ∙ correct_from-damage (index + 1) errors u k (omega arith) x.1
  correct_from-damage index (some p ∷ errors) u k h x =
      let rest = damage (index + 1) errors page in
      ap (correct_from (length errors) (index + 1) ecc) (
        chunk_repaired (index * 0x200) (stored ecc index) (computed ecc index) p
          (flip_bit (index * 0x200) p rest) u k x.0 x.1 x.2
        ∙ ap (λ l. tally l u (k + 1))
            (flip_bit_twice (index * 0x200) p rest
              (omega (arith, length-damage (index + 1) errors page, x.0))
              (damage-IsBytes (index + 1) errors page bytes)))
      ∙ correct_from-damage (index + 1) errors u (k + 1) (omega arith) x.3
      ∙ ap (tally page u) (omega arith)

  correction-damage :
      (errors : List (Option ℕ))
      → length errors ≡ 4
      → Explains 0 ecc errors
      → correction (damage 0 errors page) ecc ≡ tally page 0 (count errors)
  unfolding correction
  correction-damage errors four x =
      ap (λ n. correct_from n 0 ecc (tally (damage 0 errors page) 0 0)) (sym four)
      ∙ correct_from-damage 0 errors 0 0 (omega arith) x
      ∙ ap (tally page 0) (omega arith)

  -- For every page of 2048 bytes, every choice of at most one wrong bit in each of the four chunks
  -- and every spare area whose words explain that choice, `nand_correct` returns the page without
  -- the wrong bits. Its code is 0 if there was none, else 1.
  pub nand_correct-damage :
      (errors : List (Option ℕ)) (pageno : ℕ) (w : World)
      → length errors ≡ 4
      → Explains 0 ecc errors
      → (w' : World) × (nand_correct pageno (damage 0 errors page) ecc w
          ≡ some ((page, if count errors == 0 then pos 0 else pos 1), w'))
  nand_correct-damage errors pageno w four x =
      let t = correction-damage errors four x in
      (
        report pageno (correction (damage 0 errors page) ecc) w,
        nand_correct_lem pageno (damage 0 errors page) ecc w
            ∙ ap (λ s. some (s, report pageno (correction (damage 0 errors page) ecc) w))
                (ap (λ (s : Tally). (s.page, code_of s)) t
                  ∙ ap (λ c. (page, c)) (code page (count errors))),
      )
    where
      code : (l : List ℕ) (n : ℕ) → code_of (tally l 0 n) ≡ (if n == 0 then pos 0 else pos 1)
      code l n = unfold code_of in ground arith
