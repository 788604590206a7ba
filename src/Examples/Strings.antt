-- ===== src/Examples/Strings.antt =====
-- The string functions at concrete inputs.
use vwii_nand_tools.Base.{
  ◌≡◌, ◌↔◌, refl, arith, inl, inr, List, [], ◌∷◌, some, pos, ◌==◌, not, ◌<◌, ◌+◌, ℕ, u8,
  if◌then◌else◌,
}
use vwii_nand_tools.Ram.{Ram}
use vwii_nand_tools.CString.{
  strlen, strncmp, memcmp, strchr, strcmp, strlcpy, strlcat, strspn, strcspn,
}
use vwii_nand_tools.CString.Length.{IsString}
use vwii_nand_tools.CString.Compare.{order, strcmp_lem, memcmp-zero_iff}
use vwii_nand_tools.CString.Copy.{Copies, strlcpy_lem, strlcat_lem}
use vwii_nand_tools.CString.Search.{first_of, strchr_lem, among, run_of, spans_lem}
use vwii_nand_tools.CString.RoundTrip.{strcmp-strlcpy}

-- "ab" at 100, "b" at 200, and zeros.
abbrev mem : Ram
mem a = if a == 100 then 97 else if a == 101 then 98 else if a == 200 then 98 else 0

abbrev ab : List ℕ
ab = 97 ∷ 98 ∷ []

abbrev b : List ℕ
b = 98 ∷ []

at_ab : IsString mem 100 ab
at_ab = (refl, omega arith, (refl, omega arith, refl))

at_b : IsString mem 200 b
at_b = (refl, omega arith, refl)

strcmp_example :
    (strcmp 5 mem 100 200 ≡ some (order ab b))
    × ((order ab b ≡ pos 0) ↔ (ab ≡ b))
    × (strncmp mem 100 200 1 ≡ order (97 ∷ []) (98 ∷ []))
strcmp_example = strcmp_lem mem 100 200 ab b 5 1 at_ab at_b (omega arith)

memcmp_example : (memcmp mem 101 200 2 ≡ pos 0) ↔ ((j : ℕ) → j < 2 → mem (101 + j) ≡ mem (200 + j))
memcmp_example = memcmp-zero_iff mem 101 200 2

strchr_example : strchr 5 mem 100 98 ≡ some (first_of (u8 98) 100 ab)
strchr_example = strchr_lem mem 100 98 ab 5 at_ab (omega arith)

strlcpy_example : Copies 300 2 mem [] ab (strlcpy 300 100 2 mem)
strlcpy_example = strlcpy_lem 300 100 2 mem ab (omega arith) (omega arith) at_ab (inl (omega arith))

strlcat_example : Copies 100 4 mem ab b (strlcat 100 200 4 mem)
strlcat_example =
    strlcat_lem 100 200 4 mem ab b (omega arith) (omega arith) at_ab at_b (inr (omega arith))

spans_example :
    (strspn 5 mem 100 200 ≡ some (run_of (λ c. among c b) ab))
    × (strcspn 5 mem 100 200 ≡ some (run_of (λ c. not (among c b)) ab))
spans_example = spans_lem mem 100 200 ab b 5 at_ab at_b (omega arith) (omega arith)

strcmp-strlcpy_example :
    (strcmp 5 ((strlcpy 300 100 3 mem).1) 300 100 ≡ some (pos 0))
    × (strlen 5 ((strlcpy 300 100 3 mem).1) 300 ≡ some 2)
strcmp-strlcpy_example =
    strcmp-strlcpy 300 100 3 5 mem ab (omega arith) (omega arith) at_ab (inl (omega arith))
      (omega arith)
