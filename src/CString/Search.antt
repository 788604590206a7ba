-- ===== src/CString/Search.antt =====
-- What `strchr`, `strspn` and `strcspn` find.
use vwii_nand_tools.Base.{
  ℕ, zero, suc, Bool, false, ◌+◌, ◌≡◌, ◌∙◌, ap, ◌<◌, List, [], ◌∷◌, length, some, arith, ◌==◌, ◌||◌,
  not, u8, if◌then◌else◌,
}
use vwii_nand_tools.Ram.{Ram}
use vwii_nand_tools.CString.{strchr, strchr_from, strspn, strspn_from, strcspn, strcspn_from, meets}
use vwii_nand_tools.CString.Length.{IsString, one_on, none_on}

-- Where the first `c` of a list stands, for a list at `s`; 0 if there is none.
unfoldable pub first_of : ℕ → ℕ → List ℕ → ℕ
first_of c s [] = 0
first_of c s (d ∷ ds) = if d == c then s else first_of c (s + 1) ds

-- Whether a byte is among those of a list.
unfoldable pub among : ℕ → List ℕ → Bool
among c [] = false
among c (d ∷ ds) = (c == d) || among c ds

-- How many bytes a list starts with that pass a test.
unfoldable pub run_of : (ℕ → Bool) → List ℕ → ℕ
run_of test [] = 0
run_of test (c ∷ cs) = if test c then suc (run_of test cs) else 0

strchr_from_lem :
    (mem : Ram) (s c : ℕ) (cs : List ℕ) (fuel i : ℕ)
    → IsString mem (s + i) cs
    → length cs < fuel
    → strchr_from fuel mem s c i ≡ some (first_of (u8 c) (s + i) cs)
unfolding strchr_from first_of
strchr_from_lem mem s c cs zero i h p = absurd (omega arith)
strchr_from_lem mem s c [] (suc fuel) i h p = ground arith
strchr_from_lem mem s c (d ∷ ds) (suc fuel) i (e, q, h) p = ground (
  arith,
  strchr_from_lem mem s c ds fuel (i + 1) (one_on mem s i ds h) (omega arith),
  ap (λ a. first_of (u8 c) a ds) (moved s i),
)
  where
    moved : (s i : ℕ) → s + (i + 1) ≡ s + i + 1
    moved s i = omega arith

-- `strchr`, with more fuel than the string is long, gives the address of the first byte that is the low
-- byte of `c`, or 0 if there is none; it never gives the address of the zero that ends the string.
pub strchr_lem :
    (mem : Ram) (s c : ℕ) (cs : List ℕ) (fuel : ℕ)
    → IsString mem s cs
    → length cs < fuel
    → strchr fuel mem s c ≡ some (first_of (u8 c) s cs)
unfolding strchr
strchr_lem mem s c cs fuel h p =
    strchr_from_lem mem s c cs fuel 0 (none_on mem s cs h) p
    ∙ ap (λ a. some (first_of (u8 c) a cs)) (omega arith)

meets_lem :
    (mem : Ram) (c p : ℕ) (ds : List ℕ) (fuel : ℕ)
    → IsString mem p ds
    → length ds < fuel
    → meets fuel mem c p ≡ some (among c ds)
unfolding meets among
meets_lem mem c p ds zero h q = absurd (omega arith)
meets_lem mem c p [] (suc fuel) h q = ground arith
meets_lem mem c p (d ∷ ds) (suc fuel) (e, r, h) q =
    ground (arith, meets_lem mem c (p + 1) ds fuel h (omega arith))

module _ (mem : Ram) (s1 s2 : ℕ) (ds : List ℕ) (k : IsString mem s2 ds) (inner : ℕ)
    (enough : length ds < inner) where
  strspn_from_lem :
      (cs : List ℕ) (fuel len : ℕ)
      → IsString mem (s1 + len) cs
      → length cs < fuel
      → strspn_from fuel inner mem s1 s2 len ≡ some (len + run_of (λ c. among c ds) cs)
  unfolding strspn_from run_of
  strspn_from_lem cs zero len h p = absurd (omega arith)
  strspn_from_lem [] (suc fuel) len h p = ground arith
  strspn_from_lem (c ∷ cs) (suc fuel) len (e, q, h) p = ground (
    arith,
    meets_lem mem (mem (s1 + len)) s2 ds inner k enough,
    strspn_from_lem cs fuel (len + 1) (one_on mem s1 len cs h) (omega arith),
  )

  strcspn_from_lem :
      (cs : List ℕ) (fuel len : ℕ)
      → IsString mem (s1 + len) cs
      → length cs < fuel
      → strcspn_from fuel inner mem s1 s2 len ≡ some (len + run_of (λ c. not (among c ds)) cs)
  unfolding strcspn_from run_of
  strcspn_from_lem cs zero len h p = absurd (omega arith)
  strcspn_from_lem [] (suc fuel) len h p = ground arith
  strcspn_from_lem (c ∷ cs) (suc fuel) len (e, q, h) p = ground (
    arith,
    meets_lem mem (mem (s1 + len)) s2 ds inner k enough,
    strcspn_from_lem cs fuel (len + 1) (one_on mem s1 len cs h) (omega arith),
  )

-- `strspn` and `strcspn`, with more fuel than either string is long, give how many bytes the first
-- string starts with that are, or are not, among those of the second.
pub spans_lem :
    (mem : Ram) (s1 s2 : ℕ) (cs ds : List ℕ) (fuel : ℕ)
    → IsString mem s1 cs
    → IsString mem s2 ds
    → length cs < fuel
    → length ds < fuel
    → (strspn fuel mem s1 s2 ≡ some (run_of (λ c. among c ds) cs))
      × (strcspn fuel mem s1 s2 ≡ some (run_of (λ c. not (among c ds)) cs))
unfolding strspn strcspn
spans_lem mem s1 s2 cs ds fuel h k p q = (
  strspn_from_lem mem s1 s2 ds k fuel q cs fuel 0 (none_on mem s1 cs h) p ∙ ap some (omega arith),
  strcspn_from_lem mem s1 s2 ds k fuel q cs fuel 0 (none_on mem s1 cs h) p ∙ ap some (omega arith),
)
