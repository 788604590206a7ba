-- ===== src/CString/Length.antt =====
-- Strings in memory, and their lengths.
use vwii_nand_tools.Base.{
  ℕ, zero, suc, ◌+◌, ◌≡◌, ◌∙◌, ap, subst, ◌<◌, min, List, [], ◌∷◌, length, some, arith,
}
use vwii_nand_tools.Ram.{Ram}
use vwii_nand_tools.CString.{strlen, strlen_from, strnlen, strnlen_from}

-- At `s` stand these bytes, none of them zero, and a zero.
abbrev pub IsString : Ram → ℕ → List ℕ → Type 0
IsString mem s [] = mem s ≡ 0
IsString mem s (c ∷ cs) = (mem s ≡ c) × (0 < c) × IsString mem (s + 1) cs

pub one_on :
    (mem : Ram) (s i : ℕ) (cs : List ℕ)
    → IsString mem (s + i + 1) cs
    → IsString mem (s + (i + 1)) cs
one_on mem s i cs h = subst (λ a. IsString mem a cs) (omega arith) h

pub none_on : (mem : Ram) (s : ℕ) (cs : List ℕ) → IsString mem s cs → IsString mem (s + 0) cs
none_on mem s cs h = subst (λ a. IsString mem a cs) (omega arith) h

strlen_from_lem :
    (mem : Ram) (s : ℕ) (cs : List ℕ) (fuel len : ℕ)
    → IsString mem (s + len) cs
    → length cs < fuel
    → strlen_from fuel mem s len ≡ some (len + length cs)
unfolding strlen_from
strlen_from_lem mem s cs zero len h p = absurd (omega arith)
strlen_from_lem mem s [] (suc fuel) len h p = ground arith
strlen_from_lem mem s (c ∷ cs) (suc fuel) len (e, q, h) p =
    ground (arith, strlen_from_lem mem s cs fuel (len + 1) (one_on mem s len cs h) (omega arith))

-- `strlen` gives the length of the string, once the fuel is more than that.
pub strlen_lem :
    (mem : Ram) (s : ℕ) (cs : List ℕ) (fuel : ℕ)
    → IsString mem s cs
    → length cs < fuel
    → strlen fuel mem s ≡ some (length cs)
unfolding strlen
strlen_lem mem s cs fuel h p =
    strlen_from_lem mem s cs fuel 0 (none_on mem s cs h) p ∙ ap some (omega arith)

strnlen_from_lem :
    (mem : Ram) (s : ℕ) (cs : List ℕ) (left len : ℕ)
    → IsString mem (s + len) cs
    → strnlen_from left mem s len ≡ len + min (length cs) left
unfolding strnlen_from
strnlen_from_lem mem s cs zero len h = omega arith
strnlen_from_lem mem s [] (suc left) len h = ground arith
strnlen_from_lem mem s (c ∷ cs) (suc left) len (e, q, h) =
    ground (arith, strnlen_from_lem mem s cs left (len + 1) (one_on mem s len cs h))

-- `strnlen` gives the length of the string, or the bound when that is less.
pub strnlen_lem :
    (mem : Ram) (s : ℕ) (cs : List ℕ) (count : ℕ)
    → IsString mem s cs
    → strnlen mem s count ≡ min (length cs) count
unfolding strnlen
strnlen_lem mem s cs count h = strnlen_from_lem mem s cs count 0 (none_on mem s cs h) ∙ omega arith
