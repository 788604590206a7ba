-- ===== src/CString/RoundTrip.antt =====
-- A string that is copied and compared with what it was copied from.
use vwii_nand_tools.Base.{
  ℕ, zero, suc, ◌+◌, ◌-◌, ◌^◌, ◌≡◌, ◌∙◌, ap, subst, ◌<◌, ◌≤◌, ◌⊎◌, inl, inr, List, [], ◌∷◌, length,
  take, some, pos, arith, refl,
}
use vwii_nand_tools.Ram.{Ram}
use vwii_nand_tools.CString.{strcmp, strlen, strlcpy}
use vwii_nand_tools.CString.Length.{IsString, strlen_lem}
use vwii_nand_tools.CString.Copy.{Clear, strlcpy_lem}
use vwii_nand_tools.CString.Compare.{strcmp_lem}

take-all : (n : ℕ) (cs : List ℕ) → length cs ≤ n → take n cs ≡ cs
take-all zero [] p = refl
take-all (suc n) [] p = refl
take-all zero (c ∷ cs) p = absurd (omega arith)
take-all (suc n) (c ∷ cs) p = ap (λ l. c ∷ l) (take-all n cs (omega arith))

-- A string whose bytes are left alone.
IsString-kept :
    (mem mem' : Ram) (s : ℕ) (cs : List ℕ)
    → ((i : ℕ) → i < length cs + 1 → mem' (s + i) ≡ mem (s + i))
    → IsString mem s cs
    → IsString mem' s cs
IsString-kept mem mem' s [] f h =
    ap mem' (omega arith) ∙ f 0 (omega arith) ∙ ap mem (omega arith) ∙ h
IsString-kept mem mem' s (c ∷ cs) f (e, q, h) = (
  ap mem' (omega arith) ∙ f 0 (omega arith) ∙ ap mem (omega arith) ∙ e,
  q,
  IsString-kept mem mem' (s + 1) cs
      (λ i p. ap mem' (omega arith) ∙ f (suc i) (omega arith) ∙ ap mem (omega arith)) h,
)

-- A string copied by `strlcpy` into a buffer that it fits into, and that lies apart from it, compares
-- equal with the copy, and the copy has its length.
pub strcmp-strlcpy :
    (dest src maxlen fuel : ℕ) (mem : Ram) (cs : List ℕ)
    → length cs < maxlen
    → maxlen < 2 ^ 32
    → IsString mem src cs
    → Clear dest maxlen src (length cs)
    → length cs < fuel
    → (strcmp fuel ((strlcpy dest src maxlen mem).1) dest src ≡ some (pos 0))
      × (strlen fuel ((strlcpy dest src maxlen mem).1) dest ≡ some (length cs))
strcmp-strlcpy dest src maxlen fuel mem cs p q h clear f =
    let (e, z, _) = strcmp_lem mem' dest src cs cs fuel 0 whole kept f in
    (e ∙ ap some (z.1 refl), strlen_lem mem' dest cs fuel whole f)
  where
    mem' : Ram
    mem' = (strlcpy dest src maxlen mem).1

    whole : IsString mem' dest cs
    whole =
        let c = strlcpy_lem dest src maxlen mem cs (omega arith) q h clear in
        subst (IsString mem' dest) (take-all (maxlen - 1) cs (omega arith)) c.string

    outside :
        (i : ℕ)
        → i < length cs + 1
        → Clear dest maxlen src (length cs)
        → (src + i < dest) ⊎ (dest + maxlen ≤ src + i)
    outside i p (inl r) = inl (omega arith)
    outside i p (inr r) = inr (omega arith)

    kept : IsString mem' src cs
    kept =
        IsString-kept mem mem' src cs
          (λ i r.
            let c = strlcpy_lem dest src maxlen mem cs (omega arith) q h clear in
            c.frame (src + i) (outside i r clear))
          h
