-- ===== src/CString/Compare.antt =====
-- What `strcmp`, `strncmp` and `memcmp` compare.
use vwii_nand_tools.Base.{
  ℕ, zero, suc, true, false, ◌+◌, ◌≡◌, ◌↔◌, ap₂, ◌!=◌, subst, refl, ◌∙◌, negsuc, ◌<◌, List, [], ◌∷◌,
  length, take, some, arith, ◌==◌, ℤ, pos, if◌then◌else◌,
}
use vwii_nand_tools.Ram.{Ram}
use vwii_nand_tools.CString.{
  strcmp, strcmp_from, strncmp, strncmp_from, memcmp, memcmp_from, difference,
}
use vwii_nand_tools.CString.Length.{IsString, one_on, none_on}

-- `c - d` as an integer.
unfoldable pub gap : ℕ → ℕ → ℤ
gap c zero = pos c
gap zero (suc d) = negsuc d
gap (suc c) (suc d) = gap c d

-- The order of two byte strings: what is between the bytes at the first place where they differ, a string that ends
-- counting as 0 there.
unfoldable pub order : List ℕ → List ℕ → ℤ
unfolding gap
order [] [] = pos 0
order [] (d ∷ ds) = gap 0 d
order (c ∷ cs) [] = gap c 0
order (c ∷ cs) (d ∷ ds) = if c == d then order cs ds else gap c d

difference-suc : (c d : ℕ) → difference (suc c) (suc d) ≡ difference c d
unfolding difference
difference-suc c d = ground arith

difference-gap : (c d : ℕ) → difference c d ≡ gap c d
unfolding difference gap
difference-gap c zero = ground arith
difference-gap zero (suc d) = ground arith
difference-gap (suc c) (suc d) = difference-suc c d ∙ difference-gap c d

strcmp_from_lem :
    (mem : Ram) (s1 s2 : ℕ) (cs ds : List ℕ) (fuel i : ℕ)
    → IsString mem (s1 + i) cs
    → IsString mem (s2 + i) ds
    → length cs < fuel
    → strcmp_from fuel mem s1 s2 i ≡ some (order cs ds)
unfolding strcmp_from order
strcmp_from_lem mem s1 s2 cs ds zero i h k p = absurd (omega arith)
strcmp_from_lem mem s1 s2 [] [] (suc fuel) i h k p = ground (arith, difference-gap 0 0)
strcmp_from_lem mem s1 s2 [] (d ∷ ds) (suc fuel) i h (e, q, k) p =
    ground (arith, difference-gap 0 d)
strcmp_from_lem mem s1 s2 (c ∷ cs) [] (suc fuel) i (e, q, h) k p =
    ground (arith, difference-gap c 0)
strcmp_from_lem mem s1 s2 (c ∷ cs) (d ∷ ds) (suc fuel) i (e, q, h) (e', q', k) p = ground (
  arith,
  difference-gap c d,
  strcmp_from_lem mem s1 s2 cs ds fuel (i + 1) (one_on mem s1 i cs h) (one_on mem s2 i ds k)
      (omega arith),
)

difference-zero : (a b : ℕ) → difference a b ≡ pos 0 → a ≡ b
unfolding difference
difference-zero a b e = ground arith

difference_self : (a b : ℕ) → a ≡ b → difference a b ≡ pos 0
unfolding difference
difference_self a b e = ground arith

order_self : (cs : List ℕ) → order cs cs ≡ pos 0
unfolding order
order_self [] = refl
order_self (c ∷ cs) = ground (arith, order_self cs)

order_step : (c d : ℕ) (x : ℤ) → (if c == d then x else gap c d) ≡ pos 0 → (c ≡ d) × (x ≡ pos 0)
unfolding difference
order_step c d x e = ground (arith, difference-gap c d)

order-equal :
    (mem : Ram) (s1 s2 : ℕ) (cs ds : List ℕ)
    → IsString mem s1 cs
    → IsString mem s2 ds
    → order cs ds ≡ pos 0
    → cs ≡ ds
unfolding order
order-equal mem s1 s2 [] [] h k e = refl
order-equal mem s1 s2 [] (d ∷ ds) h (e', q, k) e =
    absurd (omega (arith, difference-zero 0 d (difference-gap 0 d ∙ e)))
order-equal mem s1 s2 (c ∷ cs) [] (e', q, h) k e =
    absurd (omega (arith, difference-zero c 0 (difference-gap c 0 ∙ e)))
order-equal mem s1 s2 (c ∷ cs) (d ∷ ds) (e1, q1, h) (e2, q2, k) e =
    let (f, r) = order_step c d (order cs ds) e in
    ap₂ (λ x l. x ∷ l) f (order-equal mem (s1 + 1) (s2 + 1) cs ds h k r)

strncmp_from_lem :
    (mem : Ram) (s1 s2 : ℕ) (cs ds : List ℕ) (left i : ℕ)
    → IsString mem (s1 + i) cs
    → IsString mem (s2 + i) ds
    → strncmp_from left mem s1 s2 i ≡ order (take left cs) (take left ds)
unfolding strncmp_from order
strncmp_from_lem mem s1 s2 cs ds zero i h k = refl
strncmp_from_lem mem s1 s2 [] [] (suc left) i h k = ground (arith, difference-gap 0 0)
strncmp_from_lem mem s1 s2 [] (d ∷ ds) (suc left) i h (e, q, k) = ground (arith, difference-gap 0 d)
strncmp_from_lem mem s1 s2 (c ∷ cs) [] (suc left) i (e, q, h) k = ground (arith, difference-gap c 0)
strncmp_from_lem mem s1 s2 (c ∷ cs) (d ∷ ds) (suc left) i (e, q, h) (e', q', k) = ground (
  arith,
  difference-gap c d,
  strncmp_from_lem mem s1 s2 cs ds left (i + 1) (one_on mem s1 i cs h) (one_on mem s2 i ds k),
)

-- `strcmp`, with more fuel than the first string is long, gives the order of the two strings, which is
-- zero exactly when they are equal, and `strncmp` gives the order of their first `n` bytes.
pub strcmp_lem :
    (mem : Ram) (s1 s2 : ℕ) (cs ds : List ℕ) (fuel n : ℕ)
    → IsString mem s1 cs
    → IsString mem s2 ds
    → length cs < fuel
    → (strcmp fuel mem s1 s2 ≡ some (order cs ds))
      × ((order cs ds ≡ pos 0) ↔ (cs ≡ ds))
      × (strncmp mem s1 s2 n ≡ order (take n cs) (take n ds))
unfolding strcmp strncmp
strcmp_lem mem s1 s2 cs ds fuel n h k p = (
  strcmp_from_lem mem s1 s2 cs ds fuel 0 (none_on mem s1 cs h) (none_on mem s2 ds k) p,
  (order-equal mem s1 s2 cs ds h k, λ e. subst (λ l. order cs l ≡ pos 0) e (order_self cs)),
  strncmp_from_lem mem s1 s2 cs ds n 0 (none_on mem s1 cs h) (none_on mem s2 ds k),
)

memcmp_step :
    (a b : ℕ) (x : ℤ)
    → (elim (a != b) [ true ↦ difference a b | false ↦ x ]) ≡ pos 0
    → (a ≡ b) × (x ≡ pos 0)
unfolding difference
memcmp_step a b x e = ground arith

memcmp_from-equal :
    (mem : Ram) (s1 s2 left i : ℕ)
    → memcmp_from left mem s1 s2 i ≡ pos 0
    → (j : ℕ) → j < left
    → mem (s1 + (i + j)) ≡ mem (s2 + (i + j))
unfolding memcmp_from
memcmp_from-equal mem s1 s2 zero i e j p = absurd (omega arith)
memcmp_from-equal mem s1 s2 (suc left) i e zero p =
    subst (λ k. mem (s1 + k) ≡ mem (s2 + k)) (omega arith)
      (memcmp_step (mem (s1 + i)) (mem (s2 + i)) _ e).0
memcmp_from-equal mem s1 s2 (suc left) i e (suc j) p =
    subst (λ k. mem (s1 + k) ≡ mem (s2 + k)) (omega arith)
      (memcmp_from-equal mem s1 s2 left (i + 1) (memcmp_step (mem (s1 + i)) (mem (s2 + i)) _ e).1 j
        (omega arith))

memcmp_from-zero :
    (mem : Ram) (s1 s2 left i : ℕ)
    → ((j : ℕ) → j < left → mem (s1 + (i + j)) ≡ mem (s2 + (i + j)))
    → memcmp_from left mem s1 s2 i ≡ pos 0
unfolding memcmp_from
memcmp_from-zero mem s1 s2 zero i h = refl
memcmp_from-zero mem s1 s2 (suc left) i h =
    ground (arith, here, memcmp_from-zero mem s1 s2 left (i + 1) later)
  where
    here : mem (s1 + i) ≡ mem (s2 + i)
    here = subst (λ k. mem (s1 + k) ≡ mem (s2 + k)) (omega arith) (h 0 (omega arith))

    later : (j : ℕ) → j < left → mem (s1 + (i + 1 + j)) ≡ mem (s2 + (i + 1 + j))
    later j p = subst (λ k. mem (s1 + k) ≡ mem (s2 + k)) (omega arith) (h (suc j) (omega arith))

-- `memcmp` is zero exactly when the two ranges hold the same bytes.
pub memcmp-zero_iff :
    (mem : Ram) (s1 s2 len : ℕ)
    → (memcmp mem s1 s2 len ≡ pos 0) ↔ ((j : ℕ) → j < len → mem (s1 + j) ≡ mem (s2 + j))
unfolding memcmp
memcmp-zero_iff mem s1 s2 len = (
  λ e j p.
      subst (λ k. mem (s1 + k) ≡ mem (s2 + k)) (omega arith)
        (memcmp_from-equal mem s1 s2 len 0 e j p),
  λ h.
      memcmp_from-zero mem s1 s2 len 0
        (λ j p. subst (λ k. mem (s1 + k) ≡ mem (s2 + k)) (omega arith) (h j p)),
)
