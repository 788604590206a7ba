-- ===== src/CString/Copy.antt =====
-- What `strlcpy` and `strlcat` leave in memory.
use vwii_nand_tools.Base.{
  ℕ, zero, suc, ◌+◌, ◌-◌, ◌^◌, ◌≡◌, ◌∙◌, sym, ap, subst, ◌<◌, ◌≤◌, ◌⊎◌, inl, inr, min, Bool-cases,
  leb, u32, List, [], ◌∷◌, ◌++◌, length, length-append, take, arith,
}
use vwii_nand_tools.Ram.{Ram, poke, memcpy}
use vwii_nand_tools.Ram.Laws.{poke-same, poke-other, memcpy-inside, memcpy-outside}
use vwii_nand_tools.CString.{strlcpy, strlcat, copied, before, strnlen}
use vwii_nand_tools.CString.Length.{IsString, strnlen_lem}

-- A string ends in a zero.
IsString-end : (mem : Ram) (s : ℕ) (cs : List ℕ) → IsString mem s cs → mem (s + length cs) ≡ 0
IsString-end mem s [] h = ap mem (omega arith) ∙ h
IsString-end mem s (c ∷ cs) (e, q, h) = ap mem (omega arith) ∙ IsString-end mem (s + 1) cs h

-- A copy of the first `n` bytes of a string, with a zero behind it, is a string.
IsString-take :
    (mem mem' : Ram) (s d n : ℕ) (cs : List ℕ)
    → IsString mem s cs
    → ((i : ℕ) → i < min (length cs) n → mem' (d + i) ≡ mem (s + i))
    → mem' (d + min (length cs) n) ≡ 0
    → IsString mem' d (take n cs)
IsString-take mem mem' s d zero cs h f z = ap mem' (omega arith) ∙ z
IsString-take mem mem' s d (suc n) [] h f z = ap mem' (omega arith) ∙ z
IsString-take mem mem' s d (suc n) (c ∷ cs) (e, q, h) f z = (
  ap mem' (omega arith) ∙ f 0 (omega arith) ∙ ap mem (omega arith) ∙ e,
  q,
  IsString-take mem mem' (s + 1) (d + 1) n cs h
      (λ i p. ap mem' (omega arith) ∙ f (suc i) (omega arith) ∙ ap mem (omega arith))
      (ap mem' (omega arith) ∙ z),
)

-- A string in front of another, in place of its zero.
IsString-append :
    (mem mem' : Ram) (d : ℕ) (ds es : List ℕ)
    → IsString mem d ds
    → ((i : ℕ) → i < length ds → mem' (d + i) ≡ mem (d + i))
    → IsString mem' (d + length ds) es
    → IsString mem' d (ds ++ es)
IsString-append mem mem' d [] es h f k = subst (λ a. IsString mem' a es) (omega arith) k
IsString-append mem mem' d (c ∷ ds) es (e, q, h) f k = (
  ap mem' (omega arith) ∙ f 0 (omega arith) ∙ ap mem (omega arith) ∙ e,
  q,
  IsString-append mem mem' (d + 1) ds es h
      (λ i p. ap mem' (omega arith) ∙ f (suc i) (omega arith) ∙ ap mem (omega arith))
      (subst (λ a. IsString mem' a es) (omega arith) k),
)

-- How much is copied: the bytes that fit, or with them the zero that ends the string.
copied_lem :
    (k n maxlen : ℕ)
    → k ≡ min n (maxlen - 1)
    → 0 < maxlen
    → maxlen < 2 ^ 32
    → (copied (u32 (k + 1)) maxlen ≡ k)
      ⊎ ((copied (u32 (k + 1)) maxlen ≡ k + 1) × (k ≡ n) × (k + 1 < maxlen))
unfolding copied
copied_lem k n maxlen e p q = elim (Bool-cases (leb maxlen (k + 1))) [
  | inl c ↦ inl (ground arith)
  | inr c ↦ inr (ground arith, ground arith, ground arith)
]

-- The memory after the copy of `len` bytes and the zero behind them.
abbrev closed : ℕ → ℕ → ℕ → Ram → Ram
closed dest src len mem = poke (dest + len) 0 (memcpy dest src len mem)

closed-inside :
    (dest src len : ℕ) (mem : Ram)
    → (src + len ≤ dest) ⊎ (dest + len ≤ src)
    → (i : ℕ) → i < len
    → closed dest src len mem (dest + i) ≡ mem (src + i)
closed-inside dest src len mem h i p =
    poke-other (dest + len) 0 (memcpy dest src len mem) (dest + i) (λ e. omega arith)
    ∙ memcpy-inside len dest src mem h i p

closed-outside :
    (dest src len : ℕ) (mem : Ram) (b : ℕ)
    → (b < dest) ⊎ (dest + len < b)
    → closed dest src len mem b ≡ mem b
closed-outside dest src len mem b h =
    poke-other (dest + len) 0 (memcpy dest src len mem) b (λ e. apart h e)
    ∙ memcpy-outside len dest src mem b (wider h)
  where
    apart : (b < dest) ⊎ (dest + len < b) → dest + len ≡ b → ⊥
    apart (inl p) e = omega arith
    apart (inr p) e = omega arith

    wider : (b < dest) ⊎ (dest + len < b) → (b < dest) ⊎ (dest + len ≤ b)
    wider (inl p) = inl p
    wider (inr p) = inr (omega arith)

-- A buffer of `maxlen` bytes at `dest`, apart from a string of `n` bytes at `src`.
abbrev pub Clear : ℕ → ℕ → ℕ → ℕ → Type 0
Clear dest maxlen src n = (src + n + 1 ≤ dest) ⊎ (dest + maxlen ≤ src)

less-Clear :
    (dest maxlen src n len : ℕ)
    → len ≤ n + 1
    → len ≤ maxlen
    → Clear dest maxlen src n
    → (src + len ≤ dest) ⊎ (dest + len ≤ src)
less-Clear dest maxlen src n len p q (inl h) = inl (omega arith)
less-Clear dest maxlen src n len p q (inr h) = inr (omega arith)

-- A copy of `len` bytes is the string cut to `n`, whether its zero was among them or is the one put behind.
closed-IsString :
    (dest src len n : ℕ) (mem : Ram) (cs : List ℕ)
    → IsString mem src cs
    → (src + len ≤ dest) ⊎ (dest + len ≤ src)
    → (len ≡ min (length cs) n) ⊎ ((len ≡ length cs + 1) × (length cs < n))
    → IsString (closed dest src len mem) dest (take n cs)
closed-IsString dest src len n mem cs h apart (inl e) =
    IsString-take mem _ src dest n cs h
      (λ i p. closed-inside dest src len mem apart i (omega arith))
      (ap (closed dest src len mem) (omega arith)
        ∙ poke-same (dest + len) 0 (memcpy dest src len mem))
closed-IsString dest src len n mem cs h apart (inr (e, q)) =
    IsString-take mem _ src dest n cs h
      (λ i p. closed-inside dest src len mem apart i (omega arith))
      (closed-inside dest src len mem apart (min (length cs) n) (omega arith)
        ∙ ap mem (omega arith)
        ∙ IsString-end mem src cs h)

-- What a copy into a buffer of `maxlen` bytes leaves: the string cut to the buffer, its length, and
-- everything outside of the buffer as it was.
pub record Copies (dest maxlen : ℕ) (mem : Ram) (held added : List ℕ) (result : ℕ × Ram)
    : Type 0 where
  pub count : result.0 ≡ min (length (held ++ added)) (maxlen - 1)
  pub string : IsString (result.1) dest (take (maxlen - 1) (held ++ added))
  pub frame : (b : ℕ) → (b < dest) ⊎ (dest + maxlen ≤ b) → result.1 b ≡ mem b

module _ (dest src maxlen : ℕ) (mem : Ram) (cs : List ℕ) (p : 0 < maxlen) (q : maxlen < 2 ^ 32)
    (h : IsString mem src cs) (clear : Clear dest maxlen src (length cs)) where
  asked : ℕ
  asked = strnlen mem src (before maxlen)

  asked_lem : asked ≡ min (length cs) (maxlen - 1)
  unfolding asked
  asked_lem = strnlen_lem mem src cs (before maxlen) h ∙ omega arith

  len : ℕ
  len = copied (u32 (asked + 1)) maxlen

  fits : (len ≡ min (length cs) (maxlen - 1)) ⊎ ((len ≡ length cs + 1) × (length cs < maxlen - 1))
  unfolding len
  fits = elim (copied_lem asked (length cs) maxlen asked_lem p q) [
    | inl e ↦ inl (e ∙ asked_lem)
    | inr (e, f, g) ↦ inr (omega arith, omega arith)
  ]

  small : (len ≤ length cs + 1) × (len < maxlen)
  small = elim fits [ inl e ↦ (omega arith, omega arith) | inr (e, f) ↦ (omega arith, omega arith) ]

  apart : (src + len ≤ dest) ⊎ (dest + len ≤ src)
  apart = less-Clear dest maxlen src (length cs) len small.0 (omega (arith, small)) clear

  outside : (b : ℕ) → (b < dest) ⊎ (dest + maxlen ≤ b) → (b < dest) ⊎ (dest + len < b)
  outside b (inl r) = inl r
  outside b (inr r) = inr (omega (arith, small))

  -- `strlcpy` into a buffer apart from the string, of a size above 0: the buffer holds the string, cut
  -- to one byte less than the buffer, the result is the length of that, and no other byte is changed.
  pub strlcpy_lem : Copies dest maxlen mem [] cs (strlcpy dest src maxlen mem)
  unfolding strlcpy len asked
  strlcpy_lem = record {
    count = omega (arith, asked_lem);
    string = closed-IsString dest src len (maxlen - 1) mem cs h apart fits;
    frame = λ b r. closed-outside dest src len mem b (outside b r);
  }

take-append : (n m : ℕ) (ds cs : List ℕ) → n ≡ length ds + m → take n (ds ++ cs) ≡ ds ++ take m cs
take-append n m [] cs e = ap (λ k. take k cs) (omega arith)
take-append zero m (d ∷ ds) cs e = absurd (omega arith)
take-append (suc n) m (d ∷ ds) cs e = ap (λ l. d ∷ l) (take-append n m ds cs (omega arith))

-- `strlcpy` at the end of what a buffer holds.
joined :
    (dest src maxlen used rest : ℕ) (mem : Ram) (ds cs : List ℕ)
    → used ≡ length ds
    → used + rest ≡ maxlen
    → maxlen < 2 ^ 32
    → 0 < rest
    → IsString mem dest ds
    → IsString mem src cs
    → Clear dest maxlen src (length cs)
    → (result : ℕ × Ram) → Copies (dest + used) rest mem [] cs result
    → Copies dest maxlen mem ds cs (u32 (used + result.0), result.1)
joined dest src maxlen used rest mem ds cs e f q r h k clear result c = record {
  count = omega (arith, c.count, length-append ds cs);
  string =
      subst (λ l. IsString (result.1) dest l)
        (sym (take-append (maxlen - 1) (rest - 1) ds cs (omega arith)))
        (IsString-append mem (result.1) dest ds (take (rest - 1) cs) h
          (λ i p. c.frame (dest + i) (inl (omega arith)))
          (subst (λ a. IsString (result.1) a (take (rest - 1) cs)) (omega arith) (c.string)));
  frame = λ b o. c.frame b (outside b o);
}
  where
    outside :
        (b : ℕ) → (b < dest) ⊎ (dest + maxlen ≤ b) → (b < dest + used) ⊎ (dest + used + rest ≤ b)
    outside b (inl p) = inl (omega arith)
    outside b (inr p) = inr (omega arith)

-- `strlcat` onto a string that a buffer holds, from a string apart from the buffer: the buffer holds the
-- two, one behind the other, cut to one byte less than the buffer, the result is the length of that,
-- and no other byte is changed.
pub strlcat_lem :
    (dest src maxlen : ℕ) (mem : Ram) (ds cs : List ℕ)
    → length ds < maxlen
    → maxlen < 2 ^ 32
    → IsString mem dest ds
    → IsString mem src cs
    → Clear dest maxlen src (length cs)
    → Copies dest maxlen mem ds cs (strlcat dest src maxlen mem)
unfolding strlcat
strlcat_lem dest src maxlen mem ds cs p q h k clear =
    joined dest src maxlen used rest mem ds cs held (omega (arith, held)) q (omega (arith, held)) h
      k clear _
      (strlcpy_lem (dest + used) src rest mem cs (omega (arith, held)) (omega arith) k
        (behind clear))
  where
    used : ℕ
    used = strnlen mem dest (before maxlen)

    rest : ℕ
    rest = u32 (maxlen + (2 ^ 32 - used))

    held : used ≡ length ds
    held = strnlen_lem mem dest ds (before maxlen) h ∙ omega arith

    behind : Clear dest maxlen src (length cs) → Clear (dest + used) rest src (length cs)
    behind (inl r) = inl (omega arith)
    behind (inr r) = inr (omega (arith, held))
