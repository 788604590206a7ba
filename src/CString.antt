-- ===== src/CString.antt =====
-- armboot/common/string.c (and its copy, armboot/elfloader/string.c) over a memory of bytes. A pointer
-- is an address, `size_t` is 32 bits wide, and `char` is unsigned, as on the processor. A loop that only
-- a zero byte or a difference ends takes fuel; the copy of `memcpy` is in Ram.
pub mod Length
pub mod RoundTrip
pub mod Search
pub mod Copy
pub mod Fill
pub mod Compare
use vwii_nand_tools.Base.{
  ℕ, zero, suc, Bool, true, false, ◌+◌, ◌-◌, ◌%◌, ◌^◌, u8, u32, ◌==◌, ◌!=◌, ◌&&◌, leb, ltb,
  if◌then◌else◌, Option, none, some, ℤ, pos, minus,
}
use vwii_nand_tools.Ram.{Ram, poke, memcpy}

-- The loop of `strlen`, with the fuel.
unfoldable pub strlen_from : ℕ → Ram → ℕ → ℕ → Option ℕ
strlen_from zero mem s len = none
strlen_from (suc fuel) mem s len = elim (mem (s + len) == 0) [
  | true ↦ some len
  | false ↦ strlen_from fuel mem s (len + 1)
]

unfoldable pub strlen : ℕ → Ram → ℕ → Option ℕ
unfolding strlen_from
strlen fuel mem s = strlen_from fuel mem s 0

-- The loop of `strnlen`, with the rounds left, `count - len`.
unfoldable pub strnlen_from : ℕ → Ram → ℕ → ℕ → ℕ
strnlen_from zero mem s len = len
strnlen_from (suc left) mem s len = elim (mem (s + len) == 0) [
  | true ↦ len
  | false ↦ strnlen_from left mem s (len + 1)
]

unfoldable pub strnlen : Ram → ℕ → ℕ → ℕ
unfolding strnlen_from
strnlen mem s count = strnlen_from count mem s 0

-- The loop of `memset`, with the rounds left, from index `i` on.
unfoldable pub memset_from : ℕ → ℕ → ℕ → ℕ → Ram → Ram
memset_from zero b c i mem = mem
memset_from (suc left) b c i mem = memset_from left b c (i + 1) (poke (b + i) (u8 c) mem)

unfoldable pub memset : ℕ → ℕ → ℕ → Ram → Ram
unfolding memset_from
memset b c len mem = memset_from len b c 0 mem

-- The difference of two bytes, an `int`.
unfoldable pub difference : ℕ → ℕ → ℤ
difference a b = if ltb a b then minus (b - a) else pos (a - b)

-- The loop of `memcmp`, with the rounds left.
unfoldable pub memcmp_from : ℕ → Ram → ℕ → ℕ → ℕ → ℤ
unfolding difference
memcmp_from zero mem s1 s2 i = pos 0
memcmp_from (suc left) mem s1 s2 i = elim (mem (s1 + i) != mem (s2 + i)) [
  | true ↦ difference (mem (s1 + i)) (mem (s2 + i))
  | false ↦ memcmp_from left mem s1 s2 (i + 1)
]

unfoldable pub memcmp : Ram → ℕ → ℕ → ℕ → ℤ
unfolding memcmp_from
memcmp mem s1 s2 len = memcmp_from len mem s1 s2 0

-- `s1[i] && s1[i] == s2[i]`
abbrev pub go_on : ℕ → ℕ → Bool
go_on a b = (a != 0) && (a == b)

-- The loop of `strcmp`, with the fuel.
unfoldable pub strcmp_from : ℕ → Ram → ℕ → ℕ → ℕ → Option ℤ
unfolding difference
strcmp_from zero mem s1 s2 i = none
strcmp_from (suc fuel) mem s1 s2 i = elim (go_on (mem (s1 + i)) (mem (s2 + i))) [
  | true ↦ strcmp_from fuel mem s1 s2 (i + 1)
  | false ↦ some (difference (mem (s1 + i)) (mem (s2 + i)))
]

unfoldable pub strcmp : ℕ → Ram → ℕ → ℕ → Option ℤ
unfolding strcmp_from
strcmp fuel mem s1 s2 = strcmp_from fuel mem s1 s2 0

-- The loop of `strncmp`, with the rounds left, `n - i`.
unfoldable pub strncmp_from : ℕ → Ram → ℕ → ℕ → ℕ → ℤ
unfolding difference
strncmp_from zero mem s1 s2 i = pos 0
strncmp_from (suc left) mem s1 s2 i = elim (go_on (mem (s1 + i)) (mem (s2 + i))) [
  | true ↦ strncmp_from left mem s1 s2 (i + 1)
  | false ↦ difference (mem (s1 + i)) (mem (s2 + i))
]

unfoldable pub strncmp : Ram → ℕ → ℕ → ℕ → ℤ
unfolding strncmp_from
strncmp mem s1 s2 n = strncmp_from n mem s1 s2 0

-- `n - 1` on 32 bits.
abbrev pub before : ℕ → ℕ
before n = u32 (n + (2 ^ 32 - 1))

-- `len`, for what is `needed`.
unfoldable pub copied : ℕ → ℕ → ℕ
copied needed maxlen = if leb maxlen needed then before maxlen else needed

unfoldable pub strlcpy : ℕ → ℕ → ℕ → Ram → ℕ × Ram
unfolding copied
strlcpy dest src maxlen mem =
    let needed = u32 (strnlen mem src (before maxlen) + 1) in
    let len = copied needed maxlen in (before needed, poke (dest + len) 0 (memcpy dest src len mem))

unfoldable pub strlcat : ℕ → ℕ → ℕ → Ram → ℕ × Ram
strlcat dest src maxlen mem =
    let used = strnlen mem dest (before maxlen) in
    let (n, mem') = strlcpy (dest + used) src (u32 (maxlen + (2 ^ 32 - used))) mem in
    (u32 (used + n), mem')

-- The loop of `strchr`, with the fuel; `NULL` is 0.
unfoldable pub strchr_from : ℕ → Ram → ℕ → ℕ → ℕ → Option ℕ
strchr_from zero mem s c i = none
strchr_from (suc fuel) mem s c i = elim (mem (s + i) == 0) [
  | true ↦ some 0
  | false ↦ elim (mem (s + i) == u8 c) [
    | true ↦ some (s + i)
    | false ↦ strchr_from fuel mem s c (i + 1)
  ]
]

unfoldable pub strchr : ℕ → Ram → ℕ → ℕ → Option ℕ
unfolding strchr_from
strchr fuel mem s c = strchr_from fuel mem s c 0

-- The inner loop of `strspn` and `strcspn`, with the fuel: whether it met `c` before the end of the string at `p`.
unfoldable pub meets : ℕ → Ram → ℕ → ℕ → Option Bool
meets zero mem c p = none
meets (suc fuel) mem c p = elim (mem p == 0) [
  | true ↦ some false
  | false ↦ elim (c == mem p) [ true ↦ some true | false ↦ meets fuel mem c (p + 1) ]
]

-- The outer loop of `strspn`, with the fuel, and that of the inner loop.
unfoldable pub strspn_from : ℕ → ℕ → Ram → ℕ → ℕ → ℕ → Option ℕ
unfolding meets
strspn_from zero inner mem s1 s2 len = none
strspn_from (suc fuel) inner mem s1 s2 len = elim (mem (s1 + len) == 0) [
  | true ↦ some len
  | false ↦ elim (meets inner mem (mem (s1 + len)) s2) [
    | none ↦ none
    | some met ↦ elim met [ true ↦ strspn_from fuel inner mem s1 s2 (len + 1) | false ↦ some len ]
  ]
]

unfoldable pub strspn : ℕ → Ram → ℕ → ℕ → Option ℕ
unfolding strspn_from
strspn fuel mem s1 s2 = strspn_from fuel fuel mem s1 s2 0

-- The same of `strcspn`.
unfoldable pub strcspn_from : ℕ → ℕ → Ram → ℕ → ℕ → ℕ → Option ℕ
unfolding meets
strcspn_from zero inner mem s1 s2 len = none
strcspn_from (suc fuel) inner mem s1 s2 len = elim (mem (s1 + len) == 0) [
  | true ↦ some len
  | false ↦ elim (meets inner mem (mem (s1 + len)) s2) [
    | none ↦ none
    | some met ↦ elim met [ true ↦ some len | false ↦ strcspn_from fuel inner mem s1 s2 (len + 1) ]
  ]
]

unfoldable pub strcspn : ℕ → Ram → ℕ → ℕ → Option ℕ
unfolding strcspn_from
strcspn fuel mem s1 s2 = strcspn_from fuel fuel mem s1 s2 0
