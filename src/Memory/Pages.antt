-- ===== src/Memory/Pages.antt =====
-- The page table that `mem_initialize` builds.
use vwii_nand_tools.Base.Tables.{passes_below, passes_below_sound}
use vwii_nand_tools.Base.{
  ℕ, zero, suc, Bool, true, ◌+◌, ◌-◌, ◌*◌, ◌^◌, ◌<◌, ◌≡◌, refl, ap, arith, ◌<<<◌, ◌|||◌, ◌==◌, ◌&&◌,
  ◌||◌, ltb, leb, if◌then◌else◌, ==_iff,
}
use vwii_nand_tools.Memory.Mmu.{Table, map_from, map_section, sections, section, write}

-- Whether `i` is one of `size` entries from `from` on.
abbrev pub inside : ℕ → ℕ → ℕ → Bool
inside from size i = leb from i && ltb i (from + size)

map_from_lem :
    (from to size attributes : ℕ) (table : Table) (i : ℕ)
    → map_from from to size attributes table i
      ≡ (if inside from size i then ((to + (i - from)) <<< 20) ||| attributes else table i)
unfolding map_from
map_from_lem from to zero attributes table i = ground arith
map_from_lem from to (suc size) attributes table i = ground (
  arith,
  map_from_lem (from + 1) (to + 1) size attributes (write table from ((to <<< 20) ||| attributes))
      i,
  ap (λ (t : ℕ). (t <<< 20) ||| attributes),
)

-- `map_section` fills exactly the entries from `from` to `from + size`, each with the section that
-- lies as far from `to`, and leaves the others.
map_section_lem :
    (from to size attributes : ℕ) (table : Table) (i : ℕ)
    → map_section from to size attributes table i ≡ (
        if inside from size i
        then ((to + (i - from)) <<< 20) ||| (attributes ||| section)
        else table i)
unfolding map_section
map_section_lem from to size attributes table i =
    map_from_lem from to size (attributes ||| section) table i

-- The megabytes that are mapped with a write-back cache, and those that are mapped without one.
unfoldable pub is_cached : ℕ → Bool
is_cached i = ltb i 0x18 || inside 0x100 0x40 i || i == 0xfff

unfoldable pub is_device : ℕ → Bool
is_device i = i == 0x0c0 || i == 0x0d0 || i == 0x0d8

-- What the entry of a megabyte is to be.
unfoldable pub expected : ℕ → ℕ
unfolding is_cached is_device
expected i =
    if is_cached i then i * 2 ^ 20 + 0xc1e else if is_device i then i * 2 ^ 20 + 0xc12 else 0

table : passes_below (λ i. sections i == expected i) 4096 ≡ true
unfolding passes_below sections expected
table = refl

-- Every one of the 4096 entries of the table that `mem_initialize` builds maps its megabyte to
-- itself, with a cache or without as the two predicates say, or is 0, which makes an access fault.
pub sections_lem : (i : ℕ) → i < 4096 → sections i ≡ expected i
sections_lem i h = (==_iff _ _).0 (passes_below_sound (λ j. sections j == expected j) table h)
