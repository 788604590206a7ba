-- ===== src/Sdmmc/Csd.antt =====
-- The decoding of the card-specific data in `sdmmc_needs_discover` of armboot/storage/sdmmc.c.
-- `resp` is the response buffer as bytes.
use vwii_nand_tools.Base.{
  ℕ, Bool, ◌+◌, ◌*◌, ◌/◌, u32, ◌<<<◌, ◌>>>◌, ◌&&&◌, ◌|||◌, ◌==◌, if◌then◌else◌, List, [], ◌∷◌,
  get_or,
}

abbrev pub byte_of : List ℕ → ℕ → ℕ
byte_of resp i = get_or resp i 0

unfoldable pub is_high_capacity : List ℕ → Bool
is_high_capacity resp = byte_of resp 13 == 0xe

-- `c_size` of a high-capacity card, and of another.
unfoldable pub high_c_size : List ℕ → ℕ
high_c_size resp = (byte_of resp 7 <<< 16) ||| (byte_of resp 6 <<< 8) ||| byte_of resp 5

unfoldable pub c_size : List ℕ → ℕ
c_size resp = ((byte_of resp 8 &&& 3) <<< 10) ||| (byte_of resp 7 <<< 2) ||| (byte_of resp 6 >>> 6)

unfoldable pub c_size_mult : List ℕ → ℕ
c_size_mult resp = ((byte_of resp 5 &&& 3) <<< 1) ||| (byte_of resp 4 >>> 7)

unfoldable pub read_bl_len : List ℕ → ℕ
read_bl_len resp = byte_of resp 9 &&& 0xf

abbrev time_unit : List ℕ
time_unit = 1 ∷ 10 ∷ 100 ∷ 1000 ∷ 10000 ∷ 100000 ∷ 1000000 ∷ 10000000 ∷ []

abbrev time_value : List ℕ
time_value = 1 ∷ 10 ∷ 12 ∷ 13 ∷ 15 ∷ 20 ∷ 25 ∷ 30 ∷ 35 ∷ 40 ∷ 45 ∷ 50 ∷ 55 ∷ 60 ∷ 70 ∷ 80 ∷ []

-- The read timeout in ns.
unfoldable pub csd_timeout : List ℕ → ℕ
csd_timeout resp =
    let taac = byte_of resp 13 in
    get_or time_unit (taac &&& 7) 0 * get_or time_value ((taac >>> 3) &&& 0xf) 0 / 10

-- The sectors of a card by its size, multiplier and block length, in 32 bits.
unfoldable pub sectors : ℕ → ℕ → ℕ → ℕ
sectors size mult bl_len = u32 (u32 ((size + 1) * (4 <<< mult)) * (1 <<< bl_len)) / 512

unfoldable pub num_sectors : List ℕ → ℕ
num_sectors resp =
    if is_high_capacity resp
    then u32 ((high_c_size resp + 1) * 1024)
    else sectors (c_size resp) (c_size_mult resp) (read_bl_len resp)

unfoldable pub card_timeout : List ℕ → ℕ
card_timeout resp = if is_high_capacity resp then 250 * 1000000 else csd_timeout resp
