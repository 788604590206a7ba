-- ===== src/Sdmmc/Capacity.antt =====
-- The decoded size of a card against the register layout of the SD specification. The host controller
-- hands on the register without its lowest byte.
use native.Mathlib.Nat.{pow-le-pow_right}
use vwii_nand_tools.Base.{
  ℕ, zero, suc, true, false, ◌+◌, ◌*◌, ◌/◌, ◌%◌, ◌^◌, ◌≤◌, ◌<◌, ◌≡◌, ap, ◌∙◌, arith, List, [], ◌∷◌,
  u32, bit_or,
}
use vwii_nand_tools.Base.Bits.{bit_and_mask, bit_or_sum}
use vwii_nand_tools.Sdmmc.Csd.{
  high_c_size, c_size, c_size_mult, read_bl_len, num_sectors, is_high_capacity, sectors,
}

-- The response bytes of a 128-bit register.
abbrev pub response_of : ℕ → List ℕ
response_of r =
    r / 2 ^ 8 % 256
    ∷ r / 2 ^ 16 % 256
    ∷ r / 2 ^ 24 % 256
    ∷ r / 2 ^ 32 % 256
    ∷ r / 2 ^ 40 % 256
    ∷ r / 2 ^ 48 % 256
    ∷ r / 2 ^ 56 % 256
    ∷ r / 2 ^ 64 % 256
    ∷ r / 2 ^ 72 % 256
    ∷ r / 2 ^ 80 % 256
    ∷ r / 2 ^ 88 % 256
    ∷ r / 2 ^ 96 % 256
    ∷ r / 2 ^ 104 % 256
    ∷ r / 2 ^ 112 % 256
    ∷ r / 2 ^ 120 % 256
    ∷ 0
    ∷ []

-- A field of the register: so many bits from a bit on.
abbrev pub field : ℕ → ℕ → ℕ → ℕ
field r first bits = r / 2 ^ first % 2 ^ bits

small : {x : ℕ} → x < 2 ^ 32 → u32 x ≡ x
small {x} p = omega arith

-- The word that two bit fields make.
joined : (k h l : ℕ) → h * 2 ^ k < 2 ^ 32 → l < 2 ^ k → bit_or (u32 (h * 2 ^ k)) l ≡ h * 2 ^ k + l
joined k h l p q = rw (small p) (bit_or_sum k h l q)

c_size_bytes :
    (h m l : ℕ)
    → h < 4
    → m < 256
    → l < 4
    → bit_or (bit_or (u32 (h * 2 ^ 10)) (u32 (m * 2 ^ 2))) l ≡ h * 1024 + m * 4 + l
c_size_bytes h m l p q s =
    let low : u32 (m * 2 ^ 2) ≡ m * 4 = omega arith in
    let top : bit_or (u32 (h * 2 ^ 10)) (u32 (m * 2 ^ 2)) ≡ (h * 256 + m) * 4 =
      ap (bit_or (u32 (h * 2 ^ 10))) low
      ∙ joined 10 h (m * 4) (omega arith) (omega arith)
      ∙ omega arith in
    ap (λ x. bit_or x l) top ∙ bit_or_sum 2 (h * 256 + m) l s ∙ omega arith

c_size_lem : (r : ℕ) → c_size (response_of r) ≡ field r 62 12
unfolding c_size
c_size_lem r =
    ap
      (λ h.
        bit_or (bit_or (u32 (h * 2 ^ 10)) (u32 (r / 2 ^ 64 % 256 * 2 ^ 2)))
          (r / 2 ^ 56 % 256 / 2 ^ 6))
      (bit_and_mask 2 (r / 2 ^ 72 % 256))
    ∙ c_size_bytes _ _ _ (omega arith) (omega arith) (omega arith)
    ∙ omega arith

c_size_mult_lem : (r : ℕ) → c_size_mult (response_of r) ≡ field r 47 3
unfolding c_size_mult
c_size_mult_lem r =
    ap (λ h. bit_or (u32 (h * 2 ^ 1)) (r / 2 ^ 40 % 256 / 2 ^ 7))
      (bit_and_mask 2 (r / 2 ^ 48 % 256))
    ∙ joined 1 _ _ (omega arith) (omega arith)
    ∙ omega arith

read_bl_len_lem : (r : ℕ) → read_bl_len (response_of r) ≡ field r 80 4
unfolding read_bl_len
read_bl_len_lem r = bit_and_mask 4 (r / 2 ^ 80 % 256) ∙ omega arith

high_c_size_lem : (r : ℕ) → high_c_size (response_of r) ≡ field r 48 24
unfolding high_c_size
high_c_size_lem r =
    let a = r / 2 ^ 64 % 256 in
    let b = r / 2 ^ 56 % 256 in
    let c = r / 2 ^ 48 % 256 in
    let low : u32 (b * 2 ^ 8) ≡ b * 2 ^ 8 = omega arith in
    let top : bit_or (u32 (a * 2 ^ 16)) (u32 (b * 2 ^ 8)) ≡ (a * 256 + b) * 2 ^ 8 =
      ap (bit_or (u32 (a * 2 ^ 16))) low
      ∙ joined 16 a (b * 2 ^ 8) (omega arith) (omega arith)
      ∙ omega arith in
    ap (λ x. bit_or x c) top ∙ bit_or_sum 8 (a * 256 + b) c (omega arith) ∙ omega arith

-- The capacity in bytes that the register of a standard card states.
abbrev pub capacity : ℕ → ℕ
capacity r = (field r 62 12 + 1) * (4 * 2 ^ field r 47 3) * 2 ^ field r 80 4

pow_pos : (n : ℕ) → 0 < 2 ^ n
pow_pos zero = omega arith
pow_pos (suc n) = omega (arith, pow_pos n)

factor_le : (a b : ℕ) → 0 < b → a ≤ a * b
factor_le a zero h = omega arith
factor_le a (suc b) h = omega arith

pow_lt : (n : ℕ) → n < 16 → 2 ^ n < 2 ^ 16
pow_lt n h =
    let bound : 2 ^ n ≤ 2 ^ 15 = pow-le-pow_right {n = 2} (omega arith) {j = 15} (omega arith) in
    omega arith

sectors_lem :
    (size mult bl : ℕ)
    → mult < 16
    → bl < 16
    → (size + 1) * (4 * 2 ^ mult) * 2 ^ bl < 2 ^ 32
    → sectors size mult bl ≡ (size + 1) * (4 * 2 ^ mult) * 2 ^ bl / 512
unfolding sectors
sectors_lem size mult bl p q h =
    let a = (size + 1) * (4 * 2 ^ mult) in
    let first : u32 (4 * 2 ^ mult) ≡ 4 * 2 ^ mult = omega (arith, pow_lt mult p) in
    let second : u32 a ≡ a = small (omega (arith, factor_le a (2 ^ bl) (pow_pos bl))) in
    let third : u32 (1 * 2 ^ bl) ≡ 2 ^ bl = omega (arith, pow_lt bl q) in
    ap (λ x. u32 (u32 ((size + 1) * x) * u32 (1 * 2 ^ bl)) / 512) first
    ∙ ap (λ x. u32 (x * u32 (1 * 2 ^ bl)) / 512) second
    ∙ ap (λ x. u32 (a * x) / 512) third
    ∙ ap (λ x. x / 512) (small h)

-- For a card that is not recognised as one of high capacity, the number of sectors is the capacity
-- that the register's fields C_SIZE, C_SIZE_MULT and READ_BL_LEN state, over 512, as long as the
-- capacity in bytes is below 2 ^ 32.
pub num_sectors-standard :
    (r : ℕ)
    → is_high_capacity (response_of r) ≡ false
    → capacity r < 2 ^ 32
    → num_sectors (response_of r) ≡ capacity r / 512
unfolding num_sectors
num_sectors-standard r h p =
    rw (h, c_size_lem r, c_size_mult_lem r, read_bl_len_lem r)
      (sectors_lem _ _ _ (omega arith) (omega arith) p)

-- For a card that is recognised as one of high capacity, the number of sectors is 1024 times C_SIZE
-- plus 1, as long as it is below 2 ^ 32 and the two bits above the field are 0.
pub num_sectors-high :
    (r : ℕ)
    → is_high_capacity (response_of r) ≡ true
    → field r 70 2 ≡ 0
    → (field r 48 22 + 1) * 1024 < 2 ^ 32
    → num_sectors (response_of r) ≡ (field r 48 22 + 1) * 1024
unfolding num_sectors
num_sectors-high r h p q =
    let size : field r 48 24 ≡ field r 48 22 = omega arith in
    rw (h, high_c_size_lem r, size) (small q)
