-- ===== src/Nand/Ecc/Flip.antt =====
-- Flipping a bit of a page twice gives the page back.
use vwii_nand_tools.Base.{
  ℕ, zero, suc, ◌+◌, ◌/◌, ◌<◌, ◌^◌, ◌≡◌, refl, ap, ◌∙◌, arith, List, [], ◌∷◌, get_or, set, length,
  bit_xor, u8, ◌<<<◌, ◌&&&◌, length-set,
}
use vwii_nand_tools.Base.Bits.{bit_xor-bit_xor, bit_xor-lt, bit_and_mask}
use vwii_nand_tools.Nand.Ecc.{flip_bit}

module _ {ℓ} {A : Type ℓ} where
  get_or-set_self : (xs : List A) (i : ℕ) (v d : A) → i < length xs → get_or (set xs i v) i d ≡ v
  get_or-set_self [] i v d h = absurd (omega arith)
  get_or-set_self (x ∷ xs) zero v d h = refl
  get_or-set_self (x ∷ xs) (suc i) v d h = get_or-set_self xs i v d (omega arith)

  set-set : (xs : List A) (i : ℕ) (v w : A) → set (set xs i v) i w ≡ set xs i w
  set-set [] i v w = refl
  set-set (x ∷ xs) zero v w = refl
  set-set (x ∷ xs) (suc i) v w = ap (λ l. x ∷ l) (set-set xs i v w)

  set-get_or : (xs : List A) (i : ℕ) (d : A) → set xs i (get_or xs i d) ≡ xs
  set-get_or [] i d = refl
  set-get_or (x ∷ xs) zero d = refl
  set-get_or (x ∷ xs) (suc i) d = ap (λ l. x ∷ l) (set-get_or xs i d)

-- Every byte of the page is below 256.
abbrev pub IsBytes : List ℕ → Type 0
IsBytes page = (i : ℕ) → get_or page i 0 < 256

IsBytes-set : (page : List ℕ) (i v : ℕ) → v < 256 → IsBytes page → IsBytes (set page i v)
IsBytes-set [] i v h b j = b j
IsBytes-set (x ∷ xs) zero v h b zero = h
IsBytes-set (x ∷ xs) zero v h b (suc j) = b (suc j)
IsBytes-set (x ∷ xs) (suc i) v h b zero = b 0
IsBytes-set (x ∷ xs) (suc i) v h b (suc j) = IsBytes-set xs i v h (λ k. b (suc k)) j

pow_three_bits : (k : ℕ) → k < 8 → 2 ^ k < 256
pow_three_bits zero h = omega arith
pow_three_bits (suc zero) h = omega arith
pow_three_bits (suc (suc zero)) h = omega arith
pow_three_bits (suc (suc (suc zero))) h = omega arith
pow_three_bits (suc (suc (suc (suc zero)))) h = omega arith
pow_three_bits (suc (suc (suc (suc (suc zero))))) h = omega arith
pow_three_bits (suc (suc (suc (suc (suc (suc zero)))))) h = omega arith
pow_three_bits (suc (suc (suc (suc (suc (suc (suc zero))))))) h = omega arith
pow_three_bits (suc (suc (suc (suc (suc (suc (suc (suc k)))))))) h = absurd (omega arith)

-- The mask of a bit in its byte.
abbrev mask_of : ℕ → ℕ
mask_of odd = 1 <<< (odd &&& 7)

mask_of-lt : (odd : ℕ) → mask_of odd < 256
mask_of-lt odd = omega (arith, pow_three_bits (odd &&& 7) (omega (arith, bit_and_mask 3 odd)))

flipped_byte : (v odd : ℕ) → v < 256 → u8 (bit_xor v (mask_of odd)) ≡ bit_xor v (mask_of odd)
flipped_byte v odd h =
    omega (arith, bit_xor-lt 8 v (mask_of odd) (omega arith) (omega (arith, mask_of-lt odd)))

pub flip_bit_twice :
    (offset odd : ℕ) (page : List ℕ)
    → offset + odd / 8 < length page
    → IsBytes page
    → flip_bit offset odd (flip_bit offset odd page) ≡ page
unfolding flip_bit
flip_bit_twice offset odd page h b =
    let i = offset + odd / 8 in
    let v = get_or page i 0 in
    let x = u8 (bit_xor v (mask_of odd)) in
    rw
      (
        get_or-set_self page i x 0 h,
        set-set page i x,
        flipped_byte v odd (b i),
        bit_xor-bit_xor v (mask_of odd),
      )
      (ap (λ t. set page i t) (omega (arith, b i)) ∙ set-get_or page i 0)

pub length-flip_bit :
    (offset odd : ℕ) (page : List ℕ) → length (flip_bit offset odd page) ≡ length page
unfolding flip_bit
length-flip_bit offset odd page = length-set page _ _

pub flip_bit-IsBytes :
    (offset odd : ℕ) (page : List ℕ) → IsBytes page → IsBytes (flip_bit offset odd page)
unfolding flip_bit
flip_bit-IsBytes offset odd page b = IsBytes-set page _ _ (omega arith) b
