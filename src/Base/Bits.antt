-- ===== src/Base/Bits.antt =====
-- Binary digits of native numbers, and the bit operations digit by digit.
mod Step
use Step.{bit_and_step, bit_or_step, bit_xor_step}
use Prim.Native.Nat.{ℕ, zero, suc, ◌+◌, ◌-◌, ◌*◌, ◌/◌, ◌%◌, ◌^◌, ◌≤◌, ◌<◌, min, max}
use Prim.Native.Nat.{bit_and, bit_or, bit_xor, bit_and-bitwise}
use mathlib.Core.Path.{◌≡◌, refl, sym, ap, ◌∙◌}
use native.Mathlib.Nat.{pow-suc, one-le-pow, mod-eq_of_lt, div-div-eq-div-mul, mul_comm}
use native.Mathlib.Omega.{arith}

-- Digit `k` of `x`.
unfoldable pub bit : ℕ → ℕ → ℕ
bit zero x = x % 2
bit (suc k) x = bit k (x / 2)

pub bit-lt : (k x : ℕ) → bit k x < 2
unfolding bit
bit-lt zero x = omega arith
bit-lt (suc k) x = bit-lt k (x / 2)

pub bit_zero : (k : ℕ) → bit k 0 ≡ 0
unfolding bit
bit_zero zero = refl
bit_zero (suc k) = bit_zero k

pub bit-bit_and : (k a b : ℕ) → bit k (bit_and a b) ≡ min (bit k a) (bit k b)
unfolding bit
bit-bit_and zero a b = omega (arith, bit_and_step a b)
bit-bit_and (suc k) a b =
    ap (bit k) (omega (arith, bit_and_step a b)) ∙ bit-bit_and k (a / 2) (b / 2)

pub bit-bit_or : (k a b : ℕ) → bit k (bit_or a b) ≡ max (bit k a) (bit k b)
unfolding bit
bit-bit_or zero a b = omega (arith, bit_or_step a b)
bit-bit_or (suc k) a b = ap (bit k) (omega (arith, bit_or_step a b)) ∙ bit-bit_or k (a / 2) (b / 2)

pub bit-bit_xor : (k a b : ℕ) → bit k (bit_xor a b) ≡ (bit k a + bit k b) % 2
unfolding bit
bit-bit_xor zero a b = omega (arith, bit_xor_step a b)
bit-bit_xor (suc k) a b =
    ap (bit k) (omega (arith, bit_xor_step a b)) ∙ bit-bit_xor k (a / 2) (b / 2)

-- Two numbers below `2 ^ n` with the same first `n` digits are equal.
pub bits_ext : (n a b : ℕ) → a < 2 ^ n → b < 2 ^ n → ((k : ℕ) → k < n → bit k a ≡ bit k b) → a ≡ b
unfolding bit
bits_ext zero a b p q h = omega arith
bits_ext (suc n) a b p q h = omega (
  arith,
  pow-suc 2 n,
  h 0 (omega arith),
  bits_ext n (a / 2) (b / 2) (omega (arith, pow-suc 2 n)) (omega (arith, pow-suc 2 n))
      (λ k l. h (suc k) (omega arith)),
)

zero-bit_and : (b : ℕ) → bit_and 0 b ≡ 0
zero-bit_and = bit_and-bitwise 0

pub bit_and-le : (n a b : ℕ) → a ≤ n → bit_and a b ≤ a
bit_and-le zero zero b h = omega (arith, bit_and_step 0 b, zero-bit_and b)
bit_and-le zero (suc a) b h = absurd (omega arith)
bit_and-le (suc n) zero b h = omega (arith, zero-bit_and b)
bit_and-le (suc n) (suc a) b h =
    omega (arith, bit_and_step (suc a) b, bit_and-le n (suc a / 2) (b / 2) (omega arith))

pub bit_or-lt : (n a b : ℕ) → a < 2 ^ n → b < 2 ^ n → bit_or a b < 2 ^ n
bit_or-lt zero zero zero p q = omega (arith, bit_or_step 0 0)
bit_or-lt zero (suc a) b p q = absurd (omega arith)
bit_or-lt zero zero (suc b) p q = absurd (omega arith)
bit_or-lt (suc n) a b p q = omega (
  arith,
  pow-suc 2 n,
  bit_or_step a b,
  bit_or-lt n (a / 2) (b / 2) (omega (arith, pow-suc 2 n)) (omega (arith, pow-suc 2 n)),
)

pub bit_xor-lt : (n a b : ℕ) → a < 2 ^ n → b < 2 ^ n → bit_xor a b < 2 ^ n
bit_xor-lt zero zero zero p q = omega (arith, bit_xor_step 0 0)
bit_xor-lt zero (suc a) b p q = absurd (omega arith)
bit_xor-lt zero zero (suc b) p q = absurd (omega arith)
bit_xor-lt (suc n) a b p q = omega (
  arith,
  pow-suc 2 n,
  bit_xor_step a b,
  bit_xor-lt n (a / 2) (b / 2) (omega (arith, pow-suc 2 n)) (omega (arith, pow-suc 2 n)),
)

bit_and-zero : (n a : ℕ) → a ≤ n → bit_and a 0 ≡ 0
bit_and-zero zero zero h = refl
bit_and-zero zero (suc a) h = absurd (omega arith)
bit_and-zero (suc n) zero h = refl
bit_and-zero (suc n) (suc a) h =
    omega (arith, bit_and_step (suc a) 0, bit_and-zero n (suc a / 2) (omega arith))

-- Masking with one bit keeps that digit in its place.
pub bit_and_pow : (k x : ℕ) → bit_and x (2 ^ k) ≡ bit k x * 2 ^ k
unfolding bit
bit_and_pow zero x = omega (arith, bit_and_step x 1, bit_and-zero (x / 2) (x / 2) (omega arith))
bit_and_pow (suc k) x = omega (
  arith,
  pow-suc 2 k,
  bit_and_step x (2 ^ suc k),
  ap (λ (t : ℕ). bit_and (x / 2) t) (double k),
  bit_and_pow k (x / 2),
  ap (λ (t : ℕ). bit k (x / 2) * t) (pow-suc 2 k),
)
  where
    double : (m : ℕ) → 2 ^ suc m / 2 ≡ 2 ^ m
    double m = omega (arith, pow-suc 2 m)

-- What `2 ^ k - 1` keeps of a number split at digit `k`.
bit_and_split : (k h l : ℕ) → l < 2 ^ k → bit_and (h * 2 ^ k + l) (2 ^ k - 1) ≡ l
bit_and_split zero h l p = omega (arith, bit_and-zero (h * 1 + l) (h * 1 + l) (omega arith))
bit_and_split (suc k) h l p = ground (
  arith,
  pow-suc 2 k,
  one-le-pow k 2,
  ap (λ (t : ℕ). h * t) (pow-suc 2 k),
  bit_and_step (h * 2 ^ suc k + l) (2 ^ suc k - 1),
  bit_and_split k h (l / 2) (omega (arith, pow-suc 2 k)),
)

-- `2 ^ k - 1` keeps the first `k` digits.
pub bit_and_mask : (k x : ℕ) → bit_and x (2 ^ k - 1) ≡ x % 2 ^ k
bit_and_mask k x = ground (arith, one-le-pow k 2, bit_and_split k (x / 2 ^ k) (x % 2 ^ k))

xor_twice : (n a b : ℕ) → a + b ≤ n → bit_xor (bit_xor a b) b ≡ a
xor_twice n zero zero h = refl
xor_twice zero (suc a) b h = absurd (omega arith)
xor_twice zero zero (suc b) h = absurd (omega arith)
xor_twice (suc n) (suc a) b h = omega (
  arith,
  bit_xor_step (suc a) b,
  bit_xor_step (bit_xor (suc a) b) b,
  ap (λ (t : ℕ). bit_xor t (b / 2)) (half (suc a) b),
  xor_twice n (suc a / 2) (b / 2) (omega arith),
)
  where
    half : (x y : ℕ) → bit_xor x y / 2 ≡ bit_xor (x / 2) (y / 2)
    half x y = omega (arith, bit_xor_step x y)
xor_twice (suc n) zero (suc b) h = omega (
  arith,
  bit_xor_step 0 (suc b),
  bit_xor_step (bit_xor 0 (suc b)) (suc b),
  ap (λ (t : ℕ). bit_xor t (suc b / 2)) (half (suc b)),
  xor_twice n 0 (suc b / 2) (omega arith),
)
  where
    half : (y : ℕ) → bit_xor 0 y / 2 ≡ bit_xor 0 (y / 2)
    half y = omega (arith, bit_xor_step 0 y)

pub bit_xor-bit_xor : (a b : ℕ) → bit_xor (bit_xor a b) b ≡ a
bit_xor-bit_xor a b = xor_twice (a + b) a b (omega arith)

zero-bit_xor_fuel : (n b : ℕ) → b ≤ n → bit_xor 0 b ≡ b
zero-bit_xor_fuel n zero h = refl
zero-bit_xor_fuel zero (suc b) h = absurd (omega arith)
zero-bit_xor_fuel (suc n) (suc b) h =
    omega (arith, bit_xor_step 0 (suc b), zero-bit_xor_fuel n (suc b / 2) (omega arith))

pub zero-bit_xor : (b : ℕ) → bit_xor 0 b ≡ b
zero-bit_xor b = zero-bit_xor_fuel b b (omega arith)

-- Two numbers are equal exactly when their exclusive or is 0.
pub bit_xor_self : (a : ℕ) → bit_xor a a ≡ 0
bit_xor_self a = ap (λ (t : ℕ). bit_xor t a) (sym (zero-bit_xor a)) ∙ bit_xor-bit_xor 0 a

pub eq_of_bit_xor : (a b : ℕ) → bit_xor a b ≡ 0 → a ≡ b
eq_of_bit_xor a b h = sym (bit_xor-bit_xor a b) ∙ ap (λ (t : ℕ). bit_xor t b) h ∙ zero-bit_xor b

bit_or-zero_fuel : (n a : ℕ) → a ≤ n → bit_or a 0 ≡ a
bit_or-zero_fuel n zero h = refl
bit_or-zero_fuel zero (suc a) h = absurd (omega arith)
bit_or-zero_fuel (suc n) (suc a) h =
    omega (arith, bit_or_step (suc a) 0, bit_or-zero_fuel n (suc a / 2) (omega arith))

pub bit_or-zero : (a : ℕ) → bit_or a 0 ≡ a
bit_or-zero a = bit_or-zero_fuel a a (omega arith)

-- An or of a high field and a low field is their sum.
pub bit_or_sum : (k h l : ℕ) → l < 2 ^ k → bit_or (h * 2 ^ k) l ≡ h * 2 ^ k + l
bit_or_sum zero h l p = ground (arith, bit_or-zero h)
bit_or_sum (suc k) h l p = ground (
  arith,
  pow-suc 2 k,
  ap (λ (t : ℕ). h * t) (pow-suc 2 k),
  bit_or_step (h * 2 ^ suc k) l,
  bit_or_sum k h (l / 2) (omega (arith, pow-suc 2 k)),
)

-- Clearing the first `k` digits of a number of `n` digits rounds it down to a multiple of `2 ^ k`.
pub bit_and_high : (n k x : ℕ) → k ≤ n → x < 2 ^ n → bit_and x (2 ^ n - 2 ^ k) ≡ x / 2 ^ k * 2 ^ k
bit_and_high n zero x h p = omega (arith, bit_and_mask n x, mod-eq_of_lt p)
bit_and_high zero (suc k) x h p = absurd (omega arith)
bit_and_high (suc n) (suc k) x h p = omega (
  arith,
  pow-suc 2 k,
  bit_and_step x (2 ^ suc n - 2 ^ suc k),
  even_mask,
  ap (λ (t : ℕ). bit_and (x / 2) t) half_mask,
  bit_and_high n k (x / 2) (omega arith) (omega (arith, pow-suc 2 n)),
  quotient,
  ap (λ (t : ℕ). x / 2 ^ suc k * t) (pow-suc 2 k),
  ap (λ (t : ℕ). t * 2 ^ k) quotient,
)
  where
    even_mask : (2 ^ suc n - 2 ^ suc k) % 2 ≡ 0
    even_mask = omega (arith, pow-suc 2 n, pow-suc 2 k)

    half_mask : (2 ^ suc n - 2 ^ suc k) / 2 ≡ 2 ^ n - 2 ^ k
    half_mask = omega (arith, pow-suc 2 n, pow-suc 2 k)

    quotient : x / 2 / 2 ^ k ≡ x / 2 ^ suc k
    quotient = div-div-eq-div-mul x 2 (2 ^ k) ∙ ap (λ (t : ℕ). x / t) (omega (arith, pow-suc 2 k))

or_comm_fuel : (n a b : ℕ) → a + b ≤ n → bit_or a b ≡ bit_or b a
or_comm_fuel n zero zero h = refl
or_comm_fuel zero (suc a) b h = absurd (omega arith)
or_comm_fuel zero zero (suc b) h = absurd (omega arith)
or_comm_fuel (suc n) (suc a) b h = omega (
  arith,
  bit_or_step (suc a) b,
  bit_or_step b (suc a),
  or_comm_fuel n (suc a / 2) (b / 2) (omega arith),
)
or_comm_fuel (suc n) zero (suc b) h = omega (
  arith,
  bit_or_step 0 (suc b),
  bit_or_step (suc b) 0,
  or_comm_fuel n 0 (suc b / 2) (omega arith),
)

pub bit_or_comm : (a b : ℕ) → bit_or a b ≡ bit_or b a
bit_or_comm a b = or_comm_fuel (a + b) a b (omega arith)

mod_halved : (m x : ℕ) → x % 2 ^ suc m ≡ 2 * (x / 2 % 2 ^ m) + x % 2
mod_halved m x = omega (
  arith,
  pow-suc 2 m,
  one-le-pow m 2 (omega arith),
  bit_and_mask (suc m) x,
  bit_and_mask m (x / 2),
  bit_and_step x (2 ^ suc m - 1),
  ap (λ (t : ℕ). bit_and (x / 2) t) (halved m),
)
  where
    halved : (m : ℕ) → (2 ^ suc m - 1) / 2 ≡ 2 ^ m - 1
    halved m = omega (arith, pow-suc 2 m, one-le-pow m 2 (omega arith))

-- One digit more.
pub mod-pow_suc : (n x : ℕ) → x % 2 ^ suc n ≡ bit n x * 2 ^ n + x % 2 ^ n
unfolding bit
mod-pow_suc zero x = omega arith
mod-pow_suc (suc n) x = omega (
  arith,
  mod_halved (suc n) x,
  mod_halved n x,
  mod-pow_suc n (x / 2),
  pow-suc 2 n,
  ap (λ (t : ℕ). bit n (x / 2) * t) (pow-suc 2 n),
)
