-- ===== src/Sdhc/Clock.antt =====
-- The divisor that `sdhc_clock_divisor` picks.
use native.Mathlib.Nat.{pow-suc}
use vwii_nand_tools.Base.{
  ℕ, zero, suc, false, none, some, Option, ◌+◌, ◌*◌, ◌/◌, ◌^◌, ◌≤◌, ◌<◌, ◌≡◌, ◌⊎◌, refl, ap, ◌∙◌,
  subst, arith, leb, leb→le, Bool-cases, inl, inr,
}
use vwii_nand_tools.Sdhc.Bus.{divisor_from, sdhc_clock_divisor}

-- Some power of two slows the clock enough, no smaller one does, and half of it is the result.
pub record Chosen (clkbase freq first last : ℕ) (result : Option ℕ) : Type 0 where
  pub index : ℕ
  pub lower : first ≤ index
  pub upper : index < last
  pub returns : result ≡ some (2 ^ index / 2)
  pub slow : clkbase / 2 ^ index ≤ freq
  pub least : (j : ℕ) → first ≤ j → j < index → freq < clkbase / 2 ^ j

-- No power of two from `2 ^ first` to below `2 ^ last` does.
pub record Refused (clkbase freq first last : ℕ) (result : Option ℕ) : Type 0 where
  pub returns : result ≡ none
  pub fast : (j : ℕ) → first ≤ j → j < last → freq < clkbase / 2 ^ j

module _ (clkbase freq : ℕ) where
  doubled : (k : ℕ) → 2 ^ k * 2 ≡ 2 ^ suc k
  doubled k = omega (arith, pow-suc 2 k)

  later_power :
      (k : ℕ)
      → freq < clkbase / 2 ^ k
      → (P : ℕ → Type 0) → ((j : ℕ) → suc k ≤ j → P j → freq < clkbase / 2 ^ j)
      → (j : ℕ) → k ≤ j
      → P j
      → freq < clkbase / 2 ^ j
  later_power k h P rest j p q = elim (Bool-cases (leb (suc k) j)) [
    | inl e ↦ rest j (leb→le _ _ e) q
    | inr e ↦ subst (λ (t : ℕ). freq < clkbase / 2 ^ t) (same e) h
  ]
    where
      same : leb (suc k) j ≡ false → k ≡ j
      same e = ground arith

  divisor_from_lem :
      (n k : ℕ)
      → Chosen clkbase freq k (k + n) (divisor_from clkbase freq n (2 ^ k))
        ⊎ Refused clkbase freq k (k + n) (divisor_from clkbase freq n (2 ^ k))
  unfolding divisor_from
  divisor_from_lem zero k = inr (record { returns = refl; fast = λ j p q. absurd (omega arith) })
  divisor_from_lem (suc n) k = elim (Bool-cases (leb (clkbase / 2 ^ k) freq)) [
    | inl e ↦ inl (record {
      index = k;
      lower = omega arith;
      upper = omega arith;
      returns = rw (e, divisor_from);
      slow = leb→le _ _ e;
      least = λ j p q. absurd (omega arith);
    })
    | inr e ↦ go e (divisor_from_lem n (suc k))
  ]
    where
      step :
          leb (clkbase / 2 ^ k) freq ≡ false
          → divisor_from clkbase freq (suc n) (2 ^ k) ≡ divisor_from clkbase freq n (2 ^ suc k)
      step e = rw (e, divisor_from) (ap (divisor_from clkbase freq n) (doubled k))

      fast : leb (clkbase / 2 ^ k) freq ≡ false → freq < clkbase / 2 ^ k
      fast e = ground arith

      go :
          leb (clkbase / 2 ^ k) freq ≡ false
          → Chosen clkbase freq (suc k) (suc k + n) (divisor_from clkbase freq n (2 ^ suc k))
            ⊎ Refused clkbase freq (suc k) (suc k + n) (divisor_from clkbase freq n (2 ^ suc k))
          → Chosen clkbase freq k (k + suc n) (divisor_from clkbase freq (suc n) (2 ^ k))
            ⊎ Refused clkbase freq k (k + suc n) (divisor_from clkbase freq (suc n) (2 ^ k))
      go e (inl c) = inl (record {
        index = c.index;
        lower = omega (arith, c.lower);
        upper = omega (arith, c.upper);
        returns = step e ∙ c.returns;
        slow = c.slow;
        least = later_power k (fast e) (λ j. j < c.index) c.least;
      })
      go e (inr r) = inr (record {
        returns = step e ∙ r.returns;
        fast = later_power k (fast e) (λ j. j < k + suc n) (λ j p q. r.fast j p (omega arith));
      })

  -- For every base clock and frequency in KHz, `sdhc_clock_divisor` either returns half of the least
  -- power of two up to 256 by which the base clock is not above the frequency, or -1, and then each
  -- of those powers leaves it above.
  pub sdhc_clock_divisor_lem :
      Chosen clkbase freq 0 9 (sdhc_clock_divisor clkbase freq)
      ⊎ Refused clkbase freq 0 9 (sdhc_clock_divisor clkbase freq)
  unfolding sdhc_clock_divisor
  sdhc_clock_divisor_lem = divisor_from_lem 9 0
