-- ===== src/Base/Int.antt =====
-- C's signed results. `negsuc n` is -(n + 1).
use Prim.Native.Nat.{ℕ, ◌-◌}

pub data ℤ : Type 0 where
  pos : ℕ → ℤ
  negsuc : ℕ → ℤ

-- `-n`, for a positive `n`.
abbrev pub minus : ℕ → ℤ
minus n = negsuc (n - 1)
