-- ===== src/Base/Tables.antt =====
-- Facts about all numbers below a bound, checked by evaluation.
use Prim.Native.Nat.{ℕ, zero, suc, ◌<◌}
use mathlib.Core.Path.{◌≡◌}
use mathlib.Core.Bool.{Bool, true, ◌&&◌}
use native.Mathlib.Omega.{arith}

-- Whether every number below a bound passes a test.
unfoldable pub passes_below : (ℕ → Bool) → ℕ → Bool
passes_below test zero = true
passes_below test (suc bound) = passes_below test bound && test bound

pub passes_below_sound :
    (test : ℕ → Bool) {bound x : ℕ} → passes_below test bound ≡ true → x < bound → test x ≡ true
unfolding passes_below
passes_below_sound test {bound = zero} all p = absurd (omega arith)
passes_below_sound test {bound = suc bound} {x = x} all p =
    ground (arith, passes_below_sound test {bound = bound} {x = x})
