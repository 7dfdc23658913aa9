-- ===== src/Base/Loop.antt =====
-- Checks over a small range of numbers by evaluation.
use Prim.Native.Nat.{ℕ, zero, suc, ◌<◌}
use mathlib.Core.Path.{◌≡◌}
use mathlib.Core.Bool.{Bool, true, false}
use native.Mathlib.Omega.{arith}
use v2ray_e.Base.Tests.{if◌then◌else◌}

-- The test passes at every number under the bound.
unfoldable pub passes_under : (ℕ → Bool) → ℕ → Bool
passes_under test zero = true
passes_under test (suc bound) =
    let others = passes_under test bound in if test bound then others else false

pub passes_under-apply :
    (test : ℕ → Bool) (bound : ℕ)
    → passes_under test bound ≡ true
    → (k : ℕ) → k < bound
    → test k ≡ true
unfolding passes_under
passes_under-apply test zero passed k under = absurd (omega arith)
passes_under-apply test (suc bound) passed k under =
    let below : passes_under test bound ≡ true → k < bound → test k ≡ true =
      λ h. passes_under-apply test bound h k in
    ground (arith, passed, below)
