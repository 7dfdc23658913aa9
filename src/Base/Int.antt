-- ===== src/Base/Int.antt =====
-- Go's `int`, as an integer. `negsuc n` is -(n + 1).
use Prim.Native.Nat.{ℕ}
use mathlib.Core.Bool.{Bool, true, false}
use v2ray_e.Base.Tests.{leb}

pub data ℤ : Type 0 where
  pos : ℕ → ℤ
  negsuc : ℕ → ℤ

-- a ≤ b for a number a, and a ≤ b for a number b.
abbrev pub le_ℕ : ℤ → ℕ → Bool
le_ℕ (pos n) b = leb n b
le_ℕ (negsuc n) b = true

abbrev pub ge_ℕ : ℕ → ℤ → Bool
ge_ℕ a (pos n) = leb a n
ge_ℕ a (negsuc n) = false

abbrev pub to_ℕ : ℤ → ℕ
to_ℕ (pos n) = n
to_ℕ (negsuc n) = 0
