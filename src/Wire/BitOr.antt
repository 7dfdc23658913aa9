-- ===== src/Wire/BitOr.antt =====
-- `|` of a shifted number and a byte, as a sum: the two have no binary digit in common.
use Prim.Native.Nat.{max, digits, bit_or, bit_or-bitwise}
use mathlib.Core.Path.{subst}
use v2ray_e.Base.{ℕ, zero, suc, ◌+◌, ◌*◌, ◌/◌, ◌≤◌, ◌<◌, ◌≡◌, ◌∙◌, refl, arith}

-- `q << k`
scaled : ℕ → ℕ → ℕ
scaled q zero = q
scaled q (suc k) = scaled q k * 2

-- The digits of x and s, joined, are those of the sum, whatever the fuel that x needs.
Joins : ℕ → ℕ → Type 0
Joins x s = (fuel : ℕ) → x ≤ fuel → digits (λ y. y) max fuel x s ≡ x + s

Joins-zero : (x : ℕ) → Joins x 0
unfolding Joins
Joins-zero zero zero h = refl
Joins-zero zero (suc fuel) h = refl
Joins-zero (suc x) zero h = absurd (omega arith)
Joins-zero (suc x) (suc fuel) h = omega (arith, Joins-zero (suc x / 2) fuel (omega arith))

Joins-double : (x r : ℕ) → Joins x (r / 2) → Joins (x * 2) r
unfolding Joins
Joins-double x r joined fuel h = by_fuel fuel (x * 2) refl h
  where
    by_fuel : (m a : ℕ) → a ≡ x * 2 → a ≤ m → digits (λ y. y) max m a r ≡ a + r
    by_fuel zero zero e k = omega arith
    by_fuel (suc m) zero e k = omega arith
    by_fuel zero (suc a) e k = absurd (omega arith)
    by_fuel (suc m) (suc a) e k =
        let half : suc a / 2 ≡ x = omega arith in
        let rest : digits (λ y. y) max m (suc a / 2) (r / 2) ≡ x + r / 2 =
          rw half (joined m (omega arith)) in
        omega (arith, rest)

Joins-scaled : (k q r : ℕ) → r < scaled 1 k → Joins (scaled q k) r
unfolding scaled
Joins-scaled zero q r h = let none_left : r ≡ 0 = omega arith in rw none_left (Joins-zero q)
Joins-scaled (suc k) q r h = Joins-double (scaled q k) r (Joins-scaled k q (r / 2) (omega arith))

-- `(q << 8) | r` for a byte r.
pub bit_or_byte : (q r : ℕ) → r < 256 → bit_or (q * 256) r ≡ q * 256 + r
unfolding Joins scaled
bit_or_byte q r h =
    let shifted : scaled q 8 ≡ q * 256 = omega arith in
    subst (λ x. bit_or x r ≡ x + r) shifted
      (bit_or-bitwise (scaled q 8) r ∙ Joins-scaled 8 q r (omega arith) (scaled q 8) (omega arith))
