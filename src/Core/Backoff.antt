-- ===== src/Core/Backoff.antt =====
-- The delays of the watchdog.
use mathlib.Core.Path.{subst}
use native.Mathlib.Nat.{pow-suc}
use v2ray_e.Base.{
  ℕ, zero, suc, ◌-◌, ◌*◌, ◌^◌, ◌≤◌, ◌≡◌, arith, leb, Bool-cases, inl, inr, if◌then◌else◌,
}
use v2ray_e.Core.Config.{Config}
use v2ray_e.Core.Watchdog.{base_ms, doubled, backoff_delay}

abbrev pub min : ℕ → ℕ → ℕ
min a b = if leb a b then a else b

grows : (a k : ℕ) → a ≤ a * 2 ^ k
grows a zero = omega arith
grows a (suc k) = rw (pow-suc 2 k) (omega (arith, grows a k))

one_more : (a k : ℕ) → a * 2 ^ suc k ≡ a * 2 * 2 ^ k
one_more a k = rw (pow-suc 2 k) (omega arith)

doubled-min :
    (rounds delay : ℕ) → delay ≤ 30000 → doubled rounds delay ≡ min (delay * 2 ^ rounds) 30000
unfolding doubled
doubled-min zero delay h = ground (arith, h)
doubled-min (suc rounds) delay h = elim (Bool-cases (leb 30000 (delay * 2))) [
  | inl full ↦ ground (arith, full, grows (delay * 2) rounds, one_more delay rounds)
  | inr room ↦
      ground
        (arith, room, one_more delay rounds, doubled-min rounds (delay * 2) (ground (arith, room)))
]

base_ms-within : (cfg : Config) → (100 ≤ base_ms cfg) × (base_ms cfg ≤ 30000)
unfolding base_ms
base_ms-within cfg = ground arith

-- The delay before an attempt: the first delay, doubled for each attempt before it, and 30 seconds at
-- most. It is never less than 100 milliseconds.
pub backoff_delay-min :
    (cfg : Config) (attempt : ℕ)
    → (backoff_delay (base_ms cfg) (suc attempt) ≡ min (base_ms cfg * 2 ^ attempt) 30000)
      × (100 ≤ backoff_delay (base_ms cfg) (suc attempt))
unfolding backoff_delay
backoff_delay-min cfg attempt =
    let (low, high) = base_ms-within cfg in
    let delay : doubled (suc attempt - 1) (base_ms cfg) ≡ min (base_ms cfg * 2 ^ attempt) 30000 =
      subst (λ n. doubled n (base_ms cfg) ≡ min (base_ms cfg * 2 ^ attempt) 30000) (omega arith)
        (doubled-min attempt (base_ms cfg) high) in
    (delay, ground (arith, delay, low, grows (base_ms cfg) attempt))
