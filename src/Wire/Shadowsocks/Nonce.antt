-- ===== src/Wire/Shadowsocks/Nonce.antt =====
-- The nonce is a little-endian counter: incrementing counts modulo 256 ^ n, so that no nonce comes
-- twice within 256 ^ n increments.
use native.Mathlib.Nat.{pow-suc, mod-eq_of_lt, mod_self}
use v2ray_e.Base.{
  ℕ, zero, suc, ◌+◌, ◌*◌, ◌%◌, ◌^◌, ◌<◌, ◌≡◌, ◌≢◌, ◌⊎◌, ◌∙◌, refl, sym, ap, List, [], ◌∷◌, arith,
  ◌==◌, Bool-cases, inl, inr, length,
}
use v2ray_e.Wire.Bytes.{byte, AreBytes}
use v2ray_e.Wire.Shadowsocks.{inc_nonce}

unfoldable pub nonce_value : List ℕ → ℕ
nonce_value [] = 0
nonce_value (b ∷ bs) = b + 256 * nonce_value bs

-- 256 ^ n
pub nonce_space : List ℕ → ℕ
nonce_space [] = 1
nonce_space (b ∷ bs) = 256 * nonce_space bs

nonce_space-pow : (bs : List ℕ) → nonce_space bs ≡ 256 ^ length bs
unfolding nonce_space
nonce_space-pow [] = refl
nonce_space-pow (b ∷ bs) = omega (arith, nonce_space-pow bs, pow-suc 256 (length bs))

inc_nonce_cases :
    (bs : List ℕ)
    → AreBytes bs
    → (nonce_value (inc_nonce bs) ≡ nonce_value bs + 1) × (nonce_value bs + 1 < nonce_space bs)
      ⊎ (nonce_value (inc_nonce bs) ≡ 0) × (nonce_value bs + 1 ≡ nonce_space bs)
unfolding inc_nonce nonce_value nonce_space
inc_nonce_cases [] h = omega arith
inc_nonce_cases (b ∷ bs) (h, hs) = ground (arith, inc_nonce_cases bs hs)

pub inc_nonce-AreBytes : (bs : List ℕ) → AreBytes bs → AreBytes (inc_nonce bs)
unfolding inc_nonce
inc_nonce-AreBytes [] h = tt
inc_nonce-AreBytes (b ∷ bs) (h, hs) = elim (Bool-cases (byte (b + 1) == 0)) [
  | inl wraps ↦ rw wraps (omega arith, inc_nonce-AreBytes bs hs)
  | inr stays ↦ rw stays (omega arith, hs)
]

pub length-inc_nonce : (bs : List ℕ) → length (inc_nonce bs) ≡ length bs
unfolding inc_nonce
length-inc_nonce [] = refl
length-inc_nonce (b ∷ bs) = ground (arith, length-inc_nonce bs)

-- Incrementing a nonce of n bytes adds one to its little-endian value, modulo 256 ^ n, and keeps its
-- length.
pub inc_nonce-counts :
    (bs : List ℕ)
    → AreBytes bs
    → (nonce_value (inc_nonce bs) ≡ (nonce_value bs + 1) % 256 ^ length bs)
      × (length (inc_nonce bs) ≡ length bs)
inc_nonce-counts bs h =
    (rw (← nonce_space-pow bs) (wraps (inc_nonce_cases bs h)), length-inc_nonce bs)
  where
    wraps :
        ((nonce_value (inc_nonce bs) ≡ nonce_value bs + 1) × (nonce_value bs + 1 < nonce_space bs)
          ⊎ (nonce_value (inc_nonce bs) ≡ 0) × (nonce_value bs + 1 ≡ nonce_space bs))
        → nonce_value (inc_nonce bs) ≡ (nonce_value bs + 1) % nonce_space bs
    wraps (inl (e, lt)) = rw (mod-eq_of_lt lt) e
    wraps (inr (e, full)) = rw (full, mod_self (nonce_space bs)) e

nonce_space-inc_nonce : (bs : List ℕ) → nonce_space (inc_nonce bs) ≡ nonce_space bs
nonce_space-inc_nonce bs =
    nonce_space-pow (inc_nonce bs)
    ∙ ap (λ (n : ℕ). 256 ^ n) (length-inc_nonce bs)
    ∙ sym (nonce_space-pow bs)

-- k increments in a row.
pub inc_nonces : ℕ → List ℕ → List ℕ
inc_nonces zero bs = bs
inc_nonces (suc k) bs = inc_nonces k (inc_nonce bs)

inc_nonces-value :
    (k : ℕ) (bs : List ℕ)
    → AreBytes bs
    → nonce_value bs + k < nonce_space bs
    → nonce_value (inc_nonces k bs) ≡ nonce_value bs + k
unfolding inc_nonces
inc_nonces-value zero bs h fits = omega arith
inc_nonces-value (suc k) bs h fits =
    let same = nonce_space-inc_nonce bs in
    let next : nonce_value (inc_nonce bs) ≡ nonce_value bs + 1 =
      omega (arith, inc_nonce_cases bs h) in
    omega (arith, inc_nonces-value k (inc_nonce bs) (inc_nonce-AreBytes bs h) (omega arith))

-- Two nonces that are reached from one nonce by different numbers of increments, before the counter
-- comes round, are different.
pub inc_nonces-ne :
    (i j : ℕ) (bs : List ℕ)
    → AreBytes bs
    → nonce_value bs + j < 256 ^ length bs
    → i < j
    → inc_nonces i bs ≢ inc_nonces j bs
inc_nonces-ne i j bs h fits lt same =
    let space = nonce_space-pow bs in
    absurd (
      omega (
        arith,
        ap nonce_value same,
        inc_nonces-value i bs h (omega arith),
        inc_nonces-value j bs h (omega arith),
      ))
