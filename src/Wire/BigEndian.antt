-- ===== src/Wire/BigEndian.antt =====
-- Two bytes as a big-endian number: `uint16(hi)<<8 | uint16(lo)`.
use Prim.Native.Nat.{bit_or}
use v2ray_e.Base.{ℕ, ◌*◌, ◌/◌, ◌%◌, ◌^◌, ◌<◌, ◌≡◌, List, [], ◌∷◌, arith}
use v2ray_e.Wire.Bytes.{byte}
use v2ray_e.Wire.BitOr.{bit_or_byte}

-- Exactly two bytes are read; other lists do not occur.
unfoldable pub be_uint16 : List ℕ → ℕ
be_uint16 (hi ∷ lo ∷ []) = bit_or ((hi * 256) % 2 ^ 16) lo
be_uint16 _ = 0

-- `[]byte{byte(n >> 8), byte(n)}`
abbrev pub two_bytes : ℕ → List ℕ
two_bytes n = byte (n / 2 ^ 8) ∷ byte n ∷ []

pub be_uint16-bytes : (n : ℕ) → n < 65536 → be_uint16 (byte (n / 2 ^ 8) ∷ byte n ∷ []) ≡ n
unfolding be_uint16
be_uint16-bytes n h =
    let high : ((n / 2 ^ 8) % 256 * 256) % 2 ^ 16 ≡ (n / 256) * 256 = omega arith in
    rw high (omega (arith, bit_or_byte (n / 256) (byte n) (omega arith)))
