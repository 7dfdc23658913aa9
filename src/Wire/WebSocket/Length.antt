-- ===== src/Wire/WebSocket/Length.antt =====
-- The length field of a frame: what the writer puts, the reader gets.
use Prim.Native.Nat.{bit_and, bit_or}
use v2ray_e.Base.{
  ℕ, ◌+◌, ◌*◌, ◌/◌, ◌%◌, ◌^◌, ◌<◌, ◌≡◌, refl, Bool, true, ◌&&◌, List, [], ◌∷◌, ◌++◌, some, arith,
  ltb, leb, ◌==◌, ==_iff, ltb→lt, leb→le, Bool-cases, inl, inr,
}
use v2ray_e.Base.Loop.{passes_under, passes_under-apply}
use v2ray_e.Wire.Bytes.{byte, read_full-append}
use v2ray_e.Wire.BitOr.{bit_or_byte}
use v2ray_e.Wire.BigEndian.{be_uint16-bytes}
use v2ray_e.Wire.WebSocket.{be_bytes, length_field, shift_in, shift_in_all, read_length}

-- A byte with its top bit set: the mark reads as set, and the low seven bits come back.
is_marked : ℕ → Bool
is_marked x = bit_and (bit_or 0x80 x) 0x7f == x && bit_and (bit_or 0x80 x) 0x80 == 128

all_marked : passes_under is_marked 128 ≡ true
unfolding passes_under is_marked
all_marked = refl

pub marked :
    (x : ℕ) → x < 128 → (bit_and (bit_or 0x80 x) 0x7f ≡ x) × (bit_and (bit_or 0x80 x) 0x80 ≡ 128)
unfolding is_marked
marked x h = ground (arith, passes_under-apply is_marked 128 all_marked x h)

opcodes_kept : passes_under (λ x. bit_and (bit_or 0x80 (bit_and x 0x0f)) 0x0f == x) 16 ≡ true
unfolding passes_under
opcodes_kept = refl

pub opcode_kept : (x : ℕ) → x < 16 → bit_and (bit_or 0x80 (bit_and x 0x0f)) 0x0f ≡ x
opcode_kept x h = (==_iff _ x).0 (passes_under-apply _ 16 opcodes_kept x h)

shift_in_sum : (acc b : ℕ) → b < 256 → shift_in acc b ≡ (acc * 256 + b) % 2 ^ 64
unfolding shift_in
shift_in_sum acc b h =
    let high : (acc * 256) % 2 ^ 64 ≡ (acc % 2 ^ 56) * 256 = omega arith in
    rw high (omega (arith, bit_or_byte (acc % 2 ^ 56) b h))

-- One byte further: c is what is left of the 127, hi the bytes that are in.
shift_in_next :
    (c hi lo : ℕ)
    → c * 256 + lo < 2 ^ 64
    → hi ≡ lo / 256
    → shift_in (c + hi) (byte lo) ≡ c * 256 + lo
shift_in_next c hi lo h e = omega (arith, shift_in_sum (c + hi) (byte lo) (omega arith))

shift_in_last :
    (hi lo : ℕ) → lo < 2 ^ 64 → hi ≡ lo / 256 → shift_in (127 * 2 ^ 56 + hi) (byte lo) ≡ lo
shift_in_last hi lo h e = omega (arith, shift_in_sum (127 * 2 ^ 56 + hi) (byte lo) (omega arith))

-- The 127 that the loop starts from is shifted out of the 64 bits.
pub shift_in_all-be_bytes : (n : ℕ) → n < 2 ^ 64 → shift_in_all 127 (be_bytes 8 n) ≡ n
unfolding shift_in_all be_bytes
shift_in_all-be_bytes n h =
    let s1 = shift_in_next 127 0 (n / 2 ^ 56) (omega arith) (omega arith) in
    let s2 = shift_in_next (127 * 2 ^ 8) (n / 2 ^ 56) (n / 2 ^ 48) (omega arith) (omega arith) in
    let s3 = shift_in_next (127 * 2 ^ 16) (n / 2 ^ 48) (n / 2 ^ 40) (omega arith) (omega arith) in
    let s4 = shift_in_next (127 * 2 ^ 24) (n / 2 ^ 40) (n / 2 ^ 32) (omega arith) (omega arith) in
    let s5 = shift_in_next (127 * 2 ^ 32) (n / 2 ^ 32) (n / 2 ^ 24) (omega arith) (omega arith) in
    let s6 = shift_in_next (127 * 2 ^ 40) (n / 2 ^ 24) (n / 2 ^ 16) (omega arith) (omega arith) in
    let s7 = shift_in_next (127 * 2 ^ 48) (n / 2 ^ 16) (n / 2 ^ 8) (omega arith) (omega arith) in
    let one : n / 1 ≡ n = omega arith in
    rw (s1, s2, s3, s4, s5, s6, s7, one) (shift_in_last (n / 2 ^ 8) n h (omega arith))

-- What the reader makes of a length field: the mark of a masked frame, and the length.
abbrev pub Reads : ℕ → List ℕ → List ℕ → Type 0
Reads n rest field =
    (b : ℕ) × (more : List ℕ) × (field ≡ b ∷ more)
    × (bit_and b 0x80 ≡ 128)
    × (read_length (bit_and b 0x7f) (more ++ rest) ≡ some (n, rest))

Reads-short : (n : ℕ) (rest : List ℕ) → n < 126 → Reads n rest (bit_or 0x80 (byte n) ∷ [])
unfolding read_length
Reads-short n rest h =
    let whole : n % 256 ≡ n = omega arith in
    let (low, top) = marked n (omega arith) in
    (bit_or 0x80 (byte n), [], refl, rw whole top, rw whole (rw low (ground arith)))

Reads-two :
    (n : ℕ) (rest : List ℕ) → n < 65536 → Reads n rest (254 ∷ byte (n / 2 ^ 8) ∷ byte n ∷ [])
unfolding read_length
Reads-two n rest h = (
  254,
  byte (n / 2 ^ 8) ∷ byte n ∷ [],
  refl,
  refl,
  ground
      (arith, read_full-append (byte (n / 2 ^ 8) ∷ byte n ∷ []) rest 2 refl, be_uint16-bytes n h),
)

Reads-eight : (n : ℕ) (rest : List ℕ) → n < 2 ^ 64 → Reads n rest (255 ∷ be_bytes 8 n)
unfolding read_length
Reads-eight n rest h = (
  255,
  be_bytes 8 n,
  refl,
  refl,
  ground (
    arith,
    read_full-append (be_bytes 8 n) rest 8 (unfold be_bytes in refl),
    shift_in_all-be_bytes n h,
  ),
)

-- Whatever follows, the reader finds the length that the writer has put.
pub length_field-Reads : (n : ℕ) (rest : List ℕ) → n < 2 ^ 64 → Reads n rest (length_field n)
unfolding length_field
length_field-Reads n rest h = elim (Bool-cases (ltb n 126)) [
  | inl short ↦ rw short (Reads-short n rest (ltb→lt n 126 short))
  | inr long ↦ elim (Bool-cases (leb n 65535)) [
    | inl two ↦ rw (long, two) (Reads-two n rest (omega (arith, leb→le n 65535 two)))
    | inr eight ↦ rw (long, eight) (Reads-eight n rest h)
  ]
]
