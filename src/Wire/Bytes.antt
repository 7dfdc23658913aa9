-- ===== src/Wire/Bytes.antt =====
-- Bytes as numbers, the conversion `byte(x)`, big-endian fields, `io.ReadFull` on the bytes that a
-- connection still delivers, and XOR on bytes.
use Prim.Native.Nat.{bit_xor}
use v2ray_e.Base.{
  ℕ, ◌%◌, ◌<◌, ◌≡◌, refl, true, List, ◌++◌, Option, none, some, arith, leb, ◌==◌, ==_iff,
  if◌then◌else◌, length, length-append, take, drop, take-append, drop-append, All,
}
use v2ray_e.Base.Loop.{passes_under, passes_under-apply}

abbrev pub IsByte : ℕ → Type 0
IsByte b = b < 256

abbrev pub AreBytes : List ℕ → Type 0
AreBytes bs = All IsByte bs

-- `byte(x)`
abbrev pub byte : ℕ → ℕ
byte x = x % 256

-- `io.ReadFull`: `none` is an error, when fewer bytes arrive.
unfoldable pub read_full : ℕ → List ℕ → Option (List ℕ × List ℕ)
read_full n input = if leb n (length input) then some (take n input, drop n input) else none

pub read_full-append :
    (bs rest : List ℕ) (n : ℕ) → n ≡ length bs → read_full n (bs ++ rest) ≡ some (bs, rest)
unfolding read_full
read_full-append bs rest n h =
    ground (arith, length-append bs rest, take-append bs rest, drop-append bs rest)

xor_table : passes_under (λ x. passes_under (λ m. bit_xor (bit_xor x m) m == x) 256) 256 ≡ true
unfolding passes_under
xor_table = refl

-- Masking a byte twice gives it back.
pub xor_twice : (x m : ℕ) → x < 256 → m < 256 → bit_xor (bit_xor x m) m ≡ x
xor_twice x m hx hm =
    (==_iff _ x).0 (passes_under-apply _ 256 (passes_under-apply _ 256 xor_table x hx) m hm)
