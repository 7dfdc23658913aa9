-- ===== src/Base/Text/Decimal.antt =====
-- `strconv.Itoa` of a number, which `strconv.Atoi` reads back.
use mathlib.Core.List.{append_assoc, append-nil}
use v2ray_e.Base.{
  ℕ, zero, suc, ◌+◌, ◌-◌, ◌*◌, ◌/◌, ◌%◌, ◌^◌, ◌<◌, ◌≤◌, ◌≡◌, ◌≢◌, ◌∙◌, refl, false, [], ◌∷◌, ◌++◌,
  some, arith, ltb, ltb→lt, Bool-cases, inl, inr, if◌then◌else◌, All, All-append,
}
use v2ray_e.Base.Int.{pos}
use v2ray_e.Base.Text.Defs.{Text, is_space, parse_uint, digits, parse_int, value, atoi, atoi_value}
use v2ray_e.Base.Text.Fields.{IsWord}

-- One step for each decimal digit; a number is more than the count of its digits.
unfoldable pub decimal : ℕ → ℕ → Text
decimal zero n = []
decimal (suc fuel) n =
    let rest = decimal fuel (n / 10) ++ (48 + n % 10) ∷ [] in
    if ltb n 10 then (48 + n) ∷ [] else rest

unfoldable pub itoa : ℕ → Text
unfolding decimal
itoa n = decimal (suc n) n

abbrev pub IsDigit : ℕ → Type 0
IsDigit c = (48 ≤ c) × (c ≤ 57)

decimal-IsDigit : (fuel n : ℕ) → All IsDigit (decimal fuel n)
unfolding decimal
decimal-IsDigit zero n = tt
decimal-IsDigit (suc fuel) n = elim (Bool-cases (ltb n 10)) [
  | inl one ↦ rw one ((omega arith, omega (arith, ltb→lt n 10 one)), tt)
  | inr more ↦ rw more (
      All-append IsDigit (decimal fuel (n / 10)) ((48 + n % 10) ∷ [])
        (decimal-IsDigit fuel (n / 10)) ((omega arith, omega arith), tt))
]

-- The last digit.
parse_uint_digit :
    (n : ℕ) (t : Text) → n < 2 ^ 64 → parse_uint (n / 10) ((48 + n % 10) ∷ t) ≡ parse_uint n t
unfolding parse_uint
parse_uint_digit n t k =
    let same : n / 10 * 10 + (48 + n % 10 - 48) ≡ n = omega arith in rw same (ground arith)

parse_uint-decimal :
    (fuel n : ℕ) (t : Text)
    → n < fuel
    → n < 2 ^ 64
    → parse_uint 0 (decimal fuel n ++ t) ≡ parse_uint n t
unfolding decimal parse_uint
parse_uint-decimal zero n t h k = absurd (omega arith)
parse_uint-decimal (suc fuel) n t h k = elim (Bool-cases (ltb n 10)) [
  | inl one ↦ rw one (ground arith)
  | inr more ↦ rw more (
      rw (append_assoc (decimal fuel (n / 10)) ((48 + n % 10) ∷ []) t) (
        parse_uint-decimal fuel (n / 10) ((48 + n % 10) ∷ t) (ground arith) (omega arith)
        ∙ parse_uint_digit n t k))
]

decimal-ne-nil : (fuel n : ℕ) → decimal (suc fuel) n ≢ []
unfolding decimal
decimal-ne-nil fuel n e = elim (Bool-cases (ltb n 10)) [
  | inl one ↦ cc (rw one at e)
  | inr more ↦ not-nil (decimal fuel (n / 10)) (48 + n % 10) (rw more at e)
]
  where
    not-nil : (s : Text) (c : ℕ) → s ++ c ∷ [] ≢ []
    not-nil [] c p = cc
    not-nil (d ∷ s) c p = cc

digits_no_space : (s : Text) → All IsDigit s → All (λ c. is_space c ≡ false) s
unfolding is_space
digits_no_space [] h = tt
digits_no_space (c ∷ s) (h, hs) = (ground arith, digits_no_space s hs)

-- A number in decimal is one field of a line.
pub itoa-IsWord : (n : ℕ) → IsWord (itoa n)
unfolding itoa
itoa-IsWord n = record {
  no_space = digits_no_space _ (decimal-IsDigit (suc n) n);
  not_empty = decimal-ne-nil n n;
}

parse_int_digits :
    (s : Text) (n : ℕ)
    → All IsDigit s
    → s ≢ []
    → parse_uint 0 s ≡ digits n
    → n < 2 ^ 63
    → parse_int s ≡ value (pos n)
unfolding parse_int
parse_int_digits [] n h ne e k = absurd (ne refl)
parse_int_digits (c ∷ s) n (h, hs) ne e k = ground (arith, e)

-- `Atoi` of a number in decimal is the number, within 63 bits.
pub atoi-itoa :
    (n : ℕ) → n < 2 ^ 63 → (atoi (itoa n) ≡ some (pos n)) × (atoi_value (itoa n) ≡ pos n)
unfolding atoi atoi_value itoa
atoi-itoa n k =
    let whole = rw append-nil at (parse_uint-decimal (suc n) n [] (omega arith) (omega arith)) in
    let parsed =
      parse_int_digits (decimal (suc n) n) n (decimal-IsDigit (suc n) n) (decimal-ne-nil n n)
        (whole ∙ unfold parse_uint in refl) k in
    (rw (parsed, atoi), rw (parsed, atoi_value))

pub itoa-digits : (n : ℕ) → All IsDigit (itoa n)
unfolding itoa
itoa-digits n = decimal-IsDigit (suc n) n
