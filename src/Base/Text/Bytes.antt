-- ===== src/Base/Text/Bytes.antt =====
-- The bytes that stand in a text, and what has them.
use mathlib.Core.List.{reverse, reverse-append}
use v2ray_e.Base.{
  ℕ, ◌+◌, ◌-◌, ◌*◌, ◌≡◌, ◌∙◌, refl, Bool, true, false, not, ◌&&◌, ◌||◌, [], ◌∷◌, ◌++◌, Option, none,
  some, arith, leb, ◌==◌, Bool-cases, Option-cases, inl, inr,
}
use mathlib.Core.Path.{subst}
use v2ray_e.Base.Int.{ℤ}
use v2ray_e.Base.Text.Defs.{
  Text, trim_left, trim_space, is_space, cut, atoi, parse_int, parse_int_unsigned, parse_uint,
  signed, Unsigned, bad_digit, too_large, Parsed, value,
}

unfoldable pub has_byte : ℕ → Text → Bool
has_byte b [] = false
has_byte b (c ∷ s) = b == c || has_byte b s

pub has_byte-append : (b : ℕ) (s t : Text) → has_byte b (s ++ t) ≡ (has_byte b s || has_byte b t)
unfolding has_byte
has_byte-append b [] t = refl
has_byte-append b (c ∷ s) t = ground (arith, has_byte-append b s t)

pub has_byte-reverse : (b : ℕ) (s : Text) → has_byte b (reverse s) ≡ has_byte b s
unfolding has_byte
has_byte-reverse b [] = refl
has_byte-reverse b (c ∷ s) =
    let turned : reverse (c ∷ s) ≡ reverse s ++ c ∷ [] = reverse-append (c ∷ []) s in
    rw turned (ground (arith, has_byte-append b (reverse s) (c ∷ []), has_byte-reverse b s))

pub has_byte-trim_left :
    (b : ℕ) (s : Text) → is_space b ≡ false → has_byte b (trim_left s) ≡ has_byte b s
unfolding has_byte trim_left
has_byte-trim_left b [] h = refl
has_byte-trim_left b (c ∷ s) h = elim (Bool-cases (is_space c)) [
  | inl blank ↦ ground (arith, blank, has_byte-trim_left b s h)
  | inr solid ↦ ground (arith, solid)
]

pub has_byte-trim_space :
    (b : ℕ) (s : Text) → is_space b ≡ false → has_byte b (trim_space s) ≡ has_byte b s
unfolding trim_space
has_byte-trim_space b s h =
    has_byte-reverse b (trim_left (reverse (trim_left s)))
    ∙ (has_byte-trim_left b (reverse (trim_left s)) h
        ∙ (has_byte-reverse b (trim_left s) ∙ has_byte-trim_left b s h))

-- Neither a digit nor a sign.
unfoldable pub is_foreign : ℕ → Bool
is_foreign b = not (leb 48 b && leb b 57) && (not (b == 43) && not (b == 45))

data NotRead : Unsigned → Type 0 where
  bad : NotRead bad_digit
  large : NotRead too_large

parse_uint-NotRead :
    (b : ℕ) (acc : ℕ) (s : Text)
    → is_foreign b ≡ true
    → has_byte b s ≡ true
    → NotRead (parse_uint acc s)
unfolding parse_uint has_byte is_foreign
parse_uint-NotRead b acc [] f h = cc h
parse_uint-NotRead b acc (c ∷ s) f h =
    ground (arith, f, h, parse_uint-NotRead b (acc * 10 + (c - 48)) s f, bad, large)

abbrev number : Parsed → Option ℤ
number p = elim p [ value z ↦ some z | _ ↦ none ]

number-NotRead : (negative : Bool) (u : Unsigned) → NotRead u → number (signed negative u) ≡ none
number-NotRead true _ bad = refl
number-NotRead false _ bad = refl
number-NotRead true _ large = refl
number-NotRead false _ large = refl

number-unsigned :
    (b : ℕ) (negative : Bool) (s : Text)
    → is_foreign b ≡ true
    → has_byte b s ≡ true
    → number (parse_int_unsigned negative s) ≡ none
unfolding parse_int_unsigned has_byte
number-unsigned b negative [] f h = cc
number-unsigned b negative (c ∷ s) f h =
    number-NotRead negative (parse_uint 0 (c ∷ s)) (parse_uint-NotRead b 0 (c ∷ s) f h)

-- A text with a byte that is neither a digit nor a sign is no number.
pub atoi-foreign : (b : ℕ) (s : Text) → is_foreign b ≡ true → has_byte b s ≡ true → atoi s ≡ none
unfolding atoi parse_int has_byte is_foreign
atoi-foreign b [] f h = cc
atoi-foreign b (c ∷ s) f h = ground (
  arith,
  f,
  h,
  number-unsigned b true s f,
  number-unsigned b false s f,
  number-unsigned b false (c ∷ s) f h,
)

-- A byte of the text stands in one of the two parts.
abbrev pub Parts : ℕ → Text → Option (Text × Text) → Type 0
Parts b s none = Unit
Parts b s (some (x, y)) = has_byte b s ≡ (has_byte b x || has_byte b y)

pub cut-Parts : (b sep : ℕ) (s : Text) → (b == sep) ≡ false → Parts b s (cut sep s)
unfolding cut has_byte
cut-Parts b sep [] ne = tt
cut-Parts b sep (c ∷ s) ne = elim (Bool-cases (c == sep)) [
  | inl here ↦ rw (here, cut) (ground (arith, here, ne))
  | inr other ↦ elim (Option-cases (cut sep s)) [
    | inl missing ↦ rw (other, missing, cut) tt
    | inr ((x, y), e) ↦
        rw (other, e, cut) (ground (arith, subst (Parts b s) e (cut-Parts b sep s ne)))
  ]
]
