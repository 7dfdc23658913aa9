-- ===== src/Base/Text/Defs.antt =====
-- `strings` and `strconv.Atoi` on lists of bytes.
use Prim.Native.Nat.{ℕ, zero, suc, ◌+◌, ◌-◌, ◌*◌, ◌^◌}
use Prim.Native.Char.{code}
use Prim.Native.String.{String}
use mathlib.Core.Path.{◌≡◌, refl}
use mathlib.Core.Logic.{◌↔◌}
use mathlib.Core.Bool.{Bool, true, false, ◌&&◌, ◌||◌}
use mathlib.Core.Option.{Option, none, some}
use mathlib.Core.List.{List, [], ◌∷◌, ◌++◌, map, reverse}
use native.Mathlib.Omega.{arith}
use v2ray_e.Base.Tests.{ltb, leb, ◌==◌, if◌then◌else◌}
use v2ray_e.Base.Lists.{length, drop, take}
use v2ray_e.Base.Int.{ℤ, pos, negsuc}

abbrev pub Text : Type 0
Text = List ℕ

-- The bytes of an ASCII literal.
abbrev pub txt : String → Text
txt String.[] = []
txt (String.◌∷◌ c s) = code c ∷ txt s

unfoldable pub text_eq : Text → Text → Bool
text_eq [] [] = true
text_eq (a ∷ s) (b ∷ t) = a == b && text_eq s t
text_eq _ _ = false

unfoldable pub is_space : ℕ → Bool
is_space c = (leb 9 c && leb c 13) || c == 32

unfoldable pub trim_left : Text → Text
trim_left [] = []
trim_left (c ∷ s) = let rest = trim_left s in if is_space c then rest else c ∷ s

unfoldable pub trim_space : Text → Text
unfolding is_space trim_left
trim_space s = reverse (trim_left (reverse (trim_left s)))

unfoldable pub has_prefix : Text → Text → Bool
has_prefix s [] = true
has_prefix [] (p ∷ ps) = false
has_prefix (c ∷ s) (p ∷ ps) = c == p && has_prefix s ps

unfoldable pub trim_prefix : Text → Text → Text
unfolding has_prefix
trim_prefix s p = if has_prefix s p then drop (length p) s else s

unfoldable pub has_suffix : Text → Text → Bool
unfolding has_prefix
has_suffix s p = has_prefix (reverse s) (reverse p)

unfoldable pub trim_suffix : Text → Text → Text
unfolding has_suffix
trim_suffix s p = if has_suffix s p then take (length s - length p) s else s

-- `strings.Contains`
unfoldable pub contains : Text → Text → Bool
unfolding has_prefix
contains [] p = has_prefix [] p
contains (c ∷ s) p = has_prefix (c ∷ s) p || contains s p

abbrev pub lower_byte : ℕ → ℕ
lower_byte c = if leb b'A' c && leb c b'Z' then c + 32 else c

unfoldable pub to_lower : Text → Text
to_lower s = map lower_byte s

unfoldable pub equal_fold : Text → Text → Bool
unfolding text_eq to_lower
equal_fold s t = text_eq (to_lower s) (to_lower t)

-- A finished word, if there is one.
abbrev pub word : Text → List Text
word [] = []
word (c ∷ s) = (c ∷ s) ∷ []

-- `strings.Fields`, with the word that is being read.
unfoldable pub fields_from : Text → Text → List Text
fields_from cur [] = word cur
fields_from cur (c ∷ s) =
    let closed = fields_from [] s in
    let longer = fields_from (cur ++ c ∷ []) s in if is_space c then word cur ++ closed else longer

unfoldable pub fields : Text → List Text
unfolding fields_from is_space
fields s = fields_from [] s

-- `strings.Split` at one byte, with the part that is being read.
unfoldable pub split_from : ℕ → Text → Text → List Text
split_from sep cur [] = cur ∷ []
split_from sep cur (c ∷ s) =
    let closed = split_from sep [] s in
    let longer = split_from sep (cur ++ c ∷ []) s in if c == sep then cur ∷ closed else longer

unfoldable pub split : ℕ → Text → List Text
unfolding split_from
split sep s = split_from sep [] s

-- `strings.Join`
unfoldable pub join : Text → List Text → Text
join sep [] = []
join sep (s ∷ []) = s
join sep (s ∷ t ∷ more) = s ++ (sep ++ join sep (t ∷ more))

-- `strings.SplitN(s, sep, 2)` at one byte: `none` where the byte does not occur.
unfoldable pub cut : ℕ → Text → Option (Text × Text)
cut sep [] = none
cut sep (c ∷ s) =
    let rest = cut sep s in
    if c == sep then some ([], s) else elim rest [ none ↦ none | some (a, b) ↦ some (c ∷ a, b) ]

pub data Parsed : Type 0 where
  value : ℤ → Parsed
  syntax : Parsed
  range : ℤ → Parsed

abbrev pub int_max : ℕ
int_max = 2 ^ 63 - 1

pub data Unsigned : Type 0 where
  digits : ℕ → Unsigned
  bad_digit too_large : Unsigned

-- The loop of `strconv.ParseUint` in base ten, 64 bits.
unfoldable pub parse_uint : ℕ → Text → Unsigned
parse_uint acc [] = digits acc
parse_uint acc (c ∷ s) =
    let acc' = acc * 10 + (c - 48) in
    let more = parse_uint acc' s in
    if leb 48 c && leb c 57 then (if leb (2 ^ 64) acc' then too_large else more) else bad_digit

abbrev pub signed : Bool → Unsigned → Parsed
signed negative bad_digit = syntax
signed true too_large = range (negsuc int_max)
signed false too_large = range (pos int_max)
signed true (digits zero) = value (pos 0)
signed true (digits (suc n)) = if ltb int_max n then range (negsuc int_max) else value (negsuc n)
signed false (digits n) = if ltb int_max n then range (pos int_max) else value (pos n)

unfoldable pub parse_int_unsigned : Bool → Text → Parsed
unfolding parse_uint
parse_int_unsigned negative [] = syntax
parse_int_unsigned negative (c ∷ s) = signed negative (parse_uint 0 (c ∷ s))

unfoldable pub parse_int : Text → Parsed
unfolding parse_int_unsigned
parse_int [] = syntax
parse_int (c ∷ s) =
    if c == b'-'
    then parse_int_unsigned true s
    else if c == b'+'
    then parse_int_unsigned false s
    else parse_int_unsigned false (c ∷ s)

-- `strconv.Atoi`: `none` is an error.
unfoldable pub atoi : Text → Option ℤ
unfolding parse_int
atoi s = elim (parse_int s) [ value z ↦ some z | _ ↦ none ]

-- `n, _ := strconv.Atoi(s)`: what is in n, errors included.
unfoldable pub atoi_value : Text → ℤ
unfolding parse_int
atoi_value s = elim (parse_int s) [ value z ↦ z | syntax ↦ pos 0 | range z ↦ z ]

pub text_eq_iff : (s t : Text) → (text_eq s t ≡ true) ↔ (s ≡ t)
unfolding text_eq
text_eq_iff [] [] = ground arith
text_eq_iff [] (b ∷ t) = ground arith
text_eq_iff (a ∷ s) [] = ground arith
text_eq_iff (a ∷ s) (b ∷ t) = ground (arith, text_eq_iff s t)

pub text_eq_refl : (s : Text) → text_eq s s ≡ true
text_eq_refl s = (text_eq_iff s s).1 refl
