-- ===== src/Tun/Rules.antt =====
-- Reading the lines of `ip rule show`: which rules are this service's own, and where they lead.
pub mod Lines
pub mod Own
use v2ray_e.Base.{
  ℕ, zero, suc, ◌+◌, ◌-◌, ◌*◌, ◌/◌, ◌%◌, ◌^◌, ◌<◌, ◌≤◌, ◌≡◌, ◌≢◌, ◌↔◌, ◌⊎◌, ◌∙◌, refl, sym, ap,
  Bool, true, false, not, ◌&&◌, ◌||◌, List, [], ◌∷◌, ◌++◌, map, Option, none, some, String, arith,
  ltb, leb, ◌==◌, ==_iff, ltb→lt, leb→le, Bool-cases, Option-cases, inl, inr, if◌then◌else◌, length,
  length-append, take, drop, take-append-drop, length-take, length-drop, take-append, drop-append,
  All, All-append, All-take, All-drop,
}
use v2ray_e.Base.Int.{ℤ, pos, negsuc}
use v2ray_e.Base.Text.{
  Text, txt, text_eq, trim_space, fields, has_prefix, has_suffix, trim_suffix, atoi,
}
use v2ray_e.Base.Text.Decimal.{itoa}

abbrev pub route_table : ℕ
route_table = 20230

abbrev pub priority_min : ℕ
priority_min = 10000

abbrev pub priority_max : ℕ
priority_max = 10999

abbrev pub direct_bypass_mark : ℕ
direct_bypass_mark = 0x2d11

in_window : ℤ → Option ℕ
in_window (pos n) = if ltb n priority_min || ltb priority_max n then none else some n
in_window (negsuc n) = none

priority_of_field : Text → Option ℕ
unfolding in_window
priority_of_field f =
    if not (has_suffix f (txt ":"))
    then none
    else elim (atoi (trim_suffix f (txt ":"))) [ none ↦ none | some p ↦ in_window p ]

priority_of_fields : List Text → Option ℕ
unfolding priority_of_field
priority_of_fields [] = none
priority_of_fields (f ∷ []) = none
priority_of_fields (f ∷ g ∷ more) = priority_of_field f

-- `parseTunPolicyRulePriority`
unfoldable pub rule_priority : Text → Option ℕ
unfolding priority_of_fields
rule_priority line = priority_of_fields (fields (trim_space line))

-- Two words that stand side by side.
unfoldable pub has_pair : Text → Text → List Text → Bool
has_pair a b [] = false
has_pair a b (x ∷ []) = false
has_pair a b (x ∷ y ∷ more) = (text_eq x a && text_eq y b) || has_pair a b (y ∷ more)

unfoldable pub rule_is_from_all : List Text → Bool
unfolding has_pair
rule_is_from_all fs = has_pair (txt "from") (txt "all") fs

unfoldable pub rule_destination : List Text → Option Text
rule_destination [] = none
rule_destination (x ∷ []) = none
rule_destination (x ∷ y ∷ more) =
    let later = rule_destination (y ∷ more) in if text_eq x (txt "to") then some y else later

unfoldable pub rule_looks_up : List Text → Text → Bool
unfolding has_pair
rule_looks_up fs table = has_pair (txt "lookup") table fs

is_bypass_mark : Text → Bool
is_bypass_mark v =
    text_eq v (itoa direct_bypass_mark)
    || text_eq v (txt "0x2d11")
    || has_prefix v (itoa direct_bypass_mark ++ txt "/")
    || has_prefix v (txt "0x2d11/")

unfoldable pub rule_has_bypass_mark : List Text → Bool
unfolding is_bypass_mark
rule_has_bypass_mark [] = false
rule_has_bypass_mark (x ∷ []) = false
rule_has_bypass_mark (x ∷ y ∷ more) =
    (text_eq x (txt "fwmark") && is_bypass_mark y) || rule_has_bypass_mark (y ∷ more)

-- What `isManagedTunPolicyRuleLine` asks of the fields.
unfoldable pub managed_fields : List Text → Bool
unfolding rule_is_from_all rule_looks_up rule_has_bypass_mark rule_destination
managed_fields fs =
    if not (rule_is_from_all fs)
    then false
    else if rule_looks_up fs (itoa route_table)
    then true
    else if not (rule_looks_up fs (txt "main"))
    then false
    else if rule_has_bypass_mark fs
    then true
    else elim (rule_destination fs) [ none ↦ false | some _ ↦ true ]

unfoldable pub is_managed_line : Text → Bool
unfolding rule_priority managed_fields
is_managed_line line = elim (rule_priority line) [
  | none ↦ false
  | some _ ↦ managed_fields (fields line)
]

target_of_fields : List Text → Option Text
unfolding rule_is_from_all rule_looks_up rule_destination
target_of_fields fs =
    if not (rule_is_from_all fs) || not (rule_looks_up fs (txt "main"))
    then none
    else rule_destination fs

-- The body of the loop of `parseInstalledTunPolicyBypassTargets`, before the prefix is parsed.
unfoldable pub line_target : Text → Option Text
unfolding rule_priority target_of_fields
line_target line = elim (rule_priority line) [
  | none ↦ none
  | some _ ↦ target_of_fields (fields line)
]
