-- ===== src/Routing/Ports.antt =====
-- Rules of the user's on more than one port, in the test.
use mathlib.Core.Path.{subst}
use v2ray_e.Base.{
  ◌≡◌, ◌∙◌, refl, ap, Bool, true, false, ◌||◌, List, [], ◌∷◌, ◌++◌, Option, none, some, arith,
  Bool-cases, Option-cases, inl, inr, if◌then◌else◌,
}
use v2ray_e.Base.Int.{ℤ, pos}
use v2ray_e.Base.Text.{Text, txt, text_eq, text_eq_iff, trim_space, is_space, cut, join, atoi}
use v2ray_e.Base.Text.Bytes.{
  has_byte, has_byte-append, has_byte-trim_space, is_foreign, atoi-foreign, Parts, cut-Parts,
}
use v2ray_e.Routing.Rules.{FieldRule, one, custom_rule}
use v2ray_e.Routing.Match.{
  Net, Probe, Checked, unspecified, unmet, met, no_match, RuleMatch, to_string_slice, in_range,
  port_test, first_port, rule_matches_port, le_ℤ, match_routing_rule, check_connection, and_then,
}

comma_foreign : is_foreign b',' ≡ true
unfolding is_foreign
comma_foreign = refl

atoi-comma : (s : Text) → has_byte b',' s ≡ true → atoi s ≡ none
atoi-comma s h = atoi-foreign b',' s comma_foreign h

has_byte-trimmed : (s : Text) → has_byte b',' (trim_space s) ≡ has_byte b',' s
unfolding is_space
has_byte-trimmed s = has_byte-trim_space b',' s refl

in_range-none : (port : ℤ) (o : Option ℤ) → in_range port o none ≡ false
unfolding in_range
in_range-none port none = refl
in_range-none port (some z) = refl

port_test-range :
    (port : ℤ) (s x y : Text)
    → cut b'-' s ≡ some (x, y)
    → port_test port s ≡ in_range port (atoi (trim_space x)) (atoi (trim_space y))
unfolding port_test
port_test-range port s x y e = rw (e, port_test) refl

port_test-comma : (port : ℤ) (s : Text) → has_byte b',' s ≡ true → port_test port s ≡ false
unfolding port_test in_range
port_test-comma port s h = elim (Option-cases (cut b'-' s)) [
  | inl missing ↦ rw (missing, port_test, atoi-comma s h) refl
  | inr ((x, y), e) ↦
      let split : has_byte b',' s ≡ (has_byte b',' x || has_byte b',' y) =
        subst (Parts b',' s) e (cut-Parts b',' b'-' s refl) in
      port_test-range port s x y e ∙ elim (Bool-cases (has_byte b',' x)) [
        | inl left ↦
            ap (λ o. in_range port o (atoi (trim_space y)))
              (atoi-comma (trim_space x) (has_byte-trimmed x ∙ left))
        | inr right ↦
            let at_right : has_byte b',' y ≡ true = ground (arith, split, h, right) in
            ap (λ o. in_range port (atoi (trim_space x)) o)
              (atoi-comma (trim_space y) (has_byte-trimmed y ∙ at_right))
            ∙ in_range-none port (atoi (trim_space x))
      ]
]

has_byte-join :
    (s t : Text) (more : List Text) → has_byte b',' (join (txt ",") (s ∷ t ∷ more)) ≡ true
unfolding join has_byte
has_byte-join s t more =
    ground (arith, has_byte-append b',' s (txt "," ++ join (txt ",") (t ∷ more)))

not_blank : (s : Text) → has_byte b',' s ≡ true → text_eq (trim_space s) [] ≡ false
unfolding has_byte
not_blank s h = elim (Bool-cases (text_eq (trim_space s) [])) [
  | inl blank ↦
      let nothing : false ≡ true =
        subst (λ t. has_byte b',' t ≡ true) ((text_eq_iff (trim_space s) []).0 blank)
          (has_byte-trimmed s ∙ h) in
      cc nothing
  | inr solid ↦ solid
]

rule_matches_port-comma :
    (port : ℤ) (s : Text) → has_byte b',' s ≡ true → rule_matches_port port (one s) ≡ unmet
unfolding rule_matches_port to_string_slice first_port
rule_matches_port-comma port s h =
    let solid = not_blank s h in
    let fails = port_test-comma port (trim_space s) (has_byte-trimmed s ∙ h) in
    ap
      (λ b. elim (if b then [] else s ∷ []) as (λ _. Checked) [
        | [] ↦ unspecified
        | t ∷ more ↦ if le_ℤ port (pos 0) then unmet else first_port port (t ∷ more)
      ])
      solid
    ∙ (ap
          (λ b.
            if le_ℤ port (pos 0)
            then unmet
            else if b
            then unmet
            else if port_test port (trim_space s)
            then met (trim_space s)
            else unmet)
          solid
        ∙ ap (λ b. if le_ℤ port (pos 0) then unmet else if b then met (trim_space s) else unmet)
            fails
        ∙ either_way (le_ℤ port (pos 0)))
  where
    either_way : (b : Bool) → (if b then unmet else unmet) ≡ unmet
    either_way true = refl
    either_way false = refl

-- A condition that is broken ends the match.
pub and_then-unmet :
    (c : Checked) (l : List Text) (next : List Text → RuleMatch)
    → c ≡ unmet
    → and_then c l next ≡ no_match
unfolding and_then
and_then-unmet c l next e = ap (λ x. and_then x l next) e

-- A rule of the user's on two or more ports never matches in the test, whatever the connection, since the
-- values are joined by commas in the rule, and the test reads them as one number or range.
pub custom_rule-ports_unmatched :
    (has_geoip has_geosite : Bool) (id outbound s t : Text) (more : List Text) (net : Net)
    (strategy : Text) (p : Probe)
    → (r : FieldRule) × (custom_rule has_geoip has_geosite
          (record { id = id; kind = txt "port"; values = s ∷ t ∷ more; outbound = outbound })
        ≡ some r)
      × (match_routing_rule net strategy p r ≡ no_match)
unfolding custom_rule text_eq match_routing_rule check_connection and_then
custom_rule-ports_unmatched has_geoip has_geosite id outbound s t more net strategy p = (
  _,
  refl,
  and_then-unmet (rule_matches_port p.port (one (join (txt ",") (s ∷ t ∷ more)))) [] _
      (rule_matches_port-comma p.port (join (txt ",") (s ∷ t ∷ more)) (has_byte-join s t more)),
)
