-- ===== src/Routing/Match.antt =====
-- Whether a rule matches a target (routing_test_tool.go).
use v2ray_e.Base.{
  Bool, true, false, not, ◌&&◌, ◌||◌, List, [], ◌∷◌, ◌++◌, Option, none, some, leb, if◌then◌else◌,
}
use v2ray_e.Base.Int.{ℤ, pos, negsuc}
use v2ray_e.Base.Text.{
  Text, txt, text_eq, trim_space, equal_fold, contains, has_prefix, has_suffix, trim_prefix, cut,
  atoi,
}
use v2ray_e.Core.Config.{folded, one_of}
use v2ray_e.Routing.Rules.{RuleValue, absent, one, many, FieldRule}

-- What the resolver says: addresses, or an error.
pub data Lookup : Type 0 where
  addresses : List Text → Lookup
  lookup_error : Text → Lookup

-- The packages `net` and `router`: addresses, prefixes, the geo data and the resolver. `cidr_contains` is
-- false where the prefix does not parse.
pub record Net : Type 1 where
  pub Ip : Type 0
  pub parse_ip : Text → Option Ip
  pub ip_text : Ip → Text
  pub is_private : Ip → Bool
  pub is_loopback : Ip → Bool
  pub cidr_contains : Text → Ip → Bool
  pub geo_ip_matches : Text → Ip → Bool
  pub builtin_cn_contains : Ip → Bool
  pub lookup_ip_addr : Text → Lookup
  pub split_host_port : Text → Option (Text × Text)

-- The condition of a field: not there, met by a value, or not met.
pub data Checked : Type 0 where
  unspecified unmet : Checked
  met : Text → Checked

pub data RuleMatch : Type 0 where
  no_match defer_ip : RuleMatch
  matched : Text → Text → Text → RuleMatch

unfoldable pub to_string_slice : RuleValue → List Text
unfolding trim_space text_eq
to_string_slice absent = []
to_string_slice (one s) = if text_eq (trim_space s) [] then [] else s ∷ []
to_string_slice (many values) = values

abbrev pub has_values : RuleValue → Bool
has_values v = elim (to_string_slice v) [ [] ↦ false | s ∷ more ↦ true ]

-- The first value that passes a test.
unfoldable pub first_met : (Text → Bool) → List Text → Checked
first_met test [] = unmet
first_met test (s ∷ more) = let rest = first_met test more in if test s then met s else rest

unfoldable pub rule_matches_protocol : Text → RuleValue → Checked
unfolding to_string_slice first_met equal_fold trim_space
rule_matches_protocol protocol v = elim (to_string_slice v) [
  | [] ↦ unspecified
  | s ∷ more ↦ first_met (λ t. equal_fold (trim_space t) protocol) (s ∷ more)
]

unfoldable pub rule_matches_inbound_tag : Text → RuleValue → Checked
unfolding to_string_slice first_met equal_fold trim_space text_eq
rule_matches_inbound_tag tag v = elim (to_string_slice v) [
  | [] ↦ unspecified
  | s ∷ more ↦
      if text_eq tag [] then unmet else first_met (λ t. equal_fold (trim_space t) tag) (s ∷ more)
]

-- Comparisons of Go's integers.
abbrev pub le_ℤ : ℤ → ℤ → Bool
le_ℤ (pos a) (pos b) = leb a b
le_ℤ (pos a) (negsuc b) = false
le_ℤ (negsuc a) (pos b) = true
le_ℤ (negsuc a) (negsuc b) = leb b a

-- A range, by its two ends.
unfoldable pub in_range : ℤ → Option ℤ → Option ℤ → Bool
in_range port none last = false
in_range port (some start) none = false
in_range port (some start) (some last) = le_ℤ start port && le_ℤ port last

-- A port, or a range of ports.
unfoldable pub port_test : ℤ → Text → Bool
unfolding cut atoi trim_space in_range
port_test port value = elim (cut b'-' value) [
  | some (a, b) ↦ in_range port (atoi (trim_space a)) (atoi (trim_space b))
  | none ↦ elim (atoi value) [ none ↦ false | some parsed ↦ le_ℤ parsed port && le_ℤ port parsed ]
]

-- The value that is reported is the trimmed one.
unfoldable pub first_port : ℤ → List Text → Checked
unfolding port_test trim_space text_eq
first_port port [] = unmet
first_port port (s ∷ more) =
    let rest = first_port port more in
    let value = trim_space s in
    if text_eq value [] then rest else if port_test port value then met value else rest

unfoldable pub rule_matches_port : ℤ → RuleValue → Checked
unfolding to_string_slice first_port
rule_matches_port port v = elim (to_string_slice v) [
  | [] ↦ unspecified
  | s ∷ more ↦ if le_ℤ port (pos 0) then unmet else first_port port (s ∷ more)
]

-- One value of a domain condition.
unfoldable pub domain_test : Text → Text → Bool
unfolding text_eq has_prefix trim_prefix has_suffix contains
domain_test host candidate =
    if text_eq candidate []
    then false
    else if has_prefix candidate (txt "full:")
    then text_eq host (trim_prefix candidate (txt "full:"))
    else if has_prefix candidate (txt "domain:")
    then text_eq host (trim_prefix candidate (txt "domain:"))
      || has_suffix host (txt "." ++ trim_prefix candidate (txt "domain:"))
    else if has_prefix candidate (txt "keyword:")
    then contains host (trim_prefix candidate (txt "keyword:"))
    else if has_prefix candidate (txt "regexp:")
    then false
    else if has_prefix candidate (txt "geosite:cn")
    then has_suffix host (txt ".cn")
    else text_eq host candidate || has_suffix host (txt "." ++ candidate)

module _ (net : Net) where
  unfoldable pub rule_matches_domain : Text → RuleValue → Checked
  unfolding folded text_eq to_string_slice first_met domain_test
  rule_matches_domain host v =
      if text_eq (folded host) [] then unmet else elim (net.parse_ip (folded host)) [
        | some ip ↦ unmet
        | none ↦ first_met (λ s. domain_test (folded host) (folded s)) (to_string_slice v)
      ]

  -- One value of an address condition.
  unfoldable pub ip_test : net.Ip → Text → Bool
  unfolding text_eq has_prefix trim_prefix contains
  ip_test ip candidate =
      if text_eq candidate (txt "geoip:private")
      then net.geo_ip_matches (txt "PRIVATE") ip || net.is_private ip || net.is_loopback ip
      else if text_eq candidate (txt "geoip:cn")
      then net.geo_ip_matches (txt "CN") ip || net.builtin_cn_contains ip
      else if has_prefix candidate (txt "geoip:")
      then net.geo_ip_matches (trim_prefix candidate (txt "geoip:")) ip
      else if contains candidate (txt "/")
      then net.cidr_contains candidate ip
      else text_eq (net.ip_text ip) candidate

  unfoldable pub rule_matches_ip : Text → RuleValue → Checked
  unfolding folded trim_space to_string_slice first_met ip_test
  rule_matches_ip host v = elim (net.parse_ip (trim_space host)) [
    | none ↦ unmet
    | some ip ↦ first_met (λ s. ip_test ip (folded s)) (to_string_slice v)
  ]

unfoldable pub append_routing_note : Text → Text → Text
unfolding trim_space text_eq contains
append_routing_note current next =
    if text_eq (trim_space next) []
    then current
    else if text_eq (trim_space current) []
    then trim_space next
    else if contains (trim_space current) (trim_space next)
    then trim_space current
    else trim_space current ++ (txt "; " ++ trim_space next)

unfoldable pub rule_outbound : FieldRule → Text
unfolding text_eq
rule_outbound rule = if text_eq rule.outbound_tag [] then txt "proxy" else rule.outbound_tag

-- The last of the values that were met; a rule without a condition does not match.
unfoldable pub build_rule_match : List Text → Text → Text → RuleMatch
build_rule_match [] outbound note = no_match
build_rule_match (s ∷ []) outbound note = matched s outbound note
build_rule_match (s ∷ t ∷ more) outbound note = build_rule_match (t ∷ more) outbound note

-- A condition, and the values that were met before it.
unfoldable pub and_then : Checked → List Text → (List Text → RuleMatch) → RuleMatch
and_then unspecified values next = next values
and_then unmet values next = no_match
and_then (met s) values next = next (values ++ s ∷ [])

-- The connection that is tested.
pub record Probe : Type 0 where
  pub host : Text
  pub port : ℤ
  pub protocol : Text
  pub inbound_tag : Text

-- The conditions on the inbound, the network, the protocol and the port.
unfoldable pub check_connection : Probe → FieldRule → (List Text → RuleMatch) → RuleMatch
unfolding and_then rule_matches_inbound_tag rule_matches_protocol rule_matches_port
check_connection p rule next =
    and_then (rule_matches_inbound_tag p.inbound_tag rule.inbound_tag) [] (λ a.
      and_then (rule_matches_protocol p.protocol rule.network) a (λ b.
        and_then (rule_matches_protocol p.protocol rule.protocol) b
          (λ c. and_then (rule_matches_port p.port rule.port) c next)))

-- The addresses that are not empty, each once.
unfoldable pub distinct_ips : List Text → List Text → List Text
unfolding text_eq one_of
distinct_ips seen [] = []
distinct_ips seen (ip ∷ more) =
    let skipped = distinct_ips seen more in
    let kept = distinct_ips (ip ∷ seen) more in
    if text_eq ip [] then skipped else if one_of ip seen then skipped else ip ∷ kept

module _ (net : Net) where
  unfoldable pub resolve_routing_ips : Text → Lookup
  unfolding trim_space text_eq distinct_ips
  resolve_routing_ips host =
      if text_eq (trim_space host) [] then addresses [] else elim (net.parse_ip (trim_space host)) [
        | some ip ↦ addresses []
        | none ↦ elim (net.lookup_ip_addr (trim_space host)) [
          | lookup_error e ↦ lookup_error e
          | addresses ips ↦ addresses (distinct_ips [] ips)
        ]
      ]

  -- The first resolved address that meets the condition.
  unfoldable pub first_resolved : List Text → RuleValue → Option (Text × Text)
  unfolding rule_matches_ip
  first_resolved [] v = none
  first_resolved (ip ∷ more) v =
      let rest = first_resolved more v in
      elim (rule_matches_ip net ip v) [ met s ↦ some (s, ip) | _ ↦ rest ]

  unfoldable pub match_resolved : List Text → Probe → FieldRule → RuleMatch
  unfolding check_connection rule_outbound build_rule_match first_resolved to_string_slice
  match_resolved [] p rule = no_match
  match_resolved (ip ∷ more) p rule = check_connection p rule (λ values.
      if has_values rule.domain
      then no_match
      else if not (has_values rule.ip)
      then build_rule_match values (rule_outbound rule) []
      else elim (first_resolved (ip ∷ more) rule.ip) [
        | none ↦ no_match
        | some (s, resolved) ↦
            build_rule_match (values ++ s ∷ []) (rule_outbound rule)
              (txt "resolved IP: " ++ resolved)
      ])

  -- The condition on the address, of a target that is a name.
  unfoldable pub match_by_lookup : Text → Probe → FieldRule → List Text → RuleMatch
  unfolding resolve_routing_ips to_string_slice text_eq match_resolved append_routing_note
      build_rule_match rule_outbound
  match_by_lookup strategy p rule values =
      if not (has_values rule.ip)
      then build_rule_match values (rule_outbound rule) []
      else if text_eq strategy (txt "ipondemand")
      then elim (resolve_routing_ips p.host) [
        | lookup_error e ↦ no_match
        | addresses ips ↦ elim (match_resolved ips p rule) [
          | matched s outbound note ↦
              matched s outbound
                (append_routing_note note (txt "matched resolved IP using IPOnDemand"))
          | _ ↦ no_match
        ]
      ]
      else if text_eq strategy (txt "ipifnonmatch")
      then defer_ip
      else no_match

  -- A target that is an address.
  unfoldable pub match_address : Probe → FieldRule → List Text → RuleMatch
  unfolding to_string_slice rule_matches_ip build_rule_match rule_outbound
  match_address p rule values =
      if has_values rule.domain
      then no_match
      else if has_values rule.ip
      then elim (rule_matches_ip net p.host rule.ip) [
        | met s ↦ build_rule_match (values ++ s ∷ []) (rule_outbound rule) []
        | _ ↦ no_match
      ]
      else build_rule_match values (rule_outbound rule) []

  -- A target that is a name.
  unfoldable pub match_name : Text → Probe → FieldRule → List Text → RuleMatch
  unfolding to_string_slice rule_matches_domain match_by_lookup one_of build_rule_match
      rule_outbound
  match_name strategy p rule values =
      if not (has_values rule.domain)
      then match_by_lookup strategy p rule values
      else elim (rule_matches_domain net p.host rule.domain) [
        | met s ↦
            if has_values rule.ip
            then match_by_lookup strategy p rule (values ++ s ∷ [])
            else build_rule_match (values ++ s ∷ []) (rule_outbound rule) []
        | _ ↦
            if has_values rule.ip && one_of strategy (txt "ipifnonmatch" ∷ txt "ipondemand" ∷ [])
            then match_by_lookup strategy p rule values
            else no_match
      ]

  unfoldable pub match_routing_rule : Text → Probe → FieldRule → RuleMatch
  unfolding check_connection trim_space folded match_address match_name
  match_routing_rule strategy p rule = check_connection p rule (λ values.
      elim (net.parse_ip (trim_space p.host)) [
        | some ip ↦ match_address p rule values
        | none ↦ match_name (folded strategy) p rule values
      ])
