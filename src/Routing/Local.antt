-- ===== src/Routing/Local.antt =====
-- Local targets under the generated rules.
use mathlib.Core.Path.{subst}
use v2ray_e.Base.{
  ℕ, suc, ◌≡◌, ◌∙◌, refl, sym, ap, Bool, true, List, [], ◌∷◌, ◌++◌, none, some, if◌then◌else◌, drop,
}
use v2ray_e.Base.Text.{Text, txt, text_eq, trim_space, has_prefix, trim_prefix, to_lower, contains}
use v2ray_e.Core.Config.{Config, folded}
use v2ray_e.Routing.Rules.{
  FieldRule, RoutingConfig, routing_local_bypass_enabled, routing_domain_strategy, api_rule,
  localhost_rule, loopback_rule, local_rules, build_routing_rules, forced_rules, mode_rules,
  custom_rules, default_rules,
}
use v2ray_e.Routing.Match.{
  Net, Probe, Checked, unmet, met, RuleMatch, no_match, matched, to_string_slice,
  rule_matches_inbound_tag, rule_matches_protocol, rule_matches_port, rule_matches_domain,
  rule_matches_ip, first_met, domain_test, ip_test, rule_outbound, build_rule_match,
  check_connection, and_then, match_routing_rule, match_address, match_name,
}
use v2ray_e.Routing.Ports.{and_then-unmet}
use v2ray_e.Routing.Scan.{
  Found, found, scan, next_rule, settle, base_result, probe_of, test_routing, RoutingTestRequest,
}

-- A target of this machine: the name "localhost", or an address of 127.0.0.0/8. The name is no address.
pub data IsLocal (net : Net) (host : Text) : Type 0 where
  by_name : host ≡ txt "localhost" → net.parse_ip (txt "localhost") ≡ none → IsLocal net host
  by_address :
      (ip : net.Ip)
      → net.parse_ip (trim_space host) ≡ some ip
      → net.cidr_contains (txt "127.0.0.0/8") ip ≡ true
      → IsLocal net host

module _ (net : Net) (strategy : Text) where
  -- A rule that is matched for the direct outbound.
  Direct : RuleMatch → Type 0
  Direct m = (v : Text) × (note : Text) × (m ≡ matched v (txt "direct") note)

  api_unmet :
      (p : Probe)
      → rule_matches_inbound_tag p.inbound_tag api_rule.inbound_tag ≡ unmet
      → match_routing_rule net strategy p api_rule ≡ no_match
  unfolding match_routing_rule check_connection and_then
  api_unmet p h =
      and_then-unmet (rule_matches_inbound_tag p.inbound_tag api_rule.inbound_tag) [] _ h

  domain_met :
      net.parse_ip (txt "localhost") ≡ none
      → rule_matches_domain net (txt "localhost") localhost_rule.domain ≡ met (txt "full:localhost")
  unfolding rule_matches_domain folded to_string_slice first_met domain_test text_eq has_prefix
      trim_prefix drop trim_space to_lower
  domain_met h =
      ap (λ o. elim o as (λ _. Checked) [ some ip ↦ unmet | none ↦ met (txt "full:localhost") ]) h

  ip_met :
      (host : Text) (ip : net.Ip)
      → net.parse_ip (trim_space host) ≡ some ip
      → net.cidr_contains (txt "127.0.0.0/8") ip ≡ true
      → rule_matches_ip net host loopback_rule.ip ≡ met (txt "127.0.0.0/8")
  unfolding rule_matches_ip folded to_string_slice first_met ip_test text_eq has_prefix contains
      trim_space to_lower
  ip_met host ip h inside =
      ap
        (λ o. elim o as (λ _. Checked) [
          | none ↦ unmet
          | some q ↦
              first_met (λ s. ip_test net q (folded s)) (txt "127.0.0.0/8" ∷ txt "::1/128" ∷ [])
        ])
        h
      ∙ ap
          (λ b.
            if b
            then met (txt "127.0.0.0/8")
            else first_met (λ s. ip_test net ip (folded s)) (txt "::1/128" ∷ []))
          inside

  localhost-Direct :
      (p : Probe)
      → net.parse_ip (txt "localhost") ≡ none
      → Direct
          (match_routing_rule net strategy (record p { host = txt "localhost" }) localhost_rule)
  unfolding Direct match_routing_rule check_connection and_then rule_matches_inbound_tag
      rule_matches_protocol rule_matches_port to_string_slice trim_space match_name
      rule_matches_domain folded first_met domain_test build_rule_match rule_outbound text_eq
      has_prefix trim_prefix
  localhost-Direct p h = (txt "full:localhost", [], rw h (rw (domain_met h, match_name) refl))

  localhost_not :
      (p : Probe) (ip : net.Ip)
      → net.parse_ip (trim_space p.host) ≡ some ip
      → match_routing_rule net strategy p localhost_rule ≡ no_match
  unfolding match_routing_rule check_connection and_then rule_matches_inbound_tag
      rule_matches_protocol rule_matches_port to_string_slice match_address
  localhost_not p ip h = rw h refl

  loopback-Direct :
      (p : Probe) (ip : net.Ip)
      → net.parse_ip (trim_space p.host) ≡ some ip
      → net.cidr_contains (txt "127.0.0.0/8") ip ≡ true
      → Direct (match_routing_rule net strategy p loopback_rule)
  unfolding Direct match_routing_rule check_connection and_then rule_matches_inbound_tag
      rule_matches_protocol rule_matches_port to_string_slice match_address rule_matches_ip folded
      first_met ip_test build_rule_match rule_outbound text_eq has_prefix trim_prefix contains
  loopback-Direct p ip h inside =
      (txt "127.0.0.0/8", [], rw h (rw (ip_met p.host ip h inside, match_address) refl))

  -- The loop finds a rule for the direct outbound.
  FindsDirect : Found → Type 0
  FindsDirect f =
      (i : ℕ) × (r : FieldRule) × (v : Text) × (note : Text) × (f ≡ found i r v (txt "direct") note)

  scan-skips :
      (p : Probe) (i : ℕ) (r : FieldRule) (rules : List FieldRule)
      → match_routing_rule net strategy p r ≡ no_match
      → FindsDirect (scan net strategy p (suc i) rules)
      → FindsDirect (scan net strategy p i (r ∷ rules))
  unfolding scan
  scan-skips p i r rules h f =
      subst FindsDirect (sym (ap (λ m. next_rule i r m (scan net strategy p (suc i) rules)) h)) f

  scan-takes :
      (p : Probe) (i : ℕ) (r : FieldRule) (rules : List FieldRule)
      → Direct (match_routing_rule net strategy p r)
      → FindsDirect (scan net strategy p i (r ∷ rules))
  unfolding scan FindsDirect Direct
  scan-takes p i r rules (v, note, h) =
      (i, r, v, note, ap (λ m. next_rule i r m (scan net strategy p (suc i) rules)) h)

  scan-local :
      (p : Probe) (rules : List FieldRule)
      → rule_matches_inbound_tag p.inbound_tag api_rule.inbound_tag ≡ unmet
      → IsLocal net p.host
      → FindsDirect (scan net strategy p 0 (api_rule ∷ localhost_rule ∷ loopback_rule ∷ rules))
  scan-local p rules h (by_name e n) = scan-skips p 0 api_rule _ (api_unmet p h) (
      scan-takes p 1 localhost_rule _ (
        subst
          (λ host.
            Direct (match_routing_rule net strategy (record p { host = host }) localhost_rule))
          (sym e) (localhost-Direct p n)))
  scan-local p rules h (by_address ip e inside) = scan-skips p 0 api_rule _ (api_unmet p h) (
      scan-skips p 1 localhost_rule _ (localhost_not p ip e)
        (scan-takes p 2 loopback_rule _ (loopback-Direct p ip e inside)))

-- Unless the bypass of local targets is switched off, the test sends this machine's name and its addresses in
-- 127.0.0.0/8 to the direct outbound, under every mode, every configuration and all rules of the user's, for
-- a connection that does not come in on the inbound of the API.
pub test_routing-local :
    (net : Net) (cfg : Config) (routing : RoutingConfig) (has_geoip has_geosite : Bool)
    (req : RoutingTestRequest)
    → routing_local_bypass_enabled routing ≡ true
    → rule_matches_inbound_tag (probe_of net req).inbound_tag api_rule.inbound_tag ≡ unmet
    → IsLocal net (probe_of net req).host
    → (test_routing net routing
        (build_routing_rules cfg routing has_geoip has_geosite)
        req).outbound
      ≡ txt "direct"
unfolding test_routing build_routing_rules local_rules settle FindsDirect
test_routing-local net cfg routing has_geoip has_geosite req on tag local =
    let rest =
      forced_rules cfg
      ++ (mode_rules routing.mode has_geoip has_geosite
          ++ (custom_rules has_geoip has_geosite routing.rules ++ default_rules routing.mode)) in
    let here : local_rules routing ≡ localhost_rule ∷ loopback_rule ∷ [] =
      ap (λ b. if b then localhost_rule ∷ loopback_rule ∷ [] else []) on in
    let (i, r, v, note, e) =
      scan-local net (routing_domain_strategy routing) (probe_of net req) rest tag local in
    subst (λ l. (test_routing net routing (api_rule ∷ (l ++ rest)) req).outbound ≡ txt "direct")
      (sym here)
      (ap (λ f. (settle net routing (probe_of net req) f (base_result net req)).outbound) e)
