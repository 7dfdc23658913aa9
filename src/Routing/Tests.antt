-- ===== src/Routing/Tests.antt =====
-- The theorems on routing at concrete inputs, and tests of single targets.
use v2ray_e.Base.{◌≡◌, refl, true, false, ◌&&◌, ◌||◌, List, [], ◌∷◌, none, some, if◌then◌else◌}
use v2ray_e.Base.Int.{pos}
use v2ray_e.Base.Text.{Text, txt, text_eq, trim_space}
use v2ray_e.Core.Config.{Config}
use v2ray_e.Routing.Rules.{
  RoutingRule, RoutingConfig, FieldRule, api_rule, build_routing_rules, custom_rule,
}
use v2ray_e.Routing.Match.{
  Net, addresses, Probe, unmet, no_match, rule_matches_inbound_tag, match_routing_rule,
}
use v2ray_e.Routing.Scan.{RoutingTestRequest, probe_of, test_routing}
use v2ray_e.Routing.First.{Chosen, first_applying, test_routing-first}
use v2ray_e.Routing.Ports.{custom_rule-ports_unmatched}
use v2ray_e.Routing.Local.{IsLocal, by_name, test_routing-local}

-- Addresses are their texts, and only those of a short list are addresses.
abbrev small_net : Net
small_net = record {
  Ip = Text;
  parse_ip =
      λ s. if text_eq s (txt "127.0.0.1") || text_eq s (txt "10.1.2.3") then some s else none;
  ip_text = λ ip. ip;
  is_private = λ ip. text_eq ip (txt "10.1.2.3");
  is_loopback = λ ip. text_eq ip (txt "127.0.0.1");
  cidr_contains = λ prefix ip. text_eq prefix (txt "127.0.0.0/8") && text_eq ip (txt "127.0.0.1");
  geo_ip_matches = λ code ip. false;
  builtin_cn_contains = λ ip. false;
  lookup_ip_addr = λ host. addresses [];
  split_host_port = λ s. none;
}

abbrev no_settings : Config
no_settings key = none

abbrev lan_rule : RoutingRule
lan_rule = record {
  id = txt "r1";
  kind = txt "ip";
  values = txt "10.1.2.3" ∷ [];
  outbound = txt "block";
}

abbrev own_rules : RoutingConfig
own_rules = record {
  mode = txt "custom";
  domain_strategy = [];
  local_bypass_enabled = none;
  rules = lan_rule ∷ [];
}

abbrev request : Text → RoutingTestRequest
request target = record { target = target; protocol = []; port = pos 443; inbound_tag = [] }

abbrev rules : List FieldRule
rules = build_routing_rules no_settings own_rules true true

lan-address :
    small_net.parse_ip (trim_space (probe_of small_net (request (txt "10.1.2.3"))).host)
    ≡ some (txt "10.1.2.3")
unfolding probe_of trim_space text_eq
lan-address = refl

test_routing-first_example :
    Chosen small_net own_rules
      (first_applying small_net (probe_of small_net (request (txt "10.1.2.3"))) 0 rules)
      (test_routing small_net own_rules rules (request (txt "10.1.2.3")))
test_routing-first_example =
    test_routing-first small_net own_rules rules (request (txt "10.1.2.3")) (txt "10.1.2.3")
      lan-address

api_not_asked :
    rule_matches_inbound_tag
      (probe_of small_net (request (txt "localhost"))).inbound_tag
      api_rule.inbound_tag
    ≡ unmet
unfolding probe_of rule_matches_inbound_tag text_eq
api_not_asked = refl

localhost-IsLocal : IsLocal small_net (probe_of small_net (request (txt "localhost"))).host
unfolding probe_of text_eq trim_space
localhost-IsLocal = by_name refl refl

test_routing-local_example :
    (test_routing small_net own_rules rules (request (txt "localhost"))).outbound ≡ txt "direct"
test_routing-local_example =
    test_routing-local small_net no_settings own_rules true true (request (txt "localhost")) refl
      api_not_asked localhost-IsLocal

-- A connection to port 443, under a rule on the ports 80 and 443.
abbrev web_probe : Probe
web_probe = record {
  host = txt "example.org";
  port = pos 443;
  protocol = txt "tcp";
  inbound_tag = [];
}

custom_rule-ports_unmatched_example :
    (r : FieldRule) × (custom_rule true true (record {
      id = txt "r1";
      kind = txt "port";
      values = txt "80" ∷ txt "443" ∷ [];
      outbound = txt "direct";
    })
      ≡ some r)
    × (match_routing_rule small_net (txt "AsIs") web_probe r ≡ no_match)
custom_rule-ports_unmatched_example =
    custom_rule-ports_unmatched true true (txt "r1") (txt "direct") (txt "80") (txt "443") []
      small_net (txt "AsIs") web_probe
