-- ===== src/Routing/Rules.antt =====
-- The rules that are generated for the core (config_gen.go, domain/types.go).
use v2ray_e.Base.{Bool, true, List, [], ◌∷◌, ◌++◌, map, Option, none, some, if◌then◌else◌}
use v2ray_e.Base.Text.{Text, txt, text_eq, join}
use v2ray_e.Core.Config.{Config, str_cfg, folded, one_of}

pub record RoutingRule : Type 0 where
  pub id : Text
  pub kind : Text
  pub values : List Text
  pub outbound : Text

-- `local_bypass_enabled` is `none` where it is not set.
pub record RoutingConfig : Type 0 where
  pub mode : Text
  pub domain_strategy : Text
  pub local_bypass_enabled : Option Bool
  pub rules : List RoutingRule

-- A field of a rule: missing, a string, or a list of strings.
pub data RuleValue : Type 0 where
  absent : RuleValue
  one : Text → RuleValue
  many : List Text → RuleValue

-- A rule of the type "field", as it is generated.
pub record FieldRule : Type 0 where
  pub inbound_tag : RuleValue
  pub network : RuleValue
  pub protocol : RuleValue
  pub port : RuleValue
  pub domain : RuleValue
  pub ip : RuleValue
  pub outbound_tag : Text

abbrev pub to_outbound : Text → FieldRule
to_outbound outbound = record {
  inbound_tag = absent;
  network = absent;
  protocol = absent;
  port = absent;
  domain = absent;
  ip = absent;
  outbound_tag = outbound;
}

abbrev pub builtin_cn_ips : List Text
builtin_cn_ips =
    txt "1.0.1.0/24"
    ∷ txt "1.2.4.0/24"
    ∷ txt "14.102.0.0/21"
    ∷ txt "14.196.0.0/16"
    ∷ txt "27.0.0.0/10"
    ∷ txt "27.36.0.0/14"
    ∷ txt "27.116.0.0/14"
    ∷ txt "27.176.0.0/12"
    ∷ txt "36.32.0.0/12"
    ∷ txt "36.152.0.0/12"
    ∷ txt "42.0.0.0/8"
    ∷ txt "42.176.0.0/12"
    ∷ txt "58.14.0.0/15"
    ∷ txt "58.16.0.0/13"
    ∷ txt "60.0.0.0/10"
    ∷ txt "101.0.0.0/10"
    ∷ txt "103.0.0.0/10"
    ∷ txt "106.0.0.0/8"
    ∷ txt "110.0.0.0/7"
    ∷ txt "112.0.0.0/6"
    ∷ txt "116.0.0.0/6"
    ∷ txt "120.0.0.0/6"
    ∷ txt "123.0.0.0/8"
    ∷ txt "124.0.0.0/7"
    ∷ txt "140.64.0.0/11"
    ∷ txt "175.0.0.0/8"
    ∷ txt "180.64.0.0/10"
    ∷ txt "182.0.0.0/8"
    ∷ txt "202.0.0.0/9"
    ∷ txt "210.0.0.0/10"
    ∷ txt "218.0.0.0/8"
    ∷ txt "221.0.0.0/9"
    ∷ txt "222.0.0.0/8"
    ∷ txt "223.0.0.0/8"
    ∷ []

unfoldable pub local_proxy_traffic_mode : Config → Text
unfolding folded str_cfg one_of
local_proxy_traffic_mode cfg =
    if one_of (folded (str_cfg cfg (txt "localProxyMode") (txt "follow-routing")))
      (txt "force-proxy" ∷ txt "force_proxy" ∷ txt "proxy" ∷ txt "always-proxy" ∷ [])
    then txt "force-proxy"
    else txt "follow-routing"

abbrev pub routing_local_bypass_enabled : RoutingConfig → Bool
routing_local_bypass_enabled routing = elim routing.local_bypass_enabled [
  | none ↦ true
  | some b ↦ b
]

abbrev pub routing_domain_strategy : RoutingConfig → Text
routing_domain_strategy routing =
    if text_eq routing.domain_strategy [] then txt "IPIfNonMatch" else routing.domain_strategy

abbrev pub api_rule : FieldRule
api_rule = record (to_outbound (txt "api")) { inbound_tag = many (txt "api" ∷ []) }

abbrev pub localhost_rule : FieldRule
localhost_rule = record (to_outbound (txt "direct")) { domain = many (txt "full:localhost" ∷ []) }

abbrev pub loopback_rule : FieldRule
loopback_rule = record (to_outbound (txt "direct")) {
  ip = many (txt "127.0.0.0/8" ∷ txt "::1/128" ∷ []);
}

unfoldable pub local_rules : RoutingConfig → List FieldRule
local_rules routing =
    if routing_local_bypass_enabled routing then localhost_rule ∷ loopback_rule ∷ [] else []

unfoldable pub forced_rules : Config → List FieldRule
unfolding local_proxy_traffic_mode text_eq
forced_rules cfg =
    if text_eq (local_proxy_traffic_mode cfg) (txt "force-proxy")
    then record (to_outbound (txt "proxy")) { inbound_tag = many (txt "http" ∷ txt "socks" ∷ []) }
      ∷ []
    else []

abbrev pub ip_rule : List Text → FieldRule
ip_rule values = record (to_outbound (txt "direct")) { ip = many values }

abbrev pub private_ips : Bool → List Text
private_ips has_geoip =
    if has_geoip
    then txt "geoip:private" ∷ []
    else txt "10.0.0.0/8"
      ∷ txt "172.16.0.0/12"
      ∷ txt "192.168.0.0/16"
      ∷ txt "127.0.0.0/8"
      ∷ txt "169.254.0.0/16"
      ∷ txt "::1/128"
      ∷ txt "fe80::/10"
      ∷ txt "fc00::/7"
      ∷ []

-- The rules of a mode in front of those of the user, and behind them.
unfoldable pub mode_rules : Text → Bool → Bool → List FieldRule
unfolding text_eq
mode_rules mode has_geoip has_geosite =
    if text_eq mode (txt "bypass_cn")
    then ip_rule (private_ips has_geoip)
      ∷ (if has_geoip then ip_rule (txt "geoip:cn" ∷ []) else ip_rule builtin_cn_ips)
      ∷ (if has_geosite
          then record (to_outbound (txt "direct")) { domain = many (txt "geosite:cn" ∷ []) } ∷ []
          else [])
    else []

unfoldable pub default_rules : Text → List FieldRule
unfolding text_eq
default_rules mode =
    if text_eq mode (txt "direct")
    then record (to_outbound (txt "direct")) { network = one (txt "tcp,udp") } ∷ []
    else []

-- The rule of the user's, `none` where its geo data is missing.
unfoldable pub custom_rule : Bool → Bool → RoutingRule → Option FieldRule
unfolding text_eq join
custom_rule has_geoip has_geosite rule =
    let r = to_outbound rule.outbound in
    if text_eq rule.kind (txt "domain")
    then some (record r { domain = many rule.values })
    else if text_eq rule.kind (txt "ip")
    then some (record r { ip = many rule.values })
    else if text_eq rule.kind (txt "geoip")
    then (if has_geoip
        then some (record r { ip = many (map (λ v. txt "geoip:" ++ v) rule.values) })
        else none)
    else if text_eq rule.kind (txt "geosite")
    then (if has_geosite
        then some (record r { domain = many (map (λ v. txt "geosite:" ++ v) rule.values) })
        else none)
    else if text_eq rule.kind (txt "port")
    then some (record r { port = one (join (txt ",") rule.values) })
    else if text_eq rule.kind (txt "protocol")
    then some (record r { protocol = many rule.values })
    else some r

unfoldable pub custom_rules : Bool → Bool → List RoutingRule → List FieldRule
unfolding custom_rule
custom_rules has_geoip has_geosite [] = []
custom_rules has_geoip has_geosite (rule ∷ rules) =
    let rest = custom_rules has_geoip has_geosite rules in
    elim (custom_rule has_geoip has_geosite rule) [ none ↦ rest | some r ↦ r ∷ rest ]

unfoldable pub build_routing_rules : Config → RoutingConfig → Bool → Bool → List FieldRule
unfolding local_rules forced_rules mode_rules custom_rules default_rules
build_routing_rules cfg routing has_geoip has_geosite =
    api_rule ∷ local_rules routing
    ++ (forced_rules cfg
        ++ (mode_rules routing.mode has_geoip has_geosite
            ++ (custom_rules has_geoip has_geosite routing.rules ++ default_rules routing.mode)))
