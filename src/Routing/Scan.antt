-- ===== src/Routing/Scan.antt =====
-- The test of a target against the generated rules (routing_test_tool.go).
use v2ray_e.Base.{ℕ, suc, List, [], ◌∷◌, ◌++◌, none, some, ◌==◌, if◌then◌else◌}
use v2ray_e.Base.Int.{ℤ, pos}
use v2ray_e.Base.Text.{Text, txt, text_eq, trim_space, cut, atoi}
use v2ray_e.Base.Text.Decimal.{itoa}
use v2ray_e.Routing.Rules.{FieldRule, RoutingConfig, routing_domain_strategy}
use v2ray_e.Routing.Match.{
  Net, addresses, lookup_error, Probe, RuleMatch, no_match, defer_ip, matched, match_routing_rule,
  match_resolved, resolve_routing_ips, append_routing_note, le_ℤ,
}

-- What the loop over the rules finds: the rule that matches with its index, or the rules that wait for the
-- addresses of the target.
pub data Found : Type 0 where
  found : ℕ → FieldRule → Text → Text → Text → Found
  deferred : List (ℕ × FieldRule) → Found

abbrev pub and_defer : ℕ → FieldRule → Found → Found
and_defer i r (found j rule value outbound note) = found j rule value outbound note
and_defer i r (deferred waiting) = deferred ((i, r) ∷ waiting)

abbrev pub next_rule : ℕ → FieldRule → RuleMatch → Found → Found
next_rule i r no_match rest = rest
next_rule i r defer_ip rest = and_defer i r rest
next_rule i r (matched value outbound note) rest = found i r value outbound note

pub record RoutingTestRequest : Type 0 where
  pub target : Text
  pub protocol : Text
  pub port : ℤ
  pub inbound_tag : Text

-- `kind` is the type of the target.
pub record RoutingTestResult : Type 0 where
  pub target : Text
  pub kind : Text
  pub inbound_tag : Text
  pub matched_rule : Text
  pub matched_value : Text
  pub outbound : Text
  pub action : Text
  pub rule_index : ℕ
  pub protocol : Text
  pub port : ℤ
  pub resolved_ips : List Text
  pub note : Text

-- `routingRuleName` of a generated rule.
unfoldable pub rule_name : ℕ → Text
unfolding itoa
rule_name i = txt "field-" ++ itoa (suc i)

abbrev pub with_match : ℕ → Text → Text → Text → RoutingTestResult → RoutingTestResult
with_match i value outbound note r = record r {
  rule_index = suc i;
  matched_rule = rule_name i;
  matched_value = value;
  outbound = outbound;
  action = outbound;
  note = note;
}

-- The end of the test, where no rule has matched.
unfoldable pub by_default : Text → RoutingTestResult → RoutingTestResult
unfolding text_eq append_routing_note
by_default mode r =
    if text_eq mode (txt "direct")
    then record r {
      outbound = txt "direct";
      action = txt "direct";
      note = txt "default direct mode";
    }
    else record r {
      note = append_routing_note r.note (txt "no explicit rule matched; default outbound applied");
    }

unfoldable pub count_byte : ℕ → Text → ℕ
count_byte b [] = 0
count_byte b (c ∷ s) = let rest = count_byte b s in if c == b then suc rest else rest

module _ (net : Net) where
  -- `parseRoutingTarget`
  unfoldable pub parse_routing_target : Text → ℤ → Text × ℤ
  unfolding trim_space text_eq atoi count_byte cut
  parse_routing_target raw fallback_port =
      let target = trim_space raw in
      if text_eq target []
      then ([], fallback_port)
      else elim (net.split_host_port target) as (λ _. Text × ℤ) [
        | some (host, port_raw) ↦ elim (atoi port_raw) as (λ _. Text × ℤ) [
          | some parsed ↦ (host, parsed)
          | none ↦ (host, fallback_port)
        ]
        | none ↦
            if count_byte b':' target == 1
            then elim (cut b':' target) as (λ _. Text × ℤ) [
              | none ↦ (target, fallback_port)
              | some (a, b) ↦ elim (atoi b) as (λ _. Text × ℤ) [
                | some parsed ↦ (a, parsed)
                | none ↦ (target, fallback_port)
              ]
            ]
            else (target, fallback_port)
      ]

  unfoldable pub infer_target_type : Text → Text
  unfolding parse_routing_target text_eq
  infer_target_type target =
      let host = (parse_routing_target target (pos 0)).0 in
      elim (net.parse_ip host) [
        | some ip ↦ txt "ip"
        | none ↦ if text_eq host [] then txt "unknown" else txt "domain"
      ]

  unfoldable pub scan : Text → Probe → ℕ → List FieldRule → Found
  unfolding match_routing_rule
  scan strategy p i [] = deferred []
  scan strategy p i (r ∷ rules) =
      next_rule i r (match_routing_rule net strategy p r) (scan strategy p (suc i) rules)

  -- The rules that waited, against the resolved addresses.
  unfoldable pub scan_resolved : List Text → Probe → List (ℕ × FieldRule) → Found
  unfolding match_resolved
  scan_resolved ips p [] = deferred []
  scan_resolved ips p ((i, r) ∷ waiting) =
      next_rule i r (match_resolved net ips p r) (scan_resolved ips p waiting)

  -- The second pass.
  unfoldable pub test_deferred :
      RoutingConfig → Probe → List (ℕ × FieldRule) → RoutingTestResult → RoutingTestResult
  unfolding resolve_routing_ips scan_resolved append_routing_note rule_name by_default
  test_deferred routing p [] r = by_default routing.mode r
  test_deferred routing p (w ∷ waiting) r = elim (resolve_routing_ips net p.host) [
    | lookup_error e ↦ by_default routing.mode (record r {
      note = append_routing_note r.note (txt "IP-based routing check skipped: " ++ e);
    })
    | addresses [] ↦ by_default routing.mode r
    | addresses (ip ∷ more) ↦
        let resolved = record r { resolved_ips = ip ∷ more } in
        elim (scan_resolved (ip ∷ more) p (w ∷ waiting)) [
          | deferred _ ↦ by_default routing.mode resolved
          | found i rule value outbound note ↦
              with_match i value outbound
                (append_routing_note
                  (append_routing_note (txt "field")
                    (txt "matched resolved IP using " ++ routing_domain_strategy routing))
                  note)
                resolved
        ]
  ]

  -- The connection that is tested, `tcp` where no protocol is named.
  unfoldable pub probe_of : RoutingTestRequest → Probe
  unfolding trim_space text_eq parse_routing_target
  probe_of req =
      let (host, port) = parse_routing_target (trim_space req.target) req.port in
      record {
        host = host;
        port = port;
        protocol =
            if text_eq (trim_space req.protocol) [] then txt "tcp" else trim_space req.protocol;
        inbound_tag = trim_space req.inbound_tag;
      }

  -- The result before any rule is looked at.
  unfoldable pub base_result : RoutingTestRequest → RoutingTestResult
  unfolding trim_space infer_target_type probe_of
  base_result req =
      let probe = probe_of req in
      record {
        target = trim_space req.target;
        kind = infer_target_type (trim_space req.target);
        inbound_tag = probe.inbound_tag;
        matched_rule = [];
        matched_value = [];
        outbound = txt "proxy";
        action = txt "proxy";
        rule_index = 0;
        protocol = probe.protocol;
        port = if le_ℤ probe.port (pos 0) then req.port else probe.port;
        resolved_ips = [];
        note = [];
      }

  -- The result of the first pass, or that of the second.
  unfoldable pub settle : RoutingConfig → Probe → Found → RoutingTestResult → RoutingTestResult
  unfolding test_deferred append_routing_note rule_name
  settle routing probe (found i rule value outbound note) base =
      with_match i value outbound (append_routing_note (txt "field") note) base
  settle routing probe (deferred waiting) base = test_deferred routing probe waiting base

  -- `TestRouting`, against the rules that `GetRoutingDiagnostics` returns.
  unfoldable pub test_routing :
      RoutingConfig → List FieldRule → RoutingTestRequest → RoutingTestResult
  unfolding scan probe_of base_result settle
  test_routing routing rules req =
      settle routing (probe_of req) (scan (routing_domain_strategy routing) (probe_of req) 0 rules)
        (base_result req)
