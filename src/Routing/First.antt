-- ===== src/Routing/First.antt =====
-- The test of an address against the rules is the search for the first rule that applies to it.
use mathlib.Core.Path.{subst}
use v2ray_e.Base.{
  ℕ, suc, ◌≡◌, refl, sym, ap, Bool, true, false, not, ◌&&◌, ◌||◌, List, [], ◌∷◌, ◌++◌, Option, none,
  some, arith, Bool-cases, inl, inr, if◌then◌else◌,
}
use v2ray_e.Base.Text.{Text, txt, text_eq, trim_space}
use v2ray_e.Core.Config.{folded}
use v2ray_e.Routing.Rules.{FieldRule, RoutingConfig, routing_domain_strategy}
use v2ray_e.Routing.Match.{
  Net, Probe, Checked, unspecified, unmet, met, RuleMatch, no_match, matched, has_values,
  to_string_slice, rule_matches_inbound_tag, rule_matches_protocol, rule_matches_port,
  rule_matches_ip, rule_outbound, check_connection, and_then, build_rule_match, match_address,
  match_routing_rule, match_name,
}
use v2ray_e.Routing.Scan.{
  Found, found, deferred, next_rule, scan, RoutingTestRequest, RoutingTestResult, probe_of,
  base_result, settle, test_deferred, by_default, test_routing,
}

-- The condition is not broken, and it says something.
unfoldable pub allows : Checked → Bool
allows unmet = false
allows unspecified = true
allows (met s) = true

unfoldable pub says : Checked → Bool
says unspecified = false
says unmet = true
says (met s) = true

said : Checked → List Text
said (met s) = s ∷ []
said _ = []

is_filled : List Text → Bool
is_filled [] = false
is_filled (s ∷ more) = true

is_filled-append : (l m : List Text) → is_filled (l ++ m) ≡ (is_filled l || is_filled m)
unfolding is_filled
is_filled-append [] m = refl
is_filled-append (s ∷ l) m = refl

or_false : (b : Bool) → (b || false) ≡ b
or_false true = refl
or_false false = refl

-- What a rule with these values says.
abbrev Fires : Bool → Text → RuleMatch → Type 0
Fires true o m = (v : Text) × (m ≡ matched v o [])
Fires false o m = m ≡ no_match

build_rule_match-Fires :
    (l : List Text) (o : Text) → Fires (is_filled l) o (build_rule_match l o [])
unfolding build_rule_match is_filled
build_rule_match-Fires [] o = refl
build_rule_match-Fires (s ∷ []) o = (s, refl)
build_rule_match-Fires (s ∷ t ∷ more) o = build_rule_match-Fires (t ∷ more) o

and_then-Fires :
    (x : Checked) (l : List Text) (o : Text) (next : List Text → RuleMatch) (rest : Bool → Bool)
    → ((m : List Text) → Fires (rest (is_filled m)) o (next m))
    → Fires (allows x && rest (is_filled l || says x)) o (and_then x l next)
unfolding and_then allows says is_filled
and_then-Fires unspecified l o next rest f =
    subst (λ b. Fires (rest b) o (next l)) (sym (or_false (is_filled l))) (f l)
and_then-Fires unmet l o next rest f = refl
and_then-Fires (met s) l o next rest f =
    subst (λ b. Fires (rest b) o (next (l ++ s ∷ []))) (is_filled-append l (s ∷ []))
      (f (l ++ s ∷ []))

-- The condition on the address: what its test says, where there is one.
abbrev asked : Bool → Checked → Checked
asked has_ip c = if has_ip then elim c [ met s ↦ met s | _ ↦ unmet ] else unspecified

address-Fires :
    (named has_ip : Bool) (c : Checked) (l : List Text) (o : Text)
    → Fires (not named && (allows (asked has_ip c) && (is_filled l || says (asked has_ip c)))) o (
        if named
        then no_match
        else if has_ip
        then elim c as (λ _. RuleMatch) [
          | met s ↦ build_rule_match (l ++ s ∷ []) o []
          | _ ↦ no_match
        ]
        else build_rule_match l o [])
unfolding allows says is_filled
address-Fires true has_ip c l o = refl
address-Fires false true unspecified l o = refl
address-Fires false true unmet l o = refl
address-Fires false true (met s) l o =
    subst (λ b. Fires b o (build_rule_match (l ++ s ∷ []) o [])) (is_filled-append l (s ∷ []))
      (build_rule_match-Fires (l ++ s ∷ []) o)
address-Fires false false c l o =
    subst (λ b. Fires b o (build_rule_match l o [])) (sym (or_false (is_filled l)))
      (build_rule_match-Fires l o)

-- The conditions one after the other, and all at once.
flat :
    (n a b c d e : Bool) (v w x y z : Bool)
    → (a && (b && (c && (d && (n && (e && (((((false || v) || w) || x) || y) || z)))))))
      ≡ (n && ((a && (b && (c && (d && e)))) && (v || (w || (x || (y || z))))))
flat n a b c d e v w x y z = ground arith

module _ (net : Net) where
  -- The condition on the address, of a target that is one.
  unfoldable pub ip_condition : Probe → FieldRule → Checked
  unfolding to_string_slice
  ip_condition p rule = asked (has_values rule.ip) (rule_matches_ip net p.host rule.ip)

  -- A rule applies to an address where it asks for no name, none of its conditions is broken, and it has one.
  unfoldable pub applies : Probe → FieldRule → Bool
  unfolding allows says ip_condition to_string_slice
  applies p rule =
      let tag = rule_matches_inbound_tag p.inbound_tag rule.inbound_tag in
      let network = rule_matches_protocol p.protocol rule.network in
      let protocol = rule_matches_protocol p.protocol rule.protocol in
      let port = rule_matches_port p.port rule.port in
      let ip = ip_condition p rule in
      not (has_values rule.domain)
      && ((allows tag && (allows network && (allows protocol && (allows port && allows ip))))
          && (says tag || (says network || (says protocol || (says port || says ip)))))

  unfoldable pub first_applying : Probe → ℕ → List FieldRule → Option (ℕ × FieldRule)
  unfolding applies
  first_applying p i [] = none
  first_applying p i (r ∷ rules) =
      let rest = first_applying p (suc i) rules in if applies p r then some (i, r) else rest

  match-Fires :
      (strategy : Text) (p : Probe) (ip : net.Ip) (r : FieldRule)
      → net.parse_ip (trim_space p.host) ≡ some ip
      → Fires (applies p r) (rule_outbound r) (match_routing_rule net strategy p r)
  unfolding applies match_routing_rule match_address ip_condition check_connection is_filled
  match-Fires strategy p ip r e =
      let tag = rule_matches_inbound_tag p.inbound_tag r.inbound_tag in
      let network = rule_matches_protocol p.protocol r.network in
      let protocol = rule_matches_protocol p.protocol r.protocol in
      let port = rule_matches_port p.port r.port in
      let c = asked (has_values r.ip) (rule_matches_ip net p.host r.ip) in
      let o = rule_outbound r in
      let dom = has_values r.domain in
      subst (λ b. Fires b o (match_routing_rule net strategy p r))
        (flat (not dom) (allows tag) (allows network) (allows protocol) (allows port) (allows c)
          (says tag) (says network) (says protocol) (says port) (says c))
        (and_then-Fires tag [] o _
          (λ t.
            allows network
            && (allows protocol
                && (allows port
                    && (not dom
                        && (allows c
                            && ((((t || says network) || says protocol) || says port)
                                || says c))))))
          (λ l.
            and_then-Fires network l o _
              (λ t.
                allows protocol
                && (allows port
                    && (not dom && (allows c && (((t || says protocol) || says port) || says c)))))
              (λ l.
                and_then-Fires protocol l o _
                  (λ t. allows port && (not dom && (allows c && ((t || says port) || says c))))
                  (λ l.
                    and_then-Fires port l o _ (λ t. not dom && (allows c && (t || says c)))
                      (λ l. at_address l)))))
    where
      at_address :
          (l : List Text)
          → Fires
              (not (has_values r.domain)
                && (allows (asked (has_values r.ip) (rule_matches_ip net p.host r.ip))
                    && (is_filled l
                        || says (asked (has_values r.ip) (rule_matches_ip net p.host r.ip)))))
              (rule_outbound r)
              (elim (net.parse_ip (trim_space p.host)) as (λ _. RuleMatch) [
                | some ip ↦ match_address net p r l
                | none ↦ match_name net (folded strategy) p r l
              ])
      at_address l =
          subst
            (λ o.
              Fires
                (not (has_values r.domain)
                  && (allows (asked (has_values r.ip) (rule_matches_ip net p.host r.ip))
                      && (is_filled l
                          || says (asked (has_values r.ip) (rule_matches_ip net p.host r.ip)))))
                (rule_outbound r)
                (elim o as (λ _. RuleMatch) [
                  | some ip ↦ match_address net p r l
                  | none ↦ match_name net (folded strategy) p r l
                ]))
            (sym e)
            (address-Fires (has_values r.domain) (has_values r.ip) (rule_matches_ip net p.host r.ip)
              l (rule_outbound r))

  -- What the loop finds, against the first rule that applies.
  Agrees : Option (ℕ × FieldRule) → Found → Type 0
  Agrees none f = f ≡ deferred []
  Agrees (some (i, r)) f = (v : Text) × (f ≡ found i r v (rule_outbound r) [])

  -- For a target that is an address, the loop finds the first rule that applies, and no rule waits.
  scan-first :
      (strategy : Text) (p : Probe) (ip : net.Ip) (i : ℕ) (rules : List FieldRule)
      → net.parse_ip (trim_space p.host) ≡ some ip
      → Agrees (first_applying p i rules) (scan net strategy p i rules)
  unfolding first_applying scan Agrees
  scan-first strategy p ip i [] e = refl
  scan-first strategy p ip i (r ∷ rules) e = elim (Bool-cases (applies p r)) [
    | inl here ↦
        let (v, m) =
          subst (λ b. Fires b (rule_outbound r) (match_routing_rule net strategy p r)) here
            (match-Fires strategy p ip r e) in
        rw (here, first_applying)
          (v, ap (λ x. next_rule i r x (scan net strategy p (suc i) rules)) m)
    | inr other ↦
        let m =
          subst (λ b. Fires b (rule_outbound r) (match_routing_rule net strategy p r)) other
            (match-Fires strategy p ip r e) in
        rw (other, first_applying)
          (subst (Agrees (first_applying p (suc i) rules))
            (sym (ap (λ x. next_rule i r x (scan net strategy p (suc i) rules)) m))
            (scan-first strategy p ip (suc i) rules e))
  ]

  -- The result that names the rule, or none and the outbound of the mode.
  pub Chosen : RoutingConfig → Option (ℕ × FieldRule) → RoutingTestResult → Type 0
  unfolding text_eq
  Chosen routing none t =
      (t.rule_index ≡ 0)
      × (t.outbound ≡ (if text_eq routing.mode (txt "direct") then txt "direct" else txt "proxy"))
  Chosen routing (some (i, r)) t = (t.rule_index ≡ suc i) × (t.outbound ≡ rule_outbound r)

  unmatched :
      (routing : RoutingConfig) (req : RoutingTestRequest)
      → Chosen routing none (by_default routing.mode (base_result net req))
  unfolding Chosen by_default base_result
  unmatched routing req = elim (Bool-cases (text_eq routing.mode (txt "direct"))) [
    | inl direct ↦ rw (direct, by_default) (refl, refl)
    | inr other ↦ rw (other, by_default) (refl, refl)
  ]

  settle-Chosen :
      (routing : RoutingConfig) (req : RoutingTestRequest) (o : Option (ℕ × FieldRule)) (f : Found)
      → Agrees o f
      → Chosen routing o (settle net routing (probe_of net req) f (base_result net req))
  unfolding Agrees Chosen settle test_deferred by_default base_result
  settle-Chosen routing req none f e =
      subst
        (λ g. Chosen routing none (settle net routing (probe_of net req) g (base_result net req)))
        (sym e) (unmatched routing req)
  settle-Chosen routing req (some (i, r)) f (v, e) =
      subst
        (λ g.
          Chosen routing (some (i, r))
            (settle net routing (probe_of net req) g (base_result net req)))
        (sym e) (refl, refl)

  -- The test of a target that is an address is the search for the first rule that applies: one that has no
  -- condition on names, at least one condition, and none that the connection breaks. The result has its
  -- index and its outbound; where no rule applies it has none, and the outbound of the mode.
  pub test_routing-first :
      (routing : RoutingConfig) (rules : List FieldRule) (req : RoutingTestRequest) (ip : net.Ip)
      → net.parse_ip (trim_space (probe_of net req).host) ≡ some ip
      → Chosen routing
          (first_applying (probe_of net req) 0 rules)
          (test_routing net routing rules req)
  unfolding test_routing
  test_routing-first routing rules req ip e =
      settle-Chosen routing req (first_applying (probe_of net req) 0 rules)
        (scan net (routing_domain_strategy routing) (probe_of net req) 0 rules)
        (scan-first (routing_domain_strategy routing) (probe_of net req) ip 0 rules e)
