-- ===== src/Tun/Bypass.antt =====
-- The destinations that bypass the TUN: `buildTunPolicyBypassRulesForFamily` and what it calls.
-- `net/netip`, `net.IP` and the resolver are a parameter.
pub mod Exact
use v2ray_e.Base.{
  ℕ, zero, suc, ◌+◌, ◌-◌, ◌*◌, ◌/◌, ◌%◌, ◌^◌, ◌<◌, ◌≤◌, ◌≡◌, ◌≢◌, ◌↔◌, ◌⊎◌, ◌∙◌, refl, sym, ap,
  Bool, true, false, not, ◌&&◌, ◌||◌, List, [], ◌∷◌, ◌++◌, map, Option, none, some, String, arith,
  ltb, leb, ◌==◌, ==_iff, ltb→lt, leb→le, Bool-cases, Option-cases, inl, inr, if◌then◌else◌, length,
  length-append, take, drop, take-append-drop, length-take, length-drop, take-append, drop-append,
  All, All-append, All-take, All-drop,
}
use v2ray_e.Base.Text.{Text, txt, text_eq, trim_space, fields, contains, text_eq_iff}

pub data Family : Type 0 where
  v4 v6 : Family

-- A `net.IP` by its `To4` and `To16`, with the text of the address.
pub data IpForm : Type 0 where
  four sixteen : Text → IpForm
  neither : IpForm

-- `netip.Addr`, `netip.Prefix` and `net.LookupIP`.
pub record Netip : Type 1 where
  pub Addr : Type 0
  pub Prefix : Type 0
  pub parse_addr : Text → Option Addr
  pub parse_prefix : Text → Option Prefix
  pub addr_of : Prefix → Addr
  pub is_4 : Addr → Bool
  pub is_6 : Addr → Bool
  pub addr_string : Addr → Text
  pub prefix_string : Prefix → Text
  pub lookup_ip : Text → Option (List IpForm)

unfoldable pub mem : Text → List Text → Bool
mem t [] = false
mem t (s ∷ ss) = text_eq t s || mem t ss

-- The end of a loop that keeps what it has not seen: the list is the set of what was seen.
unfoldable pub add_new : Text → List Text → List Text
add_new t seen = if mem t seen then seen else seen ++ t ∷ []

-- `ipNetPrefixForFamily`
unfoldable pub ip_net_prefix : Family → IpForm → Option Text
ip_net_prefix v4 (four s) = some (s ++ txt "/32")
ip_net_prefix v6 (sixteen s) = some (s ++ txt "/128")
ip_net_prefix _ _ = none

unfoldable pub prefixes_of : Family → List IpForm → List Text → List Text
unfolding add_new ip_net_prefix
prefixes_of family [] prefixes = prefixes
prefixes_of family (ip ∷ ips) prefixes =
    prefixes_of family ips
      (elim (ip_net_prefix family ip) [ none ↦ prefixes | some p ↦ add_new p prefixes ])

-- One line of the main table: the default route and an empty line are passed over.
unfoldable pub route_destination : List Text → Option Text
route_destination [] = none
route_destination (f ∷ fs) = if text_eq f (txt "default") then none else some f

module _ (net : Netip) where
  open net use {
    Addr, parse_addr, parse_prefix, addr_of, is_4, is_6, addr_string, prefix_string, lookup_ip,
  }

  unfoldable pub addr_matches : Addr → Family → Bool
  addr_matches a v6 = is_6 a
  addr_matches a v4 = is_4 a

  abbrev host_length : Family → Text
  host_length v4 = txt "/32"
  host_length v6 = txt "/128"

  -- The body behind the trimming.
  prefix_of_trimmed : Text → Family → Option Text
  unfolding addr_matches
  prefix_of_trimmed raw family =
      if text_eq raw [] || contains raw (txt "://")
      then none
      else if contains raw (txt "/")
      then (elim (parse_prefix raw) [
        | none ↦ none
        | some p ↦ if not (addr_matches (addr_of p) family) then none else some (prefix_string p)
      ])
      else (elim (parse_addr raw) [
        | none ↦ none
        | some a ↦
            if not (addr_matches a family) then none else some (addr_string a ++ host_length family)
      ])

  -- `parseIPPrefixForFamily`
  unfoldable pub ip_prefix : Text → Family → Option Text
  unfolding prefix_of_trimmed
  ip_prefix raw family = prefix_of_trimmed (trim_space raw) family

  -- `resolveProfileBypassPrefixesForFamily`; no profile is selected at `none`.
  unfoldable pub profile_prefixes : Option Text → Family → List Text
  unfolding ip_prefix prefixes_of
  profile_prefixes none family = []
  profile_prefixes (some address) family = elim (ip_prefix address family) [
    | some p ↦ p ∷ []
    | none ↦ if text_eq (trim_space address) [] then [] else elim (lookup_ip (trim_space address)) [
      | none ↦ []
      | some ips ↦ prefixes_of family ips []
    ]
  ]

  -- The closure `add`.
  unfoldable pub add : Family → Text → List Text → List Text
  unfolding ip_prefix add_new
  add family t rules = elim (ip_prefix t family) [ none ↦ rules | some p ↦ add_new p rules ]

  unfoldable pub add_all : Family → List Text → List Text → List Text
  unfolding add
  add_all family [] rules = rules
  add_all family (t ∷ ts) rules = add_all family ts (add family t rules)

  -- The loops over `dnsList` and `dnsServers`, which parse before they add.
  unfoldable pub add_dns : Family → List Text → List Text → List Text
  unfolding add ip_prefix
  add_dns family [] rules = rules
  add_dns family (raw ∷ raws) rules =
      add_dns family raws
        (elim (ip_prefix raw family) [ none ↦ rules | some p ↦ add family p rules ])

  unfoldable pub add_routes : Family → List Text → List Text → List Text
  unfolding add route_destination
  add_routes family [] rules = rules
  add_routes family (line ∷ lines) rules =
      add_routes family lines
        (elim (route_destination (fields line)) [ none ↦ rules | some t ↦ add family t rules ])

  -- `buildTunPolicyBypassRulesForFamily`
  unfoldable pub bypass_rules : List Text → List Text → List Text → Option Text → Family → List Text
  unfolding add_all add_dns add_routes profile_prefixes
  bypass_rules main_routes dns_list dns_servers address family = add_routes family main_routes (
      add_dns family dns_servers
        (add_dns family dns_list (add_all family (profile_prefixes address family) [])))
