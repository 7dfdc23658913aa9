-- ===== src/Storage/Config.antt =====
-- How a configuration is brought into its normal form (storage/store.go).
use v2ray_e.Base.{
  ℕ, Bool, false, not, ◌||◌, List, [], ◌∷◌, ◌++◌, Option, none, some, ◌==◌, if◌then◌else◌,
}
use v2ray_e.Base.Text.{Text, txt, text_eq, trim_space}
use v2ray_e.Core.Config.{Config, ConfigValue, text, flag, texts, one_of, folded}

-- `cfg[key] = value` and `delete(cfg, key)`
unfoldable pub set_key : Text → ConfigValue → Config → Config
unfolding text_eq
set_key key value cfg = λ k. if text_eq k key then some value else cfg k

unfoldable pub delete_key : Text → Config → Config
unfolding text_eq
delete_key key cfg = λ k. if text_eq k key then none else cfg k

unfoldable pub as_string : Option ConfigValue → Text
as_string v = elim v [ some (text s) ↦ s | _ ↦ [] ]

unfoldable pub normalize_tun_mode : Text → Text
unfolding one_of
normalize_tun_mode value =
    if one_of value (txt "mixed" ∷ txt "system" ∷ txt "gvisor" ∷ [])
    then value
    else if one_of value ([] ∷ txt "off" ∷ txt "disabled" ∷ txt "none" ∷ [])
    then txt "off"
    else txt "mixed"

unfoldable pub normalize_system_proxy_mode : Text → Text
unfolding one_of folded
normalize_system_proxy_mode mode =
    if one_of (folded mode) (
      txt "forced_change"
      ∷ txt "change"
      ∷ txt "global"
      ∷ txt "manual"
      ∷ txt "on"
      ∷ txt "enable"
      ∷ txt "enabled"
      ∷ [])
    then txt "forced_change"
    else if one_of (folded mode) (
        txt "forced_clear"
        ∷ txt "clear"
        ∷ txt "off"
        ∷ txt "disable"
        ∷ txt "disabled"
        ∷ txt "direct"
        ∷ txt "none"
        ∷ [])
    then txt "forced_clear"
    else if one_of (folded mode) (txt "pac" ∷ [])
    then txt "pac"
    else txt "forced_clear"

unfoldable pub normalize_local_proxy_mode : Text → Text
unfolding one_of folded
normalize_local_proxy_mode mode =
    if one_of (folded mode)
      ([] ∷ txt "follow-routing" ∷ txt "follow_routing" ∷ txt "routing" ∷ txt "default" ∷ [])
    then txt "follow-routing"
    else if one_of (folded mode)
        (txt "force-proxy" ∷ txt "force_proxy" ∷ txt "proxy" ∷ txt "always-proxy" ∷ [])
    then txt "force-proxy"
    else txt "follow-routing"

-- `appendToken`, with the items that are there, which are those that were seen.
unfoldable pub append_token : Text → List Text → List Text
unfolding trim_space text_eq one_of
append_token token items =
    if text_eq (trim_space token) []
    then items
    else if one_of (trim_space token) items
    then items
    else items ++ trim_space token ∷ []

unfoldable pub append_tokens : List Text → List Text → List Text
unfolding append_token
append_tokens [] items = items
append_tokens (s ∷ more) items = append_tokens more (append_token s items)

abbrev pub is_separator : ℕ → Bool
is_separator c = c == b',' || (c == b';' || c == 10)

-- `strings.FieldsFunc`; a part that is empty is no token in any case.
unfoldable pub parts_from : Text → Text → List Text
parts_from cur [] = cur ∷ []
parts_from cur (c ∷ s) =
    let closed = parts_from [] s in
    let longer = parts_from (cur ++ c ∷ []) s in if is_separator c then cur ∷ closed else longer

unfoldable pub normalize_string_slice : Option ConfigValue → List Text
unfolding append_tokens parts_from
normalize_string_slice v = elim v [
  | some (text s) ↦ append_tokens (parts_from [] s) []
  | some (texts ss) ↦ append_tokens ss []
  | _ ↦ []
]

-- `dnsServers` is the old name of `dnsList`.
unfoldable pub move_dns_list : Config → Config
unfolding set_key delete_key
move_dns_list cfg = elim (cfg (txt "dnsServers")) [
  | none ↦ cfg
  | some servers ↦ delete_key (txt "dnsServers") (elim (cfg (txt "dnsList")) as (λ _. Config) [
    | none ↦ set_key (txt "dnsList") servers cfg
    | some _ ↦ cfg
  ])
]

unfoldable pub tun_enabled : Option ConfigValue → Bool
unfolding text_eq
tun_enabled v = elim v [ some (flag b) ↦ b | some (text s) ↦ text_eq s (txt "true") | _ ↦ false ]

-- The mode where none is set.
unfoldable pub tun_mode_of_switch : Config → Text
unfolding tun_enabled normalize_tun_mode as_string text_eq
tun_mode_of_switch cfg =
    if tun_enabled (cfg (txt "enableTun"))
    then (let mode = normalize_tun_mode (as_string (cfg (txt "tunStack"))) in
        if text_eq mode (txt "off") then txt "mixed" else mode)
    else txt "off"

unfoldable pub stored_tun_mode : Config → Text
unfolding normalize_tun_mode text_eq tun_mode_of_switch
stored_tun_mode cfg = elim (cfg (txt "tunMode")) [
  | some (text s) ↦
      if text_eq (normalize_tun_mode s) [] then tun_mode_of_switch cfg else normalize_tun_mode s
  | _ ↦ tun_mode_of_switch cfg
]

unfoldable pub is_explicit : Option ConfigValue → Bool
is_explicit v = elim v [ some (flag b) ↦ b | _ ↦ false ]

-- The default route is taken only where that was asked for.
unfoldable pub reset_hijack : Config → Config
unfolding set_key is_explicit
reset_hijack cfg =
    if is_explicit (cfg (txt "tunHijackDefaultRouteExplicit"))
    then cfg
    else set_key (txt "tunHijackDefaultRouteExplicit") (flag false)
        (set_key (txt "tunHijackDefaultRoute") (flag false) cfg)

unfoldable pub normalize_proxies : Config → Config
unfolding set_key normalize_system_proxy_mode normalize_local_proxy_mode normalize_string_slice
    as_string
normalize_proxies cfg =
    let a =
      set_key (txt "systemProxyMode")
        (text (normalize_system_proxy_mode (as_string (cfg (txt "systemProxyMode"))))) cfg in
    let b =
      set_key (txt "localProxyMode")
        (text (normalize_local_proxy_mode (as_string (a (txt "localProxyMode"))))) a in
    set_key (txt "systemProxyUsers") (texts (normalize_string_slice (b (txt "systemProxyUsers")))) b

unfoldable pub settle_stack : Text → Config → Config
unfolding set_key as_string text_eq
settle_stack mode cfg =
    if text_eq mode (txt "off")
    then (if text_eq (as_string (cfg (txt "tunStack"))) []
        then set_key (txt "tunStack") (text (txt "mixed")) cfg
        else cfg)
    else set_key (txt "tunStack") (text mode) cfg

-- The switch and the mode of the device, which agree.
unfoldable pub settle_mode : Text → Config → Config
unfolding set_key text_eq
settle_mode mode cfg =
    set_key (txt "enableTun") (flag (not (text_eq mode (txt "off"))))
      (set_key (txt "tunMode") (text mode) cfg)

-- `normalizeConfigMap` of a map that is there.
unfoldable pub normalize_config_map : Config → Config
unfolding move_dns_list set_key stored_tun_mode settle_mode reset_hijack normalize_proxies
    settle_stack
normalize_config_map cfg =
    let engine = set_key (txt "coreEngine") (text (txt "xray-core")) (move_dns_list cfg) in
    let mode = stored_tun_mode engine in
    settle_stack mode (normalize_proxies (reset_hijack (settle_mode mode engine)))
