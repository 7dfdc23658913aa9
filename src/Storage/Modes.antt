-- ===== src/Storage/Modes.antt =====
-- The mode of the TUN device in a configuration that was brought into its normal form.
use mathlib.Core.Path.{subst}
use v2ray_e.Base.{
  ◌≡◌, ◌∙◌, refl, sym, ap, Bool, true, false, not, ◌||◌, [], Option, none, some, arith, Bool-cases,
  Option-cases, inl, inr, if◌then◌else◌,
}
use v2ray_e.Base.Text.{Text, txt, text_eq, text_eq_iff, trim_space, to_lower}
use v2ray_e.Core.Config.{
  Config, ConfigValue, text, flag, number, texts, other, one_of, folded, str_cfg, bool_cfg,
  tun_mode_of, tun_mode_from_config,
}
use v2ray_e.Storage.Config.{
  set_key, delete_key, as_string, normalize_tun_mode, move_dns_list, tun_enabled,
  tun_mode_of_switch, stored_tun_mode, is_explicit, reset_hijack, normalize_proxies, settle_stack,
  settle_mode, normalize_config_map,
}

pub data IsMode : Text → Type 0 where
  mixed : IsMode (txt "mixed")
  system : IsMode (txt "system")
  gvisor : IsMode (txt "gvisor")
  off : IsMode (txt "off")

if-IsMode : (b : Bool) (x y : Text) → (b ≡ true → IsMode x) → IsMode y → IsMode (if b then x else y)
if-IsMode true x y f q = f refl
if-IsMode false x y f q = q

is-IsMode :
    (s mode : Text) (rest : Bool)
    → IsMode mode
    → (rest ≡ true → IsMode s)
    → (text_eq s mode || rest) ≡ true
    → IsMode s
is-IsMode s mode rest m f h = elim (Bool-cases (text_eq s mode)) [
  | inl same ↦ subst IsMode (sym ((text_eq_iff s mode).0 same)) m
  | inr differs ↦ f (ground (arith, h, differs))
]

normalize_tun_mode-IsMode : (s : Text) → IsMode (normalize_tun_mode s)
unfolding normalize_tun_mode one_of
normalize_tun_mode-IsMode s =
    if-IsMode _ s _
      (is-IsMode s (txt "mixed") _ mixed
        (is-IsMode s (txt "system") _ system (is-IsMode s (txt "gvisor") false gvisor (λ h. cc h))))
      (if-IsMode _ (txt "off") (txt "mixed") (λ h. off) mixed)

tun_mode_of_switch-IsMode : (cfg : Config) → IsMode (tun_mode_of_switch cfg)
unfolding tun_mode_of_switch
tun_mode_of_switch-IsMode cfg =
    let mode = normalize_tun_mode (as_string (cfg (txt "tunStack"))) in
    if-IsMode (tun_enabled (cfg (txt "enableTun")))
      (if text_eq mode (txt "off") then txt "mixed" else mode) (txt "off")
      (λ h.
        if-IsMode (text_eq mode (txt "off")) (txt "mixed") mode (λ k. mixed)
          (normalize_tun_mode-IsMode (as_string (cfg (txt "tunStack")))))
      off

-- The mode of a setting, or that of the switch.
mode_of : Config → Option ConfigValue → Text
unfolding normalize_tun_mode text_eq tun_mode_of_switch
mode_of cfg v = elim v [
  | some (text s) ↦
      if text_eq (normalize_tun_mode s) [] then tun_mode_of_switch cfg else normalize_tun_mode s
  | _ ↦ tun_mode_of_switch cfg
]

mode_of-IsMode : (cfg : Config) (v : Option ConfigValue) → IsMode (mode_of cfg v)
unfolding mode_of
mode_of-IsMode cfg none = tun_mode_of_switch-IsMode cfg
mode_of-IsMode cfg (some (text s)) =
    if-IsMode (text_eq (normalize_tun_mode s) []) (tun_mode_of_switch cfg) (normalize_tun_mode s)
      (λ h. tun_mode_of_switch-IsMode cfg) (normalize_tun_mode-IsMode s)
mode_of-IsMode cfg (some (flag b)) = tun_mode_of_switch-IsMode cfg
mode_of-IsMode cfg (some (number n)) = tun_mode_of_switch-IsMode cfg
mode_of-IsMode cfg (some (texts ss)) = tun_mode_of_switch-IsMode cfg
mode_of-IsMode cfg (some other) = tun_mode_of_switch-IsMode cfg

-- A setting that is a mode is read as itself, by the store and by the service.
mode_of-mode : (cfg : Config) (mode : Text) → IsMode mode → mode_of cfg (some (text mode)) ≡ mode
unfolding mode_of normalize_tun_mode one_of text_eq
mode_of-mode cfg _ mixed = refl
mode_of-mode cfg _ system = refl
mode_of-mode cfg _ gvisor = refl
mode_of-mode cfg _ off = refl

tun_mode_of-mode : (cfg : Config) (mode : Text) → IsMode mode → tun_mode_of cfg mode ≡ mode
unfolding tun_mode_of folded one_of text_eq to_lower trim_space
tun_mode_of-mode cfg _ mixed = refl
tun_mode_of-mode cfg _ system = refl
tun_mode_of-mode cfg _ gvisor = refl
tun_mode_of-mode cfg _ off = refl

not_empty : (mode : Text) → IsMode mode → text_eq mode [] ≡ false
unfolding text_eq
not_empty _ mixed = refl
not_empty _ system = refl
not_empty _ gvisor = refl
not_empty _ off = refl

str_cfg-text :
    (cfg : Config) (key def s : Text)
    → cfg key ≡ some (text s)
    → text_eq s [] ≡ false
    → str_cfg cfg key def ≡ s
unfolding str_cfg
str_cfg-text cfg key def s h e = ap (λ v. string v) h ∙ ap (λ b. if b then def else s) e
  where
    string : Option ConfigValue → Text
    string v = elim v [ some (text t) ↦ if text_eq t [] then def else t | _ ↦ def ]

-- The mode and its switch are not changed by the steps that follow.
abbrev Holds : Text → Config → Type 0
Holds mode cfg =
    (cfg (txt "tunMode") ≡ some (text mode))
    × (cfg (txt "enableTun") ≡ some (flag (not (text_eq mode (txt "off")))))

settle_mode-Holds : (mode : Text) (cfg : Config) → Holds mode (settle_mode mode cfg)
unfolding settle_mode set_key text_eq
settle_mode-Holds mode cfg = (refl, refl)

reset_hijack-Holds : (mode : Text) (cfg : Config) → Holds mode cfg → Holds mode (reset_hijack cfg)
unfolding reset_hijack set_key text_eq
reset_hijack-Holds mode cfg h =
    elim (Bool-cases (is_explicit (cfg (txt "tunHijackDefaultRouteExplicit")))) [
      | inl asked ↦ rw (asked, reset_hijack) h
      | inr unasked ↦ rw (unasked, reset_hijack) h
    ]

normalize_proxies-Holds :
    (mode : Text) (cfg : Config) → Holds mode cfg → Holds mode (normalize_proxies cfg)
unfolding normalize_proxies set_key text_eq
normalize_proxies-Holds mode cfg h = h

settle_stack-Holds :
    (mode : Text) (cfg : Config) → Holds mode cfg → Holds mode (settle_stack mode cfg)
unfolding settle_stack set_key text_eq
settle_stack-Holds mode cfg h = elim (Bool-cases (text_eq mode (txt "off"))) [
  | inl stays ↦ elim (Bool-cases (text_eq (as_string (cfg (txt "tunStack"))) [])) [
    | inl blank ↦ rw (stays, blank, settle_stack) (h.0, h.1 ∙ shut stays)
    | inr filled ↦ rw (stays, filled, settle_stack) (h.0, h.1 ∙ shut stays)
  ]
  | inr moves ↦ rw (moves, settle_stack) (h.0, h.1 ∙ shut moves)
]
  where
    shut :
        {b : Bool}
        → text_eq mode (txt "off") ≡ b
        → some (flag (not (text_eq mode (txt "off")))) ≡ some (flag (not b))
    shut e = ap (λ c. some (flag (not c))) e

-- The state of the map in front of the search for the mode.
abbrev pub engine : Config → Config
engine cfg = set_key (txt "coreEngine") (text (txt "xray-core")) (move_dns_list cfg)

engine-tun_mode : (cfg : Config) → engine cfg (txt "tunMode") ≡ cfg (txt "tunMode")
unfolding set_key move_dns_list delete_key text_eq
engine-tun_mode cfg = elim (Option-cases (cfg (txt "dnsServers"))) [
  | inl missing ↦ rw (missing, move_dns_list) refl
  | inr (servers, e) ↦ elim (Option-cases (cfg (txt "dnsList"))) [
    | inl missing ↦ rw (e, missing, move_dns_list) refl
    | inr (dns, f) ↦ rw (e, f, move_dns_list) refl
  ]
]

stored_tun_mode-of : (cfg : Config) → stored_tun_mode cfg ≡ mode_of cfg (cfg (txt "tunMode"))
unfolding stored_tun_mode mode_of
stored_tun_mode-of cfg = refl

stored_tun_mode-IsMode : (cfg : Config) → IsMode (stored_tun_mode cfg)
stored_tun_mode-IsMode cfg =
    subst IsMode (sym (stored_tun_mode-of cfg)) (mode_of-IsMode cfg (cfg (txt "tunMode")))

normalize_config_map-Holds :
    (cfg : Config) → Holds (stored_tun_mode (engine cfg)) (normalize_config_map cfg)
unfolding normalize_config_map
normalize_config_map-Holds cfg =
    let mode = stored_tun_mode (engine cfg) in
    let settled = settle_mode mode (engine cfg) in
    settle_stack-Holds mode (normalize_proxies (reset_hijack settled)) (
      normalize_proxies-Holds mode (reset_hijack settled)
        (reset_hijack-Holds mode settled (settle_mode-Holds mode (engine cfg))))

-- The service reads the mode that the store has found.
read-stored_tun_mode :
    (cfg : Config) → tun_mode_from_config (normalize_config_map cfg) ≡ stored_tun_mode (engine cfg)
unfolding tun_mode_from_config
read-stored_tun_mode cfg =
    let m = stored_tun_mode-IsMode (engine cfg) in
    let n = normalize_config_map cfg in
    ap (tun_mode_of n) (
      str_cfg-text n (txt "tunMode") [] (stored_tun_mode (engine cfg))
        ((normalize_config_map-Holds cfg).0) (not_empty _ m))
    ∙ tun_mode_of-mode n _ m

-- What a configuration says about the device when it is in its normal form: the service reads the mode that
-- the store has found, which is one of four, the switch agrees with it, and another normalisation
-- finds it again.
pub normalize_config_map-stored_tun_mode :
    (cfg : Config)
    → IsMode (stored_tun_mode (engine cfg))
      × (tun_mode_from_config (normalize_config_map cfg) ≡ stored_tun_mode (engine cfg))
      × (bool_cfg (normalize_config_map cfg) (txt "enableTun") false
          ≡ not (text_eq (stored_tun_mode (engine cfg)) (txt "off")))
      × (tun_mode_from_config (normalize_config_map (normalize_config_map cfg))
          ≡ stored_tun_mode (engine cfg))
unfolding bool_cfg
normalize_config_map-stored_tun_mode cfg =
    let m = stored_tun_mode-IsMode (engine cfg) in
    let n = normalize_config_map cfg in
    let h = normalize_config_map-Holds cfg in
    (
      m,
      read-stored_tun_mode cfg,
      rw (h.1, bool_cfg) refl,
      read-stored_tun_mode n
          ∙ (stored_tun_mode-of (engine n)
              ∙ (ap (mode_of (engine n)) (engine-tun_mode n ∙ h.0) ∙ mode_of-mode (engine n) _ m)),
    )
