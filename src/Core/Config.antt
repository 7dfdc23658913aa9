-- ===== src/Core/Config.antt =====
-- What the service reads of its configuration, a map of JSON values (config_gen.go, service.go).
use v2ray_e.Base.{Bool, true, false, ◌||◌, List, [], ◌∷◌, Option, some, if◌then◌else◌}
use v2ray_e.Base.Int.{ℤ}
use v2ray_e.Base.Text.{Text, txt, text_eq, trim_space, to_lower}

-- A number stands for what `int` makes of it, and an item of a list that is no string for an empty text.
pub data ConfigValue : Type 0 where
  text : Text → ConfigValue
  flag : Bool → ConfigValue
  number : ℤ → ConfigValue
  texts : List Text → ConfigValue
  other : ConfigValue

abbrev pub Config : Type 0
Config = Text → Option ConfigValue

unfoldable pub str_cfg : Config → Text → Text → Text
unfolding text_eq
str_cfg cfg key def = elim (cfg key) [ some (text s) ↦ if text_eq s [] then def else s | _ ↦ def ]

unfoldable pub bool_cfg : Config → Text → Bool → Bool
bool_cfg cfg key def = elim (cfg key) [ some (flag b) ↦ b | _ ↦ def ]

unfoldable pub int_cfg : Config → Text → ℤ → ℤ
int_cfg cfg key def = elim (cfg key) [ some (number n) ↦ n | _ ↦ def ]

-- Whether a text is one of some literals.
unfoldable pub one_of : Text → List Text → Bool
unfolding text_eq
one_of s [] = false
one_of s (t ∷ ts) = text_eq s t || one_of s ts

-- `strings.ToLower(strings.TrimSpace(s))`
unfoldable pub folded : Text → Text
unfolding to_lower trim_space
folded s = to_lower (trim_space s)

unfoldable pub tun_mode_of_stack : Text → Text
unfolding one_of
tun_mode_of_stack stack =
    if one_of stack (txt "system" ∷ txt "gvisor" ∷ []) then stack else txt "mixed"

-- The mode of the device, from the setting of that name.
unfoldable pub tun_mode_of : Config → Text → Text
unfolding one_of folded str_cfg bool_cfg tun_mode_of_stack
tun_mode_of cfg raw =
    let mode = folded raw in
    if one_of mode (txt "system" ∷ txt "mixed" ∷ txt "gvisor" ∷ [])
    then mode
    else if one_of mode (txt "off" ∷ txt "none" ∷ txt "disabled" ∷ [])
    then txt "off"
    else if one_of mode ([] ∷ [])
    then (if bool_cfg cfg (txt "enableTun") false
        then tun_mode_of_stack (folded (str_cfg cfg (txt "tunStack") (txt "mixed")))
        else txt "off")
    else txt "mixed"

unfoldable pub tun_mode_from_config : Config → Text
unfolding str_cfg tun_mode_of
tun_mode_from_config cfg = tun_mode_of cfg (str_cfg cfg (txt "tunMode") [])

unfoldable pub should_manage_tun_traffic : Config → Bool
unfolding tun_mode_from_config text_eq bool_cfg
should_manage_tun_traffic cfg =
    if text_eq (tun_mode_from_config cfg) (txt "off")
    then false
    else bool_cfg cfg (txt "tunAutoRoute") true

unfoldable pub normalize_system_proxy_mode : Text → Text
unfolding one_of folded
normalize_system_proxy_mode mode =
    if one_of (folded mode) (
      txt "forced_change"
      ∷ txt "change"
      ∷ txt "global"
      ∷ txt "manual"
      ∷ txt "on"
      ∷ txt "enable"
      ∷ txt "enabled"
      ∷ [])
    then txt "forced_change"
    else if one_of (folded mode) (
        txt "forced_clear"
        ∷ txt "clear"
        ∷ txt "off"
        ∷ txt "disable"
        ∷ txt "disabled"
        ∷ txt "direct"
        ∷ txt "none"
        ∷ [])
    then txt "forced_clear"
    else if one_of (folded mode) (txt "pac" ∷ [])
    then txt "pac"
    else folded mode

-- The modes in which a start sets the proxy of the desktop, and a stop clears it.
unfoldable pub sets_proxy : Config → Bool
unfolding normalize_system_proxy_mode str_cfg one_of
sets_proxy cfg =
    one_of (normalize_system_proxy_mode (str_cfg cfg (txt "systemProxyMode") (txt "forced_clear")))
      (txt "forced_change" ∷ txt "pac" ∷ [])

-- The mode that `selectCoreEngine` reports.
unfoldable pub engine_mode : Config → Text
unfolding folded str_cfg one_of
engine_mode cfg =
    let mode = folded (str_cfg cfg (txt "coreEngine") (txt "xray-core")) in
    if one_of mode
      ([] ∷ txt "embedded" ∷ txt "auto" ∷ txt "xray" ∷ txt "builtin" ∷ txt "internal" ∷ [])
    then txt "xray-core"
    else mode
