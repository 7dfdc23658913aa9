-- ===== src/Storage/Tests.antt =====
-- The normal form of a configuration with the switch alone.
use v2ray_e.Base.{◌≡◌, refl, true, false, not, none, some, if◌then◌else◌}
use v2ray_e.Base.Text.{txt, text_eq}
use v2ray_e.Core.Config.{Config, text, flag, bool_cfg, tun_mode_from_config}
use v2ray_e.Storage.Config.{stored_tun_mode, normalize_config_map}
use v2ray_e.Storage.Modes.{IsMode, engine, normalize_config_map-stored_tun_mode}

abbrev switched_on : Config
switched_on key =
    if text_eq key (txt "enableTun")
    then some (flag true)
    else if text_eq key (txt "tunStack")
    then some (text (txt "gvisor"))
    else none

-- A mode in capitals, which the service reads as off, is stored as mixed.
abbrev off_in_capitals : Config
off_in_capitals key = if text_eq key (txt "tunMode") then some (text (txt "Off")) else none

off_in_capitals-stored :
    (tun_mode_from_config off_in_capitals ≡ txt "off")
    × (tun_mode_from_config (normalize_config_map off_in_capitals) ≡ txt "mixed")
unfolding tun_mode_from_config normalize_config_map text_eq
off_in_capitals-stored = (refl, refl)

normalize_config_map-stored_tun_mode_example :
    IsMode (stored_tun_mode (engine switched_on))
    × (tun_mode_from_config (normalize_config_map switched_on)
        ≡ stored_tun_mode (engine switched_on))
    × (bool_cfg (normalize_config_map switched_on) (txt "enableTun") false
        ≡ not (text_eq (stored_tun_mode (engine switched_on)) (txt "off")))
    × (tun_mode_from_config (normalize_config_map (normalize_config_map switched_on))
        ≡ stored_tun_mode (engine switched_on))
normalize_config_map-stored_tun_mode_example = normalize_config_map-stored_tun_mode switched_on
