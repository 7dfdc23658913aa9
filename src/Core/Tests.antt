-- ===== src/Core/Tests.antt =====
-- The theorems on the core at concrete inputs.
use v2ray_e.Base.{
  List, ◌*◌, ◌^◌, ◌<◌, ◌≤◌, ◌≡◌, refl, true, false, [], ◌∷◌, none, some, arith, inr, if◌then◌else◌,
  length,
}
use v2ray_e.Base.Int.{pos}
use v2ray_e.Base.Text.{txt, text_eq}
use v2ray_e.Domain.{ProfileItem, vless}
use v2ray_e.Core.Config.{Config, text, number, bool_cfg, int_cfg, should_manage_tun_traffic}
use v2ray_e.Core.State.{CoreState, World, build_status}
use v2ray_e.Core.Start.{start_core}
use v2ray_e.Core.Watchdog.{watchdog_tick, max_retries, base_ms, backoff_delay}
use v2ray_e.Core.Backoff.{min, backoff_delay-min}
use v2ray_e.Core.Invariant.{Inv}
use v2ray_e.Core.Sections.{
  Section, claimed, committed, checked, took_over, set_proxy, finished, idle, run,
}
use v2ray_e.Core.Sections.Kept.{KeptFlight, run-Kept}
use v2ray_e.Core.Status.{start_core-build_status}
use v2ray_e.Core.GivesUp.Woken.{wakes, AllFail}
use v2ray_e.Core.GivesUp.{Idle, watchdog-gives_up}
use v2ray_e.Core.Degraded.Takeover.{Degraded, TakeoverFails}
use v2ray_e.Core.Degraded.{round, rounds, watchdog-never_gives_up}

abbrev home : ProfileItem
home = record {
  id = txt "p1";
  name = txt "home";
  protocol = vless;
  address = txt "example.org";
  port = pos 443;
  delay_ms = pos 0;
  sub_id = [];
  sub_name = [];
  sort_order = pos 0;
  vmess_config = none;
  vless_config = none;
  shadowsocks_config = none;
  trojan_config = none;
  hysteria2_config = none;
  tuic_config = none;
  transport = none;
}

abbrev no_settings : Config
no_settings key = none

abbrev with_tun : Config
with_tun key = if text_eq key (txt "tunMode") then some (text (txt "mixed")) else none

abbrev all_well : World
all_well = record {
  cfg = no_settings;
  now = 100;
  now_text = txt "10:00";
  exited_before = false;
  exited_after = false;
  cleanup_error = none;
  generated = true;
  written = true;
  start_error = none;
  setup_error = none;
  retry_error = none;
  proxy_error = none;
  state_saved = true;
  other_server = false;
}

abbrev nothing_up : CoreState
nothing_up = record {
  core = false;
  running = false;
  starting = false;
  degraded = false;
  last_error = [];
  last_error_at = [];
  last_engine = [];
  started_at = none;
  stats = false;
  restart_attempts = 0;
  restart_scheduled = false;
  restarting = false;
  sleeping = [];
  app_log = [];
  routed = false;
  proxied = false;
  profiles = home ∷ [];
  current_profile_id = txt "p1";
  should_restore = false;
}

backoff_delay-min_example :
    (backoff_delay (base_ms no_settings) 4 ≡ min (base_ms no_settings * 2 ^ 3) 30000)
    × (100 ≤ backoff_delay (base_ms no_settings) 4)
backoff_delay-min_example = backoff_delay-min no_settings 3

abbrev up : CoreState
up = (start_core all_well nothing_up).1

-- A check of the watchdog comes in while the routes are set up.
abbrev taken_over : List Section
taken_over = claimed all_well ∷ committed all_well ∷ checked all_well ∷ took_over all_well ∷ []

run-Kept_example : KeptFlight (run taken_over (record { progress = idle; core = nothing_up }))
run-Kept_example =
    run-Kept taken_over (record { progress = idle; core = nothing_up })
      (record { has_core = refl; has_stats = refl; has_start_time = refl; flag = refl })

start_core-build_status_example : (start_core all_well nothing_up).0 ≡ build_status all_well up
start_core-build_status_example = start_core-build_status all_well nothing_up

-- A core that runs beside an idle watchdog.
abbrev running_core : CoreState
running_core = record nothing_up { core = true; running = true; stats = true; started_at = some 90 }

running_core-Inv : Inv running_core
running_core-Inv = record {
  has_core = refl;
  has_stats = refl;
  has_start_time = refl;
  degraded_runs = λ h. refl;
  not_starting = refl;
}

running_core-Idle : Idle running_core
running_core-Idle = record {
  runs = refl;
  no_attempts = refl;
  unscheduled = refl;
  not_restarting = refl;
  none_sleeps = refl;
}

abbrev one_retry : Config
one_retry key =
    if text_eq key (txt "coreAutoRestartMaxRetries") then some (number (pos 2)) else none

-- The core has exited, and does not start again.
abbrev broken : World
broken = record all_well {
  cfg = one_retry;
  exited_before = true;
  start_error = some (txt "bad key");
}

broken-retries : max_retries one_retry ≡ 2
unfolding max_retries int_cfg text_eq
broken-retries = refl

broken-enabled : bool_cfg one_retry (txt "coreAutoRestart") true ≡ true
unfolding bool_cfg text_eq
broken-enabled = refl

broken-positive : 0 < max_retries one_retry
unfolding max_retries int_cfg text_eq
broken-positive = omega arith

broken-counted : length (broken ∷ broken ∷ []) ≡ max_retries one_retry
unfolding max_retries int_cfg text_eq
broken-counted = refl

broken-AllFail : AllFail (max_retries one_retry) broken
broken-AllFail = (inr (txt "bad key", refl), refl, broken-enabled)

watchdog-gives_up_example :
    ((wakes (broken ∷ broken ∷ []) (watchdog_tick broken running_core)).running ≡ false)
    × ((wakes (broken ∷ broken ∷ []) (watchdog_tick broken running_core)).sleeping ≡ [])
    × ((wakes (broken ∷ broken ∷ []) (watchdog_tick broken running_core)).restart_attempts
        ≡ max_retries one_retry)
    × ((x : World)
        → watchdog_tick x (wakes (broken ∷ broken ∷ []) (watchdog_tick broken running_core))
          ≡ wakes (broken ∷ broken ∷ []) (watchdog_tick broken running_core))
watchdog-gives_up_example =
    watchdog-gives_up broken (broken ∷ broken ∷ []) running_core running_core-Inv running_core-Idle
      refl broken-positive broken-enabled broken-counted (broken-AllFail, (broken-AllFail, tt))

-- The core starts, and the routes cannot be set up.
abbrev no_routes : World
no_routes = record all_well {
  cfg = with_tun;
  setup_error = some (txt "busy");
  retry_error = some (txt "still busy");
}

with_tun-managed : should_manage_tun_traffic with_tun ≡ true
unfolding should_manage_tun_traffic text_eq
with_tun-managed = refl

with_tun-restarts : bool_cfg with_tun (txt "coreAutoRestart") true ≡ true
unfolding bool_cfg text_eq
with_tun-restarts = refl

with_tun-retries : 2 ≤ max_retries with_tun
unfolding max_retries int_cfg text_eq
with_tun-retries = omega arith

no_routes-TakeoverFails : TakeoverFails no_routes
no_routes-TakeoverFails = record {
  made = refl;
  starts = refl;
  clean = refl;
  managed = with_tun-managed;
  first_error = txt "busy";
  first_fails = refl;
  second_error = txt "still busy";
  second_fails = refl;
  alive_before = refl;
  alive = refl;
  restarts = with_tun-restarts;
}

abbrev limping : CoreState
limping = record running_core { degraded = true }

limping-Degraded : Degraded 0 false [] limping
limping-Degraded = record {
  has_core = refl;
  runs = refl;
  is_degraded = refl;
  not_starting = refl;
  attempts_are = refl;
  scheduled_is = refl;
  not_restarting = refl;
  sleeping_is = refl;
  has_profiles = omega arith;
}

watchdog-never_gives_up_example :
    ((round no_routes (rounds (no_routes ∷ no_routes ∷ []) limping)).started_at ≡ some 100)
    × ((round no_routes (rounds (no_routes ∷ no_routes ∷ []) limping)).restart_attempts ≡ 1)
    × ((round no_routes (rounds (no_routes ∷ no_routes ∷ []) limping)).degraded ≡ true)
watchdog-never_gives_up_example =
    watchdog-never_gives_up (no_routes ∷ no_routes ∷ []) no_routes limping limping-Degraded
      (
        (no_routes-TakeoverFails, with_tun-retries),
        ((no_routes-TakeoverFails, with_tun-retries), tt),
      )
      (no_routes-TakeoverFails, with_tun-retries)

-- The core exits while the routes are set up, which fails: the watchdog has noted the exit, but the start
-- marks the core as degraded, and leaves it so.
abbrev raced : CoreState
raced =
    (run
      (claimed no_routes
        ∷ committed no_routes
        ∷ checked (record no_routes { exited_before = true })
        ∷ took_over no_routes
        ∷ set_proxy no_routes
        ∷ finished no_routes (txt "home")
        ∷ [])
      (record { progress = idle; core = nothing_up })).core

raced-degraded : (raced.running ≡ false) × (raced.degraded ≡ true)
unfolding run
raced-degraded = (refl, refl)
