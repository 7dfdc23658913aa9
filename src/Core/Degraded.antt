-- ===== src/Core/Degraded.antt =====
-- The watchdog against a core that starts and cannot take over the routes.
pub mod Takeover
pub mod Woken
use mathlib.Core.Path.{subst}
use v2ray_e.Base.{
  ℕ, suc, ◌<◌, ◌≤◌, ◌≡◌, ◌∙◌, refl, sym, ap, Bool, true, false, not, ◌&&◌, List, [], ◌∷◌, Option,
  none, some, arith, Bool-cases, Option-cases, inl, inr, if◌then◌else◌, length, All,
}
use v2ray_e.Base.Text.{Text, txt, text_eq}
use v2ray_e.Domain.{ProfileItem}
use v2ray_e.Service.Profiles.{pick_selected_profile}
use v2ray_e.Service.Store.{find_profile}
use v2ray_e.Core.Config.{Config, bool_cfg, tun_mode_from_config, should_manage_tun_traffic}
use v2ray_e.Core.State.{
  CoreState, World, CoreStatus, Restart, Outcome, ready, log_app, restart_succeeded, set_core_error,
  check_proc_exited, check_and_clean, clear_outside, status_for_lifecycle_op, build_status,
  save_restore, core_started,
}
use v2ray_e.Core.Start.{
  start_core, stop_core, keep_selected, find_or_first, launch, launch_clean, start_profile, prepare,
  after_start, commit, set_up_routing, set_up_proxy, failed_start,
}
use v2ray_e.Core.Watchdog.{
  watchdog_tick, woken, wake, schedule_auto_restart, run_scheduled_auto_restart, run_restart,
  restart_failure, after_restart, watchdog_restart_plan, max_retries, base_ms, backoff_delay,
}
use v2ray_e.Core.GivesUp.{plan-schedules, tick-not_exited}
use v2ray_e.Core.Invariant.{cleaned-not_exited}
use v2ray_e.Core.Status.{start_core-stopped, start_core-build_status}
use v2ray_e.Core.Degraded.Takeover.{Degraded, TakeoverFails}
use v2ray_e.Core.Degraded.Woken.{tick-Degraded, sleep-Degraded, gentle_restart, restart-Degraded}

-- A check of the watchdog, and the two goroutines that it and the first of them leave.
unfoldable pub round : World → CoreState → CoreState
unfolding watchdog_tick woken
round w s = woken 0 w (woken 0 w (watchdog_tick w s))

unfoldable pub rounds : List World → CoreState → CoreState
unfolding round
rounds [] s = s
rounds (w ∷ ws) s = rounds ws (round w s)

abbrev pub TakeoverNeverWorks : World → Type 0
TakeoverNeverWorks w = TakeoverFails w × (2 ≤ max_retries w.cfg)

round-Degraded :
    (w : World) (a : ℕ) (s : CoreState)
    → a ≤ 1
    → TakeoverNeverWorks w
    → Degraded a false [] s
    → Degraded 1 false [] (round w s) × ((round w s).started_at ≡ some w.now)
unfolding round
round-Degraded w a s low (f, many) v =
    let (d, t) =
      restart-Degraded w (suc a) _ (watchdog_tick w s) refl f (omega (arith, many))
        (tick-Degraded w a s f (omega (arith, low, many)) v) in
    let (e, u) = sleep-Degraded w 1 (gentle_restart w.cfg) (woken 0 w (watchdog_tick w s)) refl d in
    (e, u ∙ t)

rounds-Degraded :
    (ws : List World) (s : CoreState) (a : ℕ)
    → a ≤ 1
    → All TakeoverNeverWorks ws
    → Degraded a false [] s
    → (b : ℕ) × (b ≤ 1) × Degraded b false [] (rounds ws s)
unfolding rounds
rounds-Degraded [] s a low h v = (a, low, v)
rounds-Degraded (w ∷ ws) s a low (f, h) v =
    rounds-Degraded ws (round w s) 1 (omega arith) h ((round-Degraded w a s low f v).0)

-- A core that starts, but cannot take over the routes, under a limit of two retries or more: whatever
-- number of rounds of the watchdog went by, the next one starts the core again, at its own time, and the
-- count of attempts is back at one. The limit is never reached.
pub watchdog-never_gives_up :
    (ws : List World) (w : World) (s : CoreState)
    → Degraded 0 false [] s
    → All TakeoverNeverWorks ws
    → TakeoverNeverWorks w
    → ((round w (rounds ws s)).started_at ≡ some w.now)
      × ((round w (rounds ws s)).restart_attempts ≡ 1)
      × ((round w (rounds ws s)).degraded ≡ true)
watchdog-never_gives_up ws w s v h f =
    let (b, low, d) = rounds-Degraded ws s 0 (omega arith) h v in
    let (e, t) = round-Degraded w b (rounds ws s) low f d in (t, e.attempts_are, e.is_degraded)
