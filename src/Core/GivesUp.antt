-- ===== src/Core/GivesUp.antt =====
-- The watchdog against a core that no longer starts.
pub mod Failing
pub mod Woken
use mathlib.Core.Path.{subst}
use v2ray_e.Base.{
  ℕ, zero, suc, ◌+◌, ◌-◌, ◌<◌, ◌≤◌, ◌≡◌, ◌⊎◌, ◌∙◌, refl, sym, ap, Bool, true, false, not, ◌&&◌,
  ◌||◌, List, [], ◌∷◌, Option, none, some, arith, Option-cases, inl, inr, if◌then◌else◌, length,
  All,
}
use v2ray_e.Base.Text.{Text, txt, text_eq}
use v2ray_e.Domain.{ProfileItem}
use v2ray_e.Service.Profiles.{pick_selected_profile}
use v2ray_e.Core.Config.{Config, bool_cfg, tun_mode_from_config}
use v2ray_e.Core.State.{
  CoreState, World, CoreStatus, Restart, Outcome, ready, log_app, restart_succeeded, set_core_error,
  check_proc_exited, check_and_clean, cleanup_after_core_exit, clear_outside,
  status_for_lifecycle_op, build_status,
}
use v2ray_e.Core.Start.{
  start_core, stop_core, keep_selected, find_or_first, launch, launch_clean, start_profile, prepare,
}
use v2ray_e.Core.Watchdog.{
  plan_restart, watchdog_tick, woken, wake, schedule_auto_restart, run_scheduled_auto_restart,
  run_restart, restart_failure, after_restart, watchdog_restart_plan, max_retries, base_ms,
  backoff_delay,
}
use v2ray_e.Core.Invariant.{Inv, not_exited, cleaned-not_exited}
use v2ray_e.Core.Status.{start_core-stopped, start_core-build_status}
use v2ray_e.Core.GivesUp.Failing.{Watched, exited}
use v2ray_e.Core.GivesUp.Woken.{schedule-next, waiting, wakes, AllFail, wakes-Watched}

has_exited :
    (w : World) (s : CoreState)
    → (s.core && w.exited_before) ≡ true
    → check_proc_exited w.exited_before w.now_text s ≡ (true, exited w s)
unfolding check_proc_exited
has_exited w s h = rw h refl

checked : World → CoreState → Bool × CoreState → CoreState
checked w s (need_cleanup, t) =
    let planned = plan_restart w s.running t in
    if need_cleanup then cleanup_after_core_exit w planned else planned

exited-Watched :
    (w : World) (s : CoreState)
    → s.starting ≡ false
    → s.restart_attempts ≡ 0
    → s.restart_scheduled ≡ false
    → s.sleeping ≡ []
    → Watched 0 false [] (exited w s)
unfolding set_core_error
exited-Watched w s idle zero_yet unscheduled alone = record {
  no_core = refl;
  stopped = refl;
  not_starting = idle;
  attempts_are = zero_yet;
  scheduled_is = unscheduled;
  sleeping_is = alone;
}

cleanup-Watched :
    (a : ℕ) (b : Bool) (rs : List Restart) (w : World) (s : CoreState)
    → Watched a b rs s
    → Watched a b rs (cleanup_after_core_exit w s)
unfolding cleanup_after_core_exit clear_outside
cleanup-Watched a b rs w s v = ground (arith, v)

planned : World → CoreState → Option Bool → CoreState
planned w t none = t
planned w t (some while_running) =
    if t.restarting || t.restart_scheduled then t else schedule_auto_restart w.cfg while_running t

pub plan-schedules :
    (w : World) (was b : Bool) (t : CoreState)
    → watchdog_restart_plan was t ≡ some b
    → t.restarting ≡ false
    → t.restart_scheduled ≡ false
    → plan_restart w was t ≡ schedule_auto_restart w.cfg b t
unfolding plan_restart planned
plan-schedules w was b t e idle unscheduled =
    ap (planned w t) e
    ∙ ap (λ c. if c then t else schedule_auto_restart w.cfg b t) {y = false}
        (ground (arith, idle, unscheduled))

plan-exited :
    (w : World) (s : CoreState)
    → s.running ≡ true
    → s.restarting ≡ false
    → s.restart_scheduled ≡ false
    → plan_restart w s.running (exited w s) ≡ schedule_auto_restart w.cfg false (exited w s)
unfolding watchdog_restart_plan set_core_error
plan-exited w s on idle unscheduled =
    plan-schedules w s.running false (exited w s) (rw on refl) idle unscheduled

-- The watchdog is idle, beside a core that runs.
pub record Idle (s : CoreState) : Type 0 where
  pub runs : s.running ≡ true
  pub no_attempts : s.restart_attempts ≡ 0
  pub unscheduled : s.restart_scheduled ≡ false
  pub not_restarting : s.restarting ≡ false
  pub none_sleeps : s.sleeping ≡ []

exit-Watched :
    (w : World) (s : CoreState)
    → Inv s
    → Idle s
    → w.exited_before ≡ true
    → 0 < max_retries w.cfg
    → bool_cfg w.cfg (txt "coreAutoRestart") true ≡ true
    → Watched 1 true (waiting w.cfg 1 ∷ []) (watchdog_tick w s)
unfolding watchdog_tick checked
exit-Watched w s i d out pos on =
    subst (λ c. Watched 1 true (waiting w.cfg 1 ∷ []) (checked w s c))
      (sym (has_exited w s (ground (arith, i.has_core, d.runs, out))))
      (cleanup-Watched 1 true (waiting w.cfg 1 ∷ []) w (plan_restart w s.running (exited w s)) (
        subst (Watched 1 true (waiting w.cfg 1 ∷ []))
          (sym (plan-exited w s d.runs d.not_restarting d.unscheduled))
          (schedule-next w.cfg 0 (exited w s)
            (exited-Watched w s i.not_starting d.no_attempts d.unscheduled d.none_sleeps) on pos)))

-- A check that finds no exit only plans.
pub tick-not_exited :
    (w : World) (s : CoreState)
    → (s.core && w.exited_before) ≡ false
    → watchdog_tick w s ≡ plan_restart w s.running s
unfolding watchdog_tick checked
tick-not_exited w s h = ap (checked w s) (not_exited w.exited_before w s h)

-- In a state without a core in which the watchdog has nothing scheduled, its checks do nothing.
tick-quiet : (a : ℕ) (w : World) (s : CoreState) → Watched a false [] s → watchdog_tick w s ≡ s
unfolding watchdog_restart_plan plan_restart
tick-quiet a w s v =
    tick-not_exited w s (ground (arith, v.no_core)) ∙ rw (no_plan s v.stopped, plan_restart) refl
  where
    no_plan : (s : CoreState) → s.running ≡ false → watchdog_restart_plan s.running s ≡ none
    no_plan s off = ground (arith, off)

-- A core that ran exits, and all starts fail, under a limit of one retry or more (0 is no limit) and with
-- the automatic restart switched on: when the check of the watchdog has seen the exit, the watchdog starts the
-- core as many times as the limit says, and gives up. No restart is scheduled or sleeps any more, the core
-- stays down, and no later check changes anything.
pub watchdog-gives_up :
    (w : World) (ws : List World) (s : CoreState)
    → Inv s
    → Idle s
    → w.exited_before ≡ true
    → 0 < max_retries w.cfg
    → bool_cfg w.cfg (txt "coreAutoRestart") true ≡ true
    → length ws ≡ max_retries w.cfg
    → All (AllFail (max_retries w.cfg)) ws
    → let t = wakes ws (watchdog_tick w s) in
      (t.running ≡ false)
      × (t.sleeping ≡ [])
      × (t.restart_attempts ≡ max_retries w.cfg)
      × ((x : World) → watchdog_tick x t ≡ t)
watchdog-gives_up w ws s i d out pos on len h =
    let v =
      wakes-Watched (max_retries w.cfg - 1) (max_retries w.cfg) 1 ws w.cfg (watchdog_tick w s) pos
        (omega (arith, pos, len)) (omega (arith, pos)) h (exit-Watched w s i d out pos on) in
    (v.stopped, v.sleeping_is, v.attempts_are, λ x. tick-quiet (max_retries w.cfg) x _ v)
