-- ===== src/Core/Watchdog.antt =====
-- The watchdog (service.go): the check of each second, the back-off, and the restart that follows it.
use v2ray_e.Base.{
  ℕ, zero, suc, ◌-◌, ◌*◌, Bool, true, false, not, ◌&&◌, ◌||◌, List, [], ◌∷◌, Option, none, some,
  ltb, leb, if◌then◌else◌,
}
use v2ray_e.Base.Int.{pos, negsuc}
use v2ray_e.Base.Text.{txt, text_eq, trim_space}
use v2ray_e.Core.Config.{Config, bool_cfg, int_cfg}
use v2ray_e.Core.State.{
  CoreState, World, CoreStatus, Restart, ready, check_proc_exited, cleanup_after_core_exit, log_app,
  restarts_stopped, restart_succeeded, restart_failed,
}
use v2ray_e.Core.Start.{start_core, stop_core}

-- The retries at most, 0 for no limit.
unfoldable pub max_retries : Config → ℕ
unfolding int_cfg
max_retries cfg = elim (int_cfg cfg (txt "coreAutoRestartMaxRetries") (pos 5)) [
  | pos n ↦ n
  | negsuc n ↦ 0
]

-- The first delay, in milliseconds.
unfoldable pub base_ms : Config → ℕ
unfolding int_cfg
base_ms cfg = elim (int_cfg cfg (txt "coreAutoRestartBackoffMs") (pos 500)) [
  | pos n ↦ if ltb n 100 then 100 else if ltb 30000 n then 30000 else n
  | negsuc n ↦ 100
]

-- The loop that doubles the delay.
unfoldable pub doubled : ℕ → ℕ → ℕ
doubled zero delay = delay
doubled (suc rounds) delay =
    let next = doubled rounds (delay * 2) in if leb 30000 (delay * 2) then 30000 else next

unfoldable pub backoff_delay : ℕ → ℕ → ℕ
unfolding doubled
backoff_delay base attempt = doubled (attempt - 1) base

-- `scheduleAutoRestartLocked`
unfoldable pub schedule_auto_restart : Config → Bool → CoreState → CoreState
unfolding bool_cfg max_retries base_ms backoff_delay
schedule_auto_restart cfg while_running s =
    if not (bool_cfg cfg (txt "coreAutoRestart") true)
    then s
    else if ltb 0 (max_retries cfg) && leb (max_retries cfg) s.restart_attempts
    then log_app (restarts_stopped (max_retries cfg)) s
    else record s {
      restart_attempts = suc s.restart_attempts;
      restart_scheduled = true;
      sleeping =
          record {
            delay = backoff_delay (base_ms cfg) (suc s.restart_attempts);
            attempt = suc s.restart_attempts;
            while_running = while_running;
          }
          ∷ s.sleeping;
    }

-- `watchdogRestartPlanLocked`: whether to restart while the core runs, `none` for no restart.
unfoldable pub watchdog_restart_plan : Bool → CoreState → Option Bool
watchdog_restart_plan was_running s =
    if was_running && not s.running
    then some false
    else if s.running && s.degraded
    then some true
    else none

-- The schedule of a tick, behind its check.
unfoldable pub plan_restart : World → Bool → CoreState → CoreState
unfolding watchdog_restart_plan schedule_auto_restart
plan_restart w was_running s = elim (watchdog_restart_plan was_running s) [
  | none ↦ s
  | some while_running ↦
      if s.restarting || s.restart_scheduled then s else schedule_auto_restart w.cfg while_running s
]

-- `watchdogTick`
unfoldable pub watchdog_tick : World → CoreState → CoreState
unfolding check_proc_exited plan_restart cleanup_after_core_exit
watchdog_tick w s =
    let (need_cleanup, t) = check_proc_exited w.exited_before w.now_text s in
    let planned = plan_restart w s.running t in
    if need_cleanup then cleanup_after_core_exit w planned else planned

-- The log of a restart that failed.
unfoldable pub restart_failure : Restart → CoreStatus → CoreState → CoreState
unfolding trim_space text_eq
restart_failure r st s =
    let error = trim_space st.error in
    let message = if text_eq error [] then txt "unknown start failure" else error in
    log_app (restart_failed r.attempt message) (record s { restarting = false })

-- What the goroutine does with the status of its start.
unfoldable pub after_restart : World → Restart → CoreStatus → CoreState → CoreState
unfolding ready restart_failure schedule_auto_restart
after_restart w r st s =
    if ready st
    then log_app restart_succeeded (record s { restarting = false; restart_attempts = 0 })
    else let t = restart_failure r st s in
      if t.restart_scheduled then t else schedule_auto_restart w.cfg false t

-- The restart, under the lock of the lifecycle.
unfoldable pub run_restart : World → Restart → CoreState → CoreState
unfolding stop_core start_core after_restart
run_restart w r s =
    let stopped = if r.while_running then (stop_core false false w s).1 else s in
    after_restart w r ((start_core w stopped).0) ((start_core w stopped).1)

-- `runScheduledAutoRestart`, when it has slept.
unfoldable pub run_scheduled_auto_restart : World → Restart → CoreState → CoreState
unfolding run_restart
run_scheduled_auto_restart w r s =
    if not s.restart_scheduled
    then s
    else if s.running && not r.while_running
    then record s { restart_scheduled = false }
    else run_restart w r (record s { restart_scheduled = false; restarting = true })

-- The goroutine at an index, and the others.
unfoldable pub wake : ℕ → List Restart → Option (Restart × List Restart)
wake n [] = none
wake zero (r ∷ rs) = some (r, rs)
wake (suc n) (r ∷ rs) = elim (wake n rs) [ none ↦ none | some (q, others) ↦ some (q, r ∷ others) ]

-- A goroutine wakes up.
unfoldable pub woken : ℕ → World → CoreState → CoreState
unfolding wake run_scheduled_auto_restart
woken n w s = elim (wake n s.sleeping) [
  | none ↦ s
  | some (r, others) ↦ run_scheduled_auto_restart w r (record s { sleeping = others })
]
