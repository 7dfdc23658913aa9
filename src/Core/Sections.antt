-- ===== src/Core/Sections.antt =====
-- The life of the core in its critical sections (service.go). A start waits between its sections, where
-- those that do not need the lock of the lifecycle may run: the check of the watchdog, a query of the
-- status, and what a goroutine of the watchdog does before and behind its restart. The claim of a start
-- with its cleanup, the end of a start and a stop are one section each here, although they release the
-- lock of the state in between.
pub mod Kept
pub mod Alone
use v2ray_e.Base.{
  ℕ, Bool, true, false, not, ◌&&◌, ◌||◌, List, [], ◌∷◌, Option, none, some, if◌then◌else◌,
}
use v2ray_e.Base.Text.{Text}
use v2ray_e.Domain.{ProfileItem}
use v2ray_e.Core.State.{
  CoreState, World, CoreStatus, Restart, set_core_error, clear_core_error, check_proc_exited,
  check_and_clean, cleanup_after_core_exit, status_for_lifecycle_op, save_restore, log_app,
  core_started, with_starting,
}
use v2ray_e.Core.Start.{keep_selected, commit, set_up_routing, set_up_proxy, stop_core}
use v2ray_e.Core.Watchdog.{plan_restart, after_restart, wake}

-- How far the start has come that holds the lock of the lifecycle, `idle` where none does.
pub data Progress : Type 0 where
  idle preparing is_up has_routes has_proxy : Progress

-- The sections, each with the answers that it gets. Those of a start come in the order of the source.
pub data Section : Type 0 where
  claimed refused committed took_over set_proxy : World → Section
  kept : World → Option ProfileItem → Text → Section
  failed : World → Text → Section
  finished : World → Text → Section
  stopped : Bool → Bool → World → Section
  cleaned checked asked : World → Section
  cleared_error : Section
  woke : ℕ → Section
  answered : World → Restart → CoreStatus → Section

pub record Flight : Type 0 where
  pub progress : Progress
  pub core : CoreState

-- The first phase of `startCore`.
unfoldable pub claim : World → CoreState → Flight
unfolding check_and_clean
claim w s =
    let t = if s.running then check_and_clean w.exited_before w s else s in
    if t.running || t.starting
    then record { progress = idle; core = t }
    else record { progress = preparing; core = with_starting true t }

-- An end of the start, with its deferred function.
abbrev pub release : CoreState → Flight
release s = record { progress = idle; core = with_starting false s }

-- The section of `watchdogTick`.
unfoldable pub check : World → CoreState → CoreState
unfolding check_proc_exited plan_restart
check w s = plan_restart w s.running ((check_proc_exited w.exited_before w.now_text s).1)

-- The first section of `runScheduledAutoRestart`.
unfoldable pub claim_restart : Restart → CoreState → CoreState
claim_restart r s =
    if not s.restart_scheduled
    then s
    else if s.running && not r.while_running
    then record s { restart_scheduled = false }
    else record s { restart_scheduled = false; restarting = true }

unfoldable pub wake_up : ℕ → CoreState → CoreState
unfolding wake claim_restart
wake_up n s = elim (wake n s.sleeping) [
  | none ↦ s
  | some (r, others) ↦ claim_restart r (record s { sleeping = others })
]

-- One section. A section whose turn it is not waits: nothing happens.
unfoldable pub happen : Section → Progress → CoreState → Flight
unfolding claim keep_selected set_core_error status_for_lifecycle_op commit set_up_routing
    set_up_proxy save_restore stop_core cleanup_after_core_exit check check_proc_exited wake_up
    after_restart
happen (claimed w) idle s = claim w s
happen (kept w selected id) preparing s = record {
  progress = preparing;
  core = (keep_selected w selected id s).1;
}
happen (failed w message) preparing s = release (set_core_error w.now_text message s)
happen (refused w) preparing s = release ((status_for_lifecycle_op w s).1)
happen (committed w) preparing s = record { progress = is_up; core = commit w s }
happen (took_over w) is_up s = record { progress = has_routes; core = set_up_routing w s }
happen (set_proxy w) has_routes s = record { progress = has_proxy; core = set_up_proxy w s }
happen (finished w name) has_proxy s =
    release ((status_for_lifecycle_op w (save_restore true w (log_app (core_started name) s))).1)
happen (stopped a b w) idle s = record { progress = idle; core = (stop_core a b w s).1 }
happen (cleaned w) idle s = record { progress = idle; core = cleanup_after_core_exit w s }
happen (checked w) p s = record { progress = p; core = check w s }
happen (asked w) p s = record {
  progress = p;
  core = (check_proc_exited w.exited_before w.now_text s).1;
}
happen cleared_error p s = record { progress = p; core = clear_core_error s }
happen (woke n) p s = record { progress = p; core = wake_up n s }
happen (answered w r st) p s = record { progress = p; core = after_restart w r st s }
happen _ p s = record { progress = p; core = s }

unfoldable pub run : List Section → Flight → Flight
unfolding happen
run [] f = f
run (e ∷ es) f = run es (happen e f.progress f.core)
