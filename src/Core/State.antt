-- ===== src/Core/State.antt =====
-- The state of the service that belongs to the core, and the answers of what is outside (service.go).
use v2ray_e.Base.{
  ℕ, ◌-◌, Bool, true, false, not, ◌&&◌, List, [], ◌∷◌, ◌++◌, Option, none, some, if◌then◌else◌,
}
use v2ray_e.Base.Text.{Text, txt, text_eq, trim_space}
use v2ray_e.Domain.{ProfileItem}
use v2ray_e.Core.Config.{Config, engine_mode, sets_proxy}

-- The lines that the service itself adds to the log.
pub data AppMessage : Type 0 where
  takeover_failed : Text → AppMessage
  takeover_recovered core_stopped restart_succeeded : AppMessage
  core_started : Text → AppMessage
  restarts_stopped : ℕ → AppMessage
  restart_failed : ℕ → Text → AppMessage

-- A goroutine of `runScheduledAutoRestart` that sleeps. The delay is in milliseconds.
pub record Restart : Type 0 where
  pub delay : ℕ
  pub attempt : ℕ
  pub while_running : Bool

-- `core`, `stats` and `started_at` are there where the pointer is not nil and the time not zero.
-- `routed` and `proxied` say whether the routes or the proxy were set up since the last call that clears
-- them.
pub record CoreState : Type 0 where
  pub core : Bool
  pub running : Bool
  pub starting : Bool
  pub degraded : Bool
  pub last_error : Text
  pub last_error_at : Text
  pub last_engine : Text
  pub started_at : Option ℕ
  pub stats : Bool
  pub restart_attempts : ℕ
  pub restart_scheduled : Bool
  pub restarting : Bool
  pub sleeping : List Restart
  pub app_log : List AppMessage
  pub routed : Bool
  pub proxied : Bool
  pub profiles : List ProfileItem
  pub current_profile_id : Text
  pub should_restore : Bool

-- The answers that one operation gets: whether the core has exited when it is asked first and last, the
-- errors of the calls, whether the state could be saved, and whether another server runs.
pub record World : Type 0 where
  pub cfg : Config
  pub now : ℕ
  pub now_text : Text
  pub exited_before : Bool
  pub exited_after : Bool
  pub cleanup_error : Option Text
  pub generated : Bool
  pub written : Bool
  pub start_error : Option Text
  pub setup_error : Option Text
  pub retry_error : Option Text
  pub proxy_error : Option Text
  pub state_saved : Bool
  pub other_server : Bool

pub record CoreStatus : Type 0 where
  pub running : Bool
  pub degraded : Bool
  pub core_type : Text
  pub engine_mode : Text
  pub engine_resolved : Text
  pub current_profile_id : Text
  pub state : Text
  pub started_at : Option ℕ
  pub uptime_sec : ℕ
  pub error : Text
  pub error_at : Text

unfoldable pub ready : CoreStatus → Bool
ready st = st.running && not st.degraded

unfoldable pub set_core_error : Text → Text → CoreState → CoreState
unfolding trim_space text_eq
set_core_error now_text message s =
    let error = trim_space message in
    if text_eq error []
    then record s { last_error = []; last_error_at = [] }
    else record s { last_error = error; last_error_at = now_text }

abbrev pub clear_core_error : CoreState → CoreState
clear_core_error s = record s { last_error = []; last_error_at = [] }

-- `buildStatus`. The seconds since the start are no less than 0.
unfoldable pub build_status : World → CoreState → CoreStatus
unfolding engine_mode text_eq
build_status w s =
    let resolved = if text_eq s.last_engine [] then txt "xray-core" else s.last_engine in
    record {
      running = s.running;
      degraded = s.degraded;
      core_type = if text_eq resolved [] then txt "xray" else resolved;
      engine_mode = engine_mode w.cfg;
      engine_resolved = resolved;
      current_profile_id = s.current_profile_id;
      state =
          if s.running
          then (if s.degraded then txt "degraded" else txt "running")
          else txt "stopped";
      started_at = s.started_at;
      uptime_sec = elim s.started_at [ none ↦ 0 | some t ↦ if s.running then w.now - t else 0 ];
      error = s.last_error;
      error_at = s.last_error_at;
    }

-- `checkProcExitedLocked`: whether what was set up outside must be cleaned up, and the state behind it.
unfoldable pub check_proc_exited : Bool → Text → CoreState → Bool × CoreState
unfolding set_core_error
check_proc_exited exited now_text s =
    if s.core && exited
    then (
      true,
      record (set_core_error now_text (txt "xray-core instance exited") s) {
        core = false;
        running = false;
        degraded = false;
        started_at = none;
        stats = false;
      },
    )
    else (false, s)

-- `clearTunRouting`, which leaves the routes to another server that runs, and
-- `clearSystemProxyOnCoreStop`.
unfoldable pub clear_outside : World → CoreState → CoreState
unfolding sets_proxy
clear_outside w s = record s {
  routed = if w.other_server then s.routed else false;
  proxied = if sets_proxy w.cfg then false else s.proxied;
}

-- `cleanupAfterCoreExit` with its lock or in an operation that holds it.
unfoldable pub cleanup_after_core_exit : World → CoreState → CoreState
unfolding clear_outside
cleanup_after_core_exit w s = if s.running then s else clear_outside w s

-- The check, with the cleanup where it is needed.
unfoldable pub check_and_clean : Bool → World → CoreState → CoreState
unfolding check_proc_exited cleanup_after_core_exit
check_and_clean exited w s =
    let (need_cleanup, t) = check_proc_exited exited w.now_text s in
    if need_cleanup then cleanup_after_core_exit w t else t

abbrev pub Outcome : Type 0
Outcome = CoreStatus × CoreState

-- `statusForLifecycleOp`, and `CoreStatus` with the answer of the first check.
unfoldable pub status_for_lifecycle_op : World → CoreState → Outcome
unfolding check_and_clean build_status
status_for_lifecycle_op w s = let t = check_and_clean w.exited_after w s in (build_status w t, t)

unfoldable pub core_status : World → CoreState → Outcome
unfolding check_and_clean build_status
core_status w s = let t = check_and_clean w.exited_before w s in (build_status w t, t)

unfoldable pub clear_core_error_op : World → CoreState → Outcome
unfolding build_status
clear_core_error_op w s = let t = clear_core_error s in (build_status w t, t)

-- The flag of a start that is on its way.
abbrev pub with_starting : Bool → CoreState → CoreState
with_starting b s = record s { starting = b }

-- `saveState`, whose error is not looked at.
unfoldable pub save_restore : Bool → World → CoreState → CoreState
save_restore restore w s = if w.state_saved then record s { should_restore = restore } else s

abbrev pub log_app : AppMessage → CoreState → CoreState
log_app message s = record s { app_log = s.app_log ++ message ∷ [] }
