-- ===== src/Core/Start.antt =====
-- The start, the stop and the restart of the core (service.go). An operation is serialised by the lock of
-- the lifecycle, and one step here; Core.Sections has the sections of a start on their own.
use v2ray_e.Base.{
  Bool, true, false, ◌&&◌, ◌||◌, List, [], ◌∷◌, ◌++◌, Option, none, some, if◌then◌else◌,
}
use v2ray_e.Base.Text.{Text, txt, text_eq}
use v2ray_e.Domain.{ProfileItem}
use v2ray_e.Service.Store.{find_profile}
use v2ray_e.Service.Profiles.{pick_selected_profile}
use v2ray_e.Core.Config.{tun_mode_from_config, should_manage_tun_traffic, sets_proxy}
use v2ray_e.Core.State.{
  CoreState, World, Outcome, takeover_failed, takeover_recovered, core_started, core_stopped,
  set_core_error, build_status, check_and_clean, clear_outside, status_for_lifecycle_op,
  save_restore, log_app, with_starting,
}

-- `findProfile`: `none` where there is no profile.
unfoldable pub find_or_first : Text → List ProfileItem → Option ProfileItem
unfolding find_profile text_eq
find_or_first id [] = none
find_or_first id (p ∷ ps) =
    let found = if text_eq id [] then none else find_profile id (p ∷ ps) in
    elim found [ none ↦ some p | some q ↦ some q ]

-- The selected profile is kept, where it can be saved; the identifier in use is the new one in any case.
unfoldable pub keep_selected : World → Option ProfileItem → Text → CoreState → Text × CoreState
unfolding text_eq
keep_selected w none id s = (id, s)
keep_selected w (some p) id s =
    if text_eq id p.id
    then (id, s)
    else (p.id, if w.state_saved then record s { current_profile_id = p.id } else s)

-- The status behind an early end of the start.
abbrev pub failed_start : World → Text → CoreState → Outcome
failed_start w message s = let t = set_core_error w.now_text message s in (build_status w t, t)

-- "TUN 接管失败，核心已降级为仅本地代理可用: ", in UTF-8.
abbrev pub takeover_failed_prefix : Text
takeover_failed_prefix =
    84 ∷ 85 ∷ 78 ∷ 32 ∷ 230 ∷ 142 ∷ 165 ∷ 231 ∷ 174 ∷ 161 ∷ 229 ∷ 164 ∷ 177 ∷ 232 ∷ 180 ∷ 165 ∷ 239
    ∷ 188 ∷ 140 ∷ 230 ∷ 160 ∷ 184 ∷ 229 ∷ 191 ∷ 131 ∷ 229 ∷ 183 ∷ 178 ∷ 233 ∷ 153 ∷ 141 ∷ 231 ∷ 186
    ∷ 167 ∷ 228 ∷ 184 ∷ 186 ∷ 228 ∷ 187 ∷ 133 ∷ 230 ∷ 156 ∷ 172 ∷ 229 ∷ 156 ∷ 176 ∷ 228 ∷ 187 ∷ 163
    ∷ 231 ∷ 144 ∷ 134 ∷ 229 ∷ 143 ∷ 175 ∷ 231 ∷ 148 ∷ 168 ∷ 58 ∷ 32 ∷ []

-- The routes behind the start, with one more attempt.
unfoldable pub set_up_routing : World → CoreState → CoreState
unfolding should_manage_tun_traffic set_core_error
set_up_routing w s =
    if should_manage_tun_traffic w.cfg
    then elim w.setup_error [
      | none ↦ record s { routed = true }
      | some _ ↦ elim w.retry_error [
        | none ↦ log_app takeover_recovered (record s { routed = true; degraded = false })
        | some e ↦ log_app (takeover_failed e) (
            set_core_error w.now_text (takeover_failed_prefix ++ e)
              (record s { routed = true; degraded = true }))
      ]
    ]
    else s

-- `applyConfiguredSystemProxyOnCoreStart`, and its error.
unfoldable pub set_up_proxy : World → CoreState → CoreState
unfolding sets_proxy set_core_error
set_up_proxy w s =
    if sets_proxy w.cfg
    then elim w.proxy_error [
      | none ↦ record s { proxied = true }
      | some e ↦ set_core_error w.now_text e (record s { proxied = true })
    ]
    else s

-- The running state is committed, and the log cleared.
unfoldable pub commit : World → CoreState → CoreState
commit w s = record s {
  core = true;
  running = true;
  restart_attempts = 0;
  restart_scheduled = false;
  restarting = false;
  last_error = [];
  last_error_at = [];
  degraded = false;
  last_engine = txt "xray-core";
  started_at = some w.now;
  stats = true;
  app_log = [];
}

-- What follows the start of the core.
unfoldable pub after_start : World → ProfileItem → CoreState → Outcome
unfolding commit set_up_routing set_up_proxy save_restore status_for_lifecycle_op
after_start w profile s =
    let proxied = set_up_proxy w (set_up_routing w (commit w s)) in
    status_for_lifecycle_op w (save_restore true w (log_app (core_started profile.name) proxied))

-- The generation of the configuration, its file, and the core itself.
unfoldable pub launch : World → ProfileItem → CoreState → Outcome
unfolding after_start status_for_lifecycle_op set_core_error build_status
launch w profile s =
    if w.generated && w.written
    then elim w.start_error [ some e ↦ failed_start w e s | none ↦ after_start w profile s ]
    else status_for_lifecycle_op w s

-- A device that is left over is removed first.
unfoldable pub launch_clean : World → ProfileItem → CoreState → Outcome
unfolding tun_mode_from_config text_eq launch set_core_error build_status
launch_clean w profile s =
    if text_eq (tun_mode_from_config w.cfg) (txt "off")
    then launch w profile s
    else elim w.cleanup_error [ none ↦ launch w profile s | some e ↦ failed_start w e s ]

-- The profile under the identifier in use, which is kept once more.
unfoldable pub start_profile : World → Text × CoreState → Outcome
unfolding keep_selected find_or_first launch_clean set_core_error build_status
start_profile w (id, s) = elim (find_or_first id s.profiles) [
  | none ↦ failed_start w (txt "no profiles configured") s
  | some profile ↦ launch_clean w profile ((keep_selected w (some profile) id s).1)
]

unfoldable pub prepare : World → CoreState → Outcome
unfolding keep_selected pick_selected_profile start_profile
prepare w s =
    start_profile w (
      keep_selected w (pick_selected_profile s.current_profile_id s.profiles) s.current_profile_id
        s)

-- `startCore`: a core that runs is left alone; one that has exited is cleaned up first. The flag is set
-- on the way, and cleared at every end.
unfoldable pub start_core : World → CoreState → Outcome
unfolding check_and_clean prepare build_status
start_core w s =
    let t = if s.running then check_and_clean w.exited_before w s else s in
    if t.running || t.starting
    then (build_status w t, t)
    else let (st, u) = prepare w (with_starting true t) in (st, with_starting false u)

-- `stopCore`
unfoldable pub stop_core : Bool → Bool → World → CoreState → Outcome
unfolding clear_outside save_restore status_for_lifecycle_op
stop_core clear_restore_state reset_watchdog w s =
    let stopped = record s {
      core = false;
      running = false;
      degraded = false;
      restart_attempts = if reset_watchdog then 0 else s.restart_attempts;
      restart_scheduled = if reset_watchdog then false else s.restart_scheduled;
      restarting = if reset_watchdog then false else s.restarting;
      started_at = none;
      last_error = [];
      last_error_at = [];
      stats = false;
    } in
    let cleared = log_app core_stopped (clear_outside w stopped) in
    let saved = if clear_restore_state then save_restore false w cleared else cleared in
    status_for_lifecycle_op w saved

-- `RestartCore`
unfoldable pub restart_core : World → CoreState → Outcome
unfolding stop_core start_core
restart_core w s = start_core w ((stop_core true true w s).1)

-- `restartCoreForRuntimeChange`
unfoldable pub restart_core_for_runtime_change : World → CoreState → CoreState
unfolding restart_core
restart_core_for_runtime_change w s = if s.running then (restart_core w s).1 else s

-- `stopOrRestartCoreForSelectionChange`
unfoldable pub stop_or_restart_core_for_selection_change : Text → World → CoreState → CoreState
unfolding restart_core stop_core text_eq
stop_or_restart_core_for_selection_change next_selected_id w s =
    if s.running
    then (if text_eq next_selected_id [] then (stop_core true true w s).1 else (restart_core w s).1)
    else s
