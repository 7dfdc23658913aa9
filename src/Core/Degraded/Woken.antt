-- ===== src/Core/Degraded/Woken.antt =====
-- The goroutines of the watchdog that wake up beside a core without its routes.
use mathlib.Core.Path.{subst}
use v2ray_e.Base.{
  ℕ, suc, ◌<◌, ◌≡◌, ◌∙◌, refl, sym, ap, Bool, true, false, not, ◌&&◌, List, [], ◌∷◌, none, some,
  arith, if◌then◌else◌, length,
}
use v2ray_e.Base.Text.{txt}
use v2ray_e.Core.Config.{Config, bool_cfg}
use v2ray_e.Core.State.{
  CoreState, World, CoreStatus, Restart, ready, log_app, restart_succeeded, build_status,
}
use v2ray_e.Core.Start.{start_core, stop_core}
use v2ray_e.Core.Watchdog.{
  watchdog_tick, woken, wake, schedule_auto_restart, run_scheduled_auto_restart, run_restart,
  restart_failure, after_restart, watchdog_restart_plan, max_retries, base_ms, backoff_delay,
}
use v2ray_e.Core.GivesUp.{plan-schedules, tick-not_exited}
use v2ray_e.Core.Status.{start_core-build_status}
use v2ray_e.Core.Degraded.Takeover.{
  Degraded, TakeoverFails, Takeover, start_core-Takeover, stop_core-Down,
}

schedule-Degraded :
    (cfg : Config) (b : Bool) (a : ℕ) (s : CoreState)
    → Degraded a false [] s
    → bool_cfg cfg (txt "coreAutoRestart") true ≡ true
    → a < max_retries cfg
    → Degraded
        (suc a)
        true
        (record { delay = backoff_delay (base_ms cfg) (suc a); attempt = suc a; while_running = b }
          ∷ [])
        (schedule_auto_restart cfg b s)
unfolding schedule_auto_restart
schedule-Degraded cfg b a s v on room = ground (arith, v, on, room)

pub tick-Degraded :
    (w : World) (a : ℕ) (s : CoreState)
    → TakeoverFails w
    → a < max_retries w.cfg
    → Degraded a false [] s
    → Degraded
        (suc a)
        true
        (record {
          delay = backoff_delay (base_ms w.cfg) (suc a);
          attempt = suc a;
          while_running = true;
        }
          ∷ [])
        (watchdog_tick w s)
unfolding watchdog_restart_plan
tick-Degraded w a s f room v =
    subst
      (Degraded (suc a) true (
        record {
          delay = backoff_delay (base_ms w.cfg) (suc a);
          attempt = suc a;
          while_running = true;
        }
        ∷ []))
      (sym (
        tick-not_exited w s (ground (arith, f.alive_before))
        ∙ plan-schedules w s.running true s (plan s v.runs v.is_degraded) v.not_restarting
            v.scheduled_is))
      (schedule-Degraded w.cfg true a s v f.restarts room)
  where
    plan :
        (s : CoreState)
        → s.running ≡ true
        → s.degraded ≡ true
        → watchdog_restart_plan s.running s ≡ some true
    plan s on down = ground (arith, on, down)

-- The first goroutine of one that sleeps alone.
woken-alone :
    (w : World) (r : Restart) (s : CoreState)
    → s.sleeping ≡ r ∷ []
    → s.restart_scheduled ≡ true
    → woken 0 w s ≡ (
        if s.running && not r.while_running
        then record s { sleeping = []; restart_scheduled = false }
        else run_restart w r
            (record s { sleeping = []; restart_scheduled = false; restarting = true }))
unfolding woken wake run_scheduled_auto_restart
woken-alone w r s alone scheduled =
    ap (λ l. first l) alone
    ∙ ap
        (λ b.
          if not b
          then record s { sleeping = [] }
          else if s.running && not r.while_running
          then record s { sleeping = []; restart_scheduled = false }
          else run_restart w r
              (record s { sleeping = []; restart_scheduled = false; restarting = true }))
        scheduled
  where
    first : List Restart → CoreState
    first l = elim (wake 0 l) [
      | none ↦ s
      | some (q, others) ↦ run_scheduled_auto_restart w q (record s { sleeping = others })
    ]

-- The goroutine that does not restart a core that runs only ends.
pub sleep-Degraded :
    (w : World) (a : ℕ) (r : Restart) (s : CoreState)
    → r.while_running ≡ false
    → Degraded a true (r ∷ []) s
    → Degraded a false [] (woken 0 w s) × ((woken 0 w s).started_at ≡ s.started_at)
sleep-Degraded w a r s gentle v =
    subst (λ t. Degraded a false [] t × (t.started_at ≡ s.started_at))
      (sym (
        woken-alone w r s v.sleeping_is v.scheduled_is
        ∙ ap
            (λ b.
              if b
              then record s { sleeping = []; restart_scheduled = false }
              else run_restart w r
                  (record s { sleeping = []; restart_scheduled = false; restarting = true }))
            {y = true} (ground (arith, v.runs, gentle))))
      (ended s v, refl)
  where
    ended :
        (s : CoreState)
        → Degraded a true (r ∷ []) s
        → Degraded a false [] (record s { sleeping = []; restart_scheduled = false })
    ended s v = ground (arith, v)

failure-Takeover :
    (w : World) (r : Restart) (st : CoreStatus) (s : CoreState)
    → Takeover w s
    → Takeover w (restart_failure r st s)
unfolding Takeover restart_failure
failure-Takeover w r st s v = ground (arith, v)

not_ready : (w : World) (t : CoreState) → t.degraded ≡ true → ready (build_status w t) ≡ false
unfolding ready build_status
not_ready w t h = ground (arith, h)

started_at-schedule :
    (cfg : Config) (b : Bool) (s : CoreState)
    → (schedule_auto_restart cfg b s).started_at ≡ s.started_at
unfolding schedule_auto_restart
started_at-schedule cfg b s = ground arith

abbrev pub gentle_restart : Config → Restart
gentle_restart cfg = record {
  delay = backoff_delay (base_ms cfg) 1;
  attempt = 1;
  while_running = false;
}

-- What a restart that is degraded again leaves to the watchdog.
after_restart-Degraded :
    (w : World) (r : Restart) (st : CoreStatus) (s : CoreState)
    → bool_cfg w.cfg (txt "coreAutoRestart") true ≡ true
    → ready st ≡ false
    → 0 < max_retries w.cfg
    → Takeover w s
    → Degraded 1 true (gentle_restart w.cfg ∷ []) (after_restart w r st s)
      × ((after_restart w r st s).started_at ≡ some w.now)
unfolding Takeover after_restart
after_restart-Degraded w r st s on down pos v =
    let u : CoreState = restart_failure r st s in
    let (d, t) = failure-Takeover w r st s v in
    subst (λ x. Degraded 1 true (gentle_restart w.cfg ∷ []) x × (x.started_at ≡ some w.now))
      (sym (
        ap
          (λ b.
            if b
            then log_app restart_succeeded (record s { restarting = false; restart_attempts = 0 })
            else if u.restart_scheduled
            then u
            else schedule_auto_restart w.cfg false u)
          down
        ∙ ap (λ b. if b then u else schedule_auto_restart w.cfg false u) d.scheduled_is))
      (schedule-Degraded w.cfg false 0 u d on pos, started_at-schedule w.cfg false u ∙ t)

run_restart-Degraded :
    (w : World) (r : Restart) (s : CoreState)
    → r.while_running ≡ true
    → TakeoverFails w
    → 0 < max_retries w.cfg
    → s.starting ≡ false
    → s.sleeping ≡ []
    → 0 < length s.profiles
    → Degraded 1 true (gentle_restart w.cfg ∷ []) (run_restart w r s)
      × ((run_restart w r s).started_at ≡ some w.now)
unfolding run_restart Takeover
run_restart-Degraded w r s forced f pos idle alone some_profile =
    let t : CoreState = (stop_core false false w s).1 in
    let v = start_core-Takeover w t f (stop_core-Down w s idle alone some_profile) in
    subst
      (λ b.
        let x = if b then (stop_core false false w s).1 else s in
        let y = after_restart w r ((start_core w x).0) ((start_core w x).1) in
        Degraded 1 true (gentle_restart w.cfg ∷ []) y × (y.started_at ≡ some w.now))
      (sym forced)
      (after_restart-Degraded w r ((start_core w t).0) ((start_core w t).1) f.restarts
        (ap ready (start_core-build_status w t)
          ∙ not_ready w ((start_core w t).1) (v.0.is_degraded))
        pos v)

-- The goroutine that restarts the core leaves another one behind.
pub restart-Degraded :
    (w : World) (a : ℕ) (r : Restart) (s : CoreState)
    → r.while_running ≡ true
    → TakeoverFails w
    → 0 < max_retries w.cfg
    → Degraded a true (r ∷ []) s
    → Degraded 1 true (gentle_restart w.cfg ∷ []) (woken 0 w s)
      × ((woken 0 w s).started_at ≡ some w.now)
restart-Degraded w a r s forced f pos v =
    let claimed : CoreState = record s {
      sleeping = [];
      restart_scheduled = false;
      restarting = true;
    } in
    subst (λ t. Degraded 1 true (gentle_restart w.cfg ∷ []) t × (t.started_at ≡ some w.now))
      (sym (
        woken-alone w r s v.sleeping_is v.scheduled_is
        ∙ ap
            (λ b.
              if b
              then record s { sleeping = []; restart_scheduled = false }
              else run_restart w r claimed)
            {y = false} (ground (arith, forced))))
      (run_restart-Degraded w r claimed forced f pos v.not_starting refl v.has_profiles)
