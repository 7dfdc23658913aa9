-- ===== src/Core/GivesUp/Woken.antt =====
-- The goroutines of the watchdog that wake up and fail to start the core.
use mathlib.Core.Path.{subst}
use v2ray_e.Base.{
  ℕ, zero, suc, ◌+◌, ◌<◌, ◌≤◌, ◌≡◌, ◌∙◌, refl, sym, ap, Bool, true, false, not, ◌&&◌, List, [], ◌∷◌,
  none, some, arith, if◌then◌else◌, length, All,
}
use v2ray_e.Base.Text.{txt}
use v2ray_e.Core.Config.{Config, bool_cfg}
use v2ray_e.Core.State.{
  CoreState, World, CoreStatus, Restart, ready, log_app, restart_succeeded, build_status,
}
use v2ray_e.Core.Start.{start_core, stop_core}
use v2ray_e.Core.Watchdog.{
  woken, wake, schedule_auto_restart, run_scheduled_auto_restart, run_restart, restart_failure,
  after_restart, max_retries, base_ms, backoff_delay,
}
use v2ray_e.Core.Status.{start_core-build_status}
use v2ray_e.Core.GivesUp.Failing.{Watched, StartFails, start_core-Watched}

schedule-full :
    (cfg : Config) (b : Bool) (a : ℕ) (rs : List Restart) (s : CoreState)
    → Watched a false rs s
    → 0 < max_retries cfg
    → max_retries cfg ≤ a
    → Watched a false rs (schedule_auto_restart cfg b s)
unfolding schedule_auto_restart
schedule-full cfg b a rs s v pos full = ground (arith, v, pos, full)

pub schedule-next :
    (cfg : Config) (a : ℕ) (s : CoreState)
    → Watched a false [] s
    → bool_cfg cfg (txt "coreAutoRestart") true ≡ true
    → a < max_retries cfg
    → Watched
        (suc a)
        true
        (record {
          delay = backoff_delay (base_ms cfg) (suc a);
          attempt = suc a;
          while_running = false;
        }
          ∷ [])
        (schedule_auto_restart cfg false s)
unfolding schedule_auto_restart
schedule-next cfg a s v enabled room = ground (arith, v, enabled, room)

abbrev pub waiting : Config → ℕ → Restart
waiting cfg a = record { delay = backoff_delay (base_ms cfg) a; attempt = a; while_running = false }

-- A goroutine whose start fails leaves the decision to the schedule.
abbrev Reschedules : World → ℕ → CoreState → Type 0
Reschedules w a s =
    (u : CoreState) × Watched a false [] u × (s ≡ schedule_auto_restart w.cfg false u)

restart_failure-Watched :
    (r : Restart) (st : CoreStatus) (a : ℕ) (t : CoreState)
    → Watched a false [] t
    → Watched a false [] (restart_failure r st t)
unfolding restart_failure
restart_failure-Watched r st a t v = ground (arith, v)

after_restart-Reschedules :
    (w : World) (r : Restart) (a : ℕ) (st : CoreStatus) (t : CoreState)
    → ready st ≡ false
    → Watched a false [] t
    → Reschedules w a (after_restart w r st t)
unfolding after_restart
after_restart-Reschedules w r a st t down v =
    let u : CoreState = restart_failure r st t in
    let v' : Watched a false [] u = restart_failure-Watched r st a t v in
    (
      u,
      v',
      ap
            (λ b.
              if b
              then log_app restart_succeeded (record t { restarting = false; restart_attempts = 0 })
              else if u.restart_scheduled
              then u
              else schedule_auto_restart w.cfg false u)
            down
          ∙ ap (λ b. if b then u else schedule_auto_restart w.cfg false u) v'.scheduled_is,
    )

not_ready : (w : World) (t : CoreState) → t.running ≡ false → ready (build_status w t) ≡ false
unfolding ready build_status
not_ready w t off = rw off refl

run_restart-Reschedules :
    (w : World) (r : Restart) (a : ℕ) (s : CoreState)
    → r.while_running ≡ false
    → StartFails w
    → Watched a false [] s
    → Reschedules w a (run_restart w r s)
unfolding run_restart build_status ready
run_restart-Reschedules w r a s idle f v =
    let v' : Watched a false [] ((start_core w s).1) = start_core-Watched a false [] w s f v in
    subst
      (λ b.
        let stopped = if b then (stop_core false false w s).1 else s in
        Reschedules w a (after_restart w r ((start_core w stopped).0) ((start_core w stopped).1)))
      (sym idle)
      (after_restart-Reschedules w r a ((start_core w s).0) ((start_core w s).1)
        (ap ready (start_core-build_status w s) ∙ not_ready w ((start_core w s).1) v'.stopped) v')

run_scheduled-Reschedules :
    (w : World) (r : Restart) (a : ℕ) (s : CoreState)
    → r.while_running ≡ false
    → StartFails w
    → Watched a true [] s
    → Reschedules w a (run_scheduled_auto_restart w r s)
unfolding run_scheduled_auto_restart
run_scheduled-Reschedules w r a s idle f v =
    let claimed : CoreState = record s { restart_scheduled = false; restarting = true } in
    let (u, v', e) = run_restart-Reschedules w r a claimed idle f (claimed-Watched s v) in
    (
      u,
      v',
      ap
            (λ b.
              if not b
              then s
              else if s.running && not r.while_running
              then record s { restart_scheduled = false }
              else run_restart w r claimed)
            v.scheduled_is
          ∙ ap
              (λ b.
                if b && not r.while_running
                then record s { restart_scheduled = false }
                else run_restart w r claimed)
              v.stopped
          ∙ e,
    )
  where
    claimed-Watched :
        (s : CoreState)
        → Watched a true [] s
        → Watched a false [] (record s { restart_scheduled = false; restarting = true })
    claimed-Watched s v = ground (arith, v)

woken-Reschedules :
    (w : World) (a : ℕ) (r : Restart) (s : CoreState)
    → r.while_running ≡ false
    → StartFails w
    → Watched a true (r ∷ []) s
    → Reschedules w a (woken 0 w s)
unfolding woken wake
woken-Reschedules w a r s idle f v =
    let (u, v', e) =
      run_scheduled-Reschedules w r a (record s { sleeping = [] }) idle f (emptied s v) in
    (u, v', ap (λ l. wake_first l) v.sleeping_is ∙ e)
  where
    emptied :
        (s : CoreState) → Watched a true (r ∷ []) s → Watched a true [] (record s { sleeping = [] })
    emptied s v = ground (arith, v)

    wake_first : List Restart → CoreState
    wake_first l = elim (wake 0 l) [
      | none ↦ s
      | some (q, others) ↦ run_scheduled_auto_restart w q (record s { sleeping = others })
    ]

-- Goroutines that wake up one after the other, in the worlds of a list.
unfoldable pub wakes : List World → CoreState → CoreState
unfolding woken
wakes [] s = s
wakes (w ∷ ws) s = wakes ws (woken 0 w s)

-- All starts fail, under a configuration with so many retries.
abbrev pub AllFail : ℕ → World → Type 0
AllFail m w =
    StartFails w × (max_retries w.cfg ≡ m) × (bool_cfg w.cfg (txt "coreAutoRestart") true ≡ true)

wakes-last :
    (m : ℕ) (w : World) (cfg : Config) (s : CoreState)
    → 0 < m
    → AllFail m w
    → Watched m true (waiting cfg m ∷ []) s
    → Watched m false [] (woken 0 w s)
wakes-last m w cfg s pos (f, mx, on) v =
    let (u, v', e) = woken-Reschedules w m (waiting cfg m) s refl f v in
    subst (Watched m false []) (sym e)
      (schedule-full w.cfg false m [] u v' (omega (arith, mx, pos)) (omega (arith, mx)))

pub wakes-Watched :
    (k m a : ℕ) (ws : List World) (cfg : Config) (s : CoreState)
    → 0 < m
    → length ws ≡ suc k
    → a + k ≡ m
    → All (AllFail m) ws
    → Watched a true (waiting cfg a ∷ []) s
    → Watched m false [] (wakes ws s)
unfolding wakes
wakes-Watched k m a [] cfg s pos len sum h v = absurd (omega (arith, len))
wakes-Watched zero m a (w ∷ []) cfg s pos len sum (h, _) v =
    wakes-last m w cfg s pos h
      (subst (λ n. Watched n true (waiting cfg n ∷ []) s) (omega (arith, sum)) v)
wakes-Watched zero m a (w ∷ x ∷ ws) cfg s pos len sum h v = absurd (omega (arith, len))
wakes-Watched (suc k) m a (w ∷ ws) cfg s pos len sum ((f, mx, on), h) v =
    let (u, v', e) = woken-Reschedules w a (waiting cfg a) s refl f v in
    wakes-Watched k m (suc a) ws w.cfg (woken 0 w s) pos (omega (arith, len)) (omega (arith, sum)) h
      (subst (Watched (suc a) true (waiting w.cfg (suc a) ∷ [])) (sym e)
        (schedule-next w.cfg a u v' on (omega (arith, mx, sum))))
