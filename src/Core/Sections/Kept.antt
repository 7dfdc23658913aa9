-- ===== src/Core/Sections/Kept.antt =====
-- What holds of the core through all interleavings of the sections.
use mathlib.Core.Path.{subst}
use v2ray_e.Base.{
  ℕ, ◌≡◌, refl, sym, Bool, true, false, ◌||◌, List, [], ◌∷◌, Option, none, some, arith, Bool-cases,
  Option-cases, inl, inr, if◌then◌else◌,
}
use v2ray_e.Base.Text.{Text}
use v2ray_e.Domain.{ProfileItem}
use v2ray_e.Core.Config.{Config}
use v2ray_e.Core.State.{
  CoreState, World, CoreStatus, Restart, set_core_error, check_proc_exited, check_and_clean,
  cleanup_after_core_exit, clear_outside, status_for_lifecycle_op, save_restore, log_app,
  with_starting, AppMessage, core_started,
}
use v2ray_e.Core.Start.{keep_selected, commit, set_up_routing, set_up_proxy, stop_core}
use v2ray_e.Core.Watchdog.{
  plan_restart, after_restart, restart_failure, schedule_auto_restart, wake,
}
use v2ray_e.Core.Sections.{
  Progress, idle, preparing, is_up, has_routes, has_proxy, Section, claimed, kept, refused,
  committed, took_over, set_proxy, failed, finished, stopped, cleaned, checked, asked,
  cleared_error, woke, answered, Flight, claim, check, claim_restart, wake_up, happen, run,
}

abbrev is_there {ℓ} : {A : Type ℓ} → Option A → Bool
is_there none = false
is_there (some a) = true

abbrev pub in_flight : Progress → Bool
in_flight idle = false
in_flight _ = true

-- The core runs where there is one, and the flag says whether a start is on its way.
pub record Kept (b : Bool) (s : CoreState) : Type 0 where
  pub has_core : s.core ≡ s.running
  pub has_stats : s.stats ≡ s.running
  pub has_start_time : is_there s.started_at ≡ s.running
  pub flag : s.starting ≡ b

module _ (b : Bool) where
  set_core_error-Kept : (t m : Text) (s : CoreState) → Kept b s → Kept b (set_core_error t m s)
  unfolding set_core_error
  set_core_error-Kept t m s v = ground (arith, v)

  check_proc_exited-Kept :
      (e : Bool) (t : Text) (s : CoreState) → Kept b s → Kept b ((check_proc_exited e t s).1)
  unfolding check_proc_exited set_core_error
  check_proc_exited-Kept e t s v = ground (arith, v)

  check_and_clean-Kept :
      (e : Bool) (w : World) (s : CoreState) → Kept b s → Kept b (check_and_clean e w s)
  unfolding check_and_clean check_proc_exited cleanup_after_core_exit clear_outside set_core_error
  check_and_clean-Kept e w s v = ground (arith, v)

  cleanup-Kept : (w : World) (s : CoreState) → Kept b s → Kept b (cleanup_after_core_exit w s)
  unfolding cleanup_after_core_exit clear_outside
  cleanup-Kept w s v = ground (arith, v)

  commit-Kept : (w : World) (s : CoreState) → Kept b s → Kept b (commit w s)
  unfolding commit
  commit-Kept w s v = record {
    has_core = refl;
    has_stats = refl;
    has_start_time = refl;
    flag = v.flag;
  }

  set_up_routing-Kept : (w : World) (s : CoreState) → Kept b s → Kept b (set_up_routing w s)
  unfolding set_up_routing set_core_error
  set_up_routing-Kept w s v = ground (arith, v)

  set_up_proxy-Kept : (w : World) (s : CoreState) → Kept b s → Kept b (set_up_proxy w s)
  unfolding set_up_proxy set_core_error
  set_up_proxy-Kept w s v = ground (arith, v)

  save_restore-Kept :
      (r : Bool) (w : World) (s : CoreState) → Kept b s → Kept b (save_restore r w s)
  unfolding save_restore
  save_restore-Kept r w s v = ground (arith, v)

  keep_selected-Kept :
      (w : World) (o : Option ProfileItem) (id : Text) (s : CoreState)
      → Kept b s
      → Kept b ((keep_selected w o id s).1)
  unfolding keep_selected
  keep_selected-Kept w none id s v = v
  keep_selected-Kept w (some p) id s v = ground (arith, v)

  stop_core-Kept :
      (x y : Bool) (w : World) (s : CoreState) → Kept b s → Kept b ((stop_core x y w s).1)
  unfolding stop_core status_for_lifecycle_op check_and_clean check_proc_exited
      cleanup_after_core_exit clear_outside set_core_error save_restore
  stop_core-Kept x y w s v = ground (arith, v)

  schedule-Kept :
      (cfg : Config) (c : Bool) (s : CoreState) → Kept b s → Kept b (schedule_auto_restart cfg c s)
  unfolding schedule_auto_restart
  schedule-Kept cfg c s v = ground (arith, v)

  plan-Kept : (w : World) (c : Bool) (s : CoreState) → Kept b s → Kept b (plan_restart w c s)
  unfolding plan_restart
  plan-Kept w c s v = ground (arith, v, schedule-Kept w.cfg true s v, schedule-Kept w.cfg false s v)

  check-Kept : (w : World) (s : CoreState) → Kept b s → Kept b (check w s)
  unfolding check
  check-Kept w s v = plan-Kept w s.running _ (check_proc_exited-Kept w.exited_before w.now_text s v)

  claim_restart-Kept : (r : Restart) (s : CoreState) → Kept b s → Kept b (claim_restart r s)
  unfolding claim_restart
  claim_restart-Kept r s v = ground (arith, v)

  wake_up-Kept : (n : ℕ) (s : CoreState) → Kept b s → Kept b (wake_up n s)
  unfolding wake_up
  wake_up-Kept n s v = elim (Option-cases (wake n s.sleeping)) [
    | inl none_sleeps ↦ rw (none_sleeps, wake_up) v
    | inr ((r, others), e) ↦
        rw (e, wake_up)
          (claim_restart-Kept r (record s { sleeping = others })
            (record {
              has_core = v.has_core;
              has_stats = v.has_stats;
              has_start_time = v.has_start_time;
              flag = v.flag;
            }))
  ]

  log_app-Kept : (m : AppMessage) (s : CoreState) → Kept b s → Kept b (log_app m s)
  log_app-Kept m s v = ground (arith, v)

  restart_failure-Kept :
      (r : Restart) (st : CoreStatus) (s : CoreState) → Kept b s → Kept b (restart_failure r st s)
  unfolding restart_failure
  restart_failure-Kept r st s v = ground (arith, v)

  after_restart-Kept :
      (w : World) (r : Restart) (st : CoreStatus) (s : CoreState)
      → Kept b s
      → Kept b (after_restart w r st s)
  unfolding after_restart
  after_restart-Kept w r st s v =
      let failure = restart_failure-Kept r st s v in
      ground (arith, v, failure, schedule-Kept w.cfg false (restart_failure r st s) failure)

with_starting-Kept : (b c : Bool) (s : CoreState) → Kept b s → Kept c (with_starting c s)
with_starting-Kept b c s v = record {
  has_core = v.has_core;
  has_stats = v.has_stats;
  has_start_time = v.has_start_time;
  flag = refl;
}

abbrev pub KeptFlight : Flight → Type 0
KeptFlight f = Kept (in_flight f.progress) f.core

if-Kept : (c : Bool) (f g : Flight) → KeptFlight f → KeptFlight g → KeptFlight (if c then f else g)
if-Kept true f g p q = p
if-Kept false f g p q = q

claim-Kept : (w : World) (s : CoreState) → Kept false s → KeptFlight (claim w s)
unfolding claim
claim-Kept w s v = by_running (if s.running then check_and_clean w.exited_before w s else s) before
  where
    before : Kept false (if s.running then check_and_clean w.exited_before w s else s)
    before = elim (Bool-cases s.running) [
      | inl on ↦
          subst (λ b. Kept false (if b then check_and_clean w.exited_before w s else s)) (sym on)
            (check_and_clean-Kept false w.exited_before w s v)
      | inr off ↦
          subst (λ b. Kept false (if b then check_and_clean w.exited_before w s else s)) (sym off) v
    ]

    by_running :
        (t : CoreState)
        → Kept false t
        → KeptFlight (
            if t.running || t.starting
            then record { progress = idle; core = t }
            else record { progress = preparing; core = with_starting true t })
    by_running t k =
        if-Kept (t.running || t.starting) (record { progress = idle; core = t })
          (record { progress = preparing; core = with_starting true t }) k
          (with_starting-Kept false true t k)

happen-Kept :
    (e : Section) (p : Progress) (s : CoreState) → Kept (in_flight p) s → KeptFlight (happen e p s)
unfolding happen status_for_lifecycle_op
happen-Kept (claimed w) idle s v = claim-Kept w s v
happen-Kept (kept w o id) preparing s v = keep_selected-Kept true w o id s v
happen-Kept (failed w m) preparing s v =
    with_starting-Kept true false _ (set_core_error-Kept true w.now_text m s v)
happen-Kept (refused w) preparing s v =
    with_starting-Kept true false _ (check_and_clean-Kept true w.exited_after w s v)
happen-Kept (committed w) preparing s v = commit-Kept true w s v
happen-Kept (took_over w) is_up s v = set_up_routing-Kept true w s v
happen-Kept (set_proxy w) has_routes s v = set_up_proxy-Kept true w s v
happen-Kept (finished w name) has_proxy s v = with_starting-Kept true false _ (
    check_and_clean-Kept true w.exited_after w _ (
      save_restore-Kept true true w (log_app (core_started name) s)
        (log_app-Kept true (core_started name) s v)))
happen-Kept (stopped x y w) idle s v = stop_core-Kept false x y w s v
happen-Kept (cleaned w) idle s v = cleanup-Kept false w s v
happen-Kept (checked w) p s v = check-Kept (in_flight p) w s v
happen-Kept (asked w) p s v = check_proc_exited-Kept (in_flight p) w.exited_before w.now_text s v
happen-Kept cleared_error p s v = ground (arith, v)
happen-Kept (woke n) p s v = wake_up-Kept (in_flight p) n s v
happen-Kept (answered w r st) p s v = after_restart-Kept (in_flight p) w r st s v
happen-Kept _ p s v = v

-- From a state that is so, and however the sections of starts and stops, of the watchdog with its
-- goroutines, and of status queries follow each other, whatever the calls outside answer: the core runs
-- exactly where there is one, so do its statistics and its start time, and the flag of a start is set
-- exactly while one is on its way.
pub run-Kept : (es : List Section) (f : Flight) → KeptFlight f → KeptFlight (run es f)
unfolding run
run-Kept [] f v = v
run-Kept (e ∷ es) f v = run-Kept es (happen e f.progress f.core) (happen-Kept e f.progress f.core v)
