-- ===== src/Core/Degraded/Takeover.antt =====
-- What a start of the core that cannot take over the routes leaves behind.
use mathlib.Core.Path.{subst}
use v2ray_e.Base.{
  ℕ, ◌<◌, ◌≡◌, refl, sym, Bool, true, false, ◌&&◌, List, [], ◌∷◌, Option, none, some, arith,
  Bool-cases, Option-cases, inl, inr, if◌then◌else◌, length,
}
use v2ray_e.Base.Text.{Text, txt, text_eq}
use v2ray_e.Domain.{ProfileItem}
use v2ray_e.Service.Profiles.{pick_selected_profile}
use v2ray_e.Service.Store.{find_profile}
use v2ray_e.Core.Config.{bool_cfg, tun_mode_from_config, should_manage_tun_traffic}
use v2ray_e.Core.State.{
  CoreState, World, Restart, Outcome, log_app, set_core_error, check_proc_exited, check_and_clean,
  clear_outside, status_for_lifecycle_op, save_restore, core_started,
}
use v2ray_e.Core.Start.{
  start_core, stop_core, keep_selected, find_or_first, launch, launch_clean, start_profile, prepare,
  after_start, commit, set_up_routing, set_up_proxy, failed_start,
}
use v2ray_e.Core.Invariant.{cleaned-not_exited}
use v2ray_e.Core.Status.{start_core-stopped}

-- A core is up without its routes.
pub record Degraded (attempts : ℕ) (scheduled : Bool) (sleeping : List Restart) (s : CoreState)
    : Type 0 where
  pub has_core : s.core ≡ true
  pub runs : s.running ≡ true
  pub is_degraded : s.degraded ≡ true
  pub not_starting : s.starting ≡ false
  pub attempts_are : s.restart_attempts ≡ attempts
  pub scheduled_is : s.restart_scheduled ≡ scheduled
  pub not_restarting : s.restarting ≡ false
  pub sleeping_is : s.sleeping ≡ sleeping
  pub has_profiles : 0 < length s.profiles

-- Nothing is up.
pub record Down (s : CoreState) : Type 0 where
  pub stopped : s.running ≡ false
  pub not_starting : s.starting ≡ false
  pub none_sleeps : s.sleeping ≡ []
  pub has_profiles : 0 < length s.profiles

-- The core starts, and both attempts to set up the routes fail.
pub record TakeoverFails (w : World) : Type 0 where
  pub made : (w.generated && w.written) ≡ true
  pub starts : w.start_error ≡ none
  pub clean : w.cleanup_error ≡ none
  pub managed : should_manage_tun_traffic w.cfg ≡ true
  pub first_error : Text
  pub first_fails : w.setup_error ≡ some first_error
  pub second_error : Text
  pub second_fails : w.retry_error ≡ some second_error
  pub alive_before : w.exited_before ≡ false
  pub alive : w.exited_after ≡ false
  pub restarts : bool_cfg w.cfg (txt "coreAutoRestart") true ≡ true

unfoldable pub Takeover : World → CoreState → Type 0
Takeover w s = Degraded 0 false [] s × (s.started_at ≡ some w.now)

routing-Takeover :
    (w : World) (s : CoreState)
    → TakeoverFails w
    → Down s
    → Takeover w (set_up_routing w (commit w s))
unfolding Takeover set_up_routing commit set_core_error
routing-Takeover w s f d = ground (arith, f.managed, f.first_fails, f.second_fails, d)

proxy-Takeover : (w : World) (s : CoreState) → Takeover w s → Takeover w (set_up_proxy w s)
unfolding Takeover set_up_proxy set_core_error
proxy-Takeover w s v = ground (arith, v)

saved-Takeover :
    (w : World) (p : Text) (s : CoreState)
    → Takeover w s
    → Takeover w (save_restore true w (log_app (core_started p) s))
unfolding Takeover save_restore
saved-Takeover w p s v = ground (arith, v)

still_up :
    (w : World) (s : CoreState) → w.exited_after ≡ false → (status_for_lifecycle_op w s).1 ≡ s
unfolding status_for_lifecycle_op
still_up w s h = cleaned-not_exited w.exited_after w s (ground (arith, h))

after_start-Takeover :
    (w : World) (p : ProfileItem) (s : CoreState)
    → TakeoverFails w
    → Down s
    → Takeover w ((after_start w p s).1)
unfolding after_start
after_start-Takeover w p s f d =
    let t : CoreState =
      save_restore true w
        (log_app (core_started p.name) (set_up_proxy w (set_up_routing w (commit w s)))) in
    subst (Takeover w) (sym (still_up w t f.alive))
      (saved-Takeover w p.name _ (proxy-Takeover w _ (routing-Takeover w s f d)))

launch-Takeover :
    (w : World) (p : ProfileItem) (s : CoreState)
    → TakeoverFails w
    → Down s
    → Takeover w ((launch w p s).1)
unfolding launch
launch-Takeover w p s f d =
    subst
      (λ b. Takeover w (
        (if b
          then elim w.start_error as (λ _. Outcome) [
            | some e ↦ failed_start w e s
            | none ↦ after_start w p s
          ]
          else status_for_lifecycle_op w s).1))
      (sym f.made)
      (subst
        (λ o.
          Takeover w (
            (elim o as (λ _. Outcome) [
              | some e ↦ failed_start w e s
              | none ↦ after_start w p s
            ]).1))
        (sym f.starts) (after_start-Takeover w p s f d))

launch_clean-Takeover :
    (w : World) (p : ProfileItem) (s : CoreState)
    → TakeoverFails w
    → Down s
    → Takeover w ((launch_clean w p s).1)
unfolding launch_clean
launch_clean-Takeover w p s f d =
    elim (Bool-cases (text_eq (tun_mode_from_config w.cfg) (txt "off"))) [
      | inl off ↦ rw (off, launch_clean) (launch-Takeover w p s f d)
      | inr on ↦
          rw (on, launch_clean)
            (subst
              (λ o. Takeover w (
                (elim o as (λ _. Outcome) [ none ↦ launch w p s | some e ↦ failed_start w e s ]).1))
              (sym f.clean) (launch-Takeover w p s f d))
    ]

find_or_first-some :
    (id : Text) (ps : List ProfileItem)
    → 0 < length ps
    → (p : ProfileItem) × (find_or_first id ps ≡ some p)
unfolding find_or_first
find_or_first-some id [] h = absurd (omega arith)
find_or_first-some id (p ∷ ps) h =
    elim (Option-cases (if text_eq id [] then none else find_profile id (p ∷ ps))) [
      | inl first ↦ (p, rw (first, find_or_first) refl)
      | inr (q, e) ↦ (q, rw (e, find_or_first) refl)
    ]

keep_selected-Down :
    (w : World) (o : Option ProfileItem) (id : Text) (s : CoreState)
    → Down s
    → Down ((keep_selected w o id s).1)
unfolding keep_selected
keep_selected-Down w none id s v = v
keep_selected-Down w (some p) id s v = ground (arith, v)

start_profile-Takeover :
    (w : World) (id : Text) (s : CoreState)
    → TakeoverFails w
    → Down s
    → Takeover w ((start_profile w (id, s)).1)
unfolding start_profile
start_profile-Takeover w id s f d =
    let (p, e) = find_or_first-some id s.profiles d.has_profiles in
    rw (e, start_profile) (launch_clean-Takeover w p _ f (keep_selected-Down w (some p) id s d))

pub start_core-Takeover :
    (w : World) (s : CoreState) → TakeoverFails w → Down s → Takeover w ((start_core w s).1)
unfolding prepare
start_core-Takeover w s f d =
    let kept =
      keep_selected w (pick_selected_profile s.current_profile_id s.profiles) s.current_profile_id
        s in
    subst (λ o. Takeover w (o.1)) (sym (start_core-stopped w s d.stopped d.not_starting))
      (start_profile-Takeover w (kept.0) (kept.1) f
        (keep_selected-Down w _ s.current_profile_id s d))

pub stop_core-Down :
    (w : World) (s : CoreState)
    → s.starting ≡ false
    → s.sleeping ≡ []
    → 0 < length s.profiles
    → Down ((stop_core false false w s).1)
unfolding stop_core status_for_lifecycle_op check_and_clean check_proc_exited clear_outside
stop_core-Down w s idle alone some_profile = ground (arith, idle, alone, some_profile)
