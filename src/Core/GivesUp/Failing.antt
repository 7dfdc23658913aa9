-- ===== src/Core/GivesUp/Failing.antt =====
-- What a start of the core that fails leaves behind.
use mathlib.Core.Path.{subst}
use v2ray_e.Base.{
  ℕ, ◌≡◌, ◌⊎◌, sym, Bool, true, false, ◌&&◌, List, Option, none, some, arith, Option-cases, inl,
  inr, if◌then◌else◌,
}
use v2ray_e.Base.Text.{Text, txt, text_eq}
use v2ray_e.Domain.{ProfileItem}
use v2ray_e.Service.Profiles.{pick_selected_profile}
use v2ray_e.Core.Config.{tun_mode_from_config}
use v2ray_e.Core.State.{
  CoreState, World, Restart, Outcome, set_core_error, check_proc_exited, check_and_clean,
  status_for_lifecycle_op,
}
use v2ray_e.Core.Start.{
  start_core, keep_selected, find_or_first, launch, launch_clean, start_profile, prepare,
}
use v2ray_e.Core.Invariant.{cleaned-not_exited}
use v2ray_e.Core.Status.{start_core-stopped}

-- What the watchdog looks at, in a state without a core.
pub record Watched (attempts : ℕ) (scheduled : Bool) (sleeping : List Restart) (s : CoreState)
    : Type 0 where
  pub no_core : s.core ≡ false
  pub stopped : s.running ≡ false
  pub not_starting : s.starting ≡ false
  pub attempts_are : s.restart_attempts ≡ attempts
  pub scheduled_is : s.restart_scheduled ≡ scheduled
  pub sleeping_is : s.sleeping ≡ sleeping

-- The configuration cannot be made or written, or the core does not start with it.
abbrev pub StartFails : World → Type 0
StartFails w = ((w.generated && w.written) ≡ false) ⊎ ((e : Text) × (w.start_error ≡ some e))

-- The state behind an exit of the core.
abbrev pub exited : World → CoreState → CoreState
exited w s = record (set_core_error w.now_text (txt "xray-core instance exited") s) {
  core = false;
  running = false;
  degraded = false;
  started_at = none;
  stats = false;
}

module _ (a : ℕ) (b : Bool) (rs : List Restart) where
  if-Watched :
      (c : Bool) (x y : Outcome)
      → Watched a b rs (x.1)
      → Watched a b rs (y.1)
      → Watched a b rs ((if c then x else y).1)
  if-Watched true x y p q = p
  if-Watched false x y p q = q

  error-Watched :
      (o : Option Text) (x : Outcome) (f : Text → Outcome)
      → Watched a b rs (x.1)
      → ((e : Text) → Watched a b rs ((f e).1))
      → Watched a b rs ((elim o as (λ _. Outcome) [ none ↦ x | some e ↦ f e ]).1)
  error-Watched none x f p q = p
  error-Watched (some e) x f p q = q e

  set_core_error-Watched :
      (t m : Text) (s : CoreState) → Watched a b rs s → Watched a b rs (set_core_error t m s)
  unfolding set_core_error
  set_core_error-Watched t m s v = ground (arith, v)

  status-Watched :
      (w : World) (s : CoreState)
      → Watched a b rs s
      → Watched a b rs ((status_for_lifecycle_op w s).1)
  unfolding status_for_lifecycle_op check_and_clean check_proc_exited
  status-Watched w s v = subst (Watched a b rs) (sym (unchanged v.no_core)) v
    where
      unchanged : s.core ≡ false → (status_for_lifecycle_op w s).1 ≡ s
      unchanged h = cleaned-not_exited w.exited_after w s (ground (arith, h))

  launch-Watched :
      (w : World) (p : ProfileItem) (s : CoreState)
      → StartFails w
      → Watched a b rs s
      → Watched a b rs ((launch w p s).1)
  unfolding launch
  launch-Watched w p s (inl bad) v = rw (bad, launch) (status-Watched w s v)
  launch-Watched w p s (inr (e, failed)) v =
      rw (failed, launch)
        (if-Watched (w.generated && w.written) _ _ (set_core_error-Watched w.now_text e s v)
          (status-Watched w s v))

  launch_clean-Watched :
      (w : World) (p : ProfileItem) (s : CoreState)
      → StartFails w
      → Watched a b rs s
      → Watched a b rs ((launch_clean w p s).1)
  unfolding launch_clean
  launch_clean-Watched w p s f v =
      if-Watched (text_eq (tun_mode_from_config w.cfg) (txt "off")) _ _ (launch-Watched w p s f v) (
        error-Watched w.cleanup_error (launch w p s) _ (launch-Watched w p s f v)
          (λ e. set_core_error-Watched w.now_text e s v))

  keep_selected-Watched :
      (w : World) (o : Option ProfileItem) (id : Text) (s : CoreState)
      → Watched a b rs s
      → Watched a b rs ((keep_selected w o id s).1)
  unfolding keep_selected
  keep_selected-Watched w none id s v = v
  keep_selected-Watched w (some p) id s v = ground (arith, v)

  start_profile-Watched :
      (w : World) (id : Text) (s : CoreState)
      → StartFails w
      → Watched a b rs s
      → Watched a b rs ((start_profile w (id, s)).1)
  unfolding start_profile
  start_profile-Watched w id s f v = elim (Option-cases (find_or_first id s.profiles)) [
    | inl missing ↦
        rw (missing, start_profile)
          (set_core_error-Watched w.now_text (txt "no profiles configured") s v)
    | inr (p, e) ↦
        rw (e, start_profile)
          (launch_clean-Watched w p _ f (keep_selected-Watched w (some p) id s v))
  ]

  pub start_core-Watched :
      (w : World) (s : CoreState)
      → StartFails w
      → Watched a b rs s
      → Watched a b rs ((start_core w s).1)
  unfolding start_core prepare
  start_core-Watched w s f v =
      let kept =
        keep_selected w (pick_selected_profile s.current_profile_id s.profiles) s.current_profile_id
          s in
      let prepared =
        start_profile-Watched w (kept.0) (kept.1) f
          (keep_selected-Watched w _ s.current_profile_id s v) in
      subst (λ o. Watched a b rs (o.1)) (sym (start_core-stopped w s v.stopped v.not_starting))
        prepared
