-- ===== src/Core/Status.antt =====
-- The status that an operation returns is that of the state it leaves.
use v2ray_e.Base.{
  ◌≡◌, ◌∙◌, refl, ap, Bool, true, false, ◌&&◌, ◌||◌, Option, none, some, arith, if◌then◌else◌,
}
use v2ray_e.Base.Text.{Text, txt, text_eq}
use v2ray_e.Domain.{ProfileItem}
use v2ray_e.Service.Profiles.{pick_selected_profile}
use v2ray_e.Core.Config.{tun_mode_from_config}
use v2ray_e.Core.State.{
  CoreState, World, Outcome, check_and_clean, status_for_lifecycle_op, build_status, with_starting,
}
use v2ray_e.Core.Claimed.{outcome_with, prepare-claimed}
use v2ray_e.Core.Start.{
  start_core, keep_selected, find_or_first, launch, launch_clean, start_profile, prepare,
  after_start, failed_start,
}

-- A start of a core that is stopped goes on to the profile.
pub start_core-stopped :
    (w : World) (s : CoreState)
    → s.running ≡ false
    → s.starting ≡ false
    → start_core w s ≡ prepare w s
unfolding start_core
start_core-stopped w s off idle =
    ap
      (λ b.
        let t = if b then check_and_clean w.exited_before w s else s in
        if t.running || t.starting
        then (build_status w t, t)
        else outcome_with false (prepare w (with_starting true t)))
      off
    ∙ (ap
          (λ c.
            if c
            then (build_status w s, s)
            else outcome_with false (prepare w (with_starting true s)))
          {y = false} (ground (arith, off, idle))
        ∙ prepare-claimed w s idle)

-- The status of an outcome is that of its state.
data Reports (w : World) : Outcome → Type 0 where
  reports : (t : CoreState) → Reports w (build_status w t, t)

module _ (w : World) where
  if-Reports :
      (c : Bool) (x y : Outcome) → Reports w x → Reports w y → Reports w (if c then x else y)
  if-Reports true x y p q = p
  if-Reports false x y p q = q

  error-Reports :
      (o : Option Text) (x : Outcome) (f : Text → Outcome)
      → Reports w x
      → ((e : Text) → Reports w (f e))
      → Reports w (elim o as (λ _. Outcome) [ none ↦ x | some e ↦ f e ])
  error-Reports none x f p q = p
  error-Reports (some e) x f p q = q e

  launch-Reports : (p : ProfileItem) (s : CoreState) → Reports w (launch w p s)
  unfolding launch after_start status_for_lifecycle_op
  launch-Reports p s =
      if-Reports (w.generated && w.written)
        (elim w.start_error as (λ _. Outcome) [
          | some e ↦ failed_start w e s
          | none ↦ after_start w p s
        ])
        (status_for_lifecycle_op w s)
        (error-Reports w.start_error (after_start w p s) (λ e. failed_start w e s) (reports _)
          (λ e. reports _))
        (reports _)

  launch_clean-Reports : (p : ProfileItem) (s : CoreState) → Reports w (launch_clean w p s)
  unfolding launch_clean
  launch_clean-Reports p s =
      if-Reports (text_eq (tun_mode_from_config w.cfg) (txt "off")) (launch w p s)
        (elim w.cleanup_error as (λ _. Outcome) [
          | none ↦ launch w p s
          | some e ↦ failed_start w e s
        ])
        (launch-Reports p s)
        (error-Reports w.cleanup_error (launch w p s) (λ e. failed_start w e s) (launch-Reports p s)
          (λ e. reports _))

  profile-Reports :
      (o : Option ProfileItem) (x : Outcome) (f : ProfileItem → Outcome)
      → Reports w x
      → ((p : ProfileItem) → Reports w (f p))
      → Reports w (elim o as (λ _. Outcome) [ none ↦ x | some p ↦ f p ])
  profile-Reports none x f p q = p
  profile-Reports (some e) x f p q = q e

  start_profile-Reports : (id : Text) (s : CoreState) → Reports w (start_profile w (id, s))
  unfolding start_profile
  start_profile-Reports id s =
      profile-Reports (find_or_first id s.profiles)
        (failed_start w (txt "no profiles configured") s)
        (λ p. launch_clean w p ((keep_selected w (some p) id s).1)) (reports _)
        (λ p. launch_clean-Reports p _)

  start-Reports : (s : CoreState) → Reports w (start_core w s)
  unfolding start_core prepare build_status
  start-Reports s =
      let t = if s.running then check_and_clean w.exited_before w s else s in
      let claimed = with_starting true t in
      let kept =
        keep_selected w (pick_selected_profile t.current_profile_id t.profiles) t.current_profile_id
          claimed in
      if-Reports (t.running || t.starting) (build_status w t, t)
        (outcome_with false (prepare w claimed)) (reports t)
        (released (prepare w claimed) (start_profile-Reports (kept.0) (kept.1)))
    where
      released : (o : Outcome) → Reports w o → Reports w (outcome_with false o)
      released _ (reports t) = reports (with_starting false t)

-- Whatever a start runs into, the status that it returns is that of the state it leaves.
pub start_core-build_status :
    (w : World) (s : CoreState) → (start_core w s).0 ≡ build_status w ((start_core w s).1)
start_core-build_status w s = told (start_core w s) (start-Reports w s)
  where
    told : (o : Outcome) → Reports w o → o.0 ≡ build_status w (o.1)
    told _ (reports t) = refl
