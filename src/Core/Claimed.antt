-- ===== src/Core/Claimed.antt =====
-- A start runs the same whether the flag of a start is set, and leaves the flag alone.
use v2ray_e.Base.{
  ◌≡◌, ◌∙◌, refl, sym, ap, Bool, true, false, ◌&&◌, ◌++◌, [], Option, none, some, Bool-cases, inl,
  inr, if◌then◌else◌,
}
use v2ray_e.Base.Text.{Text, txt, text_eq, trim_space}
use v2ray_e.Domain.{ProfileItem}
use v2ray_e.Service.Profiles.{pick_selected_profile}
use v2ray_e.Core.Config.{tun_mode_from_config, should_manage_tun_traffic, sets_proxy}
use v2ray_e.Core.State.{
  CoreState, World, Outcome, set_core_error, build_status, check_and_clean, check_proc_exited,
  cleanup_after_core_exit, clear_outside, status_for_lifecycle_op, save_restore, log_app,
  with_starting, takeover_failed, takeover_recovered, core_started,
}
use v2ray_e.Core.Start.{
  keep_selected, find_or_first, failed_start, takeover_failed_prefix, set_up_routing, set_up_proxy,
  commit, after_start, launch, launch_clean, start_profile, prepare,
}

-- The outcome with the flag.
abbrev pub outcome_with : Bool → Outcome → Outcome
outcome_with b o = (o.0, with_starting b (o.1))

if-lift :
    {A B : Type 0} (f : A → B) (c : Bool) (x y : A) (x' y' : B)
    → x' ≡ f x
    → y' ≡ f y
    → (if c then x' else y') ≡ f (if c then x else y)
if-lift f true x y x' y' p q = p
if-lift f false x y x' y' p q = q

option-lift :
    {A B C : Type 0} (f : A → B) (o : Option C) (x : A) (g : C → A) (x' : B) (g' : C → B)
    → x' ≡ f x
    → ((c : C) → g' c ≡ f (g c))
    → elim o as (λ _. B) [ none ↦ x' | some c ↦ g' c ]
      ≡ f (elim o as (λ _. A) [ none ↦ x | some c ↦ g c ])
option-lift f none x g x' g' p q = p
option-lift f (some c) x g x' g' p q = q c

module _ (b : Bool) (w : World) where
  set_core_error-with :
      (t m : Text) (s : CoreState)
      → set_core_error t m (with_starting b s) ≡ with_starting b (set_core_error t m s)
  unfolding set_core_error
  set_core_error-with t m s =
      if-lift (with_starting b) (text_eq (trim_space m) []) _ _ _ _ refl refl

  failed-with :
      (m : Text) (s : CoreState)
      → failed_start w m (with_starting b s) ≡ outcome_with b (failed_start w m s)
  unfolding build_status set_core_error
  failed-with m s = ap (λ t. (build_status w t, t)) (set_core_error-with w.now_text m s)

  check_and_clean-with :
      (e : Bool) (s : CoreState)
      → check_and_clean e w (with_starting b s) ≡ with_starting b (check_and_clean e w s)
  unfolding check_and_clean check_proc_exited cleanup_after_core_exit clear_outside set_core_error
  check_and_clean-with e s = elim (Bool-cases (s.core && e)) [
    | inl out ↦ rw out refl
    | inr stays ↦ rw stays refl
  ]

  status-with :
      (s : CoreState)
      → status_for_lifecycle_op w (with_starting b s) ≡ outcome_with b (status_for_lifecycle_op w s)
  unfolding status_for_lifecycle_op build_status
  status-with s = ap (λ t. (build_status w t, t)) (check_and_clean-with w.exited_after s)

  set_up_routing-with :
      (s : CoreState) → set_up_routing w (with_starting b s) ≡ with_starting b (set_up_routing w s)
  unfolding set_up_routing
  set_up_routing-with s =
      if-lift (with_starting b) (should_manage_tun_traffic w.cfg) _ s _ _
        (option-lift (with_starting b) w.setup_error (record s { routed = true }) _ _ _ refl
          (λ _.
            option-lift (with_starting b) w.retry_error
              (log_app takeover_recovered (record s { routed = true; degraded = false })) _ _ _ refl
              (λ e. ap (log_app (takeover_failed e)) (
                set_core_error-with w.now_text (takeover_failed_prefix ++ e)
                  (record s { routed = true; degraded = true })))))
        refl

  set_up_proxy-with :
      (s : CoreState) → set_up_proxy w (with_starting b s) ≡ with_starting b (set_up_proxy w s)
  unfolding set_up_proxy
  set_up_proxy-with s =
      if-lift (with_starting b) (sets_proxy w.cfg) _ s _ _
        (option-lift (with_starting b) w.proxy_error (record s { proxied = true }) _ _ _ refl
          (λ e. set_core_error-with w.now_text e (record s { proxied = true })))
        refl

  save_restore-with :
      (r : Bool) (s : CoreState)
      → save_restore r w (with_starting b s) ≡ with_starting b (save_restore r w s)
  unfolding save_restore
  save_restore-with r s = if-lift (with_starting b) w.state_saved _ s _ _ refl refl

  after_start-with :
      (p : ProfileItem) (s : CoreState)
      → after_start w p (with_starting b s) ≡ outcome_with b (after_start w p s)
  unfolding after_start commit
  after_start-with p s =
      let routing = ap (set_up_proxy w) (set_up_routing-with (commit w s)) in
      let proxy = routing ∙ set_up_proxy-with (set_up_routing w (commit w s)) in
      let logged = ap (λ t. save_restore true w (log_app (core_started p.name) t)) proxy in
      let saved =
        logged
        ∙ save_restore-with true
            (log_app (core_started p.name) (set_up_proxy w (set_up_routing w (commit w s)))) in
      ap (status_for_lifecycle_op w) saved
      ∙ status-with (
          save_restore true w
            (log_app (core_started p.name) (set_up_proxy w (set_up_routing w (commit w s)))))

  launch-with :
      (p : ProfileItem) (s : CoreState)
      → launch w p (with_starting b s) ≡ outcome_with b (launch w p s)
  unfolding launch
  launch-with p s =
      if-lift (outcome_with b) (w.generated && w.written) _ _ _ _
        (option-lift (outcome_with b) w.start_error (after_start w p s) (λ e. failed_start w e s) _
          _ (after_start-with p s) (λ e. failed-with e s))
        (status-with s)

  launch_clean-with :
      (p : ProfileItem) (s : CoreState)
      → launch_clean w p (with_starting b s) ≡ outcome_with b (launch_clean w p s)
  unfolding launch_clean
  launch_clean-with p s =
      if-lift (outcome_with b) (text_eq (tun_mode_from_config w.cfg) (txt "off")) _ _ _ _
        (launch-with p s)
        (option-lift (outcome_with b) w.cleanup_error (launch w p s) (λ e. failed_start w e s) _ _
          (launch-with p s) (λ e. failed-with e s))

  keep_selected-with :
      (o : Option ProfileItem) (id : Text) (s : CoreState)
      → keep_selected w o id (with_starting b s)
        ≡ ((keep_selected w o id s).0, with_starting b ((keep_selected w o id s).1))
  unfolding keep_selected
  keep_selected-with none id s = refl
  keep_selected-with (some p) id s =
      if-lift (λ (k : Text × CoreState). (k.0, with_starting b (k.1))) (text_eq id p.id) (id, s) _ _
        _ refl (ap (λ t. (p.id, t)) (if-lift (with_starting b) w.state_saved _ s _ _ refl refl))

  start_profile-with :
      (id : Text) (s : CoreState)
      → start_profile w (id, with_starting b s) ≡ outcome_with b (start_profile w (id, s))
  unfolding start_profile
  start_profile-with id s =
      option-lift (outcome_with b) (find_or_first id s.profiles)
        (failed_start w (txt "no profiles configured") s)
        (λ p. launch_clean w p ((keep_selected w (some p) id s).1)) _ _
        (failed-with (txt "no profiles configured") s)
        (λ p.
          ap (λ k. launch_clean w p (k.1)) (keep_selected-with (some p) id s)
          ∙ launch_clean-with p ((keep_selected w (some p) id s).1))

  prepare-with : (s : CoreState) → prepare w (with_starting b s) ≡ outcome_with b (prepare w s)
  unfolding prepare
  prepare-with s =
      let o = pick_selected_profile s.current_profile_id s.profiles in
      let k = keep_selected w o s.current_profile_id s in
      ap (start_profile w) (keep_selected-with o s.current_profile_id s)
      ∙ start_profile-with (k.0) (k.1)

-- A start that sets the flag on its way, and clears it at its end, ends as one that does not.
pub prepare-claimed :
    (w : World) (s : CoreState)
    → s.starting ≡ false
    → outcome_with false (prepare w (with_starting true s)) ≡ prepare w s
prepare-claimed w s idle =
    ap (outcome_with false) (prepare-with true w s)
    ∙ (sym (prepare-with false w s) ∙ ap (λ c. prepare w (with_starting c s)) (sym idle))
