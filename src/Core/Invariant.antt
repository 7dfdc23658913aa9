-- ===== src/Core/Invariant.antt =====
-- The state of the core at rest, with the lock of the lifecycle free and no exit or start that is not noted.
use v2ray_e.Base.{◌≡◌, refl, ap, Bool, true, false, ◌&&◌, Option, none, some, if◌then◌else◌}
use v2ray_e.Core.State.{
  CoreState, World, check_proc_exited, check_and_clean, cleanup_after_core_exit,
}

abbrev is_there {ℓ} : {A : Type ℓ} → Option A → Bool
is_there none = false
is_there (some a) = true

-- The core runs where there is one; it is degraded only while it runs; no start is on its way.
pub record Inv (s : CoreState) : Type 0 where
  pub has_core : s.core ≡ s.running
  pub has_stats : s.stats ≡ s.running
  pub has_start_time : is_there s.started_at ≡ s.running
  pub degraded_runs : s.degraded ≡ true → s.running ≡ true
  pub not_starting : s.starting ≡ false

-- A core that has not exited is left alone.
pub not_exited :
    (exited : Bool) (w : World) (s : CoreState)
    → (s.core && exited) ≡ false
    → check_proc_exited exited w.now_text s ≡ (false, s)
unfolding check_proc_exited
not_exited exited w s h = rw h refl

pub cleaned-not_exited :
    (exited : Bool) (w : World) (s : CoreState)
    → (s.core && exited) ≡ false
    → check_and_clean exited w s ≡ s
unfolding check_and_clean
cleaned-not_exited exited w s h =
    ap (λ c. if c.0 then cleanup_after_core_exit w (c.1) else c.1) (not_exited exited w s h)
