-- ===== src/Core/Sections/Alone.antt =====
-- A start whose sections are not interrupted.
use v2ray_e.Base.{◌≡◌, Bool, true, false, List, All}
use v2ray_e.Base.Text.{Text}
use v2ray_e.Core.State.{CoreState, World, Outcome}
use v2ray_e.Core.Sections.{
  idle, preparing, Section, claimed, kept, refused, committed, took_over, set_proxy, failed,
  finished, Flight, run, release,
}

-- The sections of a start.
pub of_start : Section → Bool
of_start (claimed w) = true
of_start (kept w o id) = true
of_start (failed w m) = true
of_start (refused w) = true
of_start (committed w) = true
of_start (took_over w) = true
of_start (set_proxy w) = true
of_start (finished w name) = true
of_start _ = false

module _ (w : World) where
  -- Sections lead from the claimed start to the state of the outcome.
  Reaches : CoreState → Outcome → Type 0
  Reaches s o =
      (es : List Section) × All (λ e. of_start e ≡ true) es
      × (run es (record { progress = preparing; core = s }) ≡ release (o.1))

abbrev start_end : Outcome → Flight
start_end o = record { progress = idle; core = o.1 }
