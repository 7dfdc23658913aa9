-- ===== src/Tun/Install.antt =====
-- `installTunPolicyRoutingForFamily`: the `ip` commands that it runs. Each command is accepted or
-- refused by the kernel; the rules that are accepted stand in the rule table.
pub mod Output
pub mod Settles
use v2ray_e.Base.{
  ℕ, zero, suc, ◌+◌, ◌-◌, ◌*◌, ◌/◌, ◌%◌, ◌^◌, ◌<◌, ◌≤◌, ◌≡◌, ◌≢◌, ◌↔◌, ◌⊎◌, ◌∙◌, refl, sym, ap,
  Bool, true, false, not, ◌&&◌, ◌||◌, List, [], ◌∷◌, ◌++◌, map, Option, none, some, String, arith,
  ltb, leb, ◌==◌, ==_iff, ltb→lt, leb→le, Bool-cases, Option-cases, inl, inr, if◌then◌else◌, length,
  length-append, take, drop, take-append-drop, length-take, length-drop, take-append, drop-append,
  All, All-append, All-take, All-drop,
}
use v2ray_e.Base.Text.{Text}
use v2ray_e.Tun.Rules.{priority_min, priority_max}
use v2ray_e.Tun.Rules.Lines.{Selector, mark, bypass, catch_all}

-- Which commands the kernel accepts.
pub record Kernel : Type 0 where
  pub accepts_route : Bool
  pub accepts_rule : ℕ → Selector → Bool

pub data InstallError : Type 0 where
  route_failed mark_failed catch_all_failed : InstallError
  bypass_failed : Text → InstallError

abbrev pub RuleTable : Type 0
RuleTable = List (ℕ × Selector)

-- The end of the run: an error, or the note whether bypass rules were left out.
pub data Outcome : Type 0 where
  installed : Bool → Outcome
  failed : InstallError → Outcome

module _ (k : Kernel) where
  open k use {accepts_route, accepts_rule}

  -- Behind the loop: the catch-all rule.
  finish : ℕ → Bool → RuleTable → Outcome × RuleTable
  finish priority truncated rules =
      if accepts_rule priority catch_all
      then (installed truncated, rules ++ (priority, catch_all) ∷ [])
      else (failed catch_all_failed, rules)

  -- The loop over the bypass rules, from a priority on.
  unfoldable pub install_bypass : ℕ → List Text → RuleTable → Outcome × RuleTable
  unfolding finish
  install_bypass priority [] rules = finish priority false rules
  install_bypass priority (t ∷ ts) rules =
      let next = install_bypass (priority + 1) ts (rules ++ (priority, bypass t) ∷ []) in
      let refused : Outcome × RuleTable = (failed (bypass_failed t), rules) in
      if leb priority_max priority
      then finish priority true rules
      else if accepts_rule priority (bypass t)
      then next
      else refused

  unfoldable pub install : List Text → RuleTable → Outcome × RuleTable
  unfolding install_bypass
  install targets rules =
      if not accepts_route
      then (failed route_failed, rules)
      else if not (accepts_rule priority_min mark)
      then (failed mark_failed, rules)
      else install_bypass (priority_min + 1) targets (rules ++ (priority_min, mark) ∷ [])
