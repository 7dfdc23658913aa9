-- ===== src/Tun/Install/Settles.antt =====
-- After an installation the reconciler finds no drift, as long as the bypass rules fit the window.
use mathlib.Core.Path.{subst}
use mathlib.Core.List.{append_assoc}
use v2ray_e.Base.{
  ℕ, zero, suc, ◌+◌, ◌<◌, ◌≤◌, ◌≡◌, ◌≢◌, ◌∙◌, refl, sym, ap, Bool, true, false, ◌||◌, List, [], ◌∷◌,
  ◌++◌, some, arith, ltb, leb, leb→le, Bool-cases, inl, inr, length, take, All, All-take,
}
use v2ray_e.Base.Text.{Text, text_eq, text_eq_iff, text_eq_refl}
use v2ray_e.Base.Text.Fields.{IsWord}
use v2ray_e.Tun.Rules.{priority_min, priority_max}
use v2ray_e.Tun.Rules.Lines.{Selector, mark, bypass, catch_all, rule_line, rule_line-no_newline}
use v2ray_e.Tun.Bypass.{Family, Netip, mem, ip_prefix}
use v2ray_e.Tun.Bypass.Exact.{Distinct}
use v2ray_e.Tun.Drift.{parse_installed, diff_sets, is_empty}
use v2ray_e.Tun.Drift.Exact.{is_empty-diff_sets_iff}
use v2ray_e.Tun.Install.Output.{
  NoNewline, Among, output, any_gives, gives-rule_line, mem-parse_installed,
}
use v2ray_e.Tun.Install.{Kernel, RuleTable, installed, install, install_bypass}

-- The rules for the targets, from a priority on, and the catch-all behind them.
rules_from : ℕ → List Text → RuleTable
rules_from p [] = (p, catch_all) ∷ []
rules_from p (t ∷ ts) = (p, bypass t) ∷ rules_from (p + 1) ts

pub record AcceptsAll (k : Kernel) : Type 0 where
  pub route : k.accepts_route ≡ true
  pub rule : (p : ℕ) (r : Selector) → k.accepts_rule p r ≡ true

-- How many bypass rules fit between the fwmark rule and the end of the window.
abbrev pub capacity : ℕ
capacity = 998

install_bypass-all :
    (k : Kernel) (n p : ℕ) (ts : List Text) (rules : RuleTable)
    → AcceptsAll k
    → p + n ≡ priority_max
    → install_bypass k p ts rules
      ≡ (installed (ltb n (length ts)), rules ++ rules_from p (take n ts))
unfolding install_bypass rules_from take
install_bypass-all k zero p [] rules a h = ground (arith, a.rule p catch_all)
install_bypass-all k (suc n) p [] rules a h = ground (arith, a.rule p catch_all)
install_bypass-all k zero p (t ∷ ts) rules a h = ground (arith, a.rule p catch_all)
install_bypass-all k (suc n) p (t ∷ ts) rules a h = ground (
  arith,
  a.rule p (bypass t),
  install_bypass-all k n (p + 1) ts (rules ++ (p, bypass t) ∷ []) a,
  append_assoc rules ((p, bypass t) ∷ []) (rules_from (p + 1) (take n ts)),
)

-- With every command accepted, the fwmark rule, as many bypass rules as fit and the catch-all rule
-- are installed, and it is noted whether some did not fit.
install-all :
    (k : Kernel) (ts : List Text)
    → AcceptsAll k
    → install k ts [] ≡ (
      installed (ltb capacity (length ts)),
      (priority_min, mark) ∷ rules_from (priority_min + 1) (take capacity ts),
    )
unfolding install
install-all k ts a = ground (
  arith,
  a.route,
  a.rule priority_min mark,
  install_bypass-all k capacity (priority_min + 1) ts ((priority_min, mark) ∷ []) a (omega arith),
)

-- `ip rule show` writes a rule with its destination as the kernel prints it.
shown_rule : (Text → Text) → Selector → Selector
shown_rule print (bypass t) = bypass (print t)
shown_rule print mark = mark
shown_rule print catch_all = catch_all

pub shown : (Text → Text) → RuleTable → List Text
unfolding shown_rule
shown print [] = []
shown print ((p, r) ∷ rules) = rule_line p (shown_rule print r) ∷ shown print rules

-- A destination that `ip rule show` prints as one word, from which it is parsed again.
pub record ReadsBack (net : Netip) (family : Family) (print : Text → Text) (t : Text) : Type 0 where
  pub word : IsWord (print t)
  pub reads : ip_prefix net (print t) family ≡ some t

left_out :
    (n : ℕ) (ts : List Text)
    → Distinct ts
    → n < length ts
    → (x : Text) × (mem x ts ≡ true) × (mem x (take n ts) ≡ false)
unfolding take mem
left_out n [] d h = absurd (omega arith)
left_out zero (t ∷ ts) d h = (t, rw (text_eq_refl t), refl)
left_out (suc n) (t ∷ ts) (fresh, d) h =
    let (x, inside, outside) = left_out n ts d (omega arith) in
    (x, ground (arith, inside), ground (arith, outside, text_eq_iff x t))

mem-take_all : (n : ℕ) (x : Text) (ts : List Text) → length ts ≤ n → mem x (take n ts) ≡ mem x ts
unfolding take mem
mem-take_all zero x [] h = refl
mem-take_all (suc n) x [] h = refl
mem-take_all zero x (t ∷ ts) h = absurd (omega arith)
mem-take_all (suc n) x (t ∷ ts) h = ap (λ b. text_eq x t || b) (mem-take_all n x ts (omega arith))

module _ (net : Netip) (family : Family) (print : Text → Text) where
  shown-rules_from :
      (x : Text) (n p : ℕ) (ts : List Text)
      → All (ReadsBack net family print) ts
      → priority_min ≤ p
      → p + n ≤ priority_max
      → any_gives net family (shown print (rules_from p (take n ts))) x ≡ mem x (take n ts)
  unfolding any_gives shown rules_from shown_rule mem take
  shown-rules_from x zero p ts h lo hi =
      ground (arith, gives-rule_line net family p catch_all x tt lo (omega arith))
  shown-rules_from x (suc n) p [] h lo hi =
      ground (arith, gives-rule_line net family p catch_all x tt lo (omega arith))
  shown-rules_from x (suc n) p (t ∷ ts) (h, hs) lo hi = ground (
    arith,
    h.reads,
    gives-rule_line net family p (bypass (print t)) x h.word lo (omega arith),
    shown-rules_from x n (p + 1) ts hs (omega arith) (omega arith),
  )

  shown-rules_from-NoNewline :
      (p : ℕ) (ts : List Text)
      → All (ReadsBack net family print) ts
      → All NoNewline (shown print (rules_from p ts))
  unfolding shown rules_from shown_rule
  shown-rules_from-NoNewline p [] h = (rule_line-no_newline p catch_all tt, tt)
  shown-rules_from-NoNewline p (t ∷ ts) (h, hs) =
      (rule_line-no_newline p (bypass (print t)) h.word, shown-rules_from-NoNewline (p + 1) ts hs)

  -- What the reader finds after an installation.
  mem-installed :
      (k : Kernel) (ts lines : List Text) (x : Text)
      → AcceptsAll k
      → All (ReadsBack net family print) ts
      → Among (shown print ((install k ts []).1)) lines
      → mem x (parse_installed net family (output lines)) ≡ mem x (take capacity ts)
  unfolding shown shown_rule any_gives
  mem-installed k ts lines x a h among =
      let own = rules_from (priority_min + 1) (take capacity ts) in
      ground (
        arith,
        mem-parse_installed net family x (shown print ((priority_min, mark) ∷ own)) lines
            (subst (λ r. Among (shown print (r.1)) lines) (install-all k ts a) among)
            (
              rule_line-no_newline priority_min mark tt,
              shown-rules_from-NoNewline (priority_min + 1) (take capacity ts)
                  (All-take (ReadsBack net family print) capacity ts h),
            ),
        gives-rule_line net family priority_min mark x tt (omega arith) (omega arith),
        shown-rules_from x capacity (priority_min + 1) ts h (omega arith) (omega arith),
      )

  -- After an installation that the kernel accepts whole, of distinct destinations that `ip rule show`
  -- prints readably, and with lines of others that give no destination anywhere before, between and
  -- behind those installed, the comparison finds no drift exactly when there are at most 998
  -- destinations.
  pub install-settles_iff :
      (k : Kernel) (ts lines : List Text)
      → AcceptsAll k
      → Distinct ts
      → All (ReadsBack net family print) ts
      → Among (shown print ((install k ts []).1)) lines
      → is_empty (diff_sets ts (parse_installed net family (output lines)))
        ≡ leb (length ts) capacity
  install-settles_iff k ts lines a d h among =
      let found = parse_installed net family (output lines) in
      let here : (x : Text) → mem x found ≡ mem x (take capacity ts) =
        λ x. mem-installed k ts lines x a h among in
      let (drift_same, same_drift) = is_empty-diff_sets_iff ts found in
      elim (Bool-cases (leb (length ts) capacity)) [
        | inl fits ↦ rw fits (
            same_drift
              (λ x. sym (here x ∙ mem-take_all capacity x ts (leb→le (length ts) capacity fits))))
        | inr long ↦
            let (x, inside, outside) = left_out capacity ts d (ground arith) in
            rw long (not_true (λ e. cc (drift_same e x, here x, inside, outside)))
      ]
    where
      not_true : {b : Bool} → b ≢ true → b ≡ false
      not_true h = ground arith
