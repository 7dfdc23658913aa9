-- ===== src/Tun/Install/Output.antt =====
-- The output of `ip rule show` as lines, and what the reader of installed destinations finds in it.
use mathlib.Core.List.{append_assoc, append-nil}
use v2ray_e.Base.{
  ℕ, ◌≤◌, ◌≡◌, ◌∙◌, refl, ap, Bool, true, false, ◌||◌, if◌then◌else◌, List, [], ◌∷◌, ◌++◌, none,
  some, arith, ◌==◌, Option-cases, inl, inr, All,
}
use v2ray_e.Base.Text.{Text, text_eq, split, split_from, fields, trim_space}
use v2ray_e.Tun.Rules.{priority_min, priority_max, line_target}
use v2ray_e.Tun.Rules.Lines.{Selector, rule_line, rule_line-read_back, target_of, TargetIsWord}
use v2ray_e.Tun.Bypass.{Family, Netip, mem, ip_prefix}
use v2ray_e.Tun.Bypass.Exact.{mem-add_new}
use v2ray_e.Tun.Drift.{parse_lines, parse_installed, add_target}

abbrev pub NoNewline : Text → Type 0
NoNewline line = All (λ c. (c == 10) ≡ false) line

unfoldable pub looks_like_one_line : Text → Bool
looks_like_one_line [] = true
looks_like_one_line (c ∷ s) = if c == 10 then false else looks_like_one_line s

pub looks_like_one_line-NoNewline : (s : Text) → looks_like_one_line s ≡ true → NoNewline s
unfolding looks_like_one_line
looks_like_one_line-NoNewline [] h = tt
looks_like_one_line-NoNewline (c ∷ s) h =
    (ground (arith, h), looks_like_one_line-NoNewline s (ground (arith, h)))

-- The lines of the service stand in their order among lines of others that give no destination, which
-- may stand anywhere.
pub data Among : List Text → List Text → Type 0 where
  no_lines : Among [] []
  own_line : (l : Text) (own lines : List Text) → Among own lines → Among (l ∷ own) (l ∷ lines)
  other_line :
      (l : Text) (own lines : List Text)
      → NoNewline l
      → line_target l ≡ none
      → Among own lines
      → Among own (l ∷ lines)

Among-NoNewline :
    (own lines : List Text) → Among own lines → All NoNewline own → All NoNewline lines
Among-NoNewline _ _ no_lines h = tt
Among-NoNewline _ _ (own_line l own lines a) (h, hs) = (h, Among-NoNewline own lines a hs)
Among-NoNewline _ _ (other_line l own lines whole silent a) h =
    (whole, Among-NoNewline own lines a h)

-- Each line with its line break.
pub output : List Text → Text
output [] = []
output (line ∷ lines) = line ++ (10 ∷ output lines)

split_from-line :
    (cur line s : Text)
    → NoNewline line
    → split_from 10 cur (line ++ (10 ∷ s)) ≡ (cur ++ line) ∷ split 10 s
unfolding split_from split
split_from-line cur [] s h = rw (append-nil cur)
split_from-line cur (c ∷ line) s (h, hs) =
    rw (h, split_from)
      (split_from-line (cur ++ c ∷ []) line s hs
        ∙ ap (λ l. l ∷ split 10 s) (append_assoc cur (c ∷ []) line))

split-output :
    (lines : List Text) → All NoNewline lines → split 10 (output lines) ≡ lines ++ [] ∷ []
unfolding output split split_from
split-output [] h = refl
split-output (line ∷ lines) (h, hs) =
    split_from-line [] line (output lines) h ∙ ap (λ ls. line ∷ ls) (split-output lines hs)

module _ (net : Netip) (family : Family) where
  -- The line gives the destination x.
  pub gives : Text → Text → Bool
  gives line x = elim (line_target line) [
    | none ↦ false
    | some t ↦ elim (ip_prefix net t family) [ none ↦ false | some p ↦ text_eq x p ]
  ]

  unfoldable pub any_gives : List Text → Text → Bool
  any_gives [] x = false
  any_gives (line ∷ lines) x = gives line x || any_gives lines x

  mem-add_target :
      (x line : Text) (ts : List Text)
      → mem x (add_target net family line ts) ≡ (mem x ts || gives line x)
  unfolding add_target gives
  mem-add_target x line ts = elim (Option-cases (line_target line)) [
    | inl silent ↦ ground (arith, silent)
    | inr (t, e) ↦ elim (Option-cases (ip_prefix net t family)) [
      | inl bad ↦ ground (arith, e, bad)
      | inr (p, f) ↦ ground (arith, e, f, mem-add_new x p ts)
    ]
  ]

  -- What the reader of the lines has found.
  pub mem-parse_lines :
      (x : Text) (lines ts : List Text)
      → mem x (parse_lines net family lines ts) ≡ (mem x ts || any_gives lines x)
  unfolding parse_lines any_gives
  mem-parse_lines x [] ts = ground arith
  mem-parse_lines x (line ∷ lines) ts =
      ground
        (arith, mem-parse_lines x lines (add_target net family line ts), mem-add_target x line ts)

  any_gives-append :
      (ls ms : List Text) (x : Text) → any_gives (ls ++ ms) x ≡ (any_gives ls x || any_gives ms x)
  unfolding any_gives
  any_gives-append [] ms x = refl
  any_gives-append (l ∷ ls) ms x = ground (arith, any_gives-append ls ms x)

  any_gives-Among :
      (own lines : List Text) (x : Text) → Among own lines → any_gives lines x ≡ any_gives own x
  unfolding any_gives gives
  any_gives-Among _ _ x no_lines = refl
  any_gives-Among _ _ x (own_line l own lines a) =
      ap (λ b. gives l x || b) (any_gives-Among own lines x a)
  any_gives-Among _ _ x (other_line l own lines whole silent a) =
      ground (arith, silent, any_gives-Among own lines x a)

  empty_line_gives : (x : Text) → any_gives ([] ∷ []) x ≡ false
  unfolding any_gives gives line_target fields trim_space
  empty_line_gives x = refl

  mem-nil : (x : Text) → mem x [] ≡ false
  unfolding mem
  mem-nil x = refl

  -- The destinations found are those that the service's own lines give.
  pub mem-parse_installed :
      (x : Text) (own lines : List Text)
      → Among own lines
      → All NoNewline own
      → mem x (parse_installed net family (output lines)) ≡ any_gives own x
  unfolding parse_installed
  mem-parse_installed x own lines a h = rw (split-output lines (Among-NoNewline own lines a h)) (
      ground (
        arith,
        mem-parse_lines x (lines ++ [] ∷ []) [],
        any_gives-append lines ([] ∷ []) x,
        any_gives-Among own lines x a,
        empty_line_gives x,
        mem-nil x,
      ))

  pub gives-rule_line :
      (p : ℕ) (r : Selector) (x : Text)
      → TargetIsWord r
      → priority_min ≤ p
      → p ≤ priority_max
      → gives (rule_line p r) x ≡ elim (target_of r) [
        | none ↦ false
        | some t ↦ elim (ip_prefix net t family) [ none ↦ false | some d ↦ text_eq x d ]
      ]
  unfolding gives
  gives-rule_line p r x w lo hi = let (_, _, e) = rule_line-read_back p r w lo hi in rw (e, gives)
