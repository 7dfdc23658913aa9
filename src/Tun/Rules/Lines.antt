-- ===== src/Tun/Rules/Lines.antt =====
-- The lines of `ip rule show` for the rules that this service installs, in the form that the comment of
-- parseInstalledTunPolicyBypassTargets (service.go) gives for a bypass, and what the readers make of them.
use mathlib.Core.List.{reverse-append}
use v2ray_e.Base.{
  ℕ, ◌+◌, ◌-◌, ◌≤◌, ◌≡◌, ◌≢◌, ◌∙◌, refl, ap, true, false, List, [], ◌∷◌, ◌++◌, Option, none, some,
  arith, ◌==◌, length, length-append, take, take-append, All, All-append,
}
use v2ray_e.Base.Text.{
  Text, txt, text_eq, is_space, fields, has_prefix, has_suffix, trim_suffix, join,
}
use v2ray_e.Base.Text.Fields.{
  IsWord, looks_like_word, looks_like_word-IsWord, fields-cons, fields-join, fields-trim_space,
}
use v2ray_e.Base.Text.Decimal.{itoa, itoa-IsWord, atoi-itoa, IsDigit, itoa-digits}
use v2ray_e.Tun.Rules.{
  priority_min, priority_max, priority_of_field, priority_of_fields, rule_priority, managed_fields,
  is_managed_line, line_target, target_of_fields,
}

-- What the service asks of a rule: the fwmark escape, a bypass of a destination, or the catch-all.
pub data Selector : Type 0 where
  mark catch_all : Selector
  bypass : Text → Selector

abbrev words : Selector → List Text
words mark = txt "from" ∷ txt "all" ∷ txt "fwmark" ∷ txt "0x2d11" ∷ txt "lookup" ∷ txt "main" ∷ []
words (bypass target) = txt "from" ∷ txt "all" ∷ txt "to" ∷ target ∷ txt "lookup" ∷ txt "main" ∷ []
words catch_all = txt "from" ∷ txt "all" ∷ txt "lookup" ∷ txt "20230" ∷ []

-- "10005:\tfrom all to 192.168.124.0/24 lookup main"
pub rule_line : ℕ → Selector → Text
rule_line p r = (itoa p ++ txt ":") ++ (9 ∷ join (txt " ") (words r))

abbrev pub TargetIsWord : Selector → Type 0
TargetIsWord (bypass target) = IsWord target
TargetIsWord _ = Unit

from-IsWord : IsWord (txt "from")
unfolding looks_like_word
from-IsWord = looks_like_word-IsWord _ refl

all-IsWord : IsWord (txt "all")
unfolding looks_like_word
all-IsWord = looks_like_word-IsWord _ refl

lookup-IsWord : IsWord (txt "lookup")
unfolding looks_like_word
lookup-IsWord = looks_like_word-IsWord _ refl

main-IsWord : IsWord (txt "main")
unfolding looks_like_word
main-IsWord = looks_like_word-IsWord _ refl

words-IsWord : (r : Selector) → TargetIsWord r → All IsWord (words r)
unfolding looks_like_word
words-IsWord mark h = (
  from-IsWord,
  (
    all-IsWord,
    (
      looks_like_word-IsWord _ refl,
      (looks_like_word-IsWord _ refl, (lookup-IsWord, (main-IsWord, tt))),
    ),
  ),
)
words-IsWord (bypass target) h = (
  from-IsWord,
  (all-IsWord, (looks_like_word-IsWord _ refl, (h, (lookup-IsWord, (main-IsWord, tt))))),
)
words-IsWord catch_all h =
    (from-IsWord, (all-IsWord, (lookup-IsWord, (looks_like_word-IsWord _ refl, tt))))

-- The first field of a line: a number and a colon.
label-IsWord : (p : ℕ) → IsWord (itoa p ++ txt ":")
label-IsWord p = record {
  no_space =
      All-append (λ c. is_space c ≡ false) (itoa p) (txt ":") (itoa-IsWord p).no_space
        (unfold is_space in refl, tt);
  not_empty = not-nil (itoa p);
}
  where
    not-nil : (s : Text) → s ++ 58 ∷ [] ≢ []
    not-nil [] e = cc
    not-nil (c ∷ s) e = cc

fields-rule_line :
    (p : ℕ) (r : Selector) → TargetIsWord r → fields (rule_line p r) ≡ (itoa p ++ txt ":") ∷ words r
unfolding rule_line
fields-rule_line p r h =
    fields-cons (itoa p ++ txt ":") 9 (join (txt " ") (words r)) (label-IsWord p)
      (unfold is_space in refl)
    ∙ ap (λ ws. (itoa p ++ txt ":") ∷ ws) (fields-join (words r) (words-IsWord r h))

-- A label is no keyword, since it starts with a digit.
label-ne : (p : ℕ) (c : ℕ) (w : Text) → 58 ≤ c → text_eq (itoa p ++ txt ":") (c ∷ w) ≡ false
unfolding text_eq
label-ne p c w h = go (itoa p) (itoa-digits p) (itoa-IsWord p).not_empty
  where
    go : (s : Text) → All IsDigit s → s ≢ [] → text_eq (s ++ txt ":") (c ∷ w) ≡ false
    go [] d e = absurd (e refl)
    go (b ∷ s) (d, ds) e = ground arith

has_suffix-concat : (s : Text) (c : ℕ) → has_suffix (s ++ c ∷ []) (c ∷ []) ≡ true
unfolding has_suffix
has_suffix-concat s c = rw reverse-append (ground arith)

trim_suffix-concat : (s : Text) (c : ℕ) → trim_suffix (s ++ c ∷ []) (c ∷ []) ≡ s
unfolding trim_suffix
trim_suffix-concat s c = rw (has_suffix-concat s c, length-append s (c ∷ [])) (one_less s)
  where
    one_less : (s : Text) → take (length s + 1 - 1) (s ++ c ∷ []) ≡ s
    one_less s = let e : length s + 1 - 1 ≡ length s = omega arith in rw e (take-append s (c ∷ []))

priority_of_label :
    (p : ℕ) → priority_min ≤ p → p ≤ priority_max → priority_of_field (itoa p ++ txt ":") ≡ some p
unfolding priority_of_field
priority_of_label p lo hi =
    rw
      (has_suffix-concat (itoa p) 58, trim_suffix-concat (itoa p) 58, (atoi-itoa p (omega arith)).0)
      (ground arith)

-- The priority of an installed rule is read back from its line.
pub rule_priority-rule_line :
    (p : ℕ) (r : Selector)
    → TargetIsWord r
    → priority_min ≤ p
    → p ≤ priority_max
    → rule_priority (rule_line p r) ≡ some p
unfolding rule_priority
rule_priority-rule_line p r h lo hi =
    rw (fields-trim_space (rule_line p r), fields-rule_line p r h) (by_words r)
  where
    by_words : (r : Selector) → priority_of_fields ((itoa p ++ txt ":") ∷ words r) ≡ some p
    by_words mark = priority_of_label p lo hi
    by_words (bypass target) = priority_of_label p lo hi
    by_words catch_all = priority_of_label p lo hi

-- A first field that is none of the keywords.
record IsLabel (label : Text) : Type 0 where
  from : text_eq label (txt "from") ≡ false
  to : text_eq label (txt "to") ≡ false
  lookup : text_eq label (txt "lookup") ≡ false
  fwmark : text_eq label (txt "fwmark") ≡ false

itoa-IsLabel : (p : ℕ) → IsLabel (itoa p ++ txt ":")
itoa-IsLabel p = record {
  from = label-ne p 102 (txt "rom") (omega arith);
  to = label-ne p 116 (txt "o") (omega arith);
  lookup = label-ne p 108 (txt "ookup") (omega arith);
  fwmark = label-ne p 102 (txt "wmark") (omega arith);
}

managed_words :
    (label : Text) (r : Selector) → IsLabel label → managed_fields (label ∷ words r) ≡ true
unfolding managed_fields text_eq itoa has_prefix
managed_words label mark h = rw (h.from, h.to, h.lookup, h.fwmark)
managed_words label (bypass target) h = rw (h.from, h.to, h.lookup, h.fwmark) (ground arith)
managed_words label catch_all h = rw (h.from, h.lookup) (ground arith)

-- The destination that a rule bypasses.
abbrev pub target_of : Selector → Option Text
target_of (bypass target) = some target
target_of _ = none

target_of-words :
    (label : Text) (r : Selector) → IsLabel label → target_of_fields (label ∷ words r) ≡ target_of r
unfolding target_of_fields text_eq
target_of-words label mark h = rw (h.from, h.to, h.lookup) (ground arith)
target_of-words label (bypass target) h = rw (h.from, h.to, h.lookup) (ground arith)
target_of-words label catch_all h = rw (h.from, h.lookup) (ground arith)

-- Each rule that the service installs at a priority of its window, on one word as its destination,
-- is read back from its line as its own, with the priority and the destination that it has.
pub rule_line-read_back :
    (p : ℕ) (r : Selector)
    → TargetIsWord r
    → priority_min ≤ p
    → p ≤ priority_max
    → (is_managed_line (rule_line p r) ≡ true)
      × (rule_priority (rule_line p r) ≡ some p)
      × (line_target (rule_line p r) ≡ target_of r)
unfolding is_managed_line line_target
rule_line-read_back p r h lo hi =
    let prio = rule_priority-rule_line p r h lo hi in
    let fs = fields-rule_line p r h in
    (
      rw (prio, is_managed_line) (rw fs (managed_words _ r (itoa-IsLabel p))),
      prio,
      rw (prio, line_target) (rw fs (target_of-words _ r (itoa-IsLabel p))),
    )

no_newline_of_no_space :
    (w : Text) → All (λ c. is_space c ≡ false) w → All (λ c. (c == 10) ≡ false) w
unfolding is_space
no_newline_of_no_space [] h = tt
no_newline_of_no_space (c ∷ w) (h, hs) = (ground arith, no_newline_of_no_space w hs)

join-no_newline :
    (ws : List Text) → All IsWord ws → All (λ c. (c == 10) ≡ false) (join (txt " ") ws)
unfolding join
join-no_newline [] h = tt
join-no_newline (w ∷ []) (h, _) = no_newline_of_no_space w h.no_space
join-no_newline (w ∷ v ∷ ws) (h, hs) =
    All-append (λ c. (c == 10) ≡ false) w (32 ∷ join (txt " ") (v ∷ ws))
      (no_newline_of_no_space w h.no_space) (refl, join-no_newline (v ∷ ws) hs)

-- A line has no line break in it.
pub rule_line-no_newline :
    (p : ℕ) (r : Selector) → TargetIsWord r → All (λ c. (c == 10) ≡ false) (rule_line p r)
unfolding rule_line
rule_line-no_newline p r h =
    All-append (λ c. (c == 10) ≡ false) (itoa p ++ txt ":") (9 ∷ join (txt " ") (words r))
      (no_newline_of_no_space _ (label-IsWord p).no_space)
      (refl, join-no_newline (words r) (words-IsWord r h))
