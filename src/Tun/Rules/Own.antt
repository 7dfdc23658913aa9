-- ===== src/Tun/Rules/Own.antt =====
-- Which lines count as rules of the service.
use mathlib.Core.Path.{subst}
use v2ray_e.Base.{
  ℕ, ◌≤◌, ◌≡◌, ◌≢◌, ◌⊎◌, ◌↔◌, refl, sym, ap, ◌∙◌, true, ◌&&◌, List, [], ◌∷◌, ◌++◌, none, some,
  arith, Bool-cases, Option-cases, inl, inr,
}
use v2ray_e.Base.Int.{pos, negsuc}
use v2ray_e.Base.Text.{
  Text, txt, text_eq, text_eq_iff, text_eq_refl, fields, has_prefix, has_suffix, trim_suffix, atoi,
}
use v2ray_e.Base.Text.Fields.{fields-trim_space}
use v2ray_e.Base.Text.Decimal.{itoa}
use v2ray_e.Tun.Rules.{
  in_window, priority_of_field, priority_of_fields, rule_priority, rule_is_from_all,
  rule_destination, rule_looks_up, rule_has_bypass_mark, has_pair, is_bypass_mark, managed_fields,
  is_managed_line,
}

-- Two words that stand side by side somewhere.
abbrev pub Beside : Text → Text → List Text → Type 0
Beside a b fs = (before : List Text) × (behind : List Text) × (fs ≡ before ++ a ∷ b ∷ behind)

Beside-cons : (a b x : Text) (fs : List Text) → Beside a b fs → Beside a b (x ∷ fs)
Beside-cons a b x fs (before, behind, e) = (x ∷ before, behind, ap (λ l. x ∷ l) e)

has_pair-Beside : (a b : Text) (fs : List Text) → has_pair a b fs ≡ true → Beside a b fs
unfolding has_pair
has_pair-Beside a b [] h = cc h
has_pair-Beside a b (x ∷ []) h = cc h
has_pair-Beside a b (x ∷ y ∷ fs) h = elim (Bool-cases (text_eq x a && text_eq y b)) [
  | inl here ↦
      let first = (text_eq_iff x a).0 (ground (arith, here)) in
      let second = (text_eq_iff y b).0 (ground (arith, here)) in ([], fs, cc (first, second))
  | inr later ↦ Beside-cons a b x (y ∷ fs) (has_pair-Beside a b (y ∷ fs) (ground (arith, h, later)))
]

has_pair-append :
    (a b : Text) (before behind : List Text) → has_pair a b (before ++ a ∷ b ∷ behind) ≡ true
unfolding has_pair
has_pair-append a b [] behind = ground (arith, text_eq_refl a, text_eq_refl b)
has_pair-append a b (x ∷ []) behind = ground (arith, has_pair-append a b [] behind)
has_pair-append a b (x ∷ y ∷ before) behind =
    ground (arith, has_pair-append a b (y ∷ before) behind)

has_pair_iff : (a b : Text) (fs : List Text) → (has_pair a b fs ≡ true) ↔ Beside a b fs
has_pair_iff a b fs = (
  has_pair-Beside a b fs,
  λ (before, behind, e). ap (has_pair a b) e ∙ has_pair-append a b before behind,
)

-- A destination.
abbrev pub HasTarget : List Text → Type 0
HasTarget fs = (target : Text) × Beside (txt "to") target fs

rule_destination-HasTarget : (fs : List Text) → rule_destination fs ≢ none → HasTarget fs
unfolding rule_destination
rule_destination-HasTarget [] h = absurd (h refl)
rule_destination-HasTarget (x ∷ []) h = absurd (h refl)
rule_destination-HasTarget (x ∷ y ∷ fs) h = elim (Bool-cases (text_eq x (txt "to"))) [
  | inl here ↦ (y, ([], fs, ap (λ w. w ∷ y ∷ fs) ((text_eq_iff x (txt "to")).0 here)))
  | inr later ↦
      let (t, rest) =
        rule_destination-HasTarget (y ∷ fs) (λ e. h (rw (later, rule_destination) e)) in
      (t, Beside-cons (txt "to") t x (y ∷ fs) rest)
]

rule_destination-append :
    (t : Text) (before behind : List Text)
    → rule_destination (before ++ txt "to" ∷ t ∷ behind) ≢ none
unfolding rule_destination text_eq
rule_destination-append t [] behind e = cc e
rule_destination-append t (x ∷ []) behind e = elim (Bool-cases (text_eq x (txt "to"))) [
  | inl here ↦ cc (rw (here, rule_destination) at e)
  | inr later ↦ rule_destination-append t [] behind (rw (later, rule_destination) at e)
]
rule_destination-append t (x ∷ y ∷ before) behind e = elim (Bool-cases (text_eq x (txt "to"))) [
  | inl here ↦ cc (rw (here, rule_destination) at e)
  | inr later ↦ rule_destination-append t (y ∷ before) behind (rw (later, rule_destination) at e)
]

-- The mark of direct traffic, in decimal or in hexadecimal, with a mask or without.
pub data IsMark : Text → Type 0 where
  decimal : IsMark (txt "11537")
  hexadecimal : IsMark (txt "0x2d11")
  decimal_masked : (mask : Text) → IsMark (txt "11537/" ++ mask)
  hexadecimal_masked : (mask : Text) → IsMark (txt "0x2d11/" ++ mask)

abbrev pub HasMark : List Text → Type 0
HasMark fs = (value : Text) × IsMark value × Beside (txt "fwmark") value fs

has_prefix-split : (s p : Text) → has_prefix s p ≡ true → (rest : Text) × (s ≡ p ++ rest)
unfolding has_prefix
has_prefix-split s [] h = (s, refl)
has_prefix-split [] (c ∷ p) h = cc h
has_prefix-split (b ∷ s) (c ∷ p) h =
    let (rest, e) = has_prefix-split s p (ground (arith, h)) in
    let same : b ≡ c = ground (arith, h) in (rest, cc (same, e))

is_bypass_mark-IsMark : (v : Text) → is_bypass_mark v ≡ true → IsMark v
unfolding is_bypass_mark itoa
is_bypass_mark-IsMark v h = elim (Bool-cases (text_eq v (txt "11537"))) [
  | inl a ↦ subst IsMark (sym ((text_eq_iff v (txt "11537")).0 a)) decimal
  | inr na ↦ elim (Bool-cases (text_eq v (txt "0x2d11"))) [
    | inl b ↦ subst IsMark (sym ((text_eq_iff v (txt "0x2d11")).0 b)) hexadecimal
    | inr nb ↦ elim (Bool-cases (has_prefix v (txt "11537/"))) [
      | inl c ↦
          let (mask, e) = has_prefix-split v (txt "11537/") c in
          subst IsMark (sym e) (decimal_masked mask)
      | inr nc ↦
          let (mask, e) = has_prefix-split v (txt "0x2d11/") (ground (arith, h, na, nb, nc)) in
          subst IsMark (sym e) (hexadecimal_masked mask)
    ]
  ]
]

is_bypass_mark-mark : (v : Text) → IsMark v → is_bypass_mark v ≡ true
unfolding is_bypass_mark text_eq has_prefix itoa
is_bypass_mark-mark _ decimal = refl
is_bypass_mark-mark _ hexadecimal = refl
is_bypass_mark-mark _ (decimal_masked mask) = refl
is_bypass_mark-mark _ (hexadecimal_masked mask) = refl

rule_has_bypass_mark-HasMark : (fs : List Text) → rule_has_bypass_mark fs ≡ true → HasMark fs
unfolding rule_has_bypass_mark
rule_has_bypass_mark-HasMark [] h = cc h
rule_has_bypass_mark-HasMark (x ∷ []) h = cc h
rule_has_bypass_mark-HasMark (x ∷ y ∷ fs) h =
    elim (Bool-cases (text_eq x (txt "fwmark") && is_bypass_mark y)) [
      | inl here ↦
          let first = (text_eq_iff x (txt "fwmark")).0 (ground (arith, here)) in
          (y, is_bypass_mark-IsMark y (ground (arith, here)), ([], fs, ap (λ w. w ∷ y ∷ fs) first))
      | inr later ↦
          let (v, m, rest) = rule_has_bypass_mark-HasMark (y ∷ fs) (ground (arith, h, later)) in
          (v, m, Beside-cons (txt "fwmark") v x (y ∷ fs) rest)
    ]

rule_has_bypass_mark-append :
    (v : Text) (before behind : List Text)
    → IsMark v
    → rule_has_bypass_mark (before ++ txt "fwmark" ∷ v ∷ behind) ≡ true
unfolding rule_has_bypass_mark
rule_has_bypass_mark-append v [] behind m =
    ground (arith, text_eq_refl (txt "fwmark"), is_bypass_mark-mark v m)
rule_has_bypass_mark-append v (x ∷ []) behind m =
    ground (arith, rule_has_bypass_mark-append v [] behind m)
rule_has_bypass_mark-append v (x ∷ y ∷ before) behind m =
    ground (arith, rule_has_bypass_mark-append v (y ∷ before) behind m)

-- The first of two fields or more is a number and a colon.
pub record HasPriority (fs : List Text) (p : ℕ) : Type 0 where
  pub label : Text
  pub next : Text
  pub rest : List Text
  pub starts : fs ≡ label ∷ next ∷ rest
  pub colon : has_suffix label (txt ":") ≡ true
  pub number : atoi (trim_suffix label (txt ":")) ≡ some (pos p)
  pub lowest : 10000 ≤ p
  pub highest : p ≤ 10999

field-HasPriority :
    (f g : Text) (fs : List Text) (p : ℕ)
    → priority_of_field f ≡ some p
    → HasPriority (f ∷ g ∷ fs) p
unfolding priority_of_field in_window
field-HasPriority f g fs p h = elim (Bool-cases (has_suffix f (txt ":"))) [
  | inr plain ↦ ground (arith, plain, h)
  | inl ends ↦ elim (Option-cases (atoi (trim_suffix f (txt ":")))) [
    | inl bad ↦ ground (arith, ends, bad, h)
    | inr (negsuc n, read) ↦ ground (arith, ends, read, h)
    | inr (pos n, read) ↦
        let same : n ≡ p = ground (arith, ends, read, h) in
        record {
          label = f;
          next = g;
          rest = fs;
          starts = refl;
          colon = ends;
          number = rw (sym same) read;
          lowest = ground (arith, ends, read, h);
          highest = ground (arith, ends, read, h);
        }
  ]
]

fields-HasPriority : (fs : List Text) (p : ℕ) → priority_of_fields fs ≡ some p → HasPriority fs p
unfolding priority_of_fields
fields-HasPriority [] p h = absurd (cc h)
fields-HasPriority (f ∷ []) p h = absurd (cc h)
fields-HasPriority (f ∷ g ∷ fs) p h = field-HasPriority f g fs p h

priority_of_fields-some :
    (fs : List Text) (p : ℕ) → HasPriority fs p → priority_of_fields fs ≡ some p
unfolding priority_of_fields priority_of_field in_window
priority_of_fields-some fs p h =
    ap priority_of_fields h.starts ∙ ground (arith, h.colon, h.number, h.lowest, h.highest)

-- The fields of a rule of the service, in its window: it is from all, and leads to the service's table, or
-- to the main table with the mark of direct traffic or a destination.
pub record IsOwn (fs : List Text) : Type 0 where
  pub priority : ℕ
  pub in_front : HasPriority fs priority
  pub from_all : Beside (txt "from") (txt "all") fs
  pub leads :
      Beside (txt "lookup") (txt "20230") fs
      ⊎ (Beside (txt "lookup") (txt "main") fs × (HasMark fs ⊎ HasTarget fs))

managed_fields-leads :
    (fs : List Text)
    → managed_fields fs ≡ true
    → Beside (txt "from") (txt "all") fs
      × (Beside (txt "lookup") (txt "20230") fs
          ⊎ (Beside (txt "lookup") (txt "main") fs × (HasMark fs ⊎ HasTarget fs)))
unfolding managed_fields itoa rule_is_from_all rule_looks_up
managed_fields-leads fs h =
    let all = has_pair-Beside (txt "from") (txt "all") fs (ground (arith, h)) in
    elim (Bool-cases (rule_looks_up fs (txt "20230"))) [
      | inl own ↦ (all, inl (has_pair-Beside (txt "lookup") (txt "20230") fs own))
      | inr foreign ↦
          let main = has_pair-Beside (txt "lookup") (txt "main") fs (ground (arith, h, foreign)) in
          elim (Bool-cases (rule_has_bypass_mark fs)) [
            | inl marked ↦ (all, inr (main, inl (rule_has_bypass_mark-HasMark fs marked)))
            | inr unmarked ↦ (
              all,
              inr (
                main,
                inr (rule_destination-HasTarget fs (λ e. ground (arith, h, foreign, unmarked, e))),
              ),
            )
          ]
    ]

managed_fields-IsOwn : (fs : List Text) → IsOwn fs → managed_fields fs ≡ true
unfolding managed_fields itoa rule_is_from_all rule_looks_up
managed_fields-IsOwn fs o =
    let all = (has_pair_iff (txt "from") (txt "all") fs).1 o.from_all in
    elim o.leads [
      | inl own ↦
          let table = (has_pair_iff (txt "lookup") (txt "20230") fs).1 own in
          ground (arith, all, table)
      | inr (main, inl (v, m, (before, behind, e))) ↦
          let table = (has_pair_iff (txt "lookup") (txt "main") fs).1 main in
          let marked = ap rule_has_bypass_mark e ∙ rule_has_bypass_mark-append v before behind m in
          ground (arith, all, table, marked)
      | inr (main, inr (t, (before, behind, e))) ↦
          let table = (has_pair_iff (txt "lookup") (txt "main") fs).1 main in
          let aimed : rule_destination fs ≢ none =
            λ n. rule_destination-append t before behind (sym (ap rule_destination e) ∙ n) in
          ground (arith, all, table, aimed)
    ]

-- A line counts as a rule of the service exactly when its fields say so, word for word: the first of
-- two or more is a number from 10000 to 10999 and a colon, "from" stands before "all" somewhere, and
-- "lookup" before "20230", or else "lookup" before "main" and with it "fwmark" before the mark 11537, which
-- may be in hexadecimal and have a mask, or "to" before a word.
pub is_managed_line_iff : (line : Text) → (is_managed_line line ≡ true) ↔ IsOwn (fields line)
unfolding is_managed_line rule_priority
is_managed_line_iff line = (forth, back)
  where
    forth : is_managed_line line ≡ true → IsOwn (fields line)
    forth h = elim (Option-cases (rule_priority line)) [
      | inl unread ↦ cc (rw (unread, is_managed_line) at h)
      | inr (p, e) ↦
          let (all, leads) = managed_fields-leads (fields line) (rw (e, is_managed_line) at h) in
          record {
            priority = p;
            in_front =
                fields-HasPriority (fields line) p
                  (ap priority_of_fields (sym (fields-trim_space line)) ∙ e);
            from_all = all;
            leads = leads;
          }
    ]

    back : IsOwn (fields line) → is_managed_line line ≡ true
    back o =
        let read : rule_priority line ≡ some o.priority =
          ap priority_of_fields (fields-trim_space line)
          ∙ priority_of_fields-some (fields line) o.priority o.in_front in
        rw (read, is_managed_line) (managed_fields-IsOwn (fields line) o)
