-- ===== src/Tun/Drift/Exact.antt =====
-- The drift holds exactly what is missing and what is stale.
use v2ray_e.Base.{◌≡◌, ◌↔◌, ◌∙◌, refl, ap, true, false, not, ◌&&◌, ◌||◌, List, [], ◌∷◌, ◌++◌, arith}
use v2ray_e.Base.Text.{Text, text_eq, text_eq_iff, text_eq_refl}
use v2ray_e.Tun.Bypass.{mem}
use v2ray_e.Tun.Bypass.Exact.{mem-append}
use v2ray_e.Tun.Drift.{
  insert_sorted, sort_strings, BypassDrift, is_empty, is_nil, lacking, diff_sets, merge,
}

mem-insert_sorted :
    (x t : Text) (ts : List Text) → mem x (insert_sorted t ts) ≡ (text_eq x t || mem x ts)
unfolding insert_sorted mem
mem-insert_sorted x t [] = refl
mem-insert_sorted x t (s ∷ ss) = ground (arith, mem-insert_sorted x t ss)

pub mem-sort_strings : (x : Text) (ts : List Text) → mem x (sort_strings ts) ≡ mem x ts
unfolding sort_strings mem
mem-sort_strings x [] = refl
mem-sort_strings x (t ∷ ts) =
    mem-insert_sorted x t (sort_strings ts) ∙ ap (λ b. text_eq x t || b) (mem-sort_strings x ts)

mem-lacking :
    (x : Text) (ts other : List Text) → mem x (lacking ts other) ≡ (mem x ts && not (mem x other))
unfolding lacking mem
mem-lacking x [] other = refl
mem-lacking x (t ∷ ts) other = ground (arith, mem-lacking x ts other, text_eq_iff x t)

-- A prefix is reported missing exactly if it is desired and not installed, and stale exactly if it
-- is installed and not desired.
mem-diff_sets :
    (x : Text) (desired installed : List Text)
    → (mem x (diff_sets desired installed).missing ≡ (mem x desired && not (mem x installed)))
      × (mem x (diff_sets desired installed).stale ≡ (mem x installed && not (mem x desired)))
unfolding diff_sets
mem-diff_sets x desired installed = (
  mem-sort_strings x (lacking desired installed) ∙ mem-lacking x desired installed,
  mem-sort_strings x (lacking installed desired) ∙ mem-lacking x installed desired,
)

is_nil-no_member : (ts : List Text) → is_nil ts ≡ true → (x : Text) → mem x ts ≡ false
unfolding mem
is_nil-no_member [] h x = refl
is_nil-no_member (t ∷ ts) h x = cc

no_member-is_nil : (ts : List Text) → ((x : Text) → mem x ts ≡ false) → is_nil ts ≡ true
unfolding mem
no_member-is_nil [] h = refl
no_member-is_nil (t ∷ ts) h = ground (arith, h t, text_eq_refl t)

-- No drift is reported exactly if the same prefixes are desired and installed.
pub is_empty-diff_sets_iff :
    (desired installed : List Text)
    → (is_empty (diff_sets desired installed) ≡ true)
      ↔ ((x : Text) → mem x desired ≡ mem x installed)
unfolding is_empty
is_empty-diff_sets_iff desired installed = (
  λ h x.
      let d = diff_sets desired installed in
      let (m, s) = mem-diff_sets x desired installed in
      ground (
        arith,
        m,
        s,
        is_nil-no_member d.missing (ground arith) x,
        is_nil-no_member d.stale (ground arith) x,
      ),
  λ same.
      let d = diff_sets desired installed in
      let nothing_missing : (x : Text) → mem x d.missing ≡ false =
        λ x. ground (arith, (mem-diff_sets x desired installed).0, same x) in
      let nothing_stale : (x : Text) → mem x d.stale ≡ false =
        λ x. ground (arith, (mem-diff_sets x desired installed).1, same x) in
      ground
        (arith, no_member-is_nil d.missing nothing_missing, no_member-is_nil d.stale nothing_stale),
)

-- The merged drift reports what either of the two reports.
mem-merge :
    (x : Text) (d other : BypassDrift)
    → (mem x (merge d other).missing ≡ (mem x d.missing || mem x other.missing))
      × (mem x (merge d other).stale ≡ (mem x d.stale || mem x other.stale))
unfolding merge
mem-merge x d other = (
  mem-sort_strings x (d.missing ++ other.missing) ∙ mem-append x d.missing other.missing,
  mem-sort_strings x (d.stale ++ other.stale) ∙ mem-append x d.stale other.stale,
)
