-- ===== src/Tun/Drift.antt =====
-- How the installed bypass rules differ from the ones that the routes call for. A Go map with empty
-- values is a set, here the list of its keys in the order in which it is run through.
pub mod Exact
use v2ray_e.Base.{
  ℕ, zero, suc, ◌+◌, ◌-◌, ◌*◌, ◌/◌, ◌%◌, ◌^◌, ◌<◌, ◌≤◌, ◌≡◌, ◌≢◌, ◌↔◌, ◌⊎◌, ◌∙◌, refl, sym, ap,
  Bool, true, false, not, ◌&&◌, ◌||◌, List, [], ◌∷◌, ◌++◌, map, Option, none, some, String, arith,
  ltb, leb, ◌==◌, ==_iff, ltb→lt, leb→le, Bool-cases, Option-cases, inl, inr, if◌then◌else◌, length,
  length-append, take, drop, take-append-drop, length-take, length-drop, take-append, drop-append,
  All, All-append, All-take, All-drop,
}
use v2ray_e.Base.Text.{Text, txt, text_eq, split, join}
use v2ray_e.Tun.Rules.{line_target}
use v2ray_e.Tun.Bypass.{Family, Netip, mem, add_new, ip_prefix}

-- Go's order of strings, byte by byte.
unfoldable pub text_leb : Text → Text → Bool
text_leb [] t = true
text_leb (a ∷ s) [] = false
text_leb (a ∷ s) (b ∷ t) = ltb a b || (a == b && text_leb s t)

unfoldable pub insert_sorted : Text → List Text → List Text
unfolding text_leb
insert_sorted t [] = t ∷ []
insert_sorted t (s ∷ ss) =
    let later = insert_sorted t ss in if text_leb t s then t ∷ s ∷ ss else s ∷ later

-- `sort.Strings`
unfoldable pub sort_strings : List Text → List Text
unfolding insert_sorted
sort_strings [] = []
sort_strings (t ∷ ts) = insert_sorted t (sort_strings ts)

pub record BypassDrift : Type 0 where
  pub missing : List Text
  pub stale : List Text

abbrev is_nil : List Text → Bool
is_nil [] = true
is_nil (t ∷ ts) = false

-- `Empty`
unfoldable pub is_empty : BypassDrift → Bool
is_empty d = is_nil d.missing && is_nil d.stale

-- The keys of the first set that the second lacks.
unfoldable pub lacking : List Text → List Text → List Text
unfolding mem
lacking [] other = []
lacking (t ∷ ts) other = let rest = lacking ts other in if mem t other then rest else t ∷ rest

-- `diffTunPolicyPrefixSets`
unfoldable pub diff_sets : List Text → List Text → BypassDrift
unfolding lacking sort_strings
diff_sets desired installed = record {
  missing = sort_strings (lacking desired installed);
  stale = sort_strings (lacking installed desired);
}

-- `merge`
unfoldable pub merge : BypassDrift → BypassDrift → BypassDrift
unfolding sort_strings
merge d other = record {
  missing = sort_strings (d.missing ++ other.missing);
  stale = sort_strings (d.stale ++ other.stale);
}

unfoldable pub signature_parts : BypassDrift → List Text
unfolding join
signature_parts d =
    (if is_nil d.missing then [] else (txt "missing=" ++ join (txt ",") d.missing) ∷ [])
    ++ (if is_nil d.stale then [] else (txt "stale=" ++ join (txt ",") d.stale) ∷ [])

-- `String`
unfoldable pub drift_string : BypassDrift → Text
unfolding signature_parts
drift_string d = join (txt " ") (signature_parts d)

module _ (net : Netip) (family : Family) where
  unfoldable pub add_target : Text → List Text → List Text
  add_target line targets = elim (line_target line) [
    | none ↦ targets
    | some t ↦ elim (ip_prefix net t family) [ none ↦ targets | some p ↦ add_new p targets ]
  ]

  unfoldable pub parse_lines : List Text → List Text → List Text
  unfolding add_target
  parse_lines [] targets = targets
  parse_lines (line ∷ lines) targets = parse_lines lines (add_target line targets)

  -- `parseInstalledTunPolicyBypassTargets`
  unfoldable pub parse_installed : Text → List Text
  unfolding parse_lines split
  parse_installed output = parse_lines (split 10 output) []
