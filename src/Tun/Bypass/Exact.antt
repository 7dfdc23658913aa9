-- ===== src/Tun/Bypass/Exact.antt =====
-- What the bypass set holds: each destination once, and exactly those that the sources name.
use v2ray_e.Base.{
  ◌≡◌, refl, Bool, false, ◌||◌, List, [], ◌∷◌, ◌++◌, Option, none, some, arith, Bool-cases,
  Option-cases, inl, inr,
}
use v2ray_e.Base.Text.{Text, text_eq, fields, text_eq_iff}
use v2ray_e.Tun.Bypass.{
  Family, Netip, mem, add_new, ip_prefix, add, add_all, add_dns, route_destination, add_routes,
  profile_prefixes, bypass_rules,
}

pub mem-append : (t : Text) (xs ys : List Text) → mem t (xs ++ ys) ≡ (mem t xs || mem t ys)
unfolding mem
mem-append t [] ys = refl
mem-append t (x ∷ xs) ys = ground (arith, mem-append t xs ys)

-- No element stands in the list behind itself.
abbrev pub Distinct : List Text → Type 0
Distinct [] = Unit
Distinct (t ∷ ts) = (mem t ts ≡ false) × Distinct ts

pub text_eq_comm : (s t : Text) → text_eq s t ≡ text_eq t s
text_eq_comm s t = ground (arith, text_eq_iff s t, text_eq_iff t s)

pub Distinct-concat :
    (ts : List Text) (t : Text) → Distinct ts → mem t ts ≡ false → Distinct (ts ++ t ∷ [])
unfolding mem
Distinct-concat [] t d h = (refl, tt)
Distinct-concat (s ∷ ts) t (fresh, d) h = (
  rw (mem-append s ts (t ∷ []), fresh) (ground (arith, text_eq_comm s t)),
  Distinct-concat ts t d (ground arith),
)

add_new-Distinct : (t : Text) (ts : List Text) → Distinct ts → Distinct (add_new t ts)
unfolding add_new
add_new-Distinct t ts d = elim (Bool-cases (mem t ts)) [
  | inl old ↦ rw old d
  | inr new ↦ rw new (Distinct-concat ts t d new)
]

pub mem-add_new : (x t : Text) (ts : List Text) → mem x (add_new t ts) ≡ (mem x ts || text_eq x t)
unfolding add_new mem
mem-add_new x t ts = ground (arith, text_eq_iff x t, mem-append x ts (t ∷ []))

module _ (net : Netip) (family : Family) where
  -- The text is an address or a prefix of the family that is written x.
  pub denotes : Text → Text → Bool
  denotes raw x = elim (ip_prefix net raw family) [ none ↦ false | some p ↦ text_eq x p ]

  pub any_denotes : List Text → Text → Bool
  any_denotes [] x = false
  any_denotes (raw ∷ raws) x = denotes raw x || any_denotes raws x

  -- A line of the main table, not for the default route, whose first field is written x.
  pub any_route : List Text → Text → Bool
  any_route [] x = false
  any_route (line ∷ lines) x =
      elim (route_destination (fields line)) [ none ↦ false | some t ↦ denotes t x ]
      || any_route lines x

  add-Distinct : (t : Text) (rules : List Text) → Distinct rules → Distinct (add net family t rules)
  unfolding add
  add-Distinct t rules d = elim (Option-cases (ip_prefix net t family)) [
    | inl bad ↦ rw (bad, add) d
    | inr (p, good) ↦ rw (good, add) (add_new-Distinct p rules d)
  ]

  add_all-Distinct :
      (ts rules : List Text) → Distinct rules → Distinct (add_all net family ts rules)
  unfolding add_all
  add_all-Distinct [] rules d = d
  add_all-Distinct (t ∷ ts) rules d =
      add_all-Distinct ts (add net family t rules) (add-Distinct t rules d)

  add_routes-Distinct :
      (lines rules : List Text) → Distinct rules → Distinct (add_routes net family lines rules)
  unfolding add_routes
  add_routes-Distinct [] rules d = d
  add_routes-Distinct (line ∷ lines) rules d =
      elim (Option-cases (route_destination (fields line))) [
        | inl skipped ↦ rw (skipped, add_routes) (add_routes-Distinct lines rules d)
        | inr (t, read) ↦
            rw (read, add_routes)
              (add_routes-Distinct lines (add net family t rules) (add-Distinct t rules d))
      ]

  add_dns-Distinct :
      (raws rules : List Text) → Distinct rules → Distinct (add_dns net family raws rules)
  unfolding add_dns
  add_dns-Distinct [] rules d = d
  add_dns-Distinct (raw ∷ raws) rules d = elim (Option-cases (ip_prefix net raw family)) [
    | inl bad ↦ rw (bad, add_dns) (add_dns-Distinct raws rules d)
    | inr (p, good) ↦
        rw (good, add_dns) (add_dns-Distinct raws (add net family p rules) (add-Distinct p rules d))
  ]

  -- No destination is in the bypass set twice.
  bypass_rules-Distinct :
      (routes dns_list dns_servers : List Text) (address : Option Text)
      → Distinct (bypass_rules net routes dns_list dns_servers address family)
  unfolding bypass_rules
  bypass_rules-Distinct routes dns_list dns_servers address = add_routes-Distinct routes _ (
      add_dns-Distinct dns_servers _ (
        add_dns-Distinct dns_list _ (add_all-Distinct (profile_prefixes net address family) [] tt)))

  -- The form in which the text is written is an address or a prefix of the family again, and is
  -- written x.
  pub denotes_again : Text → Text → Bool
  unfolding denotes
  denotes_again raw x = elim (ip_prefix net raw family) [ none ↦ false | some p ↦ denotes p x ]

  pub any_denotes_again : List Text → Text → Bool
  any_denotes_again [] x = false
  any_denotes_again (raw ∷ raws) x = denotes_again raw x || any_denotes_again raws x
