-- ===== src/Service/Subscriptions/Kept.antt =====
-- The profiles that a removal of duplicates and a removal of a subscription keep.
use v2ray_e.Base.{
  ℕ, zero, suc, ◌≡◌, refl, true, List, [], ◌∷◌, ◌++◌, Option, arith, ltb, Bool-cases, Option-cases,
  inl, inr, if◌then◌else◌, length, All, All-append,
}
use v2ray_e.Base.Text.{Text, text_eq}
use v2ray_e.Domain.{ProfileItem}
use v2ray_e.Service.Import.{dedupe_imported, dedupe_from, set_at, dedup_key, index_of_key}
use v2ray_e.Service.Subscriptions.{profiles_of_others}

module _ (P : ProfileItem → Type 0) where
  set_at-All :
      (i : ℕ) (p : ProfileItem) (ps : List ProfileItem) → P p → All P ps → All P (set_at i p ps)
  unfolding set_at
  set_at-All i p [] h hs = tt
  set_at-All zero p (q ∷ ps) h (k, ks) = (h, ks)
  set_at-All (suc i) p (q ∷ ps) h (k, ks) = (k, set_at-All i p ps h ks)

  dedupe_from-All :
      (marshal : ProfileItem → Option Text) (indices : List (Text × ℕ))
      (result ps : List ProfileItem)
      → All P result
      → All P ps
      → All P (dedupe_from marshal indices result ps)
  unfolding dedupe_from
  dedupe_from-All marshal indices result [] h hs = h
  dedupe_from-All marshal indices result (p ∷ ps) h (k, ks) =
      let longer = All-append P result (p ∷ []) h (k, tt) in
      elim (Option-cases (dedup_key marshal p)) [
        | inl bare ↦
            rw (bare, dedupe_from) (dedupe_from-All marshal indices (result ++ p ∷ []) ps longer ks)
        | inr (key, e) ↦ elim (Option-cases (index_of_key key indices)) [
          | inl new ↦
              rw (e, new, dedupe_from)
                (dedupe_from-All marshal ((key, length result) ∷ indices) (result ++ p ∷ []) ps
                  longer ks)
          | inr (i, old) ↦
              rw (e, old, dedupe_from)
                (dedupe_from-All marshal indices (set_at i p result) ps (set_at-All i p result k h)
                  ks)
        ]
      ]

  pub dedupe_imported-All :
      (marshal : ProfileItem → Option Text) (ps : List ProfileItem)
      → All P ps
      → All P (dedupe_imported marshal ps)
  unfolding dedupe_imported
  dedupe_imported-All marshal ps h = elim (Bool-cases (ltb (length ps) 2)) [
    | inl short ↦ rw (short, dedupe_imported) h
    | inr long ↦ rw (long, dedupe_imported) (dedupe_from-All marshal [] [] ps tt h)
  ]

-- The profiles of a subscription.
pub own_profiles : Text → List ProfileItem → List ProfileItem
own_profiles id [] = []
own_profiles id (p ∷ ps) =
    let rest = own_profiles id ps in if text_eq p.sub_id id then p ∷ rest else rest

abbrev pub Own : Text → ProfileItem → Type 0
Own id p = text_eq p.sub_id id ≡ true

pub others-append :
    (id : Text) (ps qs : List ProfileItem)
    → All (Own id) qs
    → profiles_of_others id (profiles_of_others id ps ++ qs) ≡ profiles_of_others id ps
unfolding profiles_of_others
others-append id [] [] h = refl
others-append id [] (q ∷ qs) (h, hs) = rw (h, profiles_of_others) (others-append id [] qs hs)
others-append id (p ∷ ps) qs hs = elim (Bool-cases (text_eq p.sub_id id)) [
  | inl own ↦ ground (arith, own, others-append id ps qs hs)
  | inr other ↦ ground (arith, other, others-append id ps qs hs)
]

pub Own-append :
    (id : Text) (ps qs : List ProfileItem)
    → All (Own id) qs
    → own_profiles id (profiles_of_others id ps ++ qs) ≡ qs
unfolding profiles_of_others own_profiles
Own-append id [] [] h = refl
Own-append id [] (q ∷ qs) (h, hs) = ground (arith, h, Own-append id [] qs hs)
Own-append id (p ∷ ps) qs hs = elim (Bool-cases (text_eq p.sub_id id)) [
  | inl own ↦ ground (arith, own, Own-append id ps qs hs)
  | inr other ↦ ground (arith, other, Own-append id ps qs hs)
]

pub own_of_others :
    (id : Text) (ps : List ProfileItem) → own_profiles id (profiles_of_others id ps) ≡ []
unfolding profiles_of_others own_profiles
own_of_others id [] = refl
own_of_others id (p ∷ ps) = elim (Bool-cases (text_eq p.sub_id id)) [
  | inl own ↦ ground (arith, own, own_of_others id ps)
  | inr other ↦ ground (arith, other, own_of_others id ps)
]

pub others_of_others :
    (id : Text) (ps : List ProfileItem)
    → profiles_of_others id (profiles_of_others id ps) ≡ profiles_of_others id ps
unfolding profiles_of_others
others_of_others id [] = refl
others_of_others id (p ∷ ps) = elim (Bool-cases (text_eq p.sub_id id)) [
  | inl own ↦ ground (arith, own, others_of_others id ps)
  | inr other ↦ ground (arith, other, others_of_others id ps)
]
