-- ===== src/Service/Profiles/Selection.antt =====
-- The selected profile stays one of the profiles, over the operations on profiles.
use v2ray_e.Base.{
  ◌≡◌, ◌↔◌, ◌⊎◌, ◌∙◌, refl, sym, ap, Bool, true, false, not, ◌&&◌, ◌||◌, List, [], ◌∷◌, ◌++◌, none,
  some, arith, Bool-cases, Option-cases, inl, inr,
}
use v2ray_e.Base.Text.{Text, text_eq, text_eq_iff, text_eq_refl}
use v2ray_e.Domain.{ProfileItem}
use v2ray_e.Service.Store.{Store, Saves, save_profiles, save_state, find_profile, ids_of}
use v2ray_e.Service.Profiles.{
  create_profile, update_profile, replace_profile, delete_profiles, id_set, kept_profiles,
  removed_ids, first_id, reselect, select_profile,
}
use v2ray_e.Tun.Bypass.{mem}
use v2ray_e.Tun.Bypass.Exact.{mem-append, text_eq_comm}

-- Nothing is selected, or one of the profiles.
unfoldable pub selection_is_valid : Store → Bool
unfolding mem
selection_is_valid s =
    text_eq s.current_profile_id [] || mem s.current_profile_id (ids_of s.profiles)

pub mem-kept_profiles :
    (x : Text) (ids : List Text) (ps : List ProfileItem)
    → mem x (ids_of (kept_profiles ids ps)) ≡ (mem x (ids_of ps) && not (mem x ids))
unfolding kept_profiles mem
mem-kept_profiles x ids [] = refl
mem-kept_profiles x ids (p ∷ ps) = ground (arith, mem-kept_profiles x ids ps, text_eq_iff x p.id)

mem-removed_ids :
    (x : Text) (ids : List Text) (ps : List ProfileItem)
    → mem x (removed_ids ids ps) ≡ (mem x (ids_of ps) && mem x ids)
unfolding removed_ids mem
mem-removed_ids x ids [] = refl
mem-removed_ids x ids (p ∷ ps) = ground (arith, mem-removed_ids x ids ps, text_eq_iff x p.id)

pub ids_of-append : (ps qs : List ProfileItem) → ids_of (ps ++ qs) ≡ ids_of ps ++ ids_of qs
ids_of-append [] qs = refl
ids_of-append (p ∷ ps) qs = ap (λ t. p.id ∷ t) (ids_of-append ps qs)

-- A profile that is found has the identifier that was looked for.
pub find_profile-id :
    (id : Text) (ps : List ProfileItem) (p : ProfileItem)
    → find_profile id ps ≡ some p
    → text_eq p.id id ≡ true
unfolding find_profile
find_profile-id id [] p h = cc
find_profile-id id (q ∷ ps) p h = elim (Bool-cases (text_eq q.id id)) [
  | inl here ↦ cc (rw (here, find_profile) at h, here)
  | inr later ↦ find_profile-id id ps p (rw (later, find_profile) at h)
]

pub find_profile-mem :
    (id : Text) (ps : List ProfileItem) → (find_profile id ps ≡ none) ↔ (mem id (ids_of ps) ≡ false)
unfolding find_profile mem
find_profile-mem id [] = (λ h. refl, λ h. refl)
find_profile-mem id (q ∷ ps) = ground (arith, find_profile-mem id ps, text_eq_comm id q.id)

ids_of-replace_profile :
    (id : Text) (input : ProfileItem) (ps qs : List ProfileItem)
    → input.id ≡ id
    → replace_profile id input ps ≡ some qs
    → ids_of qs ≡ ids_of ps
unfolding replace_profile
ids_of-replace_profile id input [] qs h e = cc
ids_of-replace_profile id input (p ∷ ps) qs h e = elim (Bool-cases (text_eq p.id id)) [
  | inl here ↦
      let same : qs ≡ input ∷ ps = cc (rw (here, replace_profile) at e) in
      let own : input.id ≡ p.id = h ∙ sym ((text_eq_iff p.id id).0 here) in
      rw same (ap (λ i. i ∷ ids_of ps) own)
  | inr later ↦ elim (Option-cases (replace_profile id input ps)) [
    | inl missing ↦ cc (rw (later, missing, replace_profile) at e)
    | inr (rs, found) ↦
        let same : qs ≡ p ∷ rs = cc (rw (later, found, replace_profile) at e) in
        rw same (ap (λ l. p.id ∷ l) (ids_of-replace_profile id input ps rs h found))
  ]
]

first_id-valid :
    (ps : List ProfileItem) → (text_eq (first_id ps) [] || mem (first_id ps) (ids_of ps)) ≡ true
unfolding mem text_eq
first_id-valid [] = refl
first_id-valid (p ∷ ps) = ground (arith, text_eq_refl p.id)

reselect-valid :
    (saves : Saves) (removed : List Text) (kept : List ProfileItem) (s : Store)
    → saves.state_saved ≡ true
    → s.profiles ≡ kept
    → (mem s.current_profile_id removed ≡ true) ⊎ (selection_is_valid s ≡ true)
    → selection_is_valid ((reselect saves removed kept s).1) ≡ true
unfolding reselect selection_is_valid save_state mem
reselect-valid saves removed kept s h e v = elim (Bool-cases (mem s.current_profile_id removed)) [
  | inl gone ↦ rw (gone, h, e, reselect) (first_id-valid kept)
  | inr there ↦ rw (there, reselect) (ground (arith, v, there))
]

kept-settled :
    (set : List Text) (s : Store)
    → selection_is_valid s ≡ true
    → (mem s.current_profile_id (removed_ids set s.profiles) ≡ true)
      ⊎ (selection_is_valid (record s { profiles = kept_profiles set s.profiles }) ≡ true)
unfolding selection_is_valid
kept-settled set s v = ground (
  arith,
  v,
  mem-kept_profiles s.current_profile_id set s.profiles,
  mem-removed_ids s.current_profile_id set s.profiles,
)

pub delete_profiles-valid :
    (saves : Saves) (ids : List Text) (s : Store)
    → saves.state_saved ≡ true
    → selection_is_valid s ≡ true
    → selection_is_valid ((delete_profiles saves ids s).1) ≡ true
unfolding delete_profiles save_profiles
delete_profiles-valid saves ids s h v =
    let set = id_set ids in
    let removed = removed_ids set s.profiles in
    let kept = kept_profiles set s.profiles in
    let after : selection_is_valid ((reselect saves removed kept (record s { profiles = kept })).1)
        ≡ true =
      reselect-valid saves removed kept (record s { profiles = kept }) h refl
        (kept-settled set s v) in
    ground (arith, after, v)

pub create_profile-valid :
    (saves : Saves) (id : Text) (input : ProfileItem) (s : Store)
    → selection_is_valid s ≡ true
    → selection_is_valid ((create_profile saves id input s).1) ≡ true
unfolding create_profile save_profiles selection_is_valid
create_profile-valid saves id input s v =
    let p = record input { id = id } in
    ground (
      arith,
      v,
      ap (mem s.current_profile_id) (ids_of-append s.profiles (p ∷ [])),
      mem-append s.current_profile_id (ids_of s.profiles) (id ∷ []),
    )

pub update_profile-valid :
    (saves : Saves) (id : Text) (input : ProfileItem) (s : Store)
    → selection_is_valid s ≡ true
    → selection_is_valid ((update_profile saves id input s).1) ≡ true
unfolding update_profile save_profiles selection_is_valid
update_profile-valid saves id input s v =
    elim (Option-cases (replace_profile id (record input { id = id }) s.profiles)) [
      | inl missing ↦ ground (arith, v, missing)
      | inr (ps, found) ↦ ground (
        arith,
        v,
        found,
        ap (mem s.current_profile_id)
            (ids_of-replace_profile id (record input { id = id }) s.profiles ps refl found),
      )
    ]

pub select_profile-valid :
    (saves : Saves) (id : Text) (s : Store)
    → selection_is_valid s ≡ true
    → selection_is_valid ((select_profile saves id s).1) ≡ true
unfolding select_profile save_state selection_is_valid
select_profile-valid saves id s v = elim (Option-cases (find_profile id s.profiles)) [
  | inl missing ↦ ground (arith, v, missing)
  | inr (p, found) ↦ ground (arith, v, found, find_profile-mem id s.profiles)
]
