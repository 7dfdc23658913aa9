-- ===== src/Service/Steps.antt =====
-- The operations on profiles as steps of the store.
use v2ray_e.Base.{
  ℕ, suc, ◌≡◌, ◌≢◌, ap, true, List, [], ◌∷◌, Option, none, some, arith, Bool-cases, Option-cases,
  inl, inr,
}
use v2ray_e.Base.Text.{Text, text_eq, text_eq_iff}
use v2ray_e.Domain.{ProfileItem}
use v2ray_e.Sub.Uri.{Decoders}
use v2ray_e.Sub.Content.{parse_profile_uri}
use v2ray_e.Service.Store.{Store, Saves, find_profile, ids_of, save_profiles, ok}
use v2ray_e.Service.Profiles.{
  create_profile, update_profile, delete_profiles, select_profile, pick_selected_profile,
}
use v2ray_e.Service.Profiles.Selection.{
  selection_is_valid, create_profile-valid, update_profile-valid, delete_profiles-valid,
  select_profile-valid, find_profile-mem, find_profile-id,
}
use v2ray_e.Service.Import.{
  import_profile_from_uri, find_equivalent, find_key, dedup_key, set_at, merged,
}
use v2ray_e.Tun.Bypass.{mem}

ids_of-set_at :
    (marshal : ProfileItem → Option Text) (key : Text) (p old : ProfileItem) (i : ℕ)
    (ps : List ProfileItem)
    → find_key marshal key ps ≡ some (i, old)
    → ids_of (set_at i (merged p old) ps) ≡ ids_of ps
unfolding find_key set_at merged
ids_of-set_at marshal key p old i [] h = cc
ids_of-set_at marshal key p old i (q ∷ ps) h =
    let found_later : Later = λ j r f. ids_of-set_at marshal key p r j ps f in
    elim (Option-cases (dedup_key marshal q)) [
      | inl bare ↦ later found_later (rw (bare, find_key) at h)
      | inr (k, e) ↦ elim (Bool-cases (text_eq k key)) [
        | inl here ↦
            let first : i ≡ 0 = cc (rw (e, here, find_key) at h) in
            let same : old ≡ q = cc (rw (e, here, find_key) at h) in rw (first, same)
        | inr other ↦ later found_later (rw (e, other, find_key) at h)
      ]
    ]
  where
    Later : Type 0
    Later =
        (j : ℕ) (r : ProfileItem)
        → find_key marshal key ps ≡ some (j, r)
        → ids_of (set_at j (merged p r) ps) ≡ ids_of ps

    later :
        Later
        → elim (find_key marshal key ps) as (λ _. Option (ℕ × ProfileItem)) [
          | none ↦ none
          | some (j, r) ↦ some (suc j, r)
        ]
          ≡ some (i, old)
        → ids_of (set_at i (merged p old) (q ∷ ps)) ≡ ids_of (q ∷ ps)
    later ih e = elim (Option-cases (find_key marshal key ps)) [
      | inl missing ↦ cc (rw missing at e)
      | inr ((j, r), found) ↦
          let shifted : i ≡ suc j = cc (rw found at e) in
          let same : old ≡ r = cc (rw found at e) in
          rw (shifted, same) (ap (λ l. q.id ∷ l) (ih j r found))
    ]

saved-valid :
    (saves : Saves) (ps : List ProfileItem) (q : ProfileItem) (s : Store)
    → selection_is_valid s ≡ true
    → ids_of ps ≡ ids_of s.profiles
    → selection_is_valid ((save_profiles saves ps s (λ t. (ok q, t))).1) ≡ true
unfolding selection_is_valid save_profiles
saved-valid saves ps q s v e = ground (arith, v, ap (mem s.current_profile_id) e)

module _ (marshal : ProfileItem → Option Text) (d : Decoders) where
  find_equivalent-ids :
      (p : ProfileItem) (i : ℕ) (old : ProfileItem) (ps : List ProfileItem)
      → find_equivalent marshal ps p ≡ some (i, old)
      → ids_of (set_at i (merged p old) ps) ≡ ids_of ps
  unfolding find_equivalent
  find_equivalent-ids p i old ps h = elim (Option-cases (dedup_key marshal p)) [
    | inl bare ↦ cc (rw (bare, find_equivalent) at h)
    | inr (key, e) ↦ ids_of-set_at marshal key p old i ps (rw (e, find_equivalent) at h)
  ]

  import-valid :
      (saves : Saves) (parse_id new_id uri : Text) (s : Store)
      → selection_is_valid s ≡ true
      → selection_is_valid ((import_profile_from_uri marshal d saves parse_id new_id uri s).1)
        ≡ true
  unfolding import_profile_from_uri find_equivalent
  import-valid saves parse_id new_id uri s v =
      elim (Option-cases (parse_profile_uri d parse_id uri [] [])) [
        | inl bad ↦ ground (arith, bad, v)
        | inr (p, e) ↦ elim (Option-cases (find_equivalent marshal s.profiles p)) [
          | inl new ↦ rw (e, new, import_profile_from_uri) (create_profile-valid saves new_id p s v)
          | inr ((i, old), found) ↦
              rw (e, found, import_profile_from_uri)
                (saved-valid saves _ (merged p old) s v
                  (find_equivalent-ids p i old s.profiles found))
        ]
      ]

  -- One operation on the profiles, with the saves of its own that succeed.
  pub data Step (s : Store) : Store → Type 0 where
    create :
        (saves : Saves) (id : Text) (input : ProfileItem)
        → Step s ((create_profile saves id input s).1)
    update :
        (saves : Saves) (id : Text) (input : ProfileItem)
        → Step s ((update_profile saves id input s).1)
    delete :
        (saves : Saves) (ids : List Text)
        → saves.state_saved ≡ true
        → Step s ((delete_profiles saves ids s).1)
    select : (saves : Saves) (id : Text) → Step s ((select_profile saves id s).1)
    import :
        (saves : Saves) (parse_id new_id uri : Text)
        → Step s ((import_profile_from_uri marshal d saves parse_id new_id uri s).1)

  pub data Steps (s : Store) : Store → Type 0 where
    none_yet : Steps s s
    more : (t u : Store) → Steps s t → Step t u → Steps s u

  -- Over any sequence of operations on the profiles, failed ones included, of which a deletion can
  -- save the selection, the selected profile stays one of the profiles, if one is selected.
  pub Steps-selection :
      (s t : Store) → Steps s t → selection_is_valid s ≡ true → selection_is_valid t ≡ true
  Steps-selection s t none_yet v = v
  Steps-selection s u (more t _ before step) v = after t u step (Steps-selection s t before v)
    where
      after : (t u : Store) → Step t u → selection_is_valid t ≡ true → selection_is_valid u ≡ true
      after t _ (create saves id input) w = create_profile-valid saves id input t w
      after t _ (update saves id input) w = update_profile-valid saves id input t w
      after t _ (delete saves ids h) w = delete_profiles-valid saves ids t h w
      after t _ (select saves id) w = select_profile-valid saves id t w
      after t _ (import saves parse_id new_id uri) w = import-valid saves parse_id new_id uri t w

pick_found :
    (id : Text) (ps : List ProfileItem) (p : ProfileItem)
    → id ≢ []
    → find_profile id ps ≡ some p
    → pick_selected_profile id ps ≡ some p
unfolding pick_selected_profile find_profile
pick_found id [] p ne f = cc f
pick_found id (q ∷ ps) p ne f = elim (Bool-cases (text_eq q.id id)) [
  | inl here ↦ ground (arith, here, text_eq_iff id [], ne, f)
  | inr later ↦ ground (arith, later, text_eq_iff id [], ne, f)
]

-- The profile that is chosen to run is the selected one, where the selection is valid and not empty.
pub pick_selected_profile-selected :
    (s : Store)
    → selection_is_valid s ≡ true
    → s.current_profile_id ≢ []
    → (p : ProfileItem) × (pick_selected_profile s.current_profile_id s.profiles ≡ some p)
      × (p.id ≡ s.current_profile_id)
unfolding selection_is_valid pick_selected_profile
pick_selected_profile-selected s v ne =
    elim (Option-cases (find_profile s.current_profile_id s.profiles)) [
      | inl missing ↦ absurd (
          ground (
            arith,
            v,
            missing,
            find_profile-mem s.current_profile_id s.profiles,
            text_eq_iff s.current_profile_id [],
          ))
      | inr (p, found) ↦ (
        p,
        pick_found s.current_profile_id s.profiles p ne found,
        (text_eq_iff p.id s.current_profile_id).0 (find_profile-id _ s.profiles p found),
      )
    ]
