-- ===== src/Service/Profiles.antt =====
-- The operations on profiles, native/service.go 411–538, and the choice of the profile to run.
pub mod Selection
use v2ray_e.Base.{
  ℕ, zero, suc, ◌+◌, ◌-◌, ◌*◌, ◌/◌, ◌%◌, ◌^◌, ◌<◌, ◌≤◌, ◌≡◌, ◌≢◌, ◌↔◌, ◌⊎◌, ◌∙◌, refl, sym, ap,
  Bool, true, false, not, ◌&&◌, ◌||◌, List, [], ◌∷◌, ◌++◌, map, Option, none, some, String, arith,
  ltb, leb, ◌==◌, ==_iff, ltb→lt, leb→le, Bool-cases, Option-cases, inl, inr, if◌then◌else◌, length,
  length-append, take, drop, take-append-drop, length-take, length-drop, take-append, drop-append,
  All, All-append, All-take, All-drop,
}
use v2ray_e.Base.Int.{ℤ, pos, negsuc}
use v2ray_e.Base.Text.{Text, txt, text_eq, trim_space}
use v2ray_e.Domain.{
  ProfileItem, SubscriptionItem, Protocol, vmess, vless, shadowsocks, trojan, hysteria2, tuic,
  other,
}
use v2ray_e.Service.Store.{
  Store, Saves, Run, ok, err, invalid_mode, not_found, save_profiles, save_state, find_profile,
  ids_of, selection_changed, runtime_changed,
}
use v2ray_e.Tun.Bypass.{mem, add_new}

abbrev is_known : Protocol → Bool
is_known (other s) = false
is_known _ = true

abbrev pub is_positive : ℤ → Bool
is_positive (pos zero) = false
is_positive (pos (suc n)) = true
is_positive (negsuc n) = false

-- `validateProfile`
unfoldable pub is_valid_profile : ProfileItem → Bool
is_valid_profile p =
    not (
      text_eq (trim_space p.name) []
      || text_eq (trim_space p.address) []
      || not (is_positive p.port))
    && is_known p.protocol

-- `subMap[id]`: the last entry with an identifier, and the empty text without one.
unfoldable pub remarks_of : Text → List SubscriptionItem → Text → Text
remarks_of id [] found = found
remarks_of id (sub ∷ subs) found =
    remarks_of id subs (if text_eq sub.id id then sub.remarks else found)

unfoldable pub with_sub_name : List SubscriptionItem → ProfileItem → ProfileItem
unfolding remarks_of
with_sub_name subs p =
    if text_eq p.sub_name [] && not (text_eq p.sub_id [])
    then record p { sub_name = remarks_of p.sub_id subs [] }
    else p

-- `ListProfiles`
unfoldable pub list_profiles : Store → List ProfileItem
unfolding with_sub_name
list_profiles store = map (with_sub_name store.subscriptions) store.profiles

-- `GetProfile`
unfoldable pub get_profile : Text → Store → Run ProfileItem
unfolding find_profile
get_profile id store = elim (find_profile id store.profiles) [
  | none ↦ (err not_found, store)
  | some p ↦ (ok p, store)
]

-- `CreateProfile`, with the identifier that is read from the clock.
unfoldable pub create_profile : Saves → Text → ProfileItem → Store → Run ProfileItem
unfolding is_valid_profile save_profiles
create_profile saves new_id input store =
    let p = record input { id = new_id } in
    if not (is_valid_profile input)
    then (err invalid_mode, store)
    else save_profiles saves (store.profiles ++ p ∷ []) store (λ s. (ok p, s))

-- The first profile with an identifier is replaced.
unfoldable pub replace_profile : Text → ProfileItem → List ProfileItem → Option (List ProfileItem)
replace_profile id input [] = none
replace_profile id input (p ∷ ps) =
    let later = replace_profile id input ps in
    if text_eq p.id id
    then some (input ∷ ps)
    else elim later [ none ↦ none | some qs ↦ some (p ∷ qs) ]

-- `UpdateProfile`
unfoldable pub update_profile : Saves → Text → ProfileItem → Store → Run ProfileItem
unfolding is_valid_profile replace_profile save_profiles
update_profile saves id input store =
    let p = record input { id = id } in
    let run : Run ProfileItem = elim (replace_profile id p store.profiles) [
      | none ↦ (err not_found, store)
      | some ps ↦ save_profiles saves ps store (λ s. (ok p, s))
    ] in
    if not (is_valid_profile input) then (err invalid_mode, store) else run

-- The set of the identifiers to delete, trimmed.
unfoldable pub id_set : List Text → List Text
unfolding add_new
id_set [] = []
id_set (id ∷ ids) =
    let rest = id_set ids in
    if text_eq (trim_space id) [] then rest else add_new (trim_space id) rest

unfoldable pub kept_profiles : List Text → List ProfileItem → List ProfileItem
unfolding mem
kept_profiles ids [] = []
kept_profiles ids (p ∷ ps) =
    let rest = kept_profiles ids ps in if mem p.id ids then rest else p ∷ rest

unfoldable pub removed_ids : List Text → List ProfileItem → List Text
unfolding mem
removed_ids ids [] = []
removed_ids ids (p ∷ ps) =
    let rest = removed_ids ids ps in if mem p.id ids then p.id ∷ rest else rest

abbrev pub first_id : List ProfileItem → Text
first_id [] = []
first_id (p ∷ ps) = p.id

-- Behind the save of the profiles: another profile is selected if the selected one was removed.
unfoldable pub reselect : Saves → List Text → List ProfileItem → Store → Run Unit
unfolding mem save_state
reselect saves removed kept store =
    if mem store.current_profile_id removed
    then save_state saves (first_id kept) store (λ s.
      (ok tt, record s { core_calls = s.core_calls ++ selection_changed (first_id kept) ∷ [] }))
    else (ok tt, store)

abbrev is_nil : List Text → Bool
is_nil [] = true
is_nil (x ∷ xs) = false

-- `DeleteProfiles`
unfoldable pub delete_profiles : Saves → List Text → Store → Run Unit
unfolding id_set kept_profiles removed_ids save_profiles reselect
delete_profiles saves ids store =
    let removed = removed_ids (id_set ids) store.profiles in
    let kept = kept_profiles (id_set ids) store.profiles in
    if is_nil (id_set ids)
    then (err invalid_mode, store)
    else if is_nil removed
    then (err not_found, store)
    else save_profiles saves kept store (reselect saves removed kept)

-- `DeleteProfile`
unfoldable pub delete_profile : Saves → Text → Store → Run Unit
unfolding delete_profiles
delete_profile saves id store = delete_profiles saves (id ∷ []) store

-- `SelectProfile`
unfoldable pub select_profile : Saves → Text → Store → Run Unit
unfolding find_profile save_state
select_profile saves id store = elim (find_profile id store.profiles) [
  | none ↦ (err not_found, store)
  | some p ↦
      save_state saves id store
        (λ s. (ok tt, record s { core_calls = s.core_calls ++ runtime_changed ∷ [] }))
]

-- `pickSelectedProfile`
unfoldable pub pick_selected_profile : Text → List ProfileItem → Option ProfileItem
unfolding find_profile
pick_selected_profile id [] = none
pick_selected_profile id (p ∷ ps) =
    if text_eq id []
    then some p
    else elim (find_profile id (p ∷ ps)) [ none ↦ some p | some q ↦ some q ]
