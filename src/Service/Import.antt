-- ===== src/Service/Import.antt =====
-- The import of a URI and the removal of duplicates, native/service.go 683–699 and 1615–1666.
-- `json.Marshal` is a parameter.
pub mod Dedupe
use v2ray_e.Base.{ℕ, zero, suc, List, [], ◌∷◌, ◌++◌, Option, none, some, ltb, if◌then◌else◌, length}
use v2ray_e.Base.Int.{pos}
use v2ray_e.Base.Text.{Text, text_eq}
use v2ray_e.Domain.{ProfileItem}
use v2ray_e.Sub.Uri.{Decoders}
use v2ray_e.Sub.Content.{parse_profile_uri}
use v2ray_e.Service.Store.{Store, Saves, Run, ok, err, parse_failed, save_profiles}
use v2ray_e.Service.Profiles.{create_profile}

-- The profile without what depends on where and when it was stored.
unfoldable pub normalized : ProfileItem → ProfileItem
normalized p = record p {
  id = [];
  delay_ms = pos 0;
  sub_id = [];
  sub_name = [];
  sort_order = pos 0;
}

-- The element at an index is replaced.
unfoldable pub set_at {ℓ} : {A : Type ℓ} → ℕ → A → List A → List A
set_at i x [] = []
set_at zero x (y ∷ ys) = x ∷ ys
set_at (suc i) x (y ∷ ys) = y ∷ set_at i x ys

-- `indexByKey[key]`
unfoldable pub index_of_key : Text → List (Text × ℕ) → Option ℕ
index_of_key key [] = none
index_of_key key ((k, i) ∷ rest) =
    let later = index_of_key key rest in if text_eq key k then some i else later

-- The profile that was parsed, with what the stored one keeps.
unfoldable pub merged : ProfileItem → ProfileItem → ProfileItem
merged p old = record p {
  id = old.id;
  sub_id = old.sub_id;
  sub_name = old.sub_name;
  sort_order = old.sort_order;
}

module _ (marshal : ProfileItem → Option Text) where
  -- `importedProfileDedupKey`
  unfoldable pub dedup_key : ProfileItem → Option Text
  unfolding normalized
  dedup_key p = marshal (normalized p)

  -- The loop of `dedupeImportedProfiles`.
  unfoldable pub dedupe_from :
      List (Text × ℕ) → List ProfileItem → List ProfileItem → List ProfileItem
  unfolding dedup_key index_of_key set_at
  dedupe_from indices result [] = result
  dedupe_from indices result (p ∷ ps) =
      let unmarked = dedupe_from indices (result ++ p ∷ []) ps in
      elim (dedup_key p) [
        | none ↦ unmarked
        | some key ↦ elim (index_of_key key indices) [
          | some i ↦ dedupe_from indices (set_at i p result) ps
          | none ↦ dedupe_from ((key, length result) ∷ indices) (result ++ p ∷ []) ps
        ]
      ]

  -- `dedupeImportedProfiles`
  unfoldable pub dedupe_imported : List ProfileItem → List ProfileItem
  unfolding dedupe_from
  dedupe_imported ps = let whole = dedupe_from [] [] ps in if ltb (length ps) 2 then ps else whole

  -- The loop of `findEquivalentImportedProfileIndex`, with the profile that stands at the index.
  unfoldable pub find_key : Text → List ProfileItem → Option (ℕ × ProfileItem)
  unfolding dedup_key
  find_key key [] = none
  find_key key (p ∷ ps) =
      let later : Option (ℕ × ProfileItem) = elim (find_key key ps) [
        | none ↦ none
        | some (i, q) ↦ some (suc i, q)
      ] in
      elim (dedup_key p) [ none ↦ later | some k ↦ if text_eq k key then some (0, p) else later ]

  unfoldable pub find_equivalent : List ProfileItem → ProfileItem → Option (ℕ × ProfileItem)
  unfolding find_key
  find_equivalent ps candidate = elim (dedup_key candidate) [
    | none ↦ none
    | some key ↦ find_key key ps
  ]

  module _ (d : Decoders) where
    -- `ImportProfileFromURI`; the clock is read for the parser, and again if the profile is new.
    unfoldable pub import_profile_from_uri : Saves → Text → Text → Text → Store → Run ProfileItem
    unfolding parse_profile_uri find_equivalent merged create_profile save_profiles
    import_profile_from_uri saves parse_id new_id uri store =
        elim (parse_profile_uri d parse_id uri [] []) [
          | none ↦ (err parse_failed, store)
          | some p ↦ elim (find_equivalent store.profiles p) [
            | some (i, old) ↦
                save_profiles saves (set_at i (merged p old) store.profiles) store
                  (λ s. (ok (merged p old), s))
            | none ↦ create_profile saves new_id p store
          ]
        ]
