-- ===== src/Service/Store.antt =====
-- What the service keeps on disk, and the outcome of an operation. Each save may fail; a failed save
-- leaves what was saved before.
use v2ray_e.Base.{Bool, List, [], ◌∷◌, map, Option, none, some, if◌then◌else◌}
use v2ray_e.Base.Text.{Text, text_eq}
use v2ray_e.Domain.{ProfileItem, SubscriptionItem}

pub data ServiceError : Type 0 where
  invalid_mode not_found parse_failed fetch_failed profiles_not_saved state_not_saved
        subscriptions_not_saved :
      ServiceError

-- The calls that start the core again: `stopOrRestartCoreForSelectionChange` with the profile that is
-- selected next, and `restartCoreForRuntimeChange`.
pub data CoreCall : Type 0 where
  selection_changed : Text → CoreCall
  runtime_changed : CoreCall

pub record Store : Type 0 where
  pub profiles : List ProfileItem
  pub subscriptions : List SubscriptionItem
  pub current_profile_id : Text
  pub core_calls : List CoreCall

-- Which saves of the operation succeed.
pub record Saves : Type 0 where
  pub profiles_saved : Bool
  pub state_saved : Bool
  pub subscriptions_saved : Bool

pub data Result (A : Type 0) : Type 0 where
  ok : A → Result A
  err : ServiceError → Result A

-- The result with the store behind the operation.
abbrev pub Run : Type 0 → Type 0
Run A = Result A × Store

-- `s.store.SaveProfiles`, and what follows where it succeeds.
unfoldable pub save_profiles :
    {A : Type 0} → Saves → List ProfileItem → Store → (Store → Run A) → Run A
save_profiles saves ps store next =
    let saved = next (record store { profiles = ps }) in
    if saves.profiles_saved then saved else (err profiles_not_saved, store)

unfoldable pub save_state : {A : Type 0} → Saves → Text → Store → (Store → Run A) → Run A
save_state saves id store next =
    let saved = next (record store { current_profile_id = id }) in
    if saves.state_saved then saved else (err state_not_saved, store)

unfoldable pub save_subscriptions :
    {A : Type 0} → Saves → List SubscriptionItem → Store → (Store → Run A) → Run A
save_subscriptions saves subs store next =
    let saved = next (record store { subscriptions = subs }) in
    if saves.subscriptions_saved then saved else (err subscriptions_not_saved, store)

-- The first profile with an identifier.
unfoldable pub find_profile : Text → List ProfileItem → Option ProfileItem
find_profile id [] = none
find_profile id (p ∷ ps) =
    let later = find_profile id ps in if text_eq p.id id then some p else later

abbrev pub ids_of : List ProfileItem → List Text
ids_of ps = map (λ p. p.id) ps
