-- ===== src/Service/Subscriptions.antt =====
-- The operations on subscriptions, native/service.go 703–852. The times that are written are an
-- argument, and so is what `ParseSubscriptionURL` gives, which reads from the network.
pub mod Kept
pub mod Replaced
use v2ray_e.Base.{
  ℕ, zero, suc, ◌+◌, ◌-◌, ◌*◌, ◌/◌, ◌%◌, ◌^◌, ◌<◌, ◌≤◌, ◌≡◌, ◌≢◌, ◌↔◌, ◌⊎◌, ◌∙◌, refl, sym, ap,
  Bool, true, false, not, ◌&&◌, ◌||◌, List, [], ◌∷◌, ◌++◌, map, Option, none, some, String, arith,
  ltb, leb, ◌==◌, ==_iff, ltb→lt, leb→le, Bool-cases, Option-cases, inl, inr, if◌then◌else◌, length,
  length-append, take, drop, take-append-drop, length-take, length-drop, take-append, drop-append,
  All, All-append, All-take, All-drop,
}
use v2ray_e.Base.Text.{Text, text_eq, trim_space}
use v2ray_e.Domain.{ProfileItem, SubscriptionItem, SubscriptionUpsertRequest}
use v2ray_e.Service.Store.{
  Store, Saves, Run, Result, ok, err, invalid_mode, not_found, fetch_failed, save_profiles,
  save_subscriptions,
}
use v2ray_e.Service.Import.{dedupe_imported}

unfoldable pub count_of : Text → List ProfileItem → ℕ
count_of id [] = 0
count_of id (p ∷ ps) =
    let rest = count_of id ps in
    if not (text_eq p.sub_id []) && text_eq p.sub_id id then suc rest else rest

unfoldable pub with_count : List ProfileItem → SubscriptionItem → SubscriptionItem
unfolding count_of
with_count ps sub = record sub { profile_count = count_of sub.id ps }

-- `ListSubscriptions`
unfoldable pub list_subscriptions : Store → List SubscriptionItem
unfolding with_count
list_subscriptions store = map (with_count store.profiles) store.subscriptions

abbrev lacks_source : SubscriptionUpsertRequest → Bool
lacks_source input = text_eq (trim_space input.remarks) [] || text_eq (trim_space input.url) []

-- What a request writes into a subscription.
unfoldable pub applied : SubscriptionUpsertRequest → Text → SubscriptionItem → SubscriptionItem
applied input now sub = record sub {
  remarks = trim_space input.remarks;
  url = trim_space input.url;
  enabled = input.enabled;
  user_agent = trim_space input.user_agent;
  filter = trim_space input.filter;
  convert_target = trim_space input.convert_target;
  auto_update_minutes = input.auto_update_minutes;
  updated_at = now;
}

-- `CreateSubscription`
unfoldable pub create_subscription :
    Saves → Text → Text → SubscriptionUpsertRequest → Store → Run SubscriptionItem
unfolding save_subscriptions
create_subscription saves new_id now input store =
    let item : SubscriptionItem = record {
      id = new_id;
      remarks = trim_space input.remarks;
      url = trim_space input.url;
      enabled = input.enabled;
      user_agent = trim_space input.user_agent;
      filter = trim_space input.filter;
      convert_target = trim_space input.convert_target;
      auto_update_minutes = input.auto_update_minutes;
      updated_at = now;
      profile_count = 0;
    } in
    if lacks_source input
    then (err invalid_mode, store)
    else save_subscriptions saves (store.subscriptions ++ item ∷ []) store (λ s. (ok item, s))

-- The first subscription with an identifier, changed, and the list with it.
unfoldable pub change_subscription :
    Text
    → (SubscriptionItem → SubscriptionItem)
    → List SubscriptionItem
    → Option (SubscriptionItem × List SubscriptionItem)
change_subscription id f [] = none
change_subscription id f (sub ∷ subs) =
    let later = change_subscription id f subs in
    if text_eq sub.id id
    then some (f sub, f sub ∷ subs)
    else elim later [ none ↦ none | some (x, rest) ↦ some (x, sub ∷ rest) ]

-- `UpdateSubscription`
unfoldable pub update_subscription :
    Saves → Text → Text → SubscriptionUpsertRequest → Store → Run SubscriptionItem
unfolding applied change_subscription save_subscriptions
update_subscription saves id now input store =
    let run : Run SubscriptionItem =
      elim (change_subscription id (applied input now) store.subscriptions) [
        | none ↦ (err not_found, store)
        | some (item, subs) ↦ save_subscriptions saves subs store (λ s. (ok item, s))
      ] in
    if lacks_source input then (err invalid_mode, store) else run

unfoldable pub without_subscription : Text → List SubscriptionItem → List SubscriptionItem
without_subscription id [] = []
without_subscription id (sub ∷ subs) =
    let rest = without_subscription id subs in if text_eq sub.id id then rest else sub ∷ rest

unfoldable pub find_subscription : Text → List SubscriptionItem → Option SubscriptionItem
find_subscription id [] = none
find_subscription id (sub ∷ subs) =
    let later = find_subscription id subs in if text_eq sub.id id then some sub else later

-- The profiles of other subscriptions, and of none.
unfoldable pub profiles_of_others : Text → List ProfileItem → List ProfileItem
profiles_of_others id [] = []
profiles_of_others id (p ∷ ps) =
    let rest = profiles_of_others id ps in if text_eq p.sub_id id then rest else p ∷ rest

-- `DeleteSubscription`
unfoldable pub delete_subscription : Saves → Text → Store → Run Unit
unfolding find_subscription without_subscription profiles_of_others save_subscriptions save_profiles
delete_subscription saves id store = elim (find_subscription id store.subscriptions) [
  | none ↦ (err not_found, store)
  | some sub ↦
      save_subscriptions saves (without_subscription id store.subscriptions) store
        (λ s. save_profiles saves (profiles_of_others id s.profiles) s (λ t. (ok tt, t)))
]

-- The time of the update is written into each subscription with the identifier.
unfoldable pub touched : Text → Text → SubscriptionItem → SubscriptionItem
touched id now sub = if text_eq sub.id id then record sub { updated_at = now } else sub

module _ (marshal : ProfileItem → Option Text) where
  -- `UpdateSubscriptionByID`
  unfoldable pub update_subscription_by_id :
      (SubscriptionItem → Option (List ProfileItem)) → Saves → Text → Text → Store → Run Unit
  unfolding find_subscription dedupe_imported profiles_of_others touched save_profiles
      save_subscriptions
  update_subscription_by_id fetch saves now id store =
      elim (find_subscription id store.subscriptions) [
        | none ↦ (err not_found, store)
        | some sub ↦ elim (fetch sub) [
          | none ↦ (err fetch_failed, store)
          | some ps ↦
              save_profiles saves
                (profiles_of_others id store.profiles ++ dedupe_imported marshal ps) store
                (λ s.
                  save_subscriptions saves (map (touched id now) store.subscriptions) s
                    (λ t. (ok tt, t)))
        ]
      ]

  abbrev counted : Result Unit → ℕ
  counted (ok x) = 1
  counted (err e) = 0

  -- The loop of `UpdateSubscriptions`, over the subscriptions as they stood at its start.
  unfoldable pub update_enabled :
      (SubscriptionItem → Option (List ProfileItem))
      → Saves
      → Text
      → List SubscriptionItem
      → ℕ
      → Store
      → ℕ × Store
  unfolding update_subscription_by_id
  update_enabled fetch saves now [] updated store = (updated, store)
  update_enabled fetch saves now (sub ∷ subs) updated store =
      let run = update_subscription_by_id fetch saves now sub.id store in
      let skipped = update_enabled fetch saves now subs updated store in
      let done = update_enabled fetch saves now subs (updated + counted (run.0)) (run.1) in
      if not sub.enabled then skipped else done

  -- `UpdateSubscriptions`
  unfoldable pub update_subscriptions :
      (SubscriptionItem → Option (List ProfileItem)) → Saves → Text → Store → ℕ × Store
  unfolding update_enabled
  update_subscriptions fetch saves now store =
      update_enabled fetch saves now store.subscriptions 0 store
