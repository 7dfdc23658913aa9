-- ===== src/Service/Subscriptions/Replaced.antt =====
-- What an update and a deletion of a subscription leave of the profiles.
use v2ray_e.Base.{ℕ, ◌≡◌, ◌≢◌, false, List, [], Option, some, arith, Option-cases, inl, inr}
use v2ray_e.Base.Text.{Text, text_eq_iff}
use v2ray_e.Domain.{ProfileItem, SubscriptionItem}
use v2ray_e.Sub.Uri.{Decoders}
use v2ray_e.Sub.Content.{parse_subscription_url}
use v2ray_e.Service.Store.{Store, Saves, ok, ids_of, save_profiles, save_subscriptions}
use v2ray_e.Service.Profiles.Selection.{selection_is_valid}
use v2ray_e.Service.Subscriptions.{
  delete_subscription, find_subscription, profiles_of_others, without_subscription,
}
use v2ray_e.Tun.Bypass.{mem}

module _ (d : Decoders) (scheme : d.Url → Text) (download : Text → Text → Option Text)
    (ids : ℕ → Text) where
  -- What the update reads from the network.
  unfoldable pub fetched : SubscriptionItem → Option (List ProfileItem)
  fetched sub =
      parse_subscription_url d scheme download ids sub.url sub.user_agent sub.id sub.remarks

deleted :
    (saves : Saves) (id : Text) (s : Store) (sub : SubscriptionItem)
    → find_subscription id s.subscriptions ≡ some sub
    → (delete_subscription saves id s).0 ≡ ok tt
    → ((delete_subscription saves id s).1.profiles ≡ profiles_of_others id s.profiles)
      × ((delete_subscription saves id s).1.subscriptions ≡ without_subscription id s.subscriptions)
unfolding delete_subscription save_profiles save_subscriptions
deleted saves id s sub e h = (ground (arith, e, h), ground (arith, e, h))

-- Where something is selected, and every profile with the selected identifier belongs to a subscription,
-- a deletion of the subscription that succeeds leaves a selection that is none of the profiles.
pub delete_subscription-dangles :
    (saves : Saves) (id : Text) (s : Store)
    → (delete_subscription saves id s).0 ≡ ok tt
    → s.current_profile_id ≢ []
    → mem s.current_profile_id (ids_of (profiles_of_others id s.profiles)) ≡ false
    → selection_is_valid ((delete_subscription saves id s).1) ≡ false
unfolding delete_subscription save_profiles save_subscriptions selection_is_valid
delete_subscription-dangles saves id s h ne out =
    elim (Option-cases (find_subscription id s.subscriptions)) [
      | inl missing ↦ cc (rw (missing, delete_subscription) at h)
      | inr (sub, e) ↦
          let (same, gone) = deleted saves id s sub e h in
          ground (arith, same, e, h, ne, out, text_eq_iff s.current_profile_id [])
    ]
