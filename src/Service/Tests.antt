-- ===== src/Service/Tests.antt =====
-- Runs of the theorems on the service's state at small inputs.
use v2ray_e.Base.{ℕ, ◌*◌, ◌≡◌, arith, refl, true, false, [], ◌∷◌, Option, none, some}
use v2ray_e.Base.Int.{pos}
use v2ray_e.Base.Text.{Text, txt, text_eq}
use v2ray_e.Domain.{ProfileItem, SubscriptionItem, empty_profile, trojan}
use v2ray_e.Sub.Uri.{Decoders}
use v2ray_e.Service.Store.{Store, Saves, ok, ids_of}
use v2ray_e.Service.Profiles.{delete_profiles, select_profile, pick_selected_profile}
use v2ray_e.Service.Profiles.Selection.{selection_is_valid}
use v2ray_e.Service.Import.{dedupe_imported}
use v2ray_e.Service.Steps.{
  delete, select, none_yet, more, Steps-selection, pick_selected_profile-selected,
}
use v2ray_e.Service.Subscriptions.{
  update_subscription_by_id, delete_subscription, profiles_of_others,
}
use v2ray_e.Service.Subscriptions.Replaced.{fetched, delete_subscription-dangles}
use v2ray_e.Service.Import.Dedupe.{keys, dedupe_imported-Distinct}
use v2ray_e.Service.AutoUpdate.{Attempts, Clock, Tick, minute, run_due, run_ticks}
use v2ray_e.Service.AutoUpdate.Backoff.{run_ticks-run_due}
use v2ray_e.Tun.Bypass.{mem}
use v2ray_e.Tun.Bypass.Exact.{Distinct}

abbrev first : ProfileItem
first = record empty_profile {
  id = txt "p1";
  name = txt "one";
  protocol = trojan;
  sub_id = txt "s1";
}

abbrev second : ProfileItem
second = record empty_profile { id = txt "p2"; name = txt "two"; protocol = trojan }

abbrev mine : SubscriptionItem
mine = record {
  id = txt "s1";
  remarks = txt "mine";
  url = txt "https://example.org/list";
  enabled = true;
  user_agent = [];
  filter = [];
  convert_target = [];
  auto_update_minutes = pos 0;
  updated_at = [];
  profile_count = 0;
}

abbrev filled : Store
filled = record {
  profiles = first ∷ second ∷ [];
  subscriptions = mine ∷ [];
  current_profile_id = txt "p1";
  core_calls = [];
}

abbrev all_saved : Saves
all_saved = record { profiles_saved = true; state_saved = true; subscriptions_saved = true }

-- A server behind every URL, and the text of a subscription with one line.
abbrev one_server : Decoders
one_server = record {
  base64 = λ e s. none;
  unmarshal = λ s. none;
  Url = Unit;
  parse_url = λ s. some tt;
  has_user = λ u. true;
  user_string = λ u. txt "secret";
  username = λ u. txt "secret";
  password = λ u. [];
  host = λ u. txt "example.org:443";
  hostname = λ u. txt "example.org";
  port_text = λ u. txt "443";
  fragment = λ u. [];
  query_get = λ u key. [];
  query_unescape = λ s. s;
}

abbrev by_name : ProfileItem → Option Text
by_name p = some p.name

filled-selection : selection_is_valid filled ≡ true
unfolding selection_is_valid mem text_eq
filled-selection = refl

abbrev after_selection : Store
after_selection = (select_profile all_saved (txt "p2") filled).1

abbrev after_deletion : Store
after_deletion = (delete_profiles all_saved (txt "p2" ∷ []) after_selection).1

Steps-selection_example : selection_is_valid after_deletion ≡ true
Steps-selection_example =
    Steps-selection by_name one_server filled after_deletion
      (more after_selection after_deletion
        (more filled after_selection none_yet (select all_saved (txt "p2")))
        (delete all_saved (txt "p2" ∷ []) refl))
      filled-selection

pick_selected_profile-selected_example :
    (p : ProfileItem) × (pick_selected_profile (txt "p1") (first ∷ second ∷ []) ≡ some p)
    × (p.id ≡ txt "p1")
pick_selected_profile-selected_example =
    pick_selected_profile-selected filled filled-selection (λ e. cc)

abbrev scheme : Unit {0} → Text
scheme u = txt "https"

abbrev download : Text → Text → Option Text
download url agent = some (txt "trojan://secret@example.org:443")

abbrev ids : ℕ → Text
ids i = txt "p3"

abbrev updated : Store
updated =
    (update_subscription_by_id by_name (fetched one_server scheme download ids) all_saved []
      (txt "s1") filled).1

abbrev deleted : Store
deleted = (delete_subscription all_saved (txt "s1") filled).1

filled-deletes : (delete_subscription all_saved (txt "s1") filled).0 ≡ ok tt
unfolding delete_subscription text_eq
filled-deletes = refl

first_left_out :
    mem (txt "p1") (ids_of (profiles_of_others (txt "s1") (first ∷ second ∷ []))) ≡ false
unfolding mem text_eq profiles_of_others
first_left_out = refl

delete_subscription-dangles_example : selection_is_valid deleted ≡ false
delete_subscription-dangles_example =
    delete_subscription-dangles all_saved (txt "s1") filled filled-deletes (λ e. cc) first_left_out

dedupe_imported-Distinct_example :
    Distinct (keys by_name (dedupe_imported by_name (first ∷ second ∷ first ∷ [])))
dedupe_imported-Distinct_example = dedupe_imported-Distinct by_name (first ∷ second ∷ first ∷ [])

-- A subscription that was never updated, at two wake-ups a minute apart.
abbrev no_clock : Clock
no_clock = record { parse_time = λ t. none; format_time = λ n. [] }

abbrev no_attempts : Attempts
no_attempts = record { in_memory = λ id. none; saved = λ id. none }

abbrev wake_up : ℕ → Tick
wake_up n = record {
  now = n * minute;
  subs = record mine { auto_update_minutes = pos 30 } ∷ [];
  state_saved = false;
}

run_ticks-run_due_example :
    mem (txt "s1") (
      run_ticks no_clock
        (wake_up 6 ∷ [])
        ((run_due no_clock false (5 * minute) ((wake_up 5).subs) no_attempts).1))
    ≡ false
unfolding run_due mem
run_ticks-run_due_example =
    run_ticks-run_due no_clock (txt "s1") (wake_up 5) no_attempts (wake_up 6 ∷ []) refl
      (omega arith, tt)
