-- ===== src/Service/AutoUpdate.antt =====
-- The automatic update of subscriptions, with its back-off (service.go). Times are nanoseconds.
pub mod Backoff
use v2ray_e.Base.{
  ℕ, zero, suc, ◌+◌, ◌-◌, ◌*◌, ◌/◌, ◌%◌, ◌^◌, ◌<◌, ◌≤◌, ◌≡◌, ◌≢◌, ◌↔◌, ◌⊎◌, ◌∙◌, refl, sym, ap,
  Bool, true, false, not, ◌&&◌, ◌||◌, List, [], ◌∷◌, ◌++◌, map, Option, none, some, String, arith,
  ltb, leb, ◌==◌, ==_iff, ltb→lt, leb→le, Bool-cases, Option-cases, inl, inr, if◌then◌else◌, length,
  length-append, take, drop, take-append-drop, length-take, length-drop, take-append, drop-append,
  All, All-append, All-take, All-drop,
}
use v2ray_e.Base.Int.{ℤ, pos, negsuc}
use v2ray_e.Base.Text.{Text, text_eq}
use v2ray_e.Domain.{SubscriptionItem}

-- The attempts in memory, and those that are saved as texts.
pub record Attempts : Type 0 where
  pub in_memory : Text → Option ℕ
  pub saved : Text → Option Text

-- `time.Parse` and `Format` for RFC 3339.
pub record Clock : Type 0 where
  pub parse_time : Text → Option ℕ
  pub format_time : ℕ → Text

-- `m[key] = value`
unfoldable pub set_entry : {A : Type 0} → Text → A → (Text → Option A) → Text → Option A
unfolding text_eq
set_entry key value m = λ k. if text_eq k key then some value else m k

-- A product in 64 bits, as Go's `Duration`.
abbrev pub minute : ℕ
minute = 60000000000

unfoldable pub minutes : ℕ → ℤ
minutes n =
    let wrapped = n * minute % 2 ^ 64 in
    if ltb wrapped (2 ^ 63) then pos wrapped else negsuc (2 ^ 64 - 1 - wrapped)

-- Whether so much time has gone by since a time: `now.Sub(t) >= d`. The difference is capped.
unfoldable pub has_passed : ℕ → ℕ → ℤ → Bool
has_passed now t (negsuc d) = leb t now || leb (t - now) (suc d) || leb (2 ^ 63) (suc d)
has_passed now t (pos d) =
    if leb t now
    then (if leb (2 ^ 63) (now - t) then leb d (2 ^ 63 - 1) else leb d (now - t))
    else false

-- Ten minutes have not gone by since the last attempt.
unfoldable pub backs_off : ℕ → Option ℕ → Bool
unfolding has_passed
backs_off now none = false
backs_off now (some t) = not (has_passed now t (pos (10 * minute)))

module _ (clock : Clock) where
  unfoldable pub is_due : ℕ → SubscriptionItem → Bool
  unfolding minutes has_passed
  is_due now sub = elim sub.auto_update_minutes [
    | negsuc n ↦ false
    | pos zero ↦ false
    | pos (suc n) ↦
        if sub.enabled
        then elim (clock.parse_time sub.updated_at) [
          | none ↦ true
          | some t ↦ has_passed now t (minutes (suc n))
        ]
        else false
  ]

  -- `lastAutoUpdateAttempt`: a time that is saved is kept in memory.
  unfoldable pub last_attempt : Text → Attempts → Option ℕ × Attempts
  unfolding set_entry
  last_attempt id a = elim (a.in_memory id) as (λ _. Option ℕ × Attempts) [
    | some t ↦ (some t, a)
    | none ↦ elim (a.saved id) as (λ _. Option ℕ × Attempts) [
      | none ↦ (none, a)
      | some raw ↦ elim (clock.parse_time raw) as (λ _. Option ℕ × Attempts) [
        | none ↦ (none, a)
        | some t ↦ (some t, record a { in_memory = set_entry id t a.in_memory })
      ]
    ]
  ]

  -- `markAutoUpdateAttempt`
  unfoldable pub mark_attempt : Bool → Text → ℕ → Attempts → Attempts
  unfolding set_entry
  mark_attempt state_saved id now a = record {
    in_memory = set_entry id now a.in_memory;
    saved = if state_saved then set_entry id (clock.format_time now) a.saved else a.saved;
  }

  -- The loop of `runDueAutoUpdates`, over the subscriptions as they stood at its start, with the identifiers
  -- for which `UpdateSubscriptionByID` is called.
  unfoldable pub run_due : Bool → ℕ → List SubscriptionItem → Attempts → List Text × Attempts
  unfolding is_due last_attempt backs_off mark_attempt
  run_due state_saved now [] a = ([], a)
  run_due state_saved now (sub ∷ subs) a =
      let skipped = run_due state_saved now subs a in
      let (last, b) = last_attempt sub.id a in
      let early = run_due state_saved now subs b in
      let (ids, c) = run_due state_saved now subs (mark_attempt state_saved sub.id now b) in
      if not (is_due now sub)
      then skipped
      else if backs_off now last
      then early
      else (sub.id ∷ ids, c)

-- One wake-up of the loop: the time, the subscriptions as they stand, and whether the state can be saved.
pub record Tick : Type 0 where
  pub now : ℕ
  pub subs : List SubscriptionItem
  pub state_saved : Bool

-- The loop, with all identifiers that are asked, in turn.
unfoldable pub run_ticks : Clock → List Tick → Attempts → List Text
unfolding run_due
run_ticks clock [] a = []
run_ticks clock (tick ∷ ticks) a =
    let (ids, b) = run_due clock tick.state_saved tick.now tick.subs a in
    ids ++ run_ticks clock ticks b
