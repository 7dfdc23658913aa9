-- ===== src/Service/AutoUpdate/Backoff.antt =====
-- No subscription is asked again too early.
use v2ray_e.Base.{
  ℕ, ◌+◌, ◌*◌, ◌<◌, ◌≡◌, ◌≢◌, ◌∙◌, refl, ap, Bool, true, false, List, [], ◌∷◌, Option, some, arith,
  Bool-cases, Option-cases, inl, inr, if◌then◌else◌, All,
}
use v2ray_e.Base.Text.{Text, text_eq, text_eq_iff, text_eq_refl}
use v2ray_e.Domain.{SubscriptionItem}
use v2ray_e.Tun.Bypass.{mem}
use v2ray_e.Tun.Bypass.Exact.{mem-append}
use v2ray_e.Service.AutoUpdate.{
  Attempts, Clock, set_entry, has_passed, minute, last_attempt, mark_attempt, backs_off, run_due,
  Tick, run_ticks,
}

if-elim :
    (P : List Text × Attempts → Type 0) (b : Bool) (x y : List Text × Attempts)
    → P x
    → (b ≡ false → P y)
    → P (if b then x else y)
if-elim P true x y p q = p
if-elim P false x y p q = q refl

set_entry-other :
    (key k : Text) (t : ℕ) (m : Text → Option ℕ) → text_eq k key ≡ false → set_entry key t m k ≡ m k
unfolding set_entry
set_entry-other key k t m h = rw (h, set_entry) refl

set_entry-kept :
    (key k : Text) (t : ℕ) (m : Text → Option ℕ) → m k ≡ some t → set_entry key t m k ≡ some t
unfolding set_entry
set_entry-kept key k t m h = elim (Bool-cases (text_eq k key)) [
  | inl same ↦ rw (same, set_entry) refl
  | inr differs ↦ set_entry-other key k t m differs ∙ h
]

set_entry-same : (key : Text) (t : ℕ) (m : Text → Option ℕ) → set_entry key t m key ≡ some t
unfolding set_entry
set_entry-same key t m = rw (text_eq_refl key, set_entry) refl

module _ (clock : Clock) where
  found-last_attempt :
      (id : Text) (t : ℕ) (a : Attempts)
      → a.in_memory id ≡ some t
      → last_attempt clock id a ≡ (some t, a)
  unfolding last_attempt
  found-last_attempt id t a h = rw (h, last_attempt) refl

  -- What is in memory stays in memory through the search for a last attempt.
  in_memory-last_attempt :
      (id k : Text) (t : ℕ) (a : Attempts)
      → a.in_memory k ≡ some t
      → (last_attempt clock id a).1.in_memory k ≡ some t
  unfolding last_attempt
  in_memory-last_attempt id k t a h = elim (Option-cases (a.in_memory id)) [
    | inr (s, e) ↦ rw (e, last_attempt) h
    | inl missing ↦ elim (Option-cases (a.saved id)) [
      | inl unsaved ↦ rw (missing, unsaved, last_attempt) h
      | inr (raw, e) ↦ elim (Option-cases (clock.parse_time raw)) [
        | inl broken ↦ rw (missing, e, broken, last_attempt) h
        | inr (s, f) ↦
            rw (missing, e, f, last_attempt)
              (set_entry-other id k s a.in_memory
                  (other (λ same. cc (missing, h, ap a.in_memory same)))
                ∙ h)
      ]
    ]
  ]
    where
      other : k ≢ id → text_eq k id ≡ false
      other differs = elim (Bool-cases (text_eq k id)) [
        | inl same ↦ elim (differs ((text_eq_iff k id).0 same)) [ ]
        | inr unequal ↦ unequal
      ]

  module _ (state_saved : Bool) where
    -- What holds of each way on from one subscription holds of the loop.
    run_due-step :
        (P : List Text × Attempts → Type 0) (now : ℕ) (sub : SubscriptionItem)
        (subs : List SubscriptionItem) (a : Attempts)
        → P (run_due clock state_saved now subs a)
        → P (run_due clock state_saved now subs ((last_attempt clock sub.id a).1))
        → (backs_off now ((last_attempt clock sub.id a).0) ≡ false
            → P (
              sub.id
                  ∷ (run_due clock state_saved now subs (
                      mark_attempt clock state_saved sub.id now
                        ((last_attempt clock sub.id a).1))).0,
              (run_due clock state_saved now subs
                  (mark_attempt clock state_saved sub.id now ((last_attempt clock sub.id a).1))).1,
            ))
        → P (run_due clock state_saved now (sub ∷ subs) a)
    unfolding run_due
    run_due-step P now sub subs a p q r = if-elim P _ _ _ p (λ h. if-elim P _ _ _ q r)

  -- A subscription that is asked is another than one with a fresh attempt.
  asked-differs :
      (id k : Text) (t now : ℕ) (a : Attempts)
      → backs_off now (some t) ≡ true
      → a.in_memory id ≡ some t
      → backs_off now ((last_attempt clock k a).0) ≡ false
      → text_eq id k ≡ false
  asked-differs id k t now a fresh h asked = elim (Bool-cases (text_eq id k)) [
    | inr differs ↦ differs
    | inl same ↦ cc (
      fresh,
      asked,
      ap (λ i. backs_off now ((last_attempt clock i a).0)) ((text_eq_iff id k).0 same),
      ap (λ r. backs_off now (r.0)) (found-last_attempt id t a h),
    )
  ]

  module _ (state_saved : Bool) where
    -- A fresh attempt keeps the subscription from being asked, and stays.
    run_due-fresh :
        (id : Text) (t now : ℕ) (subs : List SubscriptionItem) (a : Attempts)
        → backs_off now (some t) ≡ true
        → a.in_memory id ≡ some t
        → (mem id ((run_due clock state_saved now subs a).0) ≡ false)
          × ((run_due clock state_saved now subs a).1.in_memory id ≡ some t)
    unfolding run_due mem
    run_due-fresh id t now [] a f h = (refl, h)
    run_due-fresh id t now (sub ∷ subs) a f h =
        let stays = in_memory-last_attempt sub.id id t a h in
        run_due-step state_saved (λ r. (mem id r.0 ≡ false) × (r.1.in_memory id ≡ some t)) now sub
          subs a (run_due-fresh id t now subs a f h) (run_due-fresh id t now subs _ f stays)
          (λ asked.
            let differs = asked-differs id sub.id t now a f h asked in
            let ih =
              run_due-fresh id t now subs
                (mark_attempt clock state_saved sub.id now ((last_attempt clock sub.id a).1)) f
                (set_entry-other sub.id id now ((last_attempt clock sub.id a).1.in_memory) differs
                  ∙ stays) in
            (rw differs (ih.0), ih.1))

    -- An attempt of this run stays.
    run_due-kept :
        (id : Text) (now : ℕ) (subs : List SubscriptionItem) (a : Attempts)
        → a.in_memory id ≡ some now
        → (run_due clock state_saved now subs a).1.in_memory id ≡ some now
    unfolding run_due
    run_due-kept id now [] a h = h
    run_due-kept id now (sub ∷ subs) a h =
        let stays = in_memory-last_attempt sub.id id now a h in
        run_due-step state_saved (λ r. r.1.in_memory id ≡ some now) now sub subs a
          (run_due-kept id now subs a h) (run_due-kept id now subs _ stays)
          (λ asked.
            run_due-kept id now subs
              (mark_attempt clock state_saved sub.id now ((last_attempt clock sub.id a).1))
              (set_entry-kept sub.id id now ((last_attempt clock sub.id a).1.in_memory) stays))

    run_due-marks :
        (id : Text) (now : ℕ) (subs : List SubscriptionItem) (a : Attempts)
        → mem id ((run_due clock state_saved now subs a).0) ≡ true
        → (run_due clock state_saved now subs a).1.in_memory id ≡ some now
    unfolding run_due mem
    run_due-marks id now [] a = λ h. cc h
    run_due-marks id now (sub ∷ subs) a =
        run_due-step state_saved (λ r. mem id r.0 ≡ true → r.1.in_memory id ≡ some now) now sub subs
          a (run_due-marks id now subs a) (run_due-marks id now subs _)
          (λ asked h.
            let b = mark_attempt clock state_saved sub.id now ((last_attempt clock sub.id a).1) in
            elim (Bool-cases (text_eq id sub.id)) [
              | inl same ↦ run_due-kept id now subs b (
                  ap b.in_memory ((text_eq_iff id sub.id).0 same)
                  ∙ set_entry-same sub.id now ((last_attempt clock sub.id a).1.in_memory))
              | inr differs ↦ run_due-marks id now subs b (ground (arith, h, differs))
            ])

-- Less than ten minutes have gone by.
backs_off-early : (now t : ℕ) → now < t + 10 * minute → backs_off now (some t) ≡ true
unfolding backs_off has_passed
backs_off-early now t h = ground (arith, h)

run_ticks-fresh :
    (clock : Clock) (id : Text) (t : ℕ) (ticks : List Tick) (a : Attempts)
    → All (λ tick. tick.now < t + 10 * minute) ticks
    → a.in_memory id ≡ some t
    → mem id (run_ticks clock ticks a) ≡ false
unfolding run_ticks mem
run_ticks-fresh clock id t [] a e h = refl
run_ticks-fresh clock id t (tick ∷ ticks) a (early, e) h =
    let r =
      run_due-fresh clock tick.state_saved id t tick.now tick.subs a
        (backs_off-early tick.now t early) h in
    mem-append id ((run_due clock tick.state_saved tick.now tick.subs a).0)
      (run_ticks clock ticks ((run_due clock tick.state_saved tick.now tick.subs a).1))
    ∙ rw (r.0) (
        run_ticks-fresh clock id t ticks ((run_due clock tick.state_saved tick.now tick.subs a).1) e
          (r.1))

-- A subscription that was asked in one run is not asked again by the runs that follow it within ten minutes, however often
-- the service wakes up, whatever the subscriptions are by then, and whether or not the state can be saved.
pub run_ticks-run_due :
    (clock : Clock) (id : Text) (first : Tick) (a : Attempts) (ticks : List Tick)
    → mem id ((run_due clock first.state_saved first.now first.subs a).0) ≡ true
    → All (λ tick. tick.now < first.now + 10 * minute) ticks
    → mem id (run_ticks clock ticks ((run_due clock first.state_saved first.now first.subs a).1))
      ≡ false
run_ticks-run_due clock id first a ticks asked early =
    run_ticks-fresh clock id first.now ticks _ early
      (run_due-marks clock first.state_saved id first.now first.subs a asked)
