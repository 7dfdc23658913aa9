-- ===== src/Logs/Recent.antt =====
-- The buffer of the broker against a log without a bound.
use v2ray_e.Base.{
  ℕ, zero, suc, ◌-◌, ◌≤◌, ◌≡◌, ◌⊎◌, ◌∙◌, refl, sym, true, false, List, [], ◌∷◌, ◌++◌, arith, leb,
  Bool-cases, inl, inr, length, length-append, drop, length-drop,
}
use mathlib.Core.Path.{subst}
use v2ray_e.Logs.Line.{LogLine}
use v2ray_e.Logs.Broker.{
  Broker, Event, logged, subscribed, cleared, cancelled, acted, received, run, step, happen,
  step-dead, step-alive, log_buf_size, append_line, dispatch, subscribe, cancel, clear, act,
  new_log_broker,
}

-- The last elements of a list, at most so many.
unfoldable pub last {ℓ} : {A : Type ℓ} → ℕ → List A → List A
unfolding drop
last n xs = drop (length xs - n) xs

length-last {ℓ} : {A : Type ℓ} (n : ℕ) (xs : List A) → length (last n xs) ≤ n
unfolding last
length-last n xs = omega (arith, length-drop (length xs - n) xs)

drop-snoc {ℓ} :
    {A : Type ℓ} (n : ℕ) (xs : List A) (x : A)
    → n ≤ length xs
    → drop n (xs ++ x ∷ []) ≡ drop n xs ++ x ∷ []
unfolding drop
drop-snoc zero xs x h = refl
drop-snoc (suc n) [] x h = absurd (omega arith)
drop-snoc (suc n) (y ∷ xs) x h = drop-snoc n xs x (omega arith)

drop-one {ℓ} : {A : Type ℓ} (n : ℕ) (xs : List A) → drop 1 (drop n xs) ≡ drop (suc n) xs
unfolding drop
drop-one zero xs = refl
drop-one (suc n) [] = refl
drop-one (suc n) (y ∷ xs) = drop-one n xs

-- The log that forgets nothing, but at a clear.
abbrev remember : Event → List LogLine → List LogLine
remember (logged line) lines = lines ++ line ∷ []
remember cleared lines = []
remember subscribed lines = lines
remember (cancelled i) lines = lines
remember (acted n) lines = lines
remember (received i) lines = lines

unfoldable pub history : List Event → List LogLine → List LogLine
history [] lines = lines
history (e ∷ es) lines = history es (remember e lines)

append_line-last :
    (line : LogLine) (lines : List LogLine)
    → append_line line (last log_buf_size lines) ≡ last log_buf_size (lines ++ line ∷ [])
unfolding append_line last
append_line-last line lines = elim (Bool-cases (leb log_buf_size (length lines))) [
  | inl full ↦
      rw (kept full, drop-one (length lines - log_buf_size) lines, drop_count full)
        (sym (drop-snoc (suc (length lines - log_buf_size)) lines line (ground (arith, full))))
  | inr short ↦ rw (none_over short, none_over_yet short) (ground (arith, short))
]
  where
    kept :
        leb log_buf_size (length lines) ≡ true
        → leb log_buf_size (length (drop (length lines - log_buf_size) lines)) ≡ true
    kept full = ground (arith, full, length-drop (length lines - log_buf_size) lines)

    drop_count :
        leb log_buf_size (length lines) ≡ true
        → length (lines ++ line ∷ []) - log_buf_size ≡ suc (length lines - log_buf_size)
    drop_count full = ground (arith, full, length-append lines (line ∷ []))

    none_over : leb log_buf_size (length lines) ≡ false → length lines - log_buf_size ≡ 0
    none_over short = ground (arith, short)

    none_over_yet :
        leb log_buf_size (length lines) ≡ false → length (lines ++ line ∷ []) - log_buf_size ≡ 0
    none_over_yet short = ground (arith, short, length-append lines (line ∷ []))

abbrev Tracks : List LogLine → Broker → Type 0
Tracks lines b = (b.crashed ≡ true) ⊎ (b.buf ≡ last log_buf_size lines)

act-buf : (n : ℕ) (b : Broker) → (act n b).buf ≡ b.buf
unfolding act
act-buf n b = ground arith

happen-Tracks :
    (e : Event) (lines : List LogLine) (b : Broker)
    → b.buf ≡ last log_buf_size lines
    → (happen e b).buf ≡ last log_buf_size (remember e lines)
unfolding dispatch subscribe cancel clear last
happen-Tracks (logged line) lines b h = rw h (append_line-last line lines)
happen-Tracks subscribed lines b h = h
happen-Tracks cleared lines b h = refl
happen-Tracks (cancelled i) lines b h = ground (arith, h)
happen-Tracks (acted n) lines b h = act-buf n b ∙ h
happen-Tracks (received i) lines b h = h

step-Tracks :
    (e : Event) (lines : List LogLine) (b : Broker)
    → Tracks lines b
    → Tracks (remember e lines) (step e b)
step-Tracks e lines b (inl dead) =
    subst (λ t. Tracks (remember e lines) t) (sym (step-dead e b dead)) (inl dead)
step-Tracks e lines b (inr h) = elim (Bool-cases b.crashed) [
  | inl dead ↦ subst (λ t. Tracks (remember e lines) t) (sym (step-dead e b dead)) (inl dead)
  | inr alive ↦
      subst (λ t. Tracks (remember e lines) t) (sym (step-alive e b alive))
        (inr (happen-Tracks e lines b h))
]

run-Tracks :
    (es : List Event) (lines : List LogLine) (b : Broker)
    → Tracks lines b
    → Tracks (history es lines) (run es b)
unfolding run history
run-Tracks [] lines b h = h
run-Tracks (e ∷ es) lines b h =
    run-Tracks es (remember e lines) (step e b) (step-Tracks e lines b h)

-- After any interleaving of logged lines, subscriptions, cancellations, clears, sends and receives,
-- which did not end in a panic, the buffer holds the last 2000 lines of all that were logged since the
-- last clear, in their order, and no more than 2000 lines.
pub run-recent :
    (es : List Event)
    → (run es new_log_broker).crashed ≡ false
    → ((run es new_log_broker).buf ≡ last log_buf_size (history es []))
      × (length (run es new_log_broker).buf ≤ log_buf_size)
unfolding new_log_broker last drop
run-recent es alive = elim (run-Tracks es [] new_log_broker (inr new_Tracks)) [
  | inl dead ↦ cc (dead, alive)
  | inr h ↦ (h, rw h (length-last log_buf_size (history es [])))
]
  where
    new_Tracks : new_log_broker.buf ≡ last log_buf_size []
    new_Tracks = refl
