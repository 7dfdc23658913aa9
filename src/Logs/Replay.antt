-- ===== src/Logs/Replay.antt =====
-- What a new subscriber finds that has not read yet.
use mathlib.Core.Path.{subst}
use v2ray_e.Base.{
  ℕ, zero, suc, ◌≤◌, ◌≡◌, ◌∙◌, refl, sym, ap, false, List, [], ◌∷◌, ◌++◌, arith, ltb, Bool-cases,
  inl, inr, if◌then◌else◌, length, length-append, take, take-append,
}
use v2ray_e.Logs.Line.{LogLine}
use v2ray_e.Logs.Broker.{
  Broker, Channel, Action, Event, subscribed, acted, run, step, subscribe, act, next_action,
  perform, send_lines, at_open, channel_size, step-alive,
}

-- As many actions of the newest goroutine as there are lines.
unfoldable pub acts : List LogLine → List Event
acts [] = []
acts (line ∷ lines) = acted 0 ∷ acts lines

abbrev pub open_channel : ℕ → List LogLine → Channel
open_channel i queue = record { id = i; queue = queue; closed = false }

abbrev with_line : LogLine → List LogLine → List LogLine
with_line line q = if ltb (length q) channel_size then q ++ line ∷ [] else q

take-full : (q rest : List LogLine) → length q ≡ channel_size → take channel_size (q ++ rest) ≡ q
take-full q rest h = subst (λ n. take n (q ++ rest) ≡ q) h (take-append q rest)

append-one :
    (q lines : List LogLine) (line : LogLine) → (q ++ line ∷ []) ++ lines ≡ q ++ line ∷ lines
append-one [] lines line = refl
append-one (l ∷ q) lines line = ap (λ t. l ∷ t) (append-one q lines line)

take-with_line :
    (q lines : List LogLine) (line : LogLine)
    → length q ≤ channel_size
    → take channel_size (with_line line q ++ lines) ≡ take channel_size (q ++ line ∷ lines)
take-with_line q lines line h = elim (Bool-cases (ltb (length q) channel_size)) [
  | inl room ↦ rw room (ap (λ t. take channel_size t) (append-one q lines line))
  | inr full ↦
      rw full (take-full q lines (exact full) ∙ sym (take-full q (line ∷ lines) (exact full)))
]
  where
    exact : ltb (length q) channel_size ≡ false → length q ≡ channel_size
    exact full = ground (arith, full, h)

length-with_line :
    (q : List LogLine) (line : LogLine)
    → length q ≤ channel_size
    → length (with_line line q) ≤ channel_size
length-with_line q line h = ground (arith, h, length-append q (line ∷ []))

take-all : (q : List LogLine) (n : ℕ) → length q ≤ n → q ≡ take n (q ++ [])
unfolding take
take-all [] zero h = refl
take-all [] (suc n) h = refl
take-all (l ∷ q) zero h = absurd (omega (arith, h))
take-all (l ∷ q) (suc n) h = ap (λ t. l ∷ t) (take-all q n (omega (arith, h)))

-- The state in front of a replay: nothing has crashed, the newest channel holds q, and its goroutine has the
-- lines still to send.
record Replays (i : ℕ) (q lines : List LogLine) (cs : List Channel) (ts : List (List Action))
    (b : Broker) : Type 0 where
  alive : b.crashed ≡ false
  newest : b.channels ≡ open_channel i q ∷ cs
  sends : b.threads ≡ send_lines i lines ∷ ts

acted-Replays :
    (i : ℕ) (line : LogLine) (lines q : List LogLine) (cs : List Channel) (ts : List (List Action))
    (b : Broker)
    → Replays i q (line ∷ lines) cs ts b
    → Replays i (with_line line q) lines cs ts (step (acted 0) b)
unfolding send_lines act next_action perform at_open
acted-Replays i line lines q cs ts b r =
    subst (Replays i (with_line line q) lines cs ts) (sym (step-alive (acted 0) b r.alive))
      (record {
        alive = ground (arith, r.alive, r.newest, r.sends);
        newest = ground (arith, r.newest, r.sends);
        sends = ground (arith, r.newest, r.sends);
      })

acts-channels :
    (i : ℕ) (lines q : List LogLine) (cs : List Channel) (ts : List (List Action)) (b : Broker)
    → Replays i q lines cs ts b
    → length q ≤ channel_size
    → (run (acts lines) b).channels ≡ open_channel i (take channel_size (q ++ lines)) ∷ cs
unfolding run acts
acts-channels i [] q cs ts b r short =
    r.newest ∙ ap (λ t. open_channel i t ∷ cs) (take-all q channel_size short)
acts-channels i (line ∷ lines) q cs ts b r short =
    subst (λ t. (run (acts (line ∷ lines)) b).channels ≡ open_channel i t ∷ cs)
      (take-with_line q lines line short)
      (acts-channels i lines (with_line line q) cs ts (step (acted 0) b)
        (acted-Replays i line lines q cs ts b r) (length-with_line q line short))

-- Where the goroutine of a new subscription replays the whole buffer before any other event takes place,
-- so that the subscriber does not read and no line is logged in between, the channel holds the oldest
-- lines of the buffer, 64 at most, in their order.
pub subscribe-oldest :
    (b : Broker)
    → b.crashed ≡ false
    → (run (subscribed ∷ acts b.buf) b).channels
      ≡ open_channel b.next_id (take channel_size b.buf) ∷ b.channels
unfolding run subscribe
subscribe-oldest b alive =
    acts-channels b.next_id b.buf [] b.channels b.threads (step subscribed b)
      (subst (Replays b.next_id [] b.buf b.channels b.threads) (sym (step-alive subscribed b alive))
        (record { alive = alive; newest = refl; sends = refl }))
      (omega arith)
