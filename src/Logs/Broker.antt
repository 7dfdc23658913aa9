-- ===== src/Logs/Broker.antt =====
-- The broker of log_stream.go and the goroutines that work on it. What an operation does under the lock
-- is one step; what it does behind the lock is a thread of actions, each of which is one step.
use v2ray_e.Base.{
  ℕ, zero, suc, ◌≡◌, ap, Bool, true, false, ◌||◌, List, [], ◌∷◌, ◌++◌, Option, none, some, ltb, leb,
  ◌==◌, if◌then◌else◌, length, drop,
}
use v2ray_e.Logs.Line.{LogLine}

abbrev pub log_buf_size : ℕ
log_buf_size = 2000

abbrev pub channel_size : ℕ
channel_size = 64

-- A channel that `subscribe` made, under the identifier of its subscriber.
pub record Channel : Type 0 where
  pub id : ℕ
  pub queue : List LogLine
  pub closed : Bool

pub data Action : Type 0 where
  send : ℕ → LogLine → Action
  close : ℕ → Action

-- `subs` has the identifiers that are registered; a channel stays in `channels` when it is not.
pub record Broker : Type 0 where
  pub buf : List LogLine
  pub subs : List ℕ
  pub next_id : ℕ
  pub channels : List Channel
  pub threads : List (List Action)
  pub crashed : Bool

unfoldable pub new_log_broker : Broker
new_log_broker = record {
  buf = [];
  subs = [];
  next_id = 0;
  channels = [];
  threads = [];
  crashed = false;
}

unfoldable pub has_id : ℕ → List ℕ → Bool
has_id i [] = false
has_id i (j ∷ js) = i == j || has_id i js

unfoldable pub without_id : ℕ → List ℕ → List ℕ
without_id i [] = []
without_id i (j ∷ js) = let rest = without_id i js in if i == j then rest else j ∷ rest

-- The buffer with one more line.
unfoldable pub append_line : LogLine → List LogLine → List LogLine
append_line line buf = (if leb log_buf_size (length buf) then drop 1 buf else buf) ++ line ∷ []

unfoldable pub send_each : LogLine → List ℕ → List Action
send_each line [] = []
send_each line (i ∷ is) = send i line ∷ send_each line is

unfoldable pub send_lines : ℕ → List LogLine → List Action
send_lines i [] = []
send_lines i (line ∷ lines) = send i line ∷ send_lines i lines

-- `dispatch` under the lock.
unfoldable pub dispatch : LogLine → Broker → Broker
unfolding append_line send_each
dispatch line b = record b {
  buf = append_line line b.buf;
  threads = send_each line b.subs ∷ b.threads;
}

-- `subscribe`: the goroutine that it starts sends the lines of the buffer.
unfoldable pub subscribe : Broker → Broker
unfolding send_lines
subscribe b = record b {
  subs = b.next_id ∷ b.subs;
  next_id = suc b.next_id;
  channels = record { id = b.next_id; queue = []; closed = false } ∷ b.channels;
  threads = send_lines b.next_id b.buf ∷ b.threads;
}

-- The function that `subscribe` returns, which is there for identifiers that were given out. It may be
-- called again.
unfoldable pub cancel : ℕ → Broker → Broker
unfolding without_id
cancel i b =
    if ltb i b.next_id
    then record b { subs = without_id i b.subs; threads = (close i ∷ []) ∷ b.threads }
    else b

unfoldable pub clear : Broker → Broker
clear b = record b { buf = [] }

-- A send that does not wait: the line is dropped where the channel is full.
abbrev pub offered : LogLine → Channel → Channel
offered line c =
    if ltb (length c.queue) channel_size then record c { queue = c.queue ++ line ∷ [] } else c

-- A change of the channel under an identifier. A send to a channel that is closed is a panic, and so is
-- closing it again: `none`.
unfoldable pub at_open : (Channel → Channel) → ℕ → List Channel → Option (List Channel)
at_open f i [] = some []
at_open f i (c ∷ cs) =
    let rest = at_open f i cs in
    if c.id == i
    then (if c.closed then none else some (f c ∷ cs))
    else elim rest [ none ↦ none | some ds ↦ some (c ∷ ds) ]

abbrev pub closing : Channel → Channel
closing c = record c { closed = true }

unfoldable pub perform : Action → List Channel → Option (List Channel)
unfolding at_open
perform (send i line) cs = at_open (offered line) i cs
perform (close i) cs = at_open closing i cs

-- The next action of the thread at an index, and the threads behind it.
unfoldable pub next_action : ℕ → List (List Action) → Option (Action × List (List Action))
next_action n [] = none
next_action zero ([] ∷ ts) = none
next_action zero ((a ∷ more) ∷ ts) = some (a, more ∷ ts)
next_action (suc n) (t ∷ ts) =
    let rest = next_action n ts in elim rest [ none ↦ none | some (a, us) ↦ some (a, t ∷ us) ]

-- One action of a thread.
unfoldable pub act : ℕ → Broker → Broker
unfolding next_action perform
act n b = elim (next_action n b.threads) [
  | none ↦ b
  | some (a, ts) ↦ elim (perform a b.channels) [
    | none ↦ record b { crashed = true }
    | some cs ↦ record b { channels = cs; threads = ts }
  ]
]

-- A subscriber takes a line from its channel.
unfoldable pub receive : ℕ → List Channel → List Channel
receive i [] = []
receive i (c ∷ cs) =
    let rest = receive i cs in
    if c.id == i then record c { queue = drop 1 c.queue } ∷ cs else c ∷ rest

pub data Event : Type 0 where
  logged : LogLine → Event
  subscribed cleared : Event
  cancelled acted received : ℕ → Event

abbrev pub happen : Event → Broker → Broker
happen (logged line) b = dispatch line b
happen subscribed b = subscribe b
happen (cancelled i) b = cancel i b
happen cleared b = clear b
happen (acted n) b = act n b
happen (received i) b = record b { channels = receive i b.channels }

-- A panic ends the process.
unfoldable pub step : Event → Broker → Broker
step e b = if b.crashed then b else happen e b

unfoldable pub run : List Event → Broker → Broker
unfolding step
run [] b = b
run (e ∷ es) b = run es (step e b)

pub step-dead : (e : Event) (b : Broker) → b.crashed ≡ true → step e b ≡ b
unfolding step
step-dead e b h = ap (λ dead. if dead then b else happen e b) h

pub step-alive : (e : Event) (b : Broker) → b.crashed ≡ false → step e b ≡ happen e b
unfolding step
step-alive e b h = ap (λ dead. if dead then b else happen e b) h
