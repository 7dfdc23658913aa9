-- ===== src/Logs/Registered.antt =====
-- Channels that are registered are open; a send behind a cancellation is a panic.
pub mod Locked
pub mod Channels
use mathlib.Core.Path.{subst}
use v2ray_e.Base.{
  ℕ, zero, suc, ◌<◌, ◌≤◌, ◌≡◌, ◌∙◌, refl, sym, Bool, true, false, not, ◌&&◌, List, [], ◌∷◌, Option,
  none, some, arith, ◌==◌, ==_iff, Bool-cases, Option-cases, inl, inr, if◌then◌else◌, length,
  length-append, length-drop, All,
}
use v2ray_e.Logs.Line.{LogLine}
use v2ray_e.Logs.Broker.{
  Broker, Channel, Action, send, close, Event, logged, subscribed, cleared, cancelled, acted,
  received, run, step, happen, dispatch, subscribe, cancel, clear, act, next_action, perform,
  new_log_broker, send_each, send_lines, has_id, without_id, at_open, closing, receive, offered,
  channel_size, step-dead, step-alive,
}
use v2ray_e.Logs.Registered.Locked.{is_open, CloseOk, Inv, dispatch-Inv, subscribe-Inv, cancel-Inv}
use v2ray_e.Logs.Registered.Channels.{
  OnSome, receive-bounds, receive-is_open, OnAction, next_action-All, Kept, perform-ok,
}

act-Inv : (n : ℕ) (b : Broker) → Inv b → Inv (act n b)
unfolding act
act-Inv n b v = elim (Option-cases (next_action n b.threads)) [
  | inl missing ↦ rw (missing, act) v
  | inr ((a, ts), e) ↦
      let (k, ks) =
        subst (OnAction (CloseOk b.subs b.next_id)) e
          (next_action-All (CloseOk b.subs b.next_id) n b.threads v.closes_ok) in
      elim (Option-cases (perform a b.channels)) [
        | inl broken ↦
            rw (e, broken, act)
              (record {
                registered_open = v.registered_open;
                registered_old = v.registered_old;
                in_bounds = v.in_bounds;
                closes_ok = v.closes_ok;
              })
        | inr (cs, done) ↦
            let (opened, bounds) = subst (OnSome (Kept b)) done (perform-ok a b v k) in
            rw (e, done, act)
              (record {
                registered_open = opened;
                registered_old = v.registered_old;
                in_bounds = bounds;
                closes_ok = ks;
              })
      ]
]

happen-Inv : (e : Event) (b : Broker) → Inv b → Inv (happen e b)
unfolding clear
happen-Inv (logged line) b v = dispatch-Inv line b v
happen-Inv subscribed b v = subscribe-Inv b v
happen-Inv cleared b v = record {
  registered_open = v.registered_open;
  registered_old = v.registered_old;
  in_bounds = v.in_bounds;
  closes_ok = v.closes_ok;
}
happen-Inv (cancelled i) b v = cancel-Inv i b v
happen-Inv (acted n) b v = act-Inv n b v
happen-Inv (received i) b v = record {
  registered_open = λ j h. receive-is_open i j b.channels ∙ v.registered_open j h;
  registered_old = v.registered_old;
  in_bounds = receive-bounds b.next_id i b.channels v.in_bounds;
  closes_ok = v.closes_ok;
}

step-Inv : (e : Event) (b : Broker) → Inv b → Inv (step e b)
step-Inv e b v = elim (Bool-cases b.crashed) [
  | inl dead ↦ subst Inv (sym (step-dead e b dead)) v
  | inr alive ↦ subst Inv (sym (step-alive e b alive)) (happen-Inv e b v)
]

-- Every event keeps the invariant: a registered channel is open, identifiers are older than the next one,
-- no channel holds more than 64 lines, and no goroutine is about to close a registered channel.
pub run-Inv : (es : List Event) (b : Broker) → Inv b → Inv (run es b)
unfolding run
run-Inv [] b v = v
run-Inv (e ∷ es) b v = run-Inv es (step e b) (step-Inv e b v)

abbrev Closes : ℕ → LogLine → List Channel → Type 0
Closes i line cs =
    (ds : List Channel) × (at_open closing i cs ≡ some ds) × (at_open (offered line) i ds ≡ none)

is_open-Closes :
    (i : ℕ) (line : LogLine) (cs : List Channel) → is_open i cs ≡ true → Closes i line cs
unfolding at_open is_open
is_open-Closes i line [] h = cc h
is_open-Closes i line (c ∷ cs) h = elim (Bool-cases (c.id == i)) [
  | inl here ↦ (closing c ∷ cs, ground (arith, here, h), ground (arith, here, h))
  | inr other ↦
      let (ds, e, broken) = is_open-Closes i line cs (ground (arith, other, h)) in
      (c ∷ ds, ground (arith, other, e), ground (arith, other, broken))
]

has_id-first : (i : ℕ) (is : List ℕ) → has_id i (i ∷ is) ≡ true
unfolding has_id
has_id-first i is = ground arith

-- `dispatch` copies the channels and sends behind the lock: where the subscriber is cancelled in between,
-- the send is to a channel that is closed, and the process panics. It does so from every state that
-- has a subscriber.
pub dispatch-cancel_crashes :
    (line : LogLine) (i : ℕ) (is : List ℕ) (b : Broker)
    → Inv b
    → b.crashed ≡ false
    → b.subs ≡ i ∷ is
    → (run (logged line ∷ cancelled i ∷ acted 0 ∷ acted 1 ∷ []) b).crashed ≡ true
unfolding run step dispatch cancel act next_action perform send_each has_id without_id
dispatch-cancel_crashes line i is b v alive first =
    let there : has_id i b.subs ≡ true =
      subst (λ l. has_id i l ≡ true) (sym first) (has_id-first i is) in
    let open_now = v.registered_open i there in
    let old = v.registered_old i there in
    let (ds, e, broken) = is_open-Closes i line b.channels open_now in
    ground (arith, alive, first, old, e, broken)
