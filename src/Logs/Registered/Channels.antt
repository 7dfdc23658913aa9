-- ===== src/Logs/Registered/Channels.antt =====
-- What a single send, receipt or close does to the channels (log_stream.go).
use mathlib.Core.Path.{subst}
use v2ray_e.Base.{
  ℕ, zero, suc, ◌≡◌, ◌∙◌, refl, sym, true, false, List, [], ◌∷◌, Option, none, some, arith, ◌==◌,
  ==_iff, Bool-cases, Option-cases, inl, inr, length-append, length-drop, All,
}
use v2ray_e.Logs.Line.{LogLine}
use v2ray_e.Logs.Broker.{
  Broker, Channel, Action, send, close, next_action, perform, has_id, at_open, closing, receive,
  offered,
}
use v2ray_e.Logs.Registered.Locked.{is_open, InBounds, CloseOk, Inv}

abbrev pub OnSome : (List Channel → Type 0) → Option (List Channel) → Type 0
OnSome P none = Unit
OnSome P (some cs) = P cs

at_open-bounds :
    (f : Channel → Channel) (n i : ℕ)
    → ((c : Channel) → InBounds n c → InBounds n (f c))
    → (cs : List Channel) → All (InBounds n) cs
    → OnSome (All (InBounds n)) (at_open f i cs)
unfolding at_open
at_open-bounds f n i keeps [] b = tt
at_open-bounds f n i keeps (c ∷ cs) (p, b) =
    ground (arith, keeps c p, p, b, at_open-bounds f n i keeps cs b)

at_open-is_open :
    (f : Channel → Channel) (i j : ℕ)
    → ((c : Channel) (cs : List Channel) → c.id ≡ i → is_open j (f c ∷ cs) ≡ is_open j (c ∷ cs))
    → (cs : List Channel) → OnSome (λ ds. is_open j ds ≡ is_open j cs) (at_open f i cs)
unfolding at_open is_open
at_open-is_open f i j same [] = refl
at_open-is_open f i j same (c ∷ cs) = ground (arith, same c cs, at_open-is_open f i j same cs)

pub receive-bounds :
    (n i : ℕ) (cs : List Channel) → All (InBounds n) cs → All (InBounds n) (receive i cs)
unfolding receive
receive-bounds n i [] b = tt
receive-bounds n i (c ∷ cs) (p, b) =
    ground (arith, p, b, receive-bounds n i cs b, length-drop 1 c.queue)

pub receive-is_open : (i j : ℕ) (cs : List Channel) → is_open j (receive i cs) ≡ is_open j cs
unfolding receive is_open
receive-is_open i j [] = refl
receive-is_open i j (c ∷ cs) = ground (arith, receive-is_open i j cs)

abbrev pub OnAction : (Action → Type 0) → Option (Action × List (List Action)) → Type 0
OnAction P none = Unit
OnAction P (some (a, ts)) = P a × All (All P) ts

pub next_action-All :
    (P : Action → Type 0) (n : ℕ) (ts : List (List Action))
    → All (All P) ts
    → OnAction P (next_action n ts)
unfolding next_action
next_action-All P n [] h = tt
next_action-All P zero ([] ∷ ts) h = tt
next_action-All P zero ((b ∷ more) ∷ ts) ((p, q), h) = (p, (q, h))
next_action-All P (suc n) (t ∷ ts) (p, h) = elim (Option-cases (next_action n ts)) [
  | inl missing ↦ rw missing tt
  | inr ((a, us), e) ↦
      let (q, k) = subst (OnAction P) e (next_action-All P n ts h) in rw e (q, (p, k))
]

offered-is_open :
    (line : LogLine) (j : ℕ) (c : Channel) (cs : List Channel)
    → is_open j (offered line c ∷ cs) ≡ is_open j (c ∷ cs)
unfolding is_open
offered-is_open line j c cs = ground arith

offered-bounds : (line : LogLine) (n : ℕ) (c : Channel) → InBounds n c → InBounds n (offered line c)
offered-bounds line n c (old, short) = ground (arith, old, short, length-append c.queue (line ∷ []))

closing-is_open :
    (i j : ℕ) (c : Channel) (cs : List Channel)
    → (i == j) ≡ false
    → c.id ≡ i
    → is_open j (closing c ∷ cs) ≡ is_open j (c ∷ cs)
unfolding is_open
closing-is_open i j c cs ne e = ground (arith, ne, e)

abbrev pub Kept : Broker → List Channel → Type 0
Kept b cs = ((i : ℕ) → has_id i b.subs ≡ true → is_open i cs ≡ true) × All (InBounds b.next_id) cs

pub perform-ok :
    (a : Action) (b : Broker)
    → Inv b
    → CloseOk b.subs b.next_id a
    → OnSome (Kept b) (perform a b.channels)
unfolding perform
perform-ok (send i line) b v k = elim (Option-cases (at_open (offered line) i b.channels)) [
  | inl broken ↦ rw broken tt
  | inr (cs, e) ↦ rw e (
    λ j h.
        subst (OnSome (λ ds. is_open j ds ≡ is_open j b.channels)) e
          (at_open-is_open (offered line) i j (λ c ds _. offered-is_open line j c ds) b.channels)
        ∙ v.registered_open j h,
    subst (OnSome (All (InBounds b.next_id))) e (
        at_open-bounds (offered line) b.next_id i (λ c q. offered-bounds line b.next_id c q)
          b.channels v.in_bounds),
  )
]
perform-ok (close i) b v k = elim (Option-cases (at_open closing i b.channels)) [
  | inl broken ↦ rw broken tt
  | inr (cs, e) ↦ rw e (
    λ j h.
        subst (OnSome (λ ds. is_open j ds ≡ is_open j b.channels)) e (
          at_open-is_open closing i j (λ c ds e'. closing-is_open i j c ds (elsewhere j h) e')
            b.channels)
        ∙ v.registered_open j h,
    subst (OnSome (All (InBounds b.next_id))) e
        (at_open-bounds closing b.next_id i (λ c p. p) b.channels v.in_bounds),
  )
]
  where
    elsewhere : (j : ℕ) → has_id j b.subs ≡ true → (i == j) ≡ false
    elsewhere j h = elim (Bool-cases (i == j)) [
      | inl same ↦ cc (rw (sym ((==_iff i j).0 same)) at h, k.0)
      | inr other ↦ other
    ]
