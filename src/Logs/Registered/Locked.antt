-- ===== src/Logs/Registered/Locked.antt =====
-- What holds of the registered channels through the operations under the lock (log_stream.go).
use v2ray_e.Base.{
  ltb, ltb→lt, ◌<◌, ℕ, suc, ◌<◌, ◌≤◌, ◌≡◌, refl, Bool, true, false, not, ◌&&◌, List, [], ◌∷◌, arith,
  ◌==◌, Bool-cases, inl, inr, if◌then◌else◌, length, All,
}
use v2ray_e.Logs.Line.{LogLine}
use v2ray_e.Logs.Broker.{
  Broker, Channel, Action, send, close, dispatch, subscribe, cancel, new_log_broker, send_each,
  send_lines, has_id, without_id, channel_size,
}

-- The channel under an identifier is there and open.
unfoldable pub is_open : ℕ → List Channel → Bool
is_open i [] = false
is_open i (c ∷ cs) = if c.id == i then not c.closed else is_open i cs

abbrev pub InBounds : ℕ → Channel → Type 0
InBounds n c = (c.id < n) × (length c.queue ≤ channel_size)

-- A channel that is about to be closed is registered no more.
abbrev pub CloseOk : List ℕ → ℕ → Action → Type 0
CloseOk subs n (send i line) = Unit
CloseOk subs n (close i) = (has_id i subs ≡ false) × (i < n)

pub record Inv (b : Broker) : Type 0 where
  pub registered_open : (i : ℕ) → has_id i b.subs ≡ true → is_open i b.channels ≡ true
  pub registered_old : (i : ℕ) → has_id i b.subs ≡ true → i < b.next_id
  pub in_bounds : All (InBounds b.next_id) b.channels
  pub closes_ok : All (All (CloseOk b.subs b.next_id)) b.threads

pub new-Inv : Inv new_log_broker
unfolding new_log_broker has_id
new-Inv = record {
  registered_open = λ i h. cc h;
  registered_old = λ i h. cc h;
  in_bounds = tt;
  closes_ok = tt;
}

All-map {ℓ} :
    {A : Type ℓ} (P Q : A → Type 0) → ((x : A) → P x → Q x) → (xs : List A) → All P xs → All Q xs
All-map P Q f [] h = tt
All-map P Q f (x ∷ xs) (p, h) = (f x p, All-map P Q f xs h)

has_id-without :
    (i j : ℕ) (is : List ℕ) → has_id i (without_id j is) ≡ (has_id i is && not (i == j))
unfolding has_id without_id
has_id-without i j [] = refl
has_id-without i j (k ∷ is) = ground (arith, has_id-without i j is)

CloseOk-fewer :
    (n m : ℕ) (subs subs' : List ℕ)
    → n ≤ m
    → ((i : ℕ) → i < n → has_id i subs ≡ false → has_id i subs' ≡ false)
    → (ts : List (List Action)) → All (All (CloseOk subs n)) ts
    → All (All (CloseOk subs' m)) ts
CloseOk-fewer n m subs subs' le f ts h = All-map _ _ (λ t k. All-map _ _ one t k) ts h
  where
    one : (a : Action) → CloseOk subs n a → CloseOk subs' m a
    one (send i line) k = tt
    one (close i) (gone, old) = (f i old gone, omega (arith, le, old))

sends_ok :
    (subs : List ℕ) (n : ℕ) (line : LogLine) (is : List ℕ)
    → All (CloseOk subs n) (send_each line is)
unfolding send_each
sends_ok subs n line [] = tt
sends_ok subs n line (i ∷ is) = (tt, sends_ok subs n line is)

lines_ok :
    (subs : List ℕ) (n i : ℕ) (lines : List LogLine) → All (CloseOk subs n) (send_lines i lines)
unfolding send_lines
lines_ok subs n i [] = tt
lines_ok subs n i (line ∷ lines) = (tt, lines_ok subs n i lines)

pub dispatch-Inv : (line : LogLine) (b : Broker) → Inv b → Inv (dispatch line b)
unfolding dispatch
dispatch-Inv line b v = record {
  registered_open = v.registered_open;
  registered_old = v.registered_old;
  in_bounds = v.in_bounds;
  closes_ok = (sends_ok b.subs b.next_id line b.subs, v.closes_ok);
}

pub subscribe-Inv : (b : Broker) → Inv b → Inv (subscribe b)
unfolding subscribe has_id is_open
subscribe-Inv b v = record {
  registered_open = λ i h. ground (arith, h, v.registered_open i, v.registered_old i);
  registered_old = λ i h. ground (arith, h, v.registered_old i);
  in_bounds = (
    (omega arith, omega arith),
    All-map _ _ (λ c k. (omega (arith, k.0), k.1)) b.channels v.in_bounds,
  );
  closes_ok = (
    lines_ok (b.next_id ∷ b.subs) (suc b.next_id) b.next_id b.buf,
    CloseOk-fewer b.next_id (suc b.next_id) b.subs (b.next_id ∷ b.subs) (omega arith)
        (λ i h k. ground (arith, h, k)) b.threads v.closes_ok,
  );
}

cancelled-Inv :
    (i : ℕ) (b : Broker)
    → Inv b
    → i < b.next_id
    → Inv (record b { subs = without_id i b.subs; threads = (close i ∷ []) ∷ b.threads })
cancelled-Inv i b v h = record {
  registered_open = λ j k. v.registered_open j (ground (arith, k, has_id-without j i b.subs));
  registered_old = λ j k. v.registered_old j (ground (arith, k, has_id-without j i b.subs));
  in_bounds = v.in_bounds;
  closes_ok = (
    ((ground (arith, has_id-without i i b.subs), h), tt),
    CloseOk-fewer b.next_id b.next_id b.subs (without_id i b.subs) (omega arith)
        (λ j _ k. ground (arith, k, has_id-without j i b.subs)) b.threads v.closes_ok,
  );
}

pub cancel-Inv : (i : ℕ) (b : Broker) → Inv b → Inv (cancel i b)
unfolding cancel
cancel-Inv i b v = elim (Bool-cases (ltb i b.next_id)) [
  | inl h ↦ rw (h, cancel) (cancelled-Inv i b v (ltb→lt i b.next_id h))
  | inr h ↦ rw (h, cancel) v
]
