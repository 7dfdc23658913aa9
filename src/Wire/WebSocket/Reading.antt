-- ===== src/Wire/WebSocket/Reading.antt =====
-- `readFrame` and `Read`: that they end, what they answer, and how they fail.
use v2ray_e.Base.{
  ℕ, zero, suc, ◌^◌, ◌<◌, ◌≤◌, ◌≡◌, ◌≢◌, ◌⊎◌, refl, ap, Bool, List, [], ◌∷◌, ◌++◌, some, arith, inl,
  inr, length, take, drop, length-take, length-drop, All-take,
}
use v2ray_e.Wire.Bytes.{read_full, read_full-append, AreBytes, IsByte}
use v2ray_e.Wire.WebSocket.{
  WsConn, frame, build_client_frame, parse_frame, Parsed, parsed, cut_short, too_long, read_length,
  read_key, read_payload, read_frame, eof, crashed, out_of_fuel, max_alloc, answer_ping, read,
  be_bytes,
}
use v2ray_e.Wire.WebSocket.Length.{shift_in_all-be_bytes}
use v2ray_e.Wire.WebSocket.RoundTrip.{HasKeys, layout, parse_frame-layout}

read_full-le :
    (n : ℕ) (input bs rest : List ℕ)
    → read_full n input ≡ some (bs, rest)
    → length rest ≤ length input
unfolding read_full
read_full-le n input bs rest h = ground (arith, length-drop n input)

read_length-le :
    (s : ℕ) (input : List ℕ) (n : ℕ) (rest : List ℕ)
    → read_length s input ≡ some (n, rest)
    → length rest ≤ length input
unfolding read_length
read_length-le s input n rest h = grind (arith, read_full-le)

read_key-le :
    (m : Bool) (input key rest : List ℕ)
    → read_key m input ≡ some (key, rest)
    → length rest ≤ length input
unfolding read_key
read_key-le m input key rest h = grind (arith, read_full-le)

read_payload-le :
    (op : ℕ) (m : Bool) (n : ℕ) (key input : List ℕ) (op' : ℕ) (payload rest : List ℕ)
    → read_payload op m n key input ≡ parsed op' payload rest
    → length rest ≤ length input
unfolding read_payload
read_payload-le op m n key input op' payload rest h = grind (arith, read_full-le)

-- A frame that is read takes at least its two head bytes.
parse_frame-lt :
    (input : List ℕ) (op : ℕ) (payload rest : List ℕ)
    → parse_frame input ≡ parsed op payload rest
    → length rest < length input
unfolding parse_frame
parse_frame-lt [] op payload rest h = cc
parse_frame-lt (a ∷ []) op payload rest h = cc
parse_frame-lt (h0 ∷ h1 ∷ input) op payload rest h =
    grind (arith, read_length-le, read_key-le, read_payload-le)

input-answer_ping : (payload : List ℕ) (c : WsConn) → (answer_ping payload c).input ≡ c.input
unfolding answer_ping
input-answer_ping payload c = ground arith

Parsed-cases :
    (r : Parsed)
    → ((r ≡ cut_short) ⊎ (r ≡ too_long))
      ⊎ ((op : ℕ) × (payload : List ℕ) × (rest : List ℕ) × (r ≡ parsed op payload rest))
Parsed-cases cut_short = inl (inl refl)
Parsed-cases too_long = inl (inr refl)
Parsed-cases (parsed op payload rest) = inr (op, payload, rest, refl)

-- `readFrame` ends on every input: with more fuel than there are bytes it never runs out, whatever
-- the frames are.
pub read_frame_ends :
    (fuel : ℕ) (c : WsConn) → length c.input < fuel → (read_frame fuel c).0 ≢ out_of_fuel
unfolding read_frame
read_frame_ends zero c h = absurd (omega arith)
read_frame_ends (suc fuel) c h = elim (Parsed-cases (parse_frame c.input)) [
  | inl (inl e) ↦ rw (e, read_frame) (λ p. cc)
  | inl (inr e) ↦ rw (e, read_frame) (λ p. cc)
  | inr (op, payload, rest, e) ↦
      let shorter = parse_frame-lt c.input op payload rest e in
      let next : WsConn = record c { input = rest } in
      ground (
        arith,
        e,
        read_frame_ends fuel (answer_ping payload next)
            (omega (arith, ap length (input-answer_ping payload next))),
        read_frame_ends fuel next (omega arith),
      )
]

build_client_frame-layout :
    (opcode : ℕ) (payload random : List ℕ)
    → length payload ≤ 125
    → HasKeys 1 random
    → build_client_frame opcode payload random
      ≡ frame (layout opcode (take 4 random) payload) (drop 4 random)
unfolding build_client_frame read_full
build_client_frame-layout opcode payload random h k = ground (arith, k.enough)

abbrev answered : List ℕ → ℕ → WsConn → WsConn
answered payload r c = record c {
  output = c.output ++ layout 10 (take 4 c.random) payload;
  room = r;
  random = drop 4 c.random;
}

answer_ping_lem :
    (payload : List ℕ) (r : ℕ) (c : WsConn)
    → length payload ≤ 125
    → c.room ≡ suc r
    → HasKeys 1 c.random
    → answer_ping payload c ≡ answered payload r c
unfolding answer_ping
answer_ping_lem payload r c small room h =
    rw (build_client_frame-layout 10 payload c.random small h, answer_ping) (ground (arith, room))

-- A ping of at most 125 bytes, on a connection with room for a write and a key at hand, is answered
-- by a pong that carries the bytes of the ping, and the read goes on with the next frame.
pub read_frame-ping :
    (fuel r : ℕ) (c : WsConn) (payload rest : List ℕ)
    → parse_frame c.input ≡ parsed 9 payload rest
    → length payload ≤ 125
    → AreBytes payload
    → c.room ≡ suc r
    → HasKeys 1 c.random
    → (pong : List ℕ) × (read_frame (suc fuel) c
        ≡ read_frame fuel (record c {
          input = rest;
          output = c.output ++ pong;
          room = r;
          random = drop 4 c.random;
        }))
      × ((more : List ℕ) → parse_frame (pong ++ more) ≡ parsed 10 payload more)
unfolding read_frame
read_frame-ping fuel r c payload rest e small hb room h = (
  layout 10 (take 4 c.random) payload,
  rw (e, read_frame)
      (ap (read_frame fuel) (answer_ping_lem payload r (record c { input = rest }) small room h)),
  λ more.
      parse_frame-layout 10 (take 4 c.random) payload more (omega arith)
        (length-take 4 c.random (omega (arith, h.enough))) (All-take IsByte 4 c.random h.bytes) hb
        (omega arith),
)

-- Where nothing is buffered, an empty data frame makes `Read` of at least one byte report the end of the
-- stream, although the connection is open and more frames may follow.
pub read-empty_data_frame :
    (fuel n : ℕ) (c : WsConn) (rest : List ℕ)
    → c.read_buf ≡ []
    → parse_frame c.input ≡ parsed 2 [] rest
    → 0 < n
    → read (suc fuel) n c ≡ (eof, [], record c { input = rest })
unfolding read
read-empty_data_frame fuel n c rest empty e pos = ground (arith, e)

-- A peer that announces more than 2^48 bytes for a data frame makes the reader panic, whatever follows.
pub read_frame-crashes :
    (fuel n : ℕ) (c : WsConn) (more : List ℕ)
    → max_alloc < n
    → n < 2 ^ 64
    → c.input ≡ 0x82 ∷ 0x7f ∷ (be_bytes 8 n ++ more)
    → read_frame (suc fuel) c ≡ (crashed, c)
unfolding read_frame parse_frame
read_frame-crashes fuel n c more big small e =
    rw (e, read_frame)
      (ground (
        arith,
        read_full-append (be_bytes 8 n) more 8 (unfold be_bytes in refl),
        shift_in_all-be_bytes n small,
      ))
