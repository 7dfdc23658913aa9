-- ===== src/Wire/WebSocket.antt =====
-- backend-go/internal/service/native/embedded_ws.go: the frames of a client WebSocket stream.
-- The peer's bytes, the bytes sent, the random source and the room for further writes are the
-- state of the connection; `io.ReadFull` on a source that has too few bytes is an error.

mod Length
pub mod RoundTrip
pub mod Reading
use Prim.Native.Nat.{bit_and, bit_or, bit_xor}
use v2ray_e.Base.{
  ℕ, zero, suc, ◌+◌, ◌-◌, ◌*◌, ◌/◌, ◌%◌, ◌^◌, Bool, true, false, ◌&&◌, ◌||◌, not, List, [], ◌∷◌,
  ◌++◌, Option, none, some, ltb, leb, ◌==◌, if◌then◌else◌, length, take, drop,
}
use v2ray_e.Wire.Bytes.{byte, read_full}
use v2ray_e.Wire.BigEndian.{be_uint16}

pub data FrameError : Type 0 where
  control_too_large no_random write_failed short_read unsupported_opcode : FrameError

pub data Built : Type 0 where
  frame : List ℕ → List ℕ → Built
  refused : FrameError → Built

-- `maskKey[i % 4]`; the key has four bytes.
unfoldable pub mask_at : List ℕ → ℕ → ℕ
mask_at [] i = 0
mask_at (k ∷ ks) zero = k
mask_at (k ∷ ks) (suc i) = mask_at ks i

-- `for i, b := range payload { b ^ maskKey[i%4] }`, from index i on.
unfoldable pub apply_mask : List ℕ → ℕ → List ℕ → List ℕ
apply_mask key i [] = []
apply_mask key i (b ∷ bs) = bit_xor b (mask_at key (i % 4)) ∷ apply_mask key (i + 1) bs

-- `for i := n-1; i >= 0; i-- { byte(l >> (i*8)) }`
unfoldable pub be_bytes : ℕ → ℕ → List ℕ
be_bytes zero l = []
be_bytes (suc i) l = byte (l / 2 ^ (i * 8)) ∷ be_bytes i l

unfoldable pub length_field : ℕ → List ℕ
unfolding be_bytes
length_field n =
    if ltb n 126
    then bit_or 0x80 (byte n) ∷ []
    else if leb n 65535
    then bit_or 0x80 126 ∷ byte (n / 2 ^ 8) ∷ byte n ∷ []
    else bit_or 0x80 127 ∷ be_bytes 8 n

unfoldable pub is_control : ℕ → Bool
is_control opcode = opcode == 0x8 || opcode == 0x9 || opcode == 0xA

-- `random` is what the random source still gives.
unfoldable pub build_client_frame : ℕ → List ℕ → List ℕ → Built
unfolding is_control
build_client_frame opcode payload random =
    if ltb 125 (length payload) && is_control opcode
    then refused control_too_large
    else elim (read_full 4 random) [
      | none ↦ refused no_random
      | some (key, random') ↦
          frame
            (bit_or 0x80 (bit_and opcode 0x0f)
              ∷ (length_field (length payload) ++ (key ++ apply_mask key 0 payload)))
            random'
    ]

unfoldable pub build_client_binary_frame : List ℕ → List ℕ → Built
build_client_binary_frame payload random = build_client_frame 0x2 payload random

unfoldable pub build_control_frame : ℕ → List ℕ → List ℕ → Built
build_control_frame opcode payload random = build_client_frame opcode payload random

pub record WsConn : Type 0 where
  pub input : List ℕ
  pub output : List ℕ
  pub room : ℕ
  pub random : List ℕ
  pub read_buf : List ℕ

-- `c.Conn.Write`: it succeeds while there is room.
unfoldable pub conn_write : List ℕ → WsConn → Bool × WsConn
conn_write bs c = elim c.room [
  | zero ↦ (false, c)
  | suc r ↦ (true, record c { output = c.output ++ bs; room = r })
]

pub data ReadOutcome : Type 0 where
  done eof crashed out_of_fuel : ReadOutcome
  failed : FrameError → ReadOutcome

-- The most that `make([]byte, n)` allocates on a 64-bit Linux; a larger or negative length panics.
abbrev pub max_alloc : ℕ
max_alloc = 2 ^ 48

-- `payloadLen = (payloadLen << 8) | int(b)`, on an int of 64 bits.
unfoldable pub shift_in : ℕ → ℕ → ℕ
shift_in acc b = bit_or ((acc * 256) % 2 ^ 64) b

unfoldable pub shift_in_all : ℕ → List ℕ → ℕ
unfolding shift_in
shift_in_all acc [] = acc
shift_in_all acc (b ∷ bs) = shift_in_all (shift_in acc b) bs

-- The payload length behind the second byte of the head.
unfoldable pub read_length : ℕ → List ℕ → Option (ℕ × List ℕ)
unfolding be_uint16 shift_in_all
read_length short input =
    if short == 126
    then elim (read_full 2 input) [ none ↦ none | some (ext, rest) ↦ some (be_uint16 ext, rest) ]
    else if short == 127
    then elim (read_full 8 input) [
      | none ↦ none
      | some (ext, rest) ↦ some (shift_in_all 127 ext, rest)
    ]
    else some (short, input)

unfoldable pub read_key : Bool → List ℕ → Option (List ℕ × List ℕ)
read_key masked input = if masked then read_full 4 input else some ([], input)

pub data Parsed : Type 0 where
  parsed : ℕ → List ℕ → List ℕ → Parsed
  cut_short : Parsed
  too_long : Parsed

-- `payload := make([]byte, payloadLen)`, the read that fills it, and the unmasking.
unfoldable pub read_payload : ℕ → Bool → ℕ → List ℕ → List ℕ → Parsed
read_payload opcode masked n key input =
    if ltb max_alloc n then too_long else elim (read_full n input) [
      | none ↦ cut_short
      | some (body, rest) ↦ parsed opcode (if masked then apply_mask key 0 body else body) rest
    ]

-- The first half of `readFrame`: one frame off the input.
unfoldable pub parse_frame : List ℕ → Parsed
unfolding read_length read_key read_payload
parse_frame (h0 ∷ h1 ∷ input) =
    let masked = not (bit_and h1 0x80 == 0) in
    elim (read_length (bit_and h1 0x7f) input) [
      | none ↦ cut_short
      | some (n, input') ↦ elim (read_key masked input') [
        | none ↦ cut_short
        | some (key, input'') ↦ read_payload (bit_and h0 0x0f) masked n key input''
      ]
    ]
parse_frame _ = cut_short

-- The answer to a ping; an error of the builder or of the write is ignored.
unfoldable pub answer_ping : List ℕ → WsConn → WsConn
unfolding conn_write build_control_frame
answer_ping payload c = elim (build_control_frame 0xA payload c.random) [
  | refused _ ↦ c
  | frame pong random' ↦ (conn_write pong (record c { random = random' })).1
]

-- A read that falls short has taken all that was there.
-- `readFrame` calls itself after a ping or a pong, hence the fuel.
unfoldable pub read_frame : ℕ → WsConn → ReadOutcome × WsConn
read_frame zero c = (out_of_fuel, c)
read_frame (suc fuel) c = elim (parse_frame c.input) [
  | cut_short ↦ (failed short_read, record c { input = [] })
  | too_long ↦ (crashed, c)
  | parsed opcode payload rest ↦
      let data_frame : ReadOutcome × WsConn =
        (done, record c { input = rest; read_buf = c.read_buf ++ payload }) in
      let pinged = read_frame fuel (answer_ping payload (record c { input = rest })) in
      let ponged = read_frame fuel (record c { input = rest }) in
      if opcode == 0x0 || opcode == 0x2
      then data_frame
      else if opcode == 0x8
      then (eof, record c { input = rest })
      else if opcode == 0x9
      then pinged
      else if opcode == 0xA
      then ponged
      else (failed unsupported_opcode, record c { input = rest })
]

-- `readBuf.Read(p)` with len(p) = n: an empty buffer reports the end of the stream.
unfoldable pub buffer_read : ℕ → WsConn → ReadOutcome × List ℕ × WsConn
buffer_read n c = elim c.read_buf [
  | [] ↦ if n == 0 then (done, [], c) else (eof, [], c)
  | b ∷ bs ↦ (done, take n (b ∷ bs), record c { read_buf = drop n (b ∷ bs) })
]

-- `Read`
unfoldable pub read : ℕ → ℕ → WsConn → ReadOutcome × List ℕ × WsConn
unfolding buffer_read read_frame
read fuel n c = elim c.read_buf [
  | b ∷ bs ↦ buffer_read n c
  | [] ↦
      let (outcome, c') = read_frame fuel c in
      elim outcome [ done ↦ buffer_read n c' | other ↦ (other, [], c') ]
]

abbrev pub max_frame_payload : ℕ
max_frame_payload = 16 * 1024

pub data WriteOutcome : Type 0 where
  written : ℕ → WriteOutcome
  write_error : ℕ → FrameError → WriteOutcome
  write_stuck : WriteOutcome

-- One round of the loop of `Write`, which sends a chunk.
unfoldable pub send_chunk : List ℕ → WsConn → Option FrameError × WsConn
unfolding conn_write build_client_binary_frame
send_chunk chunk c = elim (build_client_binary_frame chunk c.random) [
  | refused e ↦ (some e, c)
  | frame bytes random' ↦
      let (sent, c') = conn_write bytes (record c { random = random' }) in
      if sent then (none, c') else (some write_failed, c')
]

-- The loop of `Write`; each round takes at least one byte off p.
unfoldable pub write_loop : ℕ → ℕ → List ℕ → WsConn → WriteOutcome × WsConn
write_loop fuel total [] c = (written total, c)
write_loop zero total (b ∷ bs) c = (write_stuck, c)
write_loop (suc fuel) total (b ∷ bs) c =
    let p = b ∷ bs in
    let n = (if ltb max_frame_payload (length p) then max_frame_payload else length p) in
    let (problem, c') = send_chunk (take n p) c in
    elim problem [
      | some e ↦ (write_error total e, c')
      | none ↦ write_loop fuel (total + n) (drop n p) c'
    ]

unfoldable pub write : List ℕ → WsConn → WriteOutcome × WsConn
unfolding write_loop send_chunk
write p c = write_loop (length p) 0 p c
