-- ===== src/Wire/WebSocket/RoundTrip.antt =====
-- Frames and streams: what one side writes is what the other side reads.
use Prim.Native.Nat.{bit_and, bit_or}
use mathlib.Core.Path.{subst}
use mathlib.Core.List.{append_assoc, append-nil}
use v2ray_e.Base.{
  ℕ, zero, suc, ◌+◌, ◌-◌, ◌*◌, ◌%◌, ◌<◌, ◌≤◌, ◌≡◌, refl, sym, ap, List, [], ◌∷◌, ◌++◌, ◌⊎◌, ◌∙◌,
  arith, ltb, Bool-cases, inl, inr, if◌then◌else◌, length, take, drop, All-take, All-drop,
  take-append-drop, length-take, length-drop, none,
}
use v2ray_e.Wire.Bytes.{read_full, read_full-append, xor_twice, AreBytes, IsByte}
use v2ray_e.Wire.WebSocket.{
  WsConn, frame, mask_at, apply_mask, length_field, build_client_frame, build_client_binary_frame,
  parse_frame, parsed, read_frame, done, max_alloc, max_frame_payload, write, write_loop,
  send_chunk, written, WriteOutcome,
}
use v2ray_e.Wire.WebSocket.Length.{opcode_kept, length_field-Reads}

mask_at-IsByte : (key : List ℕ) (i : ℕ) → AreBytes key → IsByte (mask_at key i)
unfolding mask_at
mask_at-IsByte [] i h = omega arith
mask_at-IsByte (k ∷ ks) zero h = h.0
mask_at-IsByte (k ∷ ks) (suc i) h = mask_at-IsByte ks i h.1

-- Unmasking takes the mask off again.
apply_mask_twice :
    (key : List ℕ) (i : ℕ) (bs : List ℕ)
    → AreBytes key
    → AreBytes bs
    → apply_mask key i (apply_mask key i bs) ≡ bs
unfolding apply_mask
apply_mask_twice key i [] hk hb = refl
apply_mask_twice key i (b ∷ bs) hk (hb, hbs) = rw (
  xor_twice b (mask_at key (i % 4)) hb (mask_at-IsByte key (i % 4) hk),
  apply_mask_twice key (i + 1) bs hk hbs,
)

length-apply_mask : (key : List ℕ) (i : ℕ) (bs : List ℕ) → length (apply_mask key i bs) ≡ length bs
unfolding apply_mask
length-apply_mask key i [] = refl
length-apply_mask key i (b ∷ bs) = omega (arith, length-apply_mask key (i + 1) bs)

abbrev pub layout : ℕ → List ℕ → List ℕ → List ℕ
layout opcode key payload =
    bit_or 0x80 (bit_and opcode 0x0f)
    ∷ (length_field (length payload) ++ (key ++ apply_mask key 0 payload))

pub parse_frame-layout :
    (opcode : ℕ) (key payload rest : List ℕ)
    → opcode < 16
    → length key ≡ 4
    → AreBytes key
    → AreBytes payload
    → length payload ≤ max_alloc
    → parse_frame (layout opcode key payload ++ rest) ≡ parsed opcode payload rest
unfolding parse_frame
parse_frame-layout opcode key payload rest ho hk bk bp fits =
    let body = apply_mask key 0 payload in
    let (b, more, e, top, reads) =
      length_field-Reads (length payload) (key ++ (body ++ rest)) (omega arith) in
    let same_length : length payload ≡ length body = sym (length-apply_mask key 0 payload) in
    rw e (
      rw (append_assoc more (key ++ body) rest) (
        rw (append_assoc key body rest) (
          ground (
            arith,
            opcode_kept opcode ho,
            top,
            reads,
            read_full-append key (body ++ rest) 4 (sym hk),
            read_full-append body rest (length payload) same_length,
            apply_mask_twice key 0 payload bk bp,
          ))))

-- The random source holds bytes, and enough of them for k keys.
pub record HasKeys (k : ℕ) (random : List ℕ) : Type 0 where
  pub enough : 4 * k ≤ length random
  pub bytes : AreBytes random

HasKeys-drop : (k : ℕ) (random : List ℕ) → HasKeys (suc k) random → HasKeys k (drop 4 random)
HasKeys-drop k random h = record {
  enough = omega (arith, length-drop 4 random, h.enough);
  bytes = All-drop IsByte 4 random h.bytes;
}

-- With a key at hand a data frame is built, and it is the layout under that key.
build-layout :
    (payload random : List ℕ) (k : ℕ)
    → HasKeys (suc k) random
    → build_client_binary_frame payload random
      ≡ frame (layout 2 (take 4 random) payload) (drop 4 random)
unfolding build_client_binary_frame build_client_frame read_full
build-layout payload random k h = elim (Bool-cases (ltb 125 (length payload))) [
  | inl big ↦ rw big (ground (arith, h.enough))
  | inr small ↦ rw small (ground (arith, h.enough))
]

-- Each data frame that is built carries its payload, up to the largest buffer that can be made: the
-- reader gets back the opcode, the payload and the bytes that follow.
pub parse_frame-build_client_binary_frame :
    (payload random rest : List ℕ)
    → HasKeys 1 random
    → AreBytes payload
    → length payload ≤ max_alloc
    → (bytes : List ℕ) × (build_client_binary_frame payload random ≡ frame bytes (drop 4 random))
      × (parse_frame (bytes ++ rest) ≡ parsed 2 payload rest)
parse_frame-build_client_binary_frame payload random rest h hb fits = (
  layout 2 (take 4 random) payload,
  build-layout payload random 0 h,
  parse_frame-layout 2 (take 4 random) payload rest (omega arith)
      (length-take 4 random (omega (arith, h.enough))) (All-take IsByte 4 random h.bytes) hb fits,
)

-- The bytes are data frames, none empty and none above the limit, whose payloads make up p.
pub data Carries : List ℕ → List ℕ → Type 0 where
  nothing : Carries [] []
  one_more :
      {bytes rest chunk p : List ℕ}
      → parse_frame bytes ≡ parsed 2 chunk rest
      → 0 < length chunk
      → length chunk ≤ max_frame_payload
      → Carries rest p
      → Carries bytes (chunk ++ p)

send_chunk_lem :
    (chunk : List ℕ) (c : WsConn) (r : ℕ)
    → c.room ≡ suc r
    → HasKeys (suc r) c.random
    → send_chunk chunk c ≡ (
      none,
      record c {
        output = c.output ++ layout 2 (take 4 c.random) chunk;
        room = r;
        random = drop 4 c.random;
      },
    )
unfolding send_chunk
send_chunk_lem chunk c r e h = ground (arith, build-layout chunk c.random r h)

abbrev chunk_size : List ℕ → ℕ
chunk_size p = if ltb max_frame_payload (length p) then max_frame_payload else length p

chunk_size_bounds :
    (b : ℕ) (bs : List ℕ)
    → (0 < chunk_size (b ∷ bs))
      × (chunk_size (b ∷ bs) ≤ length (b ∷ bs))
      × (chunk_size (b ∷ bs) ≤ max_frame_payload)
      × ((length (b ∷ bs) ≤ chunk_size (b ∷ bs)) ⊎ (chunk_size (b ∷ bs) ≡ max_frame_payload))
chunk_size_bounds b bs = ground arith

-- The state behind one chunk.
abbrev sent : List ℕ → WsConn → WsConn
sent chunk c = record c {
  output = c.output ++ layout 2 (take 4 c.random) chunk;
  room = c.room - 1;
  random = drop 4 c.random;
}

record WritesAll (p : List ℕ) (c c' : WsConn) : Type 0 where
  bytes : List ℕ
  appended : c'.output ≡ c.output ++ bytes
  carried : Carries bytes p

WritesAll-sent :
    (n : ℕ) (p : List ℕ) (c c' : WsConn)
    → 0 < n
    → n ≤ length p
    → n ≤ max_frame_payload
    → AreBytes p
    → HasKeys 1 c.random
    → WritesAll (drop n p) (sent (take n p) c) c'
    → WritesAll p c c'
WritesAll-sent n p c c' pos le fits hb h w = record {
  bytes = layout 2 (take 4 c.random) (take n p) ++ w.bytes;
  appended = w.appended ∙ append_assoc c.output (layout 2 (take 4 c.random) (take n p)) w.bytes;
  carried =
      subst (λ q. Carries (layout 2 (take 4 c.random) (take n p) ++ w.bytes) q)
        (take-append-drop n p)
        (one_more
          (parse_frame-layout 2 (take 4 c.random) (take n p) w.bytes (omega arith)
            (length-take 4 c.random (omega (arith, h.enough))) (All-take IsByte 4 c.random h.bytes)
            (All-take IsByte n p hb) (omega (arith, length-take n p le)))
          (omega (arith, length-take n p le)) (omega (arith, length-take n p le)) w.carried);
}

write_loop_step :
    (fuel total : ℕ) (b : ℕ) (bs : List ℕ) (c c' : WsConn)
    → send_chunk (take (chunk_size (b ∷ bs)) (b ∷ bs)) c ≡ (none, c')
    → write_loop (suc fuel) total (b ∷ bs) c
      ≡ write_loop fuel (total + chunk_size (b ∷ bs)) (drop (chunk_size (b ∷ bs)) (b ∷ bs)) c'
unfolding write_loop
write_loop_step fuel total b bs c c' h = ground (arith, h)

write_loop-WritesAll :
    (fuel total : ℕ) (p : List ℕ) (c : WsConn)
    → length p ≤ fuel
    → length p ≤ max_frame_payload * c.room
    → HasKeys c.room c.random
    → AreBytes p
    → (c' : WsConn) × (write_loop fuel total p c ≡ (written (total + length p), c'))
      × WritesAll p c c'
unfolding write_loop
write_loop-WritesAll fuel total [] c hf hr hk hb = (
  c,
  ground arith,
  record { bytes = []; appended = sym (append-nil c.output); carried = nothing },
)
write_loop-WritesAll zero total (b ∷ bs) c hf hr hk hb = absurd (omega arith)
write_loop-WritesAll (suc fuel) total (b ∷ bs) c hf hr hk hb =
    let n = chunk_size (b ∷ bs) in
    let p = b ∷ bs in
    let (pos, le, fits, last) = chunk_size_bounds b bs in
    let r : c.room ≡ suc (c.room - 1) = omega arith in
    let keys : HasKeys (suc (c.room - 1)) c.random = rw r at hk in
    let (c', e, w) =
      write_loop-WritesAll fuel (total + n) (drop n p) (sent (take n p) c)
        (omega (arith, length-drop n p)) (omega (arith, length-drop n p))
        (HasKeys-drop (c.room - 1) c.random keys) (All-drop IsByte n p hb) in
    (
      c',
      write_loop_step fuel total b bs c (sent (take n p) c)
            (send_chunk_lem (take n p) c (c.room - 1) r keys)
          ∙ (e
              ∙ ap {B = WriteOutcome × WsConn} (λ (t : ℕ). (written t, c'))
                  (omega (arith, length-drop n p))),
      WritesAll-sent n p c c' pos le fits hb
          (record { enough = omega (arith, keys.enough); bytes = keys.bytes }) w,
    )

-- A write of p, of at most as many bytes as the connection has room for in frames of 16384 bytes,
-- with a key for each of them, reports that all of p is written, and appends to what was sent data
-- frames, none empty and none above 16384 bytes, that a peer reads as p.
pub write-Carries :
    (p : List ℕ) (c : WsConn)
    → length p ≤ max_frame_payload * c.room
    → HasKeys c.room c.random
    → AreBytes p
    → (c' : WsConn) × (bytes : List ℕ) × (write p c ≡ (written (length p), c'))
      × (c'.output ≡ c.output ++ bytes)
      × Carries bytes p
unfolding write
write-Carries p c hr hk hb =
    let (c', e, w) = write_loop-WritesAll (length p) 0 p c (omega arith) hr hk hb in
    (
      c',
      w.bytes,
      e ∙ ap {B = WriteOutcome × WsConn} (λ (t : ℕ). (written t, c')) (omega arith),
      w.appended,
      w.carried,
    )

-- Reading a data frame appends its payload to the buffer, and leaves the bytes behind it.
read_frame-data :
    (fuel : ℕ) (c : WsConn) (payload rest : List ℕ)
    → parse_frame c.input ≡ parsed 2 payload rest
    → read_frame (suc fuel) c ≡ (done, record c { input = rest; read_buf = c.read_buf ++ payload })
unfolding read_frame
read_frame-data fuel c payload rest h = rw (h, read_frame)
