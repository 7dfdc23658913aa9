-- ===== src/Wire/Shadowsocks/Stream.antt =====
-- What is written on a Shadowsocks stream is what the other end opens, chunk by chunk.
use mathlib.Core.Path.{subst}
use mathlib.Core.List.{append_assoc, append-nil}
use v2ray_e.Base.{
  ℕ, zero, suc, ◌+◌, ◌-◌, ◌*◌, ◌<◌, ◌≤◌, ◌≡◌, ◌⊎◌, ◌∙◌, sym, ap, true, false, List, [], ◌∷◌, ◌++◌,
  none, some, arith, ltb, if◌then◌else◌, length, take, drop, take-append-drop, length-take,
  length-drop,
}
use v2ray_e.Wire.Bytes.{read_full, read_full-append}
use v2ray_e.Wire.BigEndian.{two_bytes, be_uint16-bytes}
use v2ray_e.Wire.Shadowsocks.{
  Crypto, inc_nonce, SsResult, ok, Method, build_aead, SsConn, new_conn, init_decoder, open_chunk,
  send_chunk, write_loop, write, zeros,
}

module _ (crypto : Crypto) where
  open crypto use {Aead, overhead, nonce_size, seal, unseal, length-seal, unseal-seal}

  -- The bytes are chunks, none empty and none above the limit, sealed one after the other from the
  -- first nonce on, whose payloads make up p; the last nonce is the one after them.
  pub data Opens (a : Aead) : List ℕ → List ℕ → List ℕ → List ℕ → Type 0 where
    nothing : {nonce : List ℕ} → Opens a nonce [] [] nonce
    one_more :
        {nonce nonce' last bytes rest chunk p : List ℕ}
        → open_chunk crypto a nonce bytes ≡ ok (chunk, nonce', rest)
        → 0 < length chunk
        → length chunk ≤ 0x3fff
        → Opens a nonce' rest p last
        → Opens a nonce bytes (chunk ++ p) last

  abbrev sealed : Aead → List ℕ → List ℕ → List ℕ
  sealed a nonce chunk = seal a nonce (two_bytes (length chunk)) ++ seal a (inc_nonce nonce) chunk

  -- A sealed chunk of 1 to 65535 bytes opens to its payload, whatever follows it.
  open_chunk-sealed :
      (a : Aead) (nonce chunk rest : List ℕ)
      → 0 < length chunk
      → length chunk < 65536
      → open_chunk crypto a nonce (sealed a nonce chunk ++ rest)
        ≡ ok (chunk, inc_nonce (inc_nonce nonce), rest)
  unfolding open_chunk
  open_chunk-sealed a nonce chunk rest pos small =
      let head = seal a nonce (two_bytes (length chunk)) in
      let body = seal a (inc_nonce nonce) chunk in
      rw (append_assoc head body rest) (
        ground (
          arith,
          read_full-append head (body ++ rest) (2 + overhead a)
              (omega (arith, length-seal a nonce (two_bytes (length chunk)))),
          unseal-seal a nonce (two_bytes (length chunk)),
          be_uint16-bytes (length chunk) small,
          read_full-append body rest (length chunk + overhead a)
              (sym (length-seal a (inc_nonce nonce) chunk)),
          unseal-seal a (inc_nonce nonce) chunk,
        ))

  abbrev sent : List ℕ → SsConn crypto → SsConn crypto
  sent chunk c = record c {
    send_nonce = inc_nonce (inc_nonce c.send_nonce);
    output = c.output ++ sealed c.enc c.send_nonce chunk;
    room = c.room - 2;
  }

  send_chunk_lem :
      (chunk : List ℕ) (c : SsConn crypto)
      → 2 ≤ c.room
      → send_chunk crypto chunk c ≡ (true, sent chunk c)
  unfolding send_chunk
  send_chunk_lem chunk c h =
      let e : c.room ≡ suc (suc (c.room - 2)) = omega arith in
      ground (
        arith,
        e,
        append_assoc c.output (seal c.enc c.send_nonce (two_bytes (length chunk)))
            (seal c.enc (inc_nonce c.send_nonce) chunk),
      )

  abbrev chunk_size : List ℕ → ℕ
  chunk_size p = if ltb 0x3fff (length p) then 0x3fff else length p

  chunk_size_bounds :
      (b : ℕ) (bs : List ℕ)
      → (0 < chunk_size (b ∷ bs))
        × (chunk_size (b ∷ bs) ≤ length (b ∷ bs))
        × (chunk_size (b ∷ bs) ≤ 0x3fff)
        × ((length (b ∷ bs) ≤ chunk_size (b ∷ bs)) ⊎ (chunk_size (b ∷ bs) ≡ 0x3fff))
  chunk_size_bounds b bs = ground arith

  record WritesAll (p : List ℕ) (c c' : SsConn crypto) : Type 0 where
    bytes : List ℕ
    appended : c'.output ≡ c.output ++ bytes
    opened : Opens c.enc c.send_nonce bytes p c'.send_nonce

  WritesAll-sent :
      (n : ℕ) (p : List ℕ) (c c' : SsConn crypto)
      → 0 < n
      → n ≤ length p
      → n ≤ 0x3fff
      → WritesAll (drop n p) (sent (take n p) c) c'
      → WritesAll p c c'
  WritesAll-sent n p c c' pos le fits w = record {
    bytes = sealed c.enc c.send_nonce (take n p) ++ w.bytes;
    appended = w.appended ∙ append_assoc c.output (sealed c.enc c.send_nonce (take n p)) w.bytes;
    opened =
        subst
          (λ q.
            Opens c.enc c.send_nonce (sealed c.enc c.send_nonce (take n p) ++ w.bytes) q
              c'.send_nonce)
          (take-append-drop n p)
          (one_more
            (open_chunk-sealed c.enc c.send_nonce (take n p) w.bytes
              (omega (arith, length-take n p le)) (omega (arith, length-take n p le)))
            (omega (arith, length-take n p le)) (omega (arith, length-take n p le)) w.opened);
  }

  write_loop_step :
      (fuel total : ℕ) (b : ℕ) (bs : List ℕ) (c c' : SsConn crypto)
      → send_chunk crypto (take (chunk_size (b ∷ bs)) (b ∷ bs)) c ≡ (true, c')
      → write_loop crypto (suc fuel) total (b ∷ bs) c
        ≡ write_loop crypto fuel
            (total + chunk_size (b ∷ bs))
            (drop (chunk_size (b ∷ bs)) (b ∷ bs))
            c'
  unfolding write_loop
  write_loop_step fuel total b bs c c' h = ground (arith, h)

  write_loop-WritesAll :
      (fuel total k : ℕ) (p : List ℕ) (c : SsConn crypto)
      → length p ≤ fuel
      → length p ≤ 0x3fff * k
      → 2 * k ≤ c.room
      → (c' : SsConn crypto) × (write_loop crypto fuel total p c ≡ (ok (total + length p), c'))
        × WritesAll p c c'
  unfolding write_loop
  write_loop-WritesAll fuel total k [] c hf hp hr = (
    c,
    ground arith,
    record { bytes = []; appended = sym (append-nil c.output); opened = nothing },
  )
  write_loop-WritesAll zero total k (b ∷ bs) c hf hp hr = absurd (omega arith)
  write_loop-WritesAll (suc fuel) total k (b ∷ bs) c hf hp hr =
      let n = chunk_size (b ∷ bs) in
      let p = b ∷ bs in
      let (pos, le, fits, last) = chunk_size_bounds b bs in
      let (c', e, w) =
        write_loop-WritesAll fuel (total + n) (k - 1) (drop n p) (sent (take n p) c)
          (omega (arith, length-drop n p)) (omega (arith, length-drop n p)) (omega arith) in
      (
        c',
        write_loop_step fuel total b bs c (sent (take n p) c)
              (send_chunk_lem (take n p) c (omega arith))
            ∙ (e
                ∙ ap {B = SsResult ℕ × SsConn crypto} (λ (t : ℕ). (ok t, c'))
                    (omega (arith, length-drop n p))),
        WritesAll-sent n p c c' pos le fits w,
      )

  -- A write of p on a connection that has sent its salt, with room for two writes for each 16383
  -- bytes, reports all of p as written and appends chunks that open to p, from the nonce that the
  -- connection had to the nonce that it has then.
  write-Opens :
      (k : ℕ) (p : List ℕ) (c : SsConn crypto)
      → c.sent_salt ≡ true
      → length p ≤ 0x3fff * k
      → 2 * k ≤ c.room
      → (c' : SsConn crypto) × (bytes : List ℕ) × (write crypto p c ≡ (ok (length p), c'))
        × (c'.output ≡ c.output ++ bytes)
        × Opens c.enc c.send_nonce bytes p c'.send_nonce
  unfolding write
  write-Opens k p c salted hp hr =
      let (c', e, w) = write_loop-WritesAll (length p) 0 k p c (omega arith) hp hr in
      (c', w.bytes, ground (arith, salted, e), w.appended, w.opened)

  -- What a fresh connection writes first starts with its salt.
  write-fresh :
      (k : ℕ) (p : List ℕ) (c : SsConn crypto)
      → c.sent_salt ≡ false
      → length p ≤ 0x3fff * k
      → 2 * k < c.room
      → (c' : SsConn crypto) × (bytes : List ℕ) × (write crypto p c ≡ (ok (length p), c'))
        × (c'.output ≡ (c.output ++ c.send_salt) ++ bytes)
        × Opens c.enc c.send_nonce bytes p c'.send_nonce
  unfolding write
  write-fresh k p c salted hp hr =
      let r : c.room ≡ suc (c.room - 1) = omega arith in
      let (c', e, w) =
        write_loop-WritesAll (length p) 0 k p
          (record c { output = c.output ++ c.send_salt; room = c.room - 1; sent_salt = true })
          (omega arith) hp (omega arith) in
      (c', w.bytes, ground (arith, salted, r, e), w.appended, w.opened)

  -- What `newShadowsocksConn` makes.
  new_conn_lem :
      (m : Method) (master random input : List ℕ) (room : ℕ) (c : SsConn crypto)
      → new_conn crypto m master random input room ≡ ok c
      → (length c.send_salt ≡ length master)
        × (build_aead crypto m master c.send_salt ≡ ok c.enc)
        × (c.send_nonce ≡ zeros (nonce_size c.enc))
        × (c.sent_salt ≡ false)
        × (c.output ≡ [])
        × (c.room ≡ room)
  unfolding new_conn read_full
  new_conn_lem m master random input room c made =
      ground (arith, length-take (length master) random)

  init_decoder_lem :
      (salt bytes : List ℕ) (a : Aead) (peer : SsConn crypto)
      → peer.dec ≡ none
      → peer.key_len ≡ length salt
      → build_aead crypto peer.method peer.master salt ≡ ok a
      → init_decoder crypto (record peer { input = salt ++ bytes })
        ≡ ok (a, record peer { dec = some a; recv_nonce = zeros (nonce_size a); input = bytes })
  unfolding init_decoder
  init_decoder_lem salt bytes a peer hd hl hb =
      ground (arith, read_full-append salt bytes peer.key_len hl)

  -- The two ends of a stream agree: what a new connection of a client writes first, with room for
  -- it, is opened as p by a peer with the same method and master key that receives it. The peer
  -- takes the salt off, comes to the client's AEAD, and opens p from its first nonce on to the nonce
  -- that the client has after the write.
  pub write-init_decoder :
      (k : ℕ) (p : List ℕ) (m : Method) (master random input : List ℕ) (room : ℕ)
      (c peer : SsConn crypto)
      → new_conn crypto m master random input room ≡ ok c
      → length p ≤ 0x3fff * k
      → 2 * k < room
      → peer.method ≡ m
      → peer.master ≡ master
      → peer.key_len ≡ length master
      → peer.dec ≡ none
      → (c' peer' : SsConn crypto) × (write crypto p c ≡ (ok (length p), c'))
        × (init_decoder crypto (record peer { input = c'.output }) ≡ ok (c.enc, peer'))
        × Opens c.enc peer'.recv_nonce peer'.input p c'.send_nonce
  write-init_decoder k p m master random input room c peer made hp hr hm hk hl hd =
      let (long, built, zero_nonce, unsalted, empty, roomy) =
        new_conn_lem m master random input room c made in
      let (c', bytes, e, out, opened) = write-fresh k p c unsalted hp (omega arith) in
      let output : c'.output ≡ c.send_salt ++ bytes =
        out ∙ ap (λ o. (o ++ c.send_salt) ++ bytes) empty in
      (
        c',
        record peer { dec = some c.enc; recv_nonce = zeros (nonce_size c.enc); input = bytes },
        e,
        rw output
            (init_decoder_lem c.send_salt bytes c.enc peer hd (hl ∙ sym long) (rw (hm, hk) built)),
        rw (← zero_nonce) opened,
      )
