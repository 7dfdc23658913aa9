-- ===== src/Wire/Shadowsocks.antt =====
-- The Shadowsocks stream of backend-go/internal/service/native/embedded_outbound.go. AES-GCM and the
-- key derivation come from Go's crypto packages and are a parameter with their documented laws.
pub mod Nonce
pub mod Stream
use v2ray_e.Base.{
  ℕ, zero, suc, ◌+◌, ◌-◌, ◌*◌, ◌/◌, ◌%◌, ◌^◌, ◌<◌, ◌≤◌, ◌≡◌, ◌≢◌, ◌↔◌, ◌⊎◌, ◌∙◌, refl, sym, ap,
  Bool, true, false, not, ◌&&◌, ◌||◌, List, [], ◌∷◌, ◌++◌, map, Option, none, some, String, arith,
  ltb, leb, ◌==◌, ==_iff, ltb→lt, leb→le, Bool-cases, Option-cases, inl, inr, if◌then◌else◌, length,
  length-append, take, drop, take-append-drop, length-take, length-drop, take-append, drop-append,
  All, All-append, All-take, All-drop,
}
use v2ray_e.Wire.Bytes.{byte, read_full}
use v2ray_e.Wire.BigEndian.{be_uint16, two_bytes}

-- `incNonce`: a carry goes on to the next byte while a byte comes round to 0.
unfoldable pub inc_nonce : List ℕ → List ℕ
inc_nonce [] = []
inc_nonce (b ∷ bs) =
    let b' = byte (b + 1) in let carried = inc_nonce bs in if b' == 0 then b' ∷ carried else b' ∷ bs

-- `crypto/cipher` and `crypto/hkdf`: an AEAD for a key, its nonce size and overhead, `Seal` and
-- `Open`. What `Seal` makes is longer by the overhead, and `Open` under the same nonce undoes it.
pub record Crypto : Type 1 where
  pub Aead : Type 0
  pub hkdf_key : List ℕ → List ℕ → Option (List ℕ)
  pub new_gcm : List ℕ → Option Aead
  pub nonce_size : Aead → ℕ
  pub overhead : Aead → ℕ
  pub seal : Aead → List ℕ → List ℕ → List ℕ
  pub unseal : Aead → List ℕ → List ℕ → Option (List ℕ)
  pub length-seal :
      (a : Aead) (nonce plain : List ℕ) → length (seal a nonce plain) ≡ length plain + overhead a
  pub unseal-seal :
      (a : Aead) (nonce plain : List ℕ) → unseal a nonce (seal a nonce plain) ≡ some plain

pub data SsError : Type 0 where
  bad_key_length no_random bad_method short_read forged closed write_failed stuck : SsError

pub data SsResult {ℓ} (A : Type ℓ) : Type ℓ where
  ok : A → SsResult A
  err : SsError → SsResult A

pub data Method : Type 0 where
  aes_128_gcm aes_256_gcm other : Method

pub zeros : ℕ → List ℕ
zeros zero = []
zeros (suc n) = 0 ∷ zeros n

module _ (crypto : Crypto) where
  open crypto use {Aead, hkdf_key, new_gcm, nonce_size, overhead, seal, unseal}

  -- `aes.NewCipher(subkey[:n])` and `cipher.NewGCM`; the subkey has at least n bytes.
  gcm_of : Option Aead → SsResult Aead
  gcm_of none = err bad_method
  gcm_of (some a) = ok a

  unfoldable pub build_aead : Method → List ℕ → List ℕ → SsResult Aead
  unfolding gcm_of
  build_aead method master salt = elim (hkdf_key master salt) [
    | none ↦ err bad_method
    | some subkey ↦ elim method [
      | aes_128_gcm ↦ gcm_of (new_gcm (take 16 subkey))
      | aes_256_gcm ↦ gcm_of (new_gcm (take 32 subkey))
      | other ↦ err bad_method
    ]
  ]

  -- The connection: the keys and nonces of both directions, the peer's bytes, the bytes sent and
  -- the number of writes that the transport still takes.
  pub record SsConn : Type 0 where
    pub method : Method
    pub master : List ℕ
    pub key_len : ℕ
    pub enc : Aead
    pub dec : Option Aead
    pub send_salt : List ℕ
    pub send_nonce : List ℕ
    pub recv_nonce : List ℕ
    pub sent_salt : Bool
    pub read_buf : List ℕ
    pub input : List ℕ
    pub output : List ℕ
    pub room : ℕ

  -- `newShadowsocksConn` on a transport with `input` to come and `room` for writes.
  unfoldable pub new_conn : Method → List ℕ → List ℕ → List ℕ → ℕ → SsResult SsConn
  new_conn method master random input room =
      let key_len = length master in
      if not (key_len == 16) && not (key_len == 32)
      then err bad_key_length
      else elim (read_full key_len random) [
        | none ↦ err no_random
        | some (salt, _) ↦ elim (build_aead method master salt) [
          | err e ↦ err e
          | ok a ↦ ok (record {
            method = method;
            master = master;
            key_len = key_len;
            enc = a;
            dec = none;
            send_salt = salt;
            send_nonce = zeros (nonce_size a);
            recv_nonce = [];
            sent_salt = false;
            read_buf = [];
            input = input;
            output = [];
            room = room;
          })
        ]
      ]

  unfoldable pub conn_write : List ℕ → SsConn → Bool × SsConn
  conn_write bs c = elim c.room [
    | zero ↦ (false, c)
    | suc r ↦ (true, record c { output = c.output ++ bs; room = r })
  ]

  unfoldable pub init_decoder : SsConn → SsResult (Aead × SsConn)
  init_decoder c = elim c.dec [
    | some a ↦ ok (a, c)
    | none ↦ elim (read_full c.key_len c.input) [
      | none ↦ err short_read
      | some (salt, rest) ↦ elim (build_aead c.method c.master salt) [
        | err e ↦ err e
        | ok a ↦ ok (a, record c { dec = some a; recv_nonce = zeros (nonce_size a); input = rest })
      ]
    ]
  ]

  -- The frame of `readChunk` behind the decoder: the payload, the nonce after it and the bytes left.
  unfoldable pub open_chunk : Aead → List ℕ → List ℕ → SsResult (List ℕ × List ℕ × List ℕ)
  unfolding inc_nonce
  open_chunk a nonce input = elim (read_full (2 + overhead a) input) [
    | none ↦ err short_read
    | some (sealed_length, input') ↦ elim (unseal a nonce sealed_length) [
      | none ↦ err forged
      | some plain_length ↦
          let n = be_uint16 plain_length in
          if n == 0 then err closed else elim (read_full (n + overhead a) input') [
            | none ↦ err short_read
            | some (sealed, rest) ↦ elim (unseal a (inc_nonce nonce) sealed) [
              | none ↦ err forged
              | some plain ↦ ok (plain, inc_nonce (inc_nonce nonce), rest)
            ]
          ]
    ]
  ]

  unfoldable pub read_chunk : SsConn → SsResult SsConn
  unfolding init_decoder open_chunk
  read_chunk c = elim (init_decoder c) [
    | err e ↦ err e
    | ok (a, c') ↦ elim (open_chunk a c'.recv_nonce c'.input) [
      | err e ↦ err e
      | ok (plain, nonce, rest) ↦
          ok (record c' { read_buf = c'.read_buf ++ plain; recv_nonce = nonce; input = rest })
    ]
  ]

  abbrev pub max_chunk : ℕ
  max_chunk = 0x3fff

  -- What one round of the loop of `Write` puts on the wire: the sealed length and the sealed chunk.
  unfoldable pub sealed_length : SsConn → List ℕ → List ℕ
  sealed_length c chunk = seal c.enc c.send_nonce (two_bytes (length chunk))

  unfoldable pub sealed_chunk : SsConn → List ℕ → List ℕ
  sealed_chunk c chunk = seal c.enc (inc_nonce c.send_nonce) chunk

  -- Two nonces are spent, whether or not the writes succeed.
  unfoldable pub send_chunk : List ℕ → SsConn → Bool × SsConn
  unfolding inc_nonce conn_write sealed_length sealed_chunk
  send_chunk chunk c =
      let c1 = record c { send_nonce = inc_nonce (inc_nonce c.send_nonce) } in
      let (first, c2) = conn_write (sealed_length c chunk) c1 in
      if first then conn_write (sealed_chunk c chunk) c2 else (false, c2)

  -- The loop of `Write`; each round takes at least one byte off p.
  unfoldable pub write_loop : ℕ → ℕ → List ℕ → SsConn → SsResult ℕ × SsConn
  write_loop fuel total [] c = (ok total, c)
  write_loop zero total (b ∷ bs) c = (err stuck, c)
  write_loop (suc fuel) total (b ∷ bs) c =
      let p = b ∷ bs in
      let n = (if ltb max_chunk (length p) then max_chunk else length p) in
      let (sent, c') = send_chunk (take n p) c in
      let rest = write_loop fuel (total + n) (drop n p) c' in
      if sent then rest else (err write_failed, c')

  unfoldable pub write : List ℕ → SsConn → SsResult ℕ × SsConn
  unfolding write_loop send_chunk conn_write
  write p c =
      if c.sent_salt
      then write_loop (length p) 0 p c
      else let (sent, c') = conn_write c.send_salt c in
        if sent
        then write_loop (length p) 0 p (record c' { sent_salt = true })
        else (err write_failed, c')
