-- ===== src/Wire/Tests.antt =====
-- Runs of the theorems on the wire formats at small inputs.
use v2ray_e.Base.{
  Option, if◌then◌else◌, ℕ, ◌+◌, ◌-◌, ◌%◌, ◌^◌, ◌≡◌, ◌≢◌, refl, ap, true, false, List, [], ◌∷◌,
  ◌++◌, none, some, arith, length, length-append, take, drop, take-append,
}
use v2ray_e.Wire.Bytes.{read_full}
use v2ray_e.Base.Text.{Text, txt, text_eq}
use v2ray_e.Base.Text.Decimal.{itoa}
use v2ray_e.Wire.BigEndian.{two_bytes}
use v2ray_e.Wire.Socks.{Net, Ip, ipv4, ipv6, host_and_port, serialize_socks_addr, read_socks_addr}
use v2ray_e.Wire.Socks.Address.{without_port, host_written, read_socks_addr-serialize}
use v2ray_e.Wire.Socks.Handshake.{
  closed, relayed, reply, handle_socks_conn, handle_socks_conn-serialize,
}
use v2ray_e.Wire.Socks.Vless.{build_vless_request_header, build_vless_request_header-moves_port}
use v2ray_e.Wire.WebSocket.{
  WsConn, frame, build_client_binary_frame, parse_frame, parsed, write as ws_write, written,
  read_frame, read, eof, crashed, out_of_fuel, be_bytes,
}
use v2ray_e.Wire.WebSocket.RoundTrip.{
  HasKeys, Carries, parse_frame-build_client_binary_frame, write-Carries,
}
use v2ray_e.Wire.WebSocket.Reading.{
  read_frame_ends, read_frame-ping, read-empty_data_frame, read_frame-crashes,
}
use v2ray_e.Wire.Shadowsocks.{
  Crypto, SsConn, ok, aes_128_gcm, inc_nonce, write, init_decoder, new_conn, build_aead, zeros,
}
use v2ray_e.Wire.Shadowsocks.Nonce.{inc_nonce-counts, inc_nonces, inc_nonces-ne, nonce_value}
use v2ray_e.Wire.Shadowsocks.Stream.{Opens, write-init_decoder}

abbrev four_bytes : List ℕ
four_bytes = 1 ∷ 2 ∷ 3 ∷ 4 ∷ []

abbrev greeting : List ℕ
greeting = 104 ∷ 105 ∷ []

abbrev ping : List ℕ
ping = 0x89 ∷ 1 ∷ 7 ∷ []

abbrev ping_code : ℕ
ping_code = 9

abbrev quiet : WsConn
quiet = record {
  input = [];
  output = [];
  room = 2;
  random = 1 ∷ 2 ∷ 3 ∷ 4 ∷ 5 ∷ 6 ∷ 7 ∷ 8 ∷ [];
  read_buf = [];
}

one_key : HasKeys 1 four_bytes
one_key = record { enough = omega arith; bytes = ground arith }

two_keys : HasKeys 2 quiet.random
two_keys = record { enough = omega arith; bytes = ground arith }

first_key : HasKeys 1 quiet.random
first_key = record { enough = omega arith; bytes = ground arith }

parse_frame-build_client_binary_frame_example :
    (bytes : List ℕ) × (build_client_binary_frame greeting four_bytes
      ≡ frame bytes (drop 4 four_bytes))
    × (parse_frame (bytes ++ ping) ≡ parsed 2 greeting ping)
parse_frame-build_client_binary_frame_example =
    parse_frame-build_client_binary_frame greeting four_bytes ping one_key (ground arith)
      (omega arith)

write-Carries_example :
    (c' : WsConn) × (bytes : List ℕ) × (ws_write greeting quiet ≡ (written (length greeting), c'))
    × (c'.output ≡ quiet.output ++ bytes)
    × Carries bytes greeting
write-Carries_example = write-Carries greeting quiet (omega arith) two_keys (ground arith)

read_frame_ends_example : (read_frame 4 (record quiet { input = ping })).0 ≢ out_of_fuel
read_frame_ends_example = read_frame_ends 4 (record quiet { input = ping }) (omega arith)

read_frame-ping_example :
    (pong : List ℕ) × (read_frame 2 (record quiet { input = ping })
      ≡ read_frame 1 (record quiet {
        input = [];
        output = [] ++ pong;
        room = 1;
        random = drop 4 quiet.random;
      }))
    × ((more : List ℕ) → parse_frame (pong ++ more) ≡ parsed 10 (7 ∷ []) more)
unfolding read_full take drop
read_frame-ping_example =
    read_frame-ping 1 1 (record quiet { input = ping }) (7 ∷ []) [] (unfold parse_frame in refl)
      (omega arith) (ground arith) refl first_key

read-empty_data_frame_example :
    read 1 8 (record quiet { input = 0x82 ∷ 0 ∷ ping }) ≡ (eof, [], record quiet { input = ping })
unfolding read_full take drop
read-empty_data_frame_example =
    read-empty_data_frame 0 8 (record quiet { input = 0x82 ∷ 0 ∷ ping }) ping refl
      (unfold parse_frame in refl) (omega arith)

abbrev huge : WsConn
huge = record quiet { input = 0x82 ∷ 0x7f ∷ (be_bytes 8 (2 ^ 63) ++ []) }

read_frame-crashes_example : read_frame 1 huge ≡ (crashed, huge)
read_frame-crashes_example = read_frame-crashes 0 (2 ^ 63) huge [] (omega arith) (omega arith) refl

inc_nonce-counts_example :
    (nonce_value (inc_nonce (255 ∷ 0 ∷ [])) ≡ (nonce_value (255 ∷ 0 ∷ []) + 1) % 256 ^ 2)
    × (length (inc_nonce (255 ∷ 0 ∷ [])) ≡ 2)
inc_nonce-counts_example = inc_nonce-counts (255 ∷ 0 ∷ []) (ground arith)

inc_nonces-ne_example : inc_nonces 1 (255 ∷ 0 ∷ []) ≢ inc_nonces 3 (255 ∷ 0 ∷ [])
unfolding nonce_value
inc_nonces-ne_example = inc_nonces-ne 1 3 (255 ∷ 0 ∷ []) (ground arith) (omega arith) (omega arith)

take_all_but_one : (plain : List ℕ) → take (length (plain ++ 0 ∷ []) - 1) (plain ++ 0 ∷ []) ≡ plain
take_all_but_one plain =
    let e : length (plain ++ 0 ∷ []) - 1 ≡ length plain =
      omega (arith, length-append plain (0 ∷ [])) in
    rw e (take-append plain (0 ∷ []))

abbrev sixteen_bytes : List ℕ
sixteen_bytes = four_bytes ++ (four_bytes ++ (four_bytes ++ four_bytes))

-- An AEAD that puts one byte behind the plain text.
abbrev pass_through : Crypto
pass_through = record {
  Aead = Unit;
  hkdf_key = λ master salt. some master;
  new_gcm = λ key. some tt;
  nonce_size = λ a. 12;
  overhead = λ a. 1;
  seal = λ a nonce plain. plain ++ 0 ∷ [];
  unseal = λ a nonce sealed. some (take (length sealed - 1) sealed);
  length-seal = λ a nonce plain. length-append plain (0 ∷ []);
  unseal-seal = λ a nonce plain. ap some (take_all_but_one plain);
}

abbrev client : SsConn pass_through
client = record {
  method = aes_128_gcm;
  master = sixteen_bytes;
  key_len = 16;
  enc = tt;
  dec = none;
  send_salt = sixteen_bytes;
  send_nonce = zeros 12;
  recv_nonce = [];
  sent_salt = false;
  read_buf = [];
  input = [];
  output = [];
  room = 3;
}

write-init_decoder_example :
    (c' peer' : SsConn pass_through) × (write pass_through greeting client ≡ (ok 2, c'))
    × (init_decoder pass_through (record client { input = c'.output }) ≡ ok (tt, peer'))
    × Opens pass_through tt peer'.recv_nonce peer'.input greeting c'.send_nonce
unfolding new_conn build_aead read_full take drop
write-init_decoder_example =
    write-init_decoder pass_through 1 greeting aes_128_gcm sixteen_bytes sixteen_bytes [] 3 client
      client refl (omega arith) (omega arith) refl refl refl refl

abbrev one_address : Text → Option Ip
one_address t = if text_eq t (txt "::1") then some (ipv6 sixteen_bytes) else none

one_address-ipv4 : (t : Text) (bs : List ℕ) → one_address t ≡ some (ipv4 bs) → length bs ≡ 4
one_address-ipv4 t bs h = ground arith

one_address-ipv6 : (t : Text) (bs : List ℕ) → one_address t ≡ some (ipv6 bs) → length bs ≡ 16
one_address-ipv6 t bs h = ground arith

abbrev no_names : Net
no_names = record {
  split_host_port = λ t. none;
  join_host_port = λ host port. host ++ txt ":" ++ port;
  parse_ip = one_address;
  ip_string = λ bs. txt "::1";
  decode_hex = λ t. none;
  ipv4-length = one_address-ipv4;
  ipv6-length = one_address-ipv6;
}

abbrev site : Text
site = txt "example.org"

read_socks_addr-serialize_example :
    (atyp : ℕ) × (body : List ℕ) × (serialize_socks_addr no_names site ≡ atyp ∷ body)
    × (read_socks_addr no_names atyp (body ++ greeting)
        ≡ some (no_names.join_host_port (host_written no_names site) (itoa 80), greeting))
read_socks_addr-serialize_example =
    read_socks_addr-serialize no_names site site 80 greeting (without_port site refl)

handle_socks_conn-serialize_example :
    (reached : Text) × (reached
      ≡ no_names.join_host_port
          (host_written no_names (host_and_port no_names site).0)
          (itoa (host_and_port no_names site).1))
    × (atyp : ℕ) × (body : List ℕ) × (serialize_socks_addr no_names site ≡ atyp ∷ body)
    × (handle_socks_conn no_names
          (λ t. true)
          ((5 ∷ 1 ∷ 0 ∷ []) ++ ((5 ∷ 1 ∷ 0 ∷ atyp ∷ body) ++ greeting))
        ≡ (if true
            then (relayed reached greeting, (5 ∷ 0 ∷ []) ++ reply 0)
            else (closed, (5 ∷ 0 ∷ []) ++ reply 5)))
handle_socks_conn-serialize_example =
    handle_socks_conn-serialize no_names (λ t. true) (0 ∷ []) greeting site

build_vless_request_header-moves_port_example :
    (front : List ℕ) × (serialize_socks_addr no_names site
      ≡ front ++ two_bytes (host_and_port no_names site).1)
    × (build_vless_request_header no_names sixteen_bytes site
        ≡ some
            (0 ∷ (sixteen_bytes ++ (0 ∷ 1 ∷ (two_bytes (host_and_port no_names site).1 ++ front)))))
build_vless_request_header-moves_port_example =
    build_vless_request_header-moves_port no_names sixteen_bytes site refl
