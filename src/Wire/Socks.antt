-- ===== src/Wire/Socks.antt =====
-- SOCKS addresses and the handshake: serializeSocksAddr and the VLESS header of embedded_outbound.go,
-- readSOCKSAddr and handleSOCKSConn of embedded_core.go. What they call of `net` and `encoding/hex` is a
-- parameter.
pub mod Address
pub mod Handshake
pub mod Vless
use Prim.Native.Nat.{bit_or}
use mathlib.Core.List.{reverse}
use v2ray_e.Base.{
  ℕ, zero, suc, ◌+◌, ◌-◌, ◌*◌, ◌/◌, ◌%◌, ◌^◌, ◌<◌, ◌≤◌, ◌≡◌, ◌≢◌, ◌↔◌, ◌⊎◌, ◌∙◌, refl, sym, ap,
  Bool, true, false, not, ◌&&◌, ◌||◌, List, [], ◌∷◌, ◌++◌, map, Option, none, some, String, arith,
  ltb, leb, ◌==◌, ==_iff, ltb→lt, leb→le, Bool-cases, Option-cases, inl, inr, if◌then◌else◌, length,
  length-append, take, drop, take-append-drop, length-take, length-drop, take-append, drop-append,
  All, All-append, All-take, All-drop,
}
use v2ray_e.Base.Int.{ℤ, pos, negsuc}
use v2ray_e.Base.Text.{Text, txt, atoi_value, trim_space}
use v2ray_e.Base.Text.Decimal.{itoa}
use v2ray_e.Wire.Bytes.{byte, read_full}
use v2ray_e.Wire.BigEndian.{be_uint16, two_bytes}

-- `net.ParseIP` by its `To4` and `To16`.
pub data Ip : Type 0 where
  ipv4 ipv6 : List ℕ → Ip

-- The functions of `net` and `encoding/hex`. An IPv4 address has four bytes, an IPv6 address sixteen.
pub record Net : Type 0 where
  pub split_host_port : Text → Option (Text × Text)
  pub join_host_port : Text → Text → Text
  pub parse_ip : Text → Option Ip
  pub ip_string : List ℕ → Text
  pub decode_hex : Text → Option (List ℕ)
  pub ipv4-length : (t : Text) (bs : List ℕ) → parse_ip t ≡ some (ipv4 bs) → length bs ≡ 4
  pub ipv6-length : (t : Text) (bs : List ℕ) → parse_ip t ≡ some (ipv6 bs) → length bs ≡ 16

abbrev is_bracket : ℕ → Bool
is_bracket c = c == b'[' || c == b']'

unfoldable pub trim_brackets_left : Text → Text
trim_brackets_left [] = []
trim_brackets_left (c ∷ s) = let rest = trim_brackets_left s in if is_bracket c then rest else c ∷ s

-- `strings.Trim(host, "[]")`
unfoldable pub trim_brackets : Text → Text
unfolding trim_brackets_left
trim_brackets s = reverse (trim_brackets_left (reverse (trim_brackets_left s)))

-- `strings.ReplaceAll(s, "-", "")`
unfoldable pub without_dashes : Text → Text
without_dashes [] = []
without_dashes (c ∷ s) = let rest = without_dashes s in if c == b'-' then rest else c ∷ rest

-- The port in range, or else 80.
unfoldable pub port_in_range : ℤ → ℕ
port_in_range (negsuc n) = 80
port_in_range (pos n) = if ltb 65535 n then 80 else n

-- `int(hi)<<8 | int(lo)`
abbrev pub port_of : ℕ → ℕ → ℕ
port_of hi lo = bit_or (hi * 256) lo

-- The host bytes and the two bytes of the port behind them.
unfoldable pub read_host_port : ℕ → List ℕ → Option (List ℕ × ℕ × List ℕ)
unfolding read_full
read_host_port n input = elim (read_full (n + 2) input) [
  | none ↦ none
  | some (buf, rest) ↦ elim (drop n buf) [
    | hi ∷ lo ∷ [] ↦ some (take n buf, port_of hi lo, rest)
    | _ ↦ none
  ]
]

module _ (net : Net) where
  open net use {split_host_port, join_host_port, parse_ip, ip_string, decode_hex}

  -- The host and the port of a target, by `net.SplitHostPort`.
  unfoldable pub host_and_port : Text → Text × ℕ
  unfolding port_in_range atoi_value
  host_and_port target = elim (split_host_port target) [
    | none ↦ (target, port_in_range (atoi_value (txt "80")))
    | some (host, port) ↦ (host, port_in_range (atoi_value port))
  ]

  unfoldable pub serialize_host : Text → ℕ → List ℕ
  unfolding trim_brackets
  serialize_host host port = elim (parse_ip host) [
    | some (ipv4 bs) ↦ 1 ∷ (bs ++ two_bytes port)
    | some (ipv6 bs) ↦ 4 ∷ (bs ++ two_bytes port)
    | none ↦
        let name = take 255 (trim_brackets host) in
        3 ∷ byte (length name) ∷ (name ++ two_bytes port)
  ]

  -- `serializeSocksAddr`
  unfoldable pub serialize_socks_addr : Text → List ℕ
  unfolding host_and_port serialize_host
  serialize_socks_addr target = serialize_host ((host_and_port target).0) ((host_and_port target).1)

  -- `readSOCKSAddr`, with the bytes that are left.
  unfoldable pub read_socks_addr : ℕ → List ℕ → Option (Text × List ℕ)
  unfolding read_host_port
  read_socks_addr atyp input =
      let ip = λ (n : ℕ). (elim (read_host_port n input) as (λ _. Option (Text × List ℕ)) [
        | none ↦ none
        | some (bs, port, rest) ↦ some (join_host_port (ip_string bs) (itoa port), rest)
      ]) in
      let named : Option (Text × List ℕ) = elim input [
        | [] ↦ none
        | n ∷ input' ↦ elim (read_host_port n input') [
          | none ↦ none
          | some (bs, port, rest) ↦ some (join_host_port bs (itoa port), rest)
        ]
      ] in
      if atyp == 0x01
      then ip 4
      else if atyp == 0x03
      then named
      else if atyp == 0x04
      then ip 16
      else none
