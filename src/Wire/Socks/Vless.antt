-- ===== src/Wire/Socks/Vless.antt =====
-- The identifier and the request header of VLESS, in embedded_outbound.go.
use v2ray_e.Base.{
  ℕ, ◌-◌, ◌≡◌, not, List, ◌∷◌, ◌++◌, Option, none, some, arith, ◌==◌, Option-cases, inl, inr,
  if◌then◌else◌, length, length-append, take, drop, take-append, drop-append,
}
use v2ray_e.Base.Text.{Text, trim_space}
use v2ray_e.Wire.BigEndian.{be_uint16, two_bytes, be_uint16-bytes}
use v2ray_e.Wire.Socks.{
  Net, ipv4, ipv6, serialize_host, serialize_socks_addr, without_dashes, host_and_port,
  trim_brackets,
}
use v2ray_e.Wire.Socks.Address.{host_and_port-lt}
use v2ray_e.Wire.Bytes.{byte}

module _ (net : Net) where
  open net use {decode_hex, parse_ip}

  -- `parseUUIDBytes`
  unfoldable pub parse_uuid_bytes : Text → Option (List ℕ)
  unfolding without_dashes trim_space
  parse_uuid_bytes raw =
      let s = without_dashes (trim_space raw) in
      let decoded : Option (List ℕ) = elim (decode_hex s) [
        | none ↦ none
        | some b ↦ if not (length b == 16) then none else some b
      ] in
      if not (length s == 32) then none else decoded

  -- `buildVLESSRequestHeader`
  unfoldable pub build_vless_request_header : List ℕ → Text → Option (List ℕ)
  unfolding serialize_socks_addr be_uint16
  build_vless_request_header uuid target =
      let addr = serialize_socks_addr net target in
      let port = be_uint16 (drop (length addr - 2) addr) in
      if not (length uuid == 16)
      then none
      else some (0 ∷ (uuid ++ (0 ∷ 1 ∷ (two_bytes port ++ take (length addr - 2) addr))))

  serialize_host-ends :
      (host : Text) (port : ℕ)
      → (front : List ℕ) × (serialize_host net host port ≡ front ++ two_bytes port)
  unfolding serialize_host
  serialize_host-ends host port = elim (Option-cases (parse_ip host)) [
    | inr (ipv4 bs, e) ↦ (1 ∷ bs, ground (arith, e))
    | inr (ipv6 bs, e) ↦ (4 ∷ bs, ground (arith, e))
    | inl named ↦
        let name = take 255 (trim_brackets host) in
        (3 ∷ byte (length name) ∷ name, ground (arith, named))
  ]

  -- The request header of VLESS holds the identifier of 16 bytes, the command to connect, and the
  -- SOCKS address of the target with its port moved to the front.
  pub build_vless_request_header-moves_port :
      (uuid : List ℕ) (target : Text)
      → length uuid ≡ 16
      → (front : List ℕ) × (serialize_socks_addr net target
          ≡ front ++ two_bytes (host_and_port net target).1)
        × (build_vless_request_header uuid target
            ≡ some (0 ∷ (uuid ++ (0 ∷ 1 ∷ (two_bytes (host_and_port net target).1 ++ front)))))
  unfolding build_vless_request_header serialize_socks_addr
  build_vless_request_header-moves_port uuid target h =
      let port = (host_and_port net target).1 in
      let (front, e) = serialize_host-ends (host_and_port net target).0 port in
      let before : length (front ++ two_bytes port) - 2 ≡ length front =
        omega (arith, length-append front (two_bytes port)) in
      (
        front,
        e,
        ground (
          arith,
          h,
          e,
          before,
          take-append front (two_bytes port),
          drop-append front (two_bytes port),
          be_uint16-bytes port (host_and_port-lt net target),
        ),
      )
