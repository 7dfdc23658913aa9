-- ===== src/Wire/Socks/Address.antt =====
-- A target that is written as a SOCKS address is read back.
use mathlib.Core.Path.{subst}
use v2ray_e.Base.{
  ℕ, zero, suc, ◌+◌, ◌/◌, ◌^◌, ◌<◌, ◌≤◌, ◌≡◌, refl, sym, List, [], ◌∷◌, ◌++◌, none, some, arith,
  Option-cases, inl, inr, length, length-append, take, take-append, drop-append,
}
use v2ray_e.Base.Int.{ℤ, pos, negsuc}
use v2ray_e.Base.Text.{Text, txt, atoi_value}
use v2ray_e.Base.Text.Decimal.{itoa, atoi-itoa}
use v2ray_e.Wire.Bytes.{byte, read_full-append}
use v2ray_e.Wire.BitOr.{bit_or_byte}
use v2ray_e.Wire.BigEndian.{two_bytes}
use v2ray_e.Wire.Socks.{
  Net, ipv4, ipv6, host_and_port, serialize_host, serialize_socks_addr, read_host_port,
  read_socks_addr, trim_brackets, port_of, port_in_range,
}

port_of-two_bytes : (port : ℕ) → port < 65536 → port_of (byte (port / 2 ^ 8)) (byte port) ≡ port
port_of-two_bytes port h =
    omega (arith, bit_or_byte (byte (port / 2 ^ 8)) (byte port) (omega arith))

port_in_range-lt : (z : ℤ) → port_in_range z < 65536
unfolding port_in_range
port_in_range-lt (pos n) = ground arith
port_in_range-lt (negsuc n) = omega arith

read_host_port-append :
    (bs rest : List ℕ) (n port : ℕ)
    → n ≡ length bs
    → port < 65536
    → read_host_port n ((bs ++ two_bytes port) ++ rest) ≡ some (bs, port, rest)
unfolding read_host_port
read_host_port-append bs rest n port h small =
    let whole : n + 2 ≡ length (bs ++ two_bytes port) =
      omega (arith, length-append bs (two_bytes port)) in
    ground (
      arith,
      h,
      read_full-append (bs ++ two_bytes port) rest (n + 2) whole,
      take-append bs (two_bytes port),
      drop-append bs (two_bytes port),
      port_of-two_bytes port small,
    )

length-take_le : (n : ℕ) (s : Text) → length (take n s) ≤ n
unfolding take
length-take_le zero s = omega arith
length-take_le (suc n) [] = omega arith
length-take_le (suc n) (c ∷ s) = omega (arith, length-take_le n s)

module _ (net : Net) where
  open net use {parse_ip, ip_string, join_host_port, split_host_port, ipv4-length, ipv6-length}

  -- The host as the other side writes it.
  pub host_written : Text → Text
  host_written host = elim (parse_ip host) [
    | some (ipv4 bs) ↦ ip_string bs
    | some (ipv6 bs) ↦ ip_string bs
    | none ↦ take 255 (trim_brackets host)
  ]

  pub host_and_port-lt : (target : Text) → (host_and_port net target).1 < 65536
  unfolding host_and_port
  host_and_port-lt target = elim (Option-cases (net.split_host_port target)) [
    | inl whole ↦ rw (whole, host_and_port) (port_in_range-lt (atoi_value (txt "80")))
    | inr ((host, port), e) ↦ rw (e, host_and_port) (port_in_range-lt (atoi_value port))
  ]

  -- The host and the port that a target names.
  pub data Names : Text → Text → ℕ → Type 0 where
    with_port :
        (target host : Text) (p : ℕ)
        → split_host_port target ≡ some (host, itoa p)
        → p < 65536
        → Names target host p
    port_too_large :
        (target host : Text) (p : ℕ)
        → split_host_port target ≡ some (host, itoa p)
        → 65535 < p
        → p < 2 ^ 63
        → Names target host 80
    without_port : (target : Text) → split_host_port target ≡ none → Names target target 80
    empty_port :
        (target host : Text) → split_host_port target ≡ some (host, []) → Names target host 0

  host_and_port-Names :
      (target host : Text) (port : ℕ)
      → Names target host port
      → host_and_port net target ≡ (host, port)
  unfolding host_and_port port_in_range atoi_value
  host_and_port-Names _ _ _ (with_port target host p e small) =
      let read = (atoi-itoa p (omega (arith, small))).1 in
      rw (e, host_and_port, read) (ground (arith, small))
  host_and_port-Names _ _ _ (port_too_large target host p e large fits) =
      let read = (atoi-itoa p fits).1 in rw (e, host_and_port, read) (ground (arith, large))
  host_and_port-Names _ _ _ (without_port target e) = rw (e, host_and_port) refl
  host_and_port-Names _ _ _ (empty_port target host e) = rw (e, host_and_port) refl

  read-serialize_host :
      (host : Text) (port : ℕ) (rest : List ℕ)
      → port < 65536
      → (atyp : ℕ) × (body : List ℕ) × (serialize_host net host port ≡ atyp ∷ body)
        × (read_socks_addr net atyp (body ++ rest)
            ≡ some (join_host_port (host_written host) (itoa port), rest))
  unfolding serialize_host read_socks_addr host_written
  read-serialize_host host port rest h = elim (Option-cases (parse_ip host)) [
    | inr (ipv4 bs, e) ↦ (
      1,
      bs ++ two_bytes port,
      ground (arith, e),
      ground (arith, e, read_host_port-append bs rest 4 port (sym (ipv4-length host bs e)) h),
    )
    | inr (ipv6 bs, e) ↦ (
      4,
      bs ++ two_bytes port,
      ground (arith, e),
      ground (arith, e, read_host_port-append bs rest 16 port (sym (ipv6-length host bs e)) h),
    )
    | inl named ↦
        let name = take 255 (trim_brackets host) in
        let short : byte (length name) ≡ length name =
          omega (arith, length-take_le 255 (trim_brackets host)) in
        (
          3,
          byte (length name) ∷ (name ++ two_bytes port),
          ground (arith, named),
          ground (arith, named, read_host_port-append name rest (byte (length name)) port short h),
        )
  ]

  -- The same in terms of what the writer takes for the host and the port.
  pub read_socks_addr-written :
      (target : Text) (rest : List ℕ)
      → (atyp : ℕ) × (body : List ℕ) × (serialize_socks_addr net target ≡ atyp ∷ body)
        × (read_socks_addr net atyp (body ++ rest)
            ≡ some (
              join_host_port
                  (host_written (host_and_port net target).0)
                  (itoa (host_and_port net target).1),
              rest,
            ))
  unfolding serialize_socks_addr
  read_socks_addr-written target rest =
      read-serialize_host ((host_and_port net target).0) ((host_and_port net target).1) rest
        (host_and_port-lt target)

  -- A target that is written as a SOCKS address is read back from it, whatever follows: an address by
  -- its text, a name by its first 255 bytes without brackets, with the port that the target names in
  -- decimal. The port is 80 where the target has none, or one above 65535 that an int holds, and 0 where
  -- it is empty.
  pub read_socks_addr-serialize :
      (target host : Text) (port : ℕ) (rest : List ℕ)
      → Names target host port
      → (atyp : ℕ) × (body : List ℕ) × (serialize_socks_addr net target ≡ atyp ∷ body)
        × (read_socks_addr net atyp (body ++ rest)
            ≡ some (join_host_port (host_written host) (itoa port), rest))
  read_socks_addr-serialize target host port rest n =
      let same = host_and_port-Names target host port n in
      subst
        (λ hp.
          (atyp : ℕ) × (body : List ℕ) × (serialize_socks_addr net target ≡ atyp ∷ body)
          × (read_socks_addr net atyp (body ++ rest)
              ≡ some (join_host_port (host_written (hp.0)) (itoa (hp.1)), rest)))
        same (read_socks_addr-written target rest)
