-- ===== src/Wire/Socks/Handshake.antt =====
-- handleSOCKSConn of embedded_core.go up to the relay.
use v2ray_e.Base.{
  ℕ, ◌≡◌, refl, Bool, not, List, [], ◌∷◌, ◌++◌, none, some, arith, ◌==◌, if◌then◌else◌, length,
  take, drop,
}
use v2ray_e.Base.Text.{Text}
use v2ray_e.Base.Text.Decimal.{itoa}
use v2ray_e.Wire.Bytes.{read_full, read_full-append}
use v2ray_e.Wire.Socks.{Net, serialize_socks_addr, read_socks_addr, host_and_port}
use v2ray_e.Wire.Socks.Address.{read_socks_addr-written, host_written}

-- How a connection ends: closed, or joined with a target, with the bytes behind the request.
pub data Ending : Type 0 where
  closed : Ending
  relayed : Text → List ℕ → Ending

abbrev pub reply : ℕ → List ℕ
reply code = 5 ∷ code ∷ 0 ∷ 1 ∷ 0 ∷ 0 ∷ 0 ∷ 0 ∷ 0 ∷ 0 ∷ []

module _ (net : Net) (dial : Text → Bool) where
  -- The request behind the greeting, with what has been written.
  unfoldable pub handle_request : List ℕ → List ℕ → Ending × List ℕ
  unfolding read_full read_socks_addr
  handle_request input written = elim (read_full 4 input) [
    | none ↦ (closed, written)
    | some (head, rest) ↦ elim head [
      | version ∷ command ∷ reserved ∷ atyp ∷ [] ↦
          let answered : Ending × List ℕ = elim (read_socks_addr net atyp rest) [
            | none ↦ (closed, written ++ reply 8)
            | some (target, rest') ↦
                if dial target
                then (relayed target rest', written ++ reply 0)
                else (closed, written ++ reply 5)
          ] in
          if not (version == 5)
          then (closed, written)
          else if not (command == 1)
          then (closed, written ++ reply 7)
          else answered
      | _ ↦ (closed, written)
    ]
  ]

  -- `handleSOCKSConn`
  unfoldable pub handle_socks_conn : List ℕ → Ending × List ℕ
  unfolding read_full handle_request
  handle_socks_conn input = elim (read_full 2 input) [
    | none ↦ (closed, [])
    | some (head, rest) ↦ elim head [
      | version ∷ count ∷ [] ↦
          let greeted : Ending × List ℕ = elim (read_full count rest) [
            | none ↦ (closed, [])
            | some (methods, rest') ↦ handle_request rest' (5 ∷ 0 ∷ [])
          ] in
          if not (version == 5) then (closed, []) else greeted
      | _ ↦ (closed, [])
    ]
  ]

  -- A client that greets with any methods and asks for a connection to a target, written as a SOCKS
  -- address, is told that it succeeded and is joined with that target if it can be reached, and
  -- otherwise is refused; the bytes behind the request are left for the target.
  pub handle_socks_conn-serialize :
      (methods rest : List ℕ) (target : Text)
      → (reached : Text) × (reached
          ≡ net.join_host_port
              (host_written net (host_and_port net target).0)
              (itoa (host_and_port net target).1))
        × (atyp : ℕ) × (body : List ℕ) × (serialize_socks_addr net target ≡ atyp ∷ body)
        × (handle_socks_conn ((5 ∷ length methods ∷ methods) ++ ((5 ∷ 1 ∷ 0 ∷ atyp ∷ body) ++ rest))
            ≡ (if dial reached
                then (relayed reached rest, (5 ∷ 0 ∷ []) ++ reply 0)
                else (closed, (5 ∷ 0 ∷ []) ++ reply 5)))
  unfolding handle_socks_conn handle_request read_full take drop
  handle_socks_conn-serialize methods rest target =
      let (atyp, body, written, read) = read_socks_addr-written net target rest in
      let greeting =
        read_full-append methods (5 ∷ 1 ∷ 0 ∷ atyp ∷ (body ++ rest)) (length methods) refl in
      (_, refl, atyp, body, written, ground (arith, read, greeting))
