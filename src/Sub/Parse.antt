-- ===== src/Sub/Parse.antt =====
-- The parsers of sub_parse.go, one for each scheme. The identifier that `newProfileID` reads from the
-- clock is an argument; of an error it is kept that there is one.
use v2ray_e.Base.{
  true, not, ◌&&◌, ◌||◌, List, [], ◌∷◌, ◌++◌, Option, none, some, if◌then◌else◌, length, drop,
}
use v2ray_e.Base.Int.{ℤ}
use v2ray_e.Base.Text.{Text, txt, text_eq, has_prefix, trim_prefix, split, cut, atoi_value}
use v2ray_e.Domain.{
  ProfileItem, TransportConfig, empty_profile, empty_transport, vmess, vless, shadowsocks,
}
use v2ray_e.Sub.Uri.{
  Decoders, VMessJson, cut_last, parse_int_field, split_comma, decode_base64_loose,
}

abbrev pub or_else : Text → Text → Text
or_else [] s = s
or_else (c ∷ t) s = c ∷ t

-- `map[string]string{"Host": h}`, if there is a host.
abbrev pub host_headers : Text → List (Text × Text)
host_headers [] = []
host_headers (c ∷ h) = (txt "Host", c ∷ h) ∷ []

-- The values of the field `Host` by their commas.
abbrev host_parts : Text → List Text
host_parts [] = []
host_parts (c ∷ h) = split b',' (c ∷ h)

unfoldable pub vmess_transport : VMessJson → TransportConfig
unfolding split_comma
vmess_transport v =
    let network = or_else v.net (txt "tcp") in
    let plain = record empty_transport { network = network } in
    let base : TransportConfig =
      if text_eq v.tls (txt "tls")
      then record plain { tls = true; sni = v.sni; fingerprint = v.fp; alpn = split_comma v.alpn }
      else plain in
    if text_eq network (txt "ws")
    then record base { ws_path = v.path; ws_headers = host_headers v.host }
    else if text_eq network (txt "grpc")
    then record base { grpc_service_name = v.path }
    else if text_eq network (txt "h2")
    then record base { h2_path = v.path ∷ []; h2_host = host_parts v.host }
    else base

-- `strings.Replace(s, old, new, 1)`
unfoldable pub replace_first : Text → Text → Text → Text
replace_first [] old new = if has_prefix [] old then new else []
replace_first (c ∷ s) old new =
    let rest = c ∷ replace_first s old new in
    if has_prefix (c ∷ s) old then new ++ drop (length old) (c ∷ s) else rest

module _ (d : Decoders) where
  open d use {
    unmarshal, Url, parse_url, has_user, user_string, username, password, host, hostname, port_text,
    fragment, query_get, query_unescape,
  }

  -- `parseVMess`
  unfoldable pub parse_vmess : Text → Text → Text → Text → Option ProfileItem
  unfolding decode_base64_loose parse_int_field vmess_transport trim_prefix
  parse_vmess id uri sub_id sub_name =
      elim (decode_base64_loose d (trim_prefix uri (txt "vmess://"))) [
        | none ↦ none
        | some decoded ↦ elim (unmarshal decoded) [
          | none ↦ none
          | some v ↦ some (record empty_profile {
            id = id;
            name = v.ps;
            protocol = vmess;
            address = v.add;
            port = parse_int_field v.port;
            sub_id = sub_id;
            sub_name = sub_name;
            vmess_config =
                some (record { uuid = v.id; alter_id = parse_int_field v.aid; security = v.scy });
            transport = some (vmess_transport v);
          })
        ]
      ]

  -- The fragment, or else the host.
  abbrev pub url_name : Url → Text
  url_name u = or_else (query_unescape (fragment u)) (hostname u)

  abbrev pub url_port : Url → ℤ
  url_port u = atoi_value (port_text u)

  unfoldable pub vless_transport : Url → TransportConfig
  vless_transport u =
      let q = query_get u in
      let network = or_else (q (txt "type")) (txt "tcp") in
      let plain = record empty_transport { network = network } in
      let with_tls = record plain { tls = true; sni = q (txt "sni"); fingerprint = q (txt "fp") } in
      let base : TransportConfig =
        if text_eq (q (txt "security")) (txt "tls")
        then record with_tls { alpn = split_comma (q (txt "alpn")) }
        else if text_eq (q (txt "security")) (txt "reality")
        then record with_tls {
          reality_public_key = q (txt "pbk");
          reality_short_id = q (txt "sid");
        }
        else plain in
      if text_eq network (txt "ws")
      then record base { ws_path = q (txt "path"); ws_headers = host_headers (q (txt "host")) }
      else if text_eq network (txt "grpc")
      then record base {
        grpc_service_name = q (txt "serviceName");
        grpc_mode = if text_eq (q (txt "mode")) (txt "multi") then txt "multi" else [];
      }
      else if text_eq network (txt "xhttp") || text_eq network (txt "splithttp")
      then record base {
        network = txt "xhttp";
        ws_path = q (txt "path");
        ws_headers = host_headers (q (txt "host"));
      }
      else base

  -- `parseVLESS`
  unfoldable pub parse_vless : Text → Text → Text → Text → Option ProfileItem
  unfolding vless_transport
  parse_vless id uri sub_id sub_name = elim (parse_url uri) [
    | none ↦ none
    | some u ↦ some (record empty_profile {
      id = id;
      name = url_name u;
      protocol = vless;
      address = hostname u;
      port = url_port u;
      sub_id = sub_id;
      sub_name = sub_name;
      vless_config = some (record {
        uuid = username u;
        flow = query_get u (txt "flow");
        encryption = query_get u (txt "encryption");
      });
      transport = some (vless_transport u);
    })
  ]

  unfoldable pub shadowsocks_profile :
      Text → Text → Text → Text → Text → ℤ → Text → Text → ProfileItem
  shadowsocks_profile id sub_id sub_name name address port method secret = record empty_profile {
    id = id;
    name = or_else name address;
    protocol = shadowsocks;
    address = address;
    port = port;
    sub_id = sub_id;
    sub_name = sub_name;
    shadowsocks_config =
        some (record { method = method; password = secret; plugin = []; plugin_opts = [] });
  }

  -- The text with what follows the last `#` as a name.
  unfoldable pub split_name : Text → Text × Text
  split_name s = elim (cut_last b'#' s) [
    | none ↦ (s, [])
    | some (before, after) ↦ (before, query_unescape after)
  ]

  -- SIP002: base64(method:password)@host:port.
  unfoldable pub shadowsocks_sip002 : Text → Text → Text → Text → Text → Option ProfileItem
  unfolding decode_base64_loose shadowsocks_profile
  shadowsocks_sip002 id sub_id sub_name name s = elim (parse_url (txt "ss://" ++ s)) [
    | none ↦ none
    | some u ↦
        let decoded : Text = elim (decode_base64_loose d (user_string u)) [
          | none ↦ user_string u
          | some t ↦ t
        ] in
        let profile : Option ProfileItem = elim (cut b':' decoded) [
          | none ↦ none
          | some (method, secret) ↦
              some (
                shadowsocks_profile id sub_id sub_name name (hostname u) (url_port u) method secret)
        ] in
        if has_user u && not (text_eq (host u) []) then profile else none
  ]

  -- base64(method:password@host:port)
  unfoldable pub shadowsocks_legacy : Text → Text → Text → Text → Text → Option ProfileItem
  unfolding decode_base64_loose shadowsocks_profile
  shadowsocks_legacy id sub_id sub_name name s = elim (decode_base64_loose d s) [
    | none ↦ none
    | some decoded ↦ elim (cut_last b'@' decoded) [
      | none ↦ none
      | some (credentials, host_part) ↦ elim (cut b':' credentials) [
        | none ↦ none
        | some (method, secret) ↦ elim (cut b':' host_part) [
          | none ↦
              some (
                shadowsocks_profile id sub_id sub_name name host_part (atoi_value []) method secret)
          | some (address, port) ↦
              some (
                shadowsocks_profile id sub_id sub_name name address (atoi_value port) method secret)
        ]
      ]
    ]
  ]

  -- `parseShadowsocks`
  unfoldable pub parse_shadowsocks : Text → Text → Text → Text → Option ProfileItem
  unfolding split_name shadowsocks_sip002 shadowsocks_legacy
  parse_shadowsocks id uri sub_id sub_name =
      let (s, name) = split_name (trim_prefix uri (txt "ss://")) in
      elim (shadowsocks_sip002 id sub_id sub_name name s) [
        | some p ↦ some p
        | none ↦ shadowsocks_legacy id sub_id sub_name name s
      ]
