-- ===== src/Sub/Content.antt =====
-- The other parsers of sub_parse.go, the choice between the schemes, and the lines of a subscription.
use v2ray_e.Base.{ℕ, ◌+◌, Bool, true, ◌||◌, List, [], ◌∷◌, Option, none, some, if◌then◌else◌}
use v2ray_e.Base.Int.{pos}
use v2ray_e.Base.Text.{Text, txt, text_eq, trim_space, has_prefix, to_lower, split}
use v2ray_e.Domain.{
  ProfileItem, TransportConfig, empty_profile, empty_transport, trojan, hysteria2, tuic,
}
use v2ray_e.Sub.Uri.{Decoders, split_comma, looks_like_uri_list, decode_base64_loose}
use v2ray_e.Sub.Parse.{
  or_else, host_headers, url_name, url_port, replace_first, parse_vmess, parse_vless,
  parse_shadowsocks,
}

-- A line that the loop passes over.
abbrev pub is_skipped : Text → Bool
is_skipped line = text_eq line [] || has_prefix line (txt "#") || has_prefix line (txt "//")

module _ (d : Decoders) where
  open d use {Url, parse_url, username, password, hostname, query_get}

  unfoldable pub trojan_transport : Url → TransportConfig
  trojan_transport u =
      let q = query_get u in
      let network = or_else (q (txt "type")) (txt "tcp") in
      let base : TransportConfig = record empty_transport {
        network = network;
        tls = true;
        sni = or_else (q (txt "sni")) (hostname u);
        fingerprint = q (txt "fp");
        skip_cert_verify =
            text_eq (q (txt "allowInsecure")) (txt "1")
            || text_eq (q (txt "allowInsecure")) (txt "true");
      } in
      if text_eq network (txt "ws")
      then record base { ws_path = q (txt "path"); ws_headers = host_headers (q (txt "host")) }
      else if text_eq network (txt "grpc")
      then record base { grpc_service_name = q (txt "serviceName") }
      else base

  -- `parseTrojan`
  unfoldable pub parse_trojan : Text → Text → Text → Text → Option ProfileItem
  unfolding trojan_transport
  parse_trojan id uri sub_id sub_name = elim (parse_url uri) [
    | none ↦ none
    | some u ↦ some (record empty_profile {
      id = id;
      name = url_name d u;
      protocol = trojan;
      address = hostname u;
      port = url_port d u;
      sub_id = sub_id;
      sub_name = sub_name;
      trojan_config = some (record { password = username u });
      transport = some (trojan_transport u);
    })
  ]

  -- `parseHysteria2`
  unfoldable pub parse_hysteria2 : Text → Text → Text → Text → Option ProfileItem
  unfolding replace_first
  parse_hysteria2 id uri sub_id sub_name =
      elim (parse_url (replace_first uri (txt "hy2://") (txt "hysteria2://"))) [
        | none ↦ none
        | some u ↦
            let q = query_get u in
            some (record empty_profile {
              id = id;
              name = url_name d u;
              protocol = hysteria2;
              address = hostname u;
              port = url_port d u;
              sub_id = sub_id;
              sub_name = sub_name;
              hysteria2_config = some (record {
                password = username u;
                sni = q (txt "sni");
                insecure =
                    text_eq (q (txt "insecure")) (txt "1")
                    || text_eq (q (txt "insecure")) (txt "true");
                up_mbps = pos 0;
                down_mbps = pos 0;
                obfs = q (txt "obfs");
                obfs_password = q (txt "obfs-password");
              });
            })
      ]

  -- `parseTUIC`
  unfoldable pub parse_tuic : Text → Text → Text → Text → Option ProfileItem
  unfolding split_comma
  parse_tuic id uri sub_id sub_name = elim (parse_url uri) [
    | none ↦ none
    | some u ↦
        let q = query_get u in
        some (record empty_profile {
          id = id;
          name = url_name d u;
          protocol = tuic;
          address = hostname u;
          port = url_port d u;
          sub_id = sub_id;
          sub_name = sub_name;
          tuic_config = some (record {
            uuid = username u;
            password = password u;
            congestion_control = q (txt "congestion_control");
            sni = q (txt "sni");
            insecure =
                text_eq (q (txt "allow_insecure")) (txt "1")
                || text_eq (q (txt "insecure")) (txt "1");
            alpn = split_comma (q (txt "alpn"));
          });
        })
  ]

  -- `ParseProfileURI`
  unfoldable pub parse_profile_uri : Text → Text → Text → Text → Option ProfileItem
  unfolding to_lower has_prefix
  parse_profile_uri id uri sub_id sub_name =
      let lower = to_lower uri in
      if has_prefix lower (txt "vmess://")
      then parse_vmess d id uri sub_id sub_name
      else if has_prefix lower (txt "vless://")
      then parse_vless d id uri sub_id sub_name
      else if has_prefix lower (txt "ss://")
      then parse_shadowsocks d id uri sub_id sub_name
      else if has_prefix lower (txt "trojan://")
      then parse_trojan id uri sub_id sub_name
      else if has_prefix lower (txt "hysteria2://") || has_prefix lower (txt "hy2://")
      then parse_hysteria2 id uri sub_id sub_name
      else if has_prefix lower (txt "tuic://")
      then parse_tuic id uri sub_id sub_name
      else none

  -- The loop over the lines; the i-th reading of the clock is the identifier at the i-th line.
  unfoldable pub parse_lines : (ℕ → Text) → ℕ → List Text → Text → Text → List ProfileItem
  parse_lines ids i [] sub_id sub_name = []
  parse_lines ids i (raw ∷ raws) sub_id sub_name =
      let rest = parse_lines ids (i + 1) raws sub_id sub_name in
      let line = trim_space raw in
      if is_skipped line
      then rest
      else elim (parse_profile_uri (ids i) line sub_id sub_name) [ none ↦ rest | some p ↦ p ∷ rest ]

  -- The list itself, or what it encodes.
  unfoldable pub decoded_content : Text → Text
  unfolding decode_base64_loose
  decoded_content content = elim (decode_base64_loose d content) [
    | none ↦ content
    | some decoded ↦ if looks_like_uri_list decoded then decoded else content
  ]

  -- `parseSubscriptionContent`
  unfoldable pub parse_subscription_content :
      (ℕ → Text) → Text → Text → Text → Option (List ProfileItem)
  unfolding parse_lines decoded_content split
  parse_subscription_content ids content sub_id sub_name =
      elim (parse_lines ids 0 (split 10 (decoded_content (trim_space content))) sub_id sub_name) [
        | [] ↦ none
        | p ∷ ps ↦ some (p ∷ ps)
      ]

  module _ (scheme : Url → Text) (download : Text → Text → Option Text) where
    -- `ParseSubscriptionURL`: the scheme is checked before `download`, the request and its body.
    unfoldable pub parse_subscription_url :
        (ℕ → Text) → Text → Text → Text → Text → Option (List ProfileItem)
    unfolding parse_subscription_content
    parse_subscription_url ids sub_url user_agent sub_id sub_name =
        let body = download sub_url (or_else user_agent (txt "v2rayN/7.x")) in
        let profiles : Option (List ProfileItem) = elim body [
          | none ↦ none
          | some content ↦ parse_subscription_content ids content sub_id sub_name
        ] in
        elim (parse_url sub_url) [
          | none ↦ none
          | some u ↦
              if text_eq (scheme u) (txt "http") || text_eq (scheme u) (txt "https")
              then profiles
              else none
        ]
