-- ===== src/Sub/Tests.antt =====
-- Runs of the theorems on the subscription parser at small inputs.
use v2ray_e.Base.{
  ℕ, ◌≡◌, ◌≢◌, refl, true, [], ◌∷◌, ◌++◌, Option, none, some, Bool-cases, inl, inr, if◌then◌else◌,
  All,
}
use v2ray_e.Base.Text.{Text, txt, trim_space, to_lower, has_prefix, text_eq, text_eq_iff}
use v2ray_e.Domain.{ProfileItem, empty_profile}
use v2ray_e.Sub.Uri.{Decoders}
use v2ray_e.Sub.Parse.{parse_vless}
use v2ray_e.Sub.Content.{
  parse_trojan, parse_hysteria2, parse_tuic, parse_profile_uri, parse_subscription_content,
}
use v2ray_e.Sub.Profiles.{IsImported, parse_profile_uri-IsImported}
use v2ray_e.Sub.Lines.{
  IsOwn, parse_subscription_content-IsOwn, RefusesColon, parse_profile_uri-capital_vmess,
}
use v2ray_e.Base.Text.Bytes.{has_byte}

-- Every URL names the same server; only one text is base64.
abbrev one_server : Decoders
one_server = record {
  base64 = λ e s. if text_eq s (txt "e30=") then some (txt "{}") else none;
  unmarshal = λ s. none;
  Url = Unit;
  parse_url = λ s. some tt;
  has_user = λ u. true;
  user_string = λ u. txt "secret";
  username = λ u. txt "secret";
  password = λ u. [];
  host = λ u. txt "example.org:443";
  hostname = λ u. txt "example.org";
  port_text = λ u. txt "443";
  fragment = λ u. [];
  query_get = λ u key. [];
  query_unescape = λ s. s;
}

abbrev uri : Text
uri = txt "trojan://secret@example.org:443"

abbrev or_empty : Option ProfileItem → ProfileItem
or_empty none = empty_profile
or_empty (some p) = p

server : ProfileItem
server = or_empty (parse_profile_uri one_server (txt "p1") uri (txt "s1") (txt "mine"))

uri-parses : parse_profile_uri one_server (txt "p1") uri (txt "s1") (txt "mine") ≡ some server
unfolding server parse_profile_uri to_lower has_prefix parse_trojan
uri-parses = refl

parse_profile_uri-IsImported_example : IsImported (txt "p1") (txt "s1") (txt "mine") server
parse_profile_uri-IsImported_example =
    parse_profile_uri-IsImported one_server (txt "p1") (txt "s1") (txt "mine") uri server uri-parses

abbrev ids : ℕ → Text
ids i = txt "p1"

content-parses :
    parse_subscription_content one_server ids uri (txt "s1") (txt "mine") ≡ some (server ∷ [])
unfolding parse_subscription_content trim_space has_prefix text_eq server parse_profile_uri to_lower
    parse_trojan
content-parses = refl

parse_subscription_content-IsOwn_example :
    ((server ∷ []) ≢ []) × All (IsOwn (txt "s1") (txt "mine")) (server ∷ [])
parse_subscription_content-IsOwn_example =
    parse_subscription_content-IsOwn one_server ids (txt "s1") (txt "mine") uri (server ∷ [])
      content-parses

one_server-RefusesColon : RefusesColon one_server
unfolding RefusesColon has_byte
one_server-RefusesColon e s h = elim (Bool-cases (text_eq s (txt "e30="))) [
  | inl same ↦ absurd (cc (rw ((text_eq_iff s (txt "e30=")).0 same, has_byte) at h))
  | inr other ↦ rw other
]

parse_profile_uri-capital_vmess_example :
    (parse_profile_uri one_server (txt "p1") (txt "VLESS://" ++ txt "e30=") [] []
      ≡ parse_vless one_server (txt "p1") (txt "VLESS://" ++ txt "e30=") [] [])
    × (parse_profile_uri one_server (txt "p1") (txt "TROJAN://" ++ txt "e30=") [] []
        ≡ parse_trojan one_server (txt "p1") (txt "TROJAN://" ++ txt "e30=") [] [])
    × (parse_profile_uri one_server (txt "p1") (txt "HYSTERIA2://" ++ txt "e30=") [] []
        ≡ parse_hysteria2 one_server (txt "p1") (txt "HYSTERIA2://" ++ txt "e30=") [] [])
    × (parse_profile_uri one_server (txt "p1") (txt "TUIC://" ++ txt "e30=") [] []
        ≡ parse_tuic one_server (txt "p1") (txt "TUIC://" ++ txt "e30=") [] [])
    × (parse_profile_uri one_server (txt "p1") (txt "VMESS://" ++ txt "e30=") [] [] ≡ none)
parse_profile_uri-capital_vmess_example =
    parse_profile_uri-capital_vmess one_server (txt "p1") (txt "e30=") [] [] one_server-RefusesColon
