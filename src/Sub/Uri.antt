-- ===== src/Sub/Uri.antt =====
-- The small helpers of sub_parse.go, and what it calls of Go's libraries.
use v2ray_e.Base.{ℕ, Bool, false, ◌||◌, List, [], ◌∷◌, Option, none, some, ◌==◌, if◌then◌else◌}
use v2ray_e.Base.Int.{ℤ, pos}
use v2ray_e.Base.Text.{Text, txt, text_eq, trim_space, contains, split, atoi_value}

-- The value of an `interface{}` that `json.Unmarshal` fills, or another caller: a float by its
-- conversion to int, a json.Number by its `Int64`.
pub data JsonField : Type 0 where
  int_field float64_field : ℤ → JsonField
  string_field : Text → JsonField
  number_field : ℤ → JsonField
  other_field : JsonField

-- The anonymous struct of `parseVMess`.
pub record VMessJson : Type 0 where
  pub ps : Text
  pub add : Text
  pub port : JsonField
  pub id : Text
  pub aid : JsonField
  pub scy : Text
  pub net : Text
  pub host : Text
  pub path : Text
  pub tls : Text
  pub sni : Text
  pub alpn : Text
  pub fp : Text

-- The four encodings in the order in which they are tried.
pub data Encoding : Type 0 where
  std url raw_std raw_url : Encoding

pub record Decoders : Type 1 where
  pub base64 : Encoding → Text → Option Text
  pub unmarshal : Text → Option VMessJson
  -- `url.Parse` and the methods of `*url.URL`.
  pub Url : Type 0
  pub parse_url : Text → Option Url
  pub has_user : Url → Bool
  pub user_string : Url → Text
  pub username : Url → Text
  pub password : Url → Text
  pub host : Url → Text
  pub hostname : Url → Text
  pub port_text : Url → Text
  pub fragment : Url → Text
  pub query_get : Url → Text → Text
  -- `url.QueryUnescape`, with the empty text on an error.
  pub query_unescape : Text → Text

-- `strings.LastIndex` at one byte, as the text before and behind it.
unfoldable pub cut_last : ℕ → Text → Option (Text × Text)
cut_last sep [] = none
cut_last sep (c ∷ s) =
    let rest = cut_last sep s in
    elim rest [ some (a, b) ↦ some (c ∷ a, b) | none ↦ if c == sep then some ([], s) else none ]

-- `parseIntField`
unfoldable pub parse_int_field : JsonField → ℤ
unfolding atoi_value
parse_int_field (int_field n) = n
parse_int_field (float64_field n) = n
parse_int_field (string_field s) = atoi_value s
parse_int_field (number_field n) = n
parse_int_field other_field = pos 0

unfoldable pub trimmed_parts : List Text → List Text
trimmed_parts [] = []
trimmed_parts (p ∷ ps) =
    let rest = trimmed_parts ps in if text_eq (trim_space p) [] then rest else trim_space p ∷ rest

-- `splitComma`
unfoldable pub split_comma : Text → List Text
unfolding trimmed_parts
split_comma s = if text_eq s [] then [] else trimmed_parts (split b',' s)

abbrev any_contained : Text → List Text → Bool
any_contained s [] = false
any_contained s (p ∷ ps) = contains s p || any_contained s ps

-- `looksLikeURIList`
unfoldable pub looks_like_uri_list : Text → Bool
looks_like_uri_list s = any_contained s (
    txt "vmess://"
    ∷ txt "vless://"
    ∷ txt "ss://"
    ∷ txt "trojan://"
    ∷ txt "hysteria2://"
    ∷ txt "hy2://"
    ∷ txt "tuic://"
    ∷ [])

module _ (d : Decoders) where
  open d use {base64}

  unfoldable pub first_decoded : List Encoding → Text → Option Text
  first_decoded [] s = none
  first_decoded (e ∷ es) s = elim (base64 e s) [ some b ↦ some b | none ↦ first_decoded es s ]

  -- `decodeBase64Loose`
  unfoldable pub decode_base64_loose : Text → Option Text
  unfolding first_decoded
  decode_base64_loose s = first_decoded (std ∷ url ∷ raw_std ∷ raw_url ∷ []) (trim_space s)
