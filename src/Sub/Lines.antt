-- ===== src/Sub/Lines.antt =====
-- The lines of a subscription, and the schemes in capitals.
use mathlib.Core.Path.{subst}
use v2ray_e.Base.{
  ℕ, ◌+◌, ◌≡◌, ◌≢◌, refl, true, List, [], ◌∷◌, ◌++◌, Option, none, some, Bool-cases, Option-cases,
  inl, inr, All,
}
use v2ray_e.Base.Text.{Text, txt, trim_space, is_space, has_prefix, to_lower, split, trim_prefix}
use v2ray_e.Base.Text.Bytes.{has_byte, has_byte-trim_space}
use v2ray_e.Domain.{ProfileItem}
use v2ray_e.Sub.Uri.{
  Decoders, Encoding, std, url, raw_std, raw_url, decode_base64_loose, first_decoded,
}
use v2ray_e.Sub.Parse.{parse_vmess, parse_vless}
use v2ray_e.Sub.Content.{
  parse_profile_uri, parse_trojan, parse_hysteria2, parse_tuic, parse_lines, is_skipped,
  parse_subscription_content, decoded_content,
}
use v2ray_e.Sub.Profiles.{IsImported, parse_profile_uri-IsImported}

-- A profile that a parser has made at one reading of the clock.
pub record IsOwn (sub_id sub_name : Text) (p : ProfileItem) : Type 0 where
  pub id : Text
  pub imported : IsImported id sub_id sub_name p

module _ (d : Decoders) (ids : ℕ → Text) (sub_id sub_name : Text) where
  parse_lines-IsOwn :
      (i : ℕ) (raws : List Text)
      → All (IsOwn sub_id sub_name) (parse_lines d ids i raws sub_id sub_name)
  unfolding parse_lines
  parse_lines-IsOwn i [] = tt
  parse_lines-IsOwn i (raw ∷ raws) =
      let rest = parse_lines-IsOwn (i + 1) raws in
      let line = trim_space raw in
      elim (Bool-cases (is_skipped line)) [
        | inl skipped ↦ rw skipped rest
        | inr read ↦ elim (Option-cases (parse_profile_uri d (ids i) line sub_id sub_name)) [
          | inl bad ↦ rw (read, bad) rest
          | inr (p, e) ↦
              rw (read, e)
                (
                  record {
                    id = ids i;
                    imported = parse_profile_uri-IsImported d (ids i) sub_id sub_name line p e;
                  },
                  rest,
                )
        ]
      ]

  -- The profiles of a subscription that is read are its own: at least one, each with settings of its
  -- own protocol only and with the identifier and the name of the subscription.
  pub parse_subscription_content-IsOwn :
      (content : Text) (ps : List ProfileItem)
      → parse_subscription_content d ids content sub_id sub_name ≡ some ps
      → (ps ≢ []) × All (IsOwn sub_id sub_name) ps
  unfolding parse_subscription_content
  parse_subscription_content-IsOwn content ps h =
      by_list
        (parse_lines d ids 0 (split 10 (decoded_content d (trim_space content))) sub_id sub_name)
        (parse_lines-IsOwn 0 (split 10 (decoded_content d (trim_space content)))) h
    where
      by_list :
          (qs : List ProfileItem)
          → All (IsOwn sub_id sub_name) qs
          → elim qs as (λ _. Option (List ProfileItem)) [ [] ↦ none | p ∷ rs ↦ some (p ∷ rs) ]
            ≡ some ps
          → (ps ≢ []) × All (IsOwn sub_id sub_name) ps
      by_list [] k e = cc
      by_list (q ∷ qs) k e =
          let same : q ∷ qs ≡ ps = cc in (λ n. cc, subst (All (IsOwn sub_id sub_name)) same k)

-- No encoding has a colon.
unfoldable pub RefusesColon : Decoders → Type 0
unfolding has_byte
RefusesColon d = (e : Encoding) (s : Text) → has_byte b':' s ≡ true → d.base64 e s ≡ none

first_decoded-colon :
    (d : Decoders) (es : List Encoding) (s : Text)
    → RefusesColon d
    → has_byte b':' s ≡ true
    → first_decoded d es s ≡ none
unfolding first_decoded RefusesColon
first_decoded-colon d [] s h k = refl
first_decoded-colon d (e ∷ es) s h k = rw (h e s k, first_decoded) (first_decoded-colon d es s h k)

-- A scheme in capitals is recognised: a URI of each protocol but VMess and Shadowsocks goes to the parser
-- of its protocol. A VMess URI in capitals is never read, where no text with a colon is base64.
pub parse_profile_uri-capital_vmess :
    (d : Decoders) (id rest sub_id sub_name : Text)
    → RefusesColon d
    → (parse_profile_uri d id (txt "VLESS://" ++ rest) sub_id sub_name
        ≡ parse_vless d id (txt "VLESS://" ++ rest) sub_id sub_name)
      × (parse_profile_uri d id (txt "TROJAN://" ++ rest) sub_id sub_name
          ≡ parse_trojan d id (txt "TROJAN://" ++ rest) sub_id sub_name)
      × (parse_profile_uri d id (txt "HYSTERIA2://" ++ rest) sub_id sub_name
          ≡ parse_hysteria2 d id (txt "HYSTERIA2://" ++ rest) sub_id sub_name)
      × (parse_profile_uri d id (txt "TUIC://" ++ rest) sub_id sub_name
          ≡ parse_tuic d id (txt "TUIC://" ++ rest) sub_id sub_name)
      × (parse_profile_uri d id (txt "VMESS://" ++ rest) sub_id sub_name ≡ none)
unfolding parse_profile_uri parse_vmess trim_prefix decode_base64_loose has_prefix to_lower has_byte
    is_space
parse_profile_uri-capital_vmess d id rest sub_id sub_name h =
    let colon = has_byte-trim_space 58 (txt "VMESS://" ++ rest) refl in
    let refused : decode_base64_loose d (txt "VMESS://" ++ rest) ≡ none =
      first_decoded-colon d (std ∷ url ∷ raw_std ∷ raw_url ∷ [])
        (trim_space (txt "VMESS://" ++ rest)) h colon in
    (refl, refl, refl, refl, rw (refused, parse_profile_uri, parse_vmess))
