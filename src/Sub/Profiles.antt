-- ===== src/Sub/Profiles.antt =====
-- What the parsers of sub_parse.go make: profiles of one protocol, with the identifiers given.
use v2ray_e.Base.{
  ◌≡◌, refl, Bool, true, false, not, ◌&&◌, ◌||◌, List, [], ◌∷◌, ◌++◌, Option, none, some,
  Option-cases, inl, inr, if◌then◌else◌,
}
use mathlib.Core.Path.{subst}
use v2ray_e.Base.Text.{Text, txt, text_eq, has_prefix, to_lower, trim_prefix, cut}
use v2ray_e.Domain.{ProfileItem, Protocol, vmess, vless, shadowsocks, trojan, hysteria2, tuic}
use v2ray_e.Sub.Uri.{Decoders, decode_base64_loose, cut_last}
use v2ray_e.Sub.Parse.{
  parse_vmess, parse_vless, parse_shadowsocks, shadowsocks_sip002, shadowsocks_legacy, split_name,
  replace_first, shadowsocks_profile, url_port,
}
use v2ray_e.Sub.Content.{parse_trojan, parse_hysteria2, parse_tuic, parse_profile_uri}

abbrev if_some {ℓ} : {A : Type ℓ} → Option A → Protocol → List Protocol
if_some none protocol = []
if_some (some a) protocol = protocol ∷ []

-- The protocols for which a profile has settings.
abbrev pub configured : ProfileItem → List Protocol
configured p =
    if_some p.vmess_config vmess
    ++ (if_some p.vless_config vless
        ++ (if_some p.shadowsocks_config shadowsocks
            ++ (if_some p.trojan_config trojan
                ++ (if_some p.hysteria2_config hysteria2 ++ if_some p.tuic_config tuic))))

abbrev pub has_transport : ProfileItem → Bool
has_transport p = elim p.transport [ none ↦ false | some t ↦ true ]

abbrev pub uses_transport : Protocol → Bool
uses_transport vmess = true
uses_transport vless = true
uses_transport trojan = true
uses_transport _ = false

-- A profile with the identifiers given and the settings of its own protocol only.
pub record IsImported (id sub_id sub_name : Text) (p : ProfileItem) : Type 0 where
  pub own_id : p.id ≡ id
  pub own_sub_id : p.sub_id ≡ sub_id
  pub own_sub_name : p.sub_name ≡ sub_name
  pub one_protocol : configured p ≡ p.protocol ∷ []
  pub transport_as_used : has_transport p ≡ uses_transport p.protocol

-- The property of the value, if there is one.
abbrev AllSome {ℓ κ} : {A : Type ℓ} → (A → Type κ) → Option A → Type κ
AllSome P none = Unit
AllSome P (some a) = P a

AllSome-apply {ℓ κ} :
    {A : Type ℓ} (P : A → Type κ) (o : Option A) (a : A) → AllSome P o → o ≡ some a → P a
AllSome-apply P none a h e = cc
AllSome-apply P (some b) a h e = let same : b ≡ a = cc in subst P same h

module _ (d : Decoders) (id sub_id sub_name : Text) where
  abbrev Good : Option ProfileItem → Type 0
  Good = AllSome (IsImported id sub_id sub_name)

  imported :
      {p : ProfileItem}
      → p.id ≡ id
      → p.sub_id ≡ sub_id
      → p.sub_name ≡ sub_name
      → configured p ≡ p.protocol ∷ []
      → has_transport p ≡ uses_transport p.protocol
      → IsImported id sub_id sub_name p
  imported own_id own_sub_id own_sub_name one_protocol transport_as_used = record {
    own_id = own_id;
    own_sub_id = own_sub_id;
    own_sub_name = own_sub_name;
    one_protocol = one_protocol;
    transport_as_used = transport_as_used;
  }

  parse_vmess-Good : (uri : Text) → Good (parse_vmess d id uri sub_id sub_name)
  unfolding parse_vmess
  parse_vmess-Good uri =
      elim (Option-cases (decode_base64_loose d (trim_prefix uri (txt "vmess://")))) [
        | inl bad ↦ rw (bad, parse_vmess) tt
        | inr (decoded, e) ↦ elim (Option-cases (d.unmarshal decoded)) [
          | inl bad ↦ rw (e, bad, parse_vmess) tt
          | inr (v, f) ↦ rw (e, f, parse_vmess) (imported refl refl refl refl refl)
        ]
      ]

  parse_vless-Good : (uri : Text) → Good (parse_vless d id uri sub_id sub_name)
  unfolding parse_vless
  parse_vless-Good uri = elim (Option-cases (d.parse_url uri)) [
    | inl bad ↦ rw (bad, parse_vless) tt
    | inr (u, e) ↦ rw (e, parse_vless) (imported refl refl refl refl refl)
  ]

  parse_trojan-Good : (uri : Text) → Good (parse_trojan d id uri sub_id sub_name)
  unfolding parse_trojan
  parse_trojan-Good uri = elim (Option-cases (d.parse_url uri)) [
    | inl bad ↦ rw (bad, parse_trojan) tt
    | inr (u, e) ↦ rw (e, parse_trojan) (imported refl refl refl refl refl)
  ]

  parse_hysteria2-Good : (uri : Text) → Good (parse_hysteria2 d id uri sub_id sub_name)
  unfolding parse_hysteria2
  parse_hysteria2-Good uri =
      elim (Option-cases (d.parse_url (replace_first uri (txt "hy2://") (txt "hysteria2://")))) [
        | inl bad ↦ rw (bad, parse_hysteria2) tt
        | inr (u, e) ↦ rw (e, parse_hysteria2) (imported refl refl refl refl refl)
      ]

  parse_tuic-Good : (uri : Text) → Good (parse_tuic d id uri sub_id sub_name)
  unfolding parse_tuic
  parse_tuic-Good uri = elim (Option-cases (d.parse_url uri)) [
    | inl bad ↦ rw (bad, parse_tuic) tt
    | inr (u, e) ↦ rw (e, parse_tuic) (imported refl refl refl refl refl)
  ]

  module _ (name s : Text) where
    sip002-Good : Good (shadowsocks_sip002 d id sub_id sub_name name s)
    unfolding shadowsocks_sip002 shadowsocks_profile
    sip002-Good = elim (Option-cases (d.parse_url (txt "ss://" ++ s))) [
      | inl bad ↦ rw (bad, shadowsocks_sip002) tt
      | inr (u, e) ↦
          rw (e, shadowsocks_sip002)
            (guarded (d.has_user u && not (text_eq (d.host u) [])) _ (
              by_parts
                (elim (decode_base64_loose d (d.user_string u)) [
                  | none ↦ d.user_string u
                  | some t ↦ t
                ])
                u))
    ]
      where
        guarded : (b : Bool) (o : Option ProfileItem) → Good o → Good (if b then o else none)
        guarded true o h = h
        guarded false o h = tt

        by_parts :
            (decoded : Text) (u : d.Url)
            → Good (elim (cut 58 decoded) [
              | none ↦ none
              | some (method, secret) ↦ some (
                  shadowsocks_profile d id sub_id sub_name name
                    (d.hostname u)
                    (url_port d u)
                    method
                    secret)
            ])
        by_parts decoded u = elim (Option-cases (cut 58 decoded)) [
          | inl bad ↦ rw bad tt
          | inr ((method, secret), e) ↦ rw e (imported refl refl refl refl refl)
        ]

    legacy-Good : Good (shadowsocks_legacy d id sub_id sub_name name s)
    unfolding shadowsocks_legacy shadowsocks_profile
    legacy-Good = elim (Option-cases (decode_base64_loose d s)) [
      | inl bad ↦ rw (bad, shadowsocks_legacy) tt
      | inr (decoded, e) ↦ elim (Option-cases (cut_last 64 decoded)) [
        | inl bad ↦ rw (e, bad, shadowsocks_legacy) tt
        | inr ((credentials, host_part), f) ↦ elim (Option-cases (cut 58 credentials)) [
          | inl bad ↦ rw (e, f, bad, shadowsocks_legacy) tt
          | inr ((method, secret), g) ↦ elim (Option-cases (cut 58 host_part)) [
            | inl bare ↦ rw (e, f, g, bare, shadowsocks_legacy) (imported refl refl refl refl refl)
            | inr ((address, port), h) ↦
                rw (e, f, g, h, shadowsocks_legacy) (imported refl refl refl refl refl)
          ]
        ]
      ]
    ]

  parse_shadowsocks-Good : (uri : Text) → Good (parse_shadowsocks d id uri sub_id sub_name)
  unfolding parse_shadowsocks
  parse_shadowsocks-Good uri =
      let parts = split_name d (trim_prefix uri (txt "ss://")) in
      otherwise _ _ (sip002-Good parts.1 parts.0) (legacy-Good parts.1 parts.0)
    where
      otherwise :
          (o o' : Option ProfileItem)
          → Good o
          → Good o'
          → Good (elim o [ some p ↦ some p | none ↦ o' ])
      otherwise none o' h k = k
      otherwise (some p) o' h k = h

  parse_profile_uri-Good : (uri : Text) → Good (parse_profile_uri d id uri sub_id sub_name)
  unfolding parse_profile_uri
  parse_profile_uri-Good uri =
      let lower = to_lower uri in
      choose (has_prefix lower (txt "vmess://")) _ _ (parse_vmess-Good uri) (
        choose (has_prefix lower (txt "vless://")) _ _ (parse_vless-Good uri) (
          choose (has_prefix lower (txt "ss://")) _ _ (parse_shadowsocks-Good uri) (
            choose (has_prefix lower (txt "trojan://")) _ _ (parse_trojan-Good uri) (
              choose (has_prefix lower (txt "hysteria2://") || has_prefix lower (txt "hy2://")) _ _
                (parse_hysteria2-Good uri)
                (choose (has_prefix lower (txt "tuic://")) _ _ (parse_tuic-Good uri) tt)))))
    where
      choose :
          (b : Bool) (o o' : Option ProfileItem) → Good o → Good o' → Good (if b then o else o')
      choose true o o' h k = h
      choose false o o' h k = k

-- A URI that is parsed gives a profile with settings of its own protocol only, with transport
-- settings exactly for VMess, VLESS and Trojan, and with the identifiers of its subscription.
pub parse_profile_uri-IsImported :
    (d : Decoders) (id sub_id sub_name uri : Text) (p : ProfileItem)
    → parse_profile_uri d id uri sub_id sub_name ≡ some p
    → IsImported id sub_id sub_name p
parse_profile_uri-IsImported d id sub_id sub_name uri p h =
    AllSome-apply (IsImported id sub_id sub_name) _ p
      (parse_profile_uri-Good d id sub_id sub_name uri) h
