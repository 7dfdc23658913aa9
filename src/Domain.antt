-- ===== src/Domain.antt =====
-- The records of domain/types.go that describe a proxy server and a subscription. A pointer that may
-- be nil is an Option, a nil slice the empty list.
use v2ray_e.Base.{ℕ, Bool, false, List, [], Option, none}
use v2ray_e.Base.Int.{ℤ, pos}
use v2ray_e.Base.Text.{Text}

pub data Protocol : Type 0 where
  vmess vless shadowsocks trojan hysteria2 tuic : Protocol
  other : Text → Protocol

pub record VMessConfig : Type 0 where
  pub uuid : Text
  pub alter_id : ℤ
  pub security : Text

pub record VlessConfig : Type 0 where
  pub uuid : Text
  pub flow : Text
  pub encryption : Text

pub record ShadowsocksConfig : Type 0 where
  pub method : Text
  pub password : Text
  pub plugin : Text
  pub plugin_opts : Text

pub record TrojanConfig : Type 0 where
  pub password : Text

pub record Hysteria2Config : Type 0 where
  pub password : Text
  pub sni : Text
  pub insecure : Bool
  pub up_mbps : ℤ
  pub down_mbps : ℤ
  pub obfs : Text
  pub obfs_password : Text

pub record TuicConfig : Type 0 where
  pub uuid : Text
  pub password : Text
  pub congestion_control : Text
  pub sni : Text
  pub insecure : Bool
  pub alpn : List Text

pub record TransportConfig : Type 0 where
  pub network : Text
  pub ws_path : Text
  pub ws_headers : List (Text × Text)
  pub grpc_service_name : Text
  pub grpc_mode : Text
  pub h2_path : List Text
  pub h2_host : List Text
  pub tls : Bool
  pub sni : Text
  pub fingerprint : Text
  pub alpn : List Text
  pub skip_cert_verify : Bool
  pub reality_public_key : Text
  pub reality_short_id : Text

pub record ProfileItem : Type 0 where
  pub id : Text
  pub name : Text
  pub protocol : Protocol
  pub address : Text
  pub port : ℤ
  pub delay_ms : ℤ
  pub sub_id : Text
  pub sub_name : Text
  pub sort_order : ℤ
  pub vmess_config : Option VMessConfig
  pub vless_config : Option VlessConfig
  pub shadowsocks_config : Option ShadowsocksConfig
  pub trojan_config : Option TrojanConfig
  pub hysteria2_config : Option Hysteria2Config
  pub tuic_config : Option TuicConfig
  pub transport : Option TransportConfig

pub record SubscriptionItem : Type 0 where
  pub id : Text
  pub remarks : Text
  pub url : Text
  pub enabled : Bool
  pub user_agent : Text
  pub filter : Text
  pub convert_target : Text
  pub auto_update_minutes : ℤ
  pub updated_at : Text
  pub profile_count : ℕ

pub record SubscriptionUpsertRequest : Type 0 where
  pub remarks : Text
  pub url : Text
  pub enabled : Bool
  pub user_agent : Text
  pub filter : Text
  pub convert_target : Text
  pub auto_update_minutes : ℤ

-- The fields that a composite literal does not name.
abbrev pub empty_profile : ProfileItem
empty_profile = record {
  id = [];
  name = [];
  protocol = other [];
  address = [];
  port = pos 0;
  delay_ms = pos 0;
  sub_id = [];
  sub_name = [];
  sort_order = pos 0;
  vmess_config = none;
  vless_config = none;
  shadowsocks_config = none;
  trojan_config = none;
  hysteria2_config = none;
  tuic_config = none;
  transport = none;
}

abbrev pub empty_transport : TransportConfig
empty_transport = record {
  network = [];
  ws_path = [];
  ws_headers = [];
  grpc_service_name = [];
  grpc_mode = [];
  h2_path = [];
  h2_host = [];
  tls = false;
  sni = [];
  fingerprint = [];
  alpn = [];
  skip_cert_verify = false;
  reality_public_key = [];
  reality_short_id = [];
}
