-- ===== src/XrayConfig.antt =====
-- internal/xrayconfig/view.go: the ordered inbound view of the xray config, and which inbounds the
-- panel manages. Every accessor of the source returns a copy; values are immutable here, so a copy
-- is the value.
pub mod RosterParse
pub mod BuildView
pub mod Jsonc
pub mod Render
use xform.Base.{
  String, Bool, true, ◌&&◌, ◌||◌, not, List, [], ◌∷◌, ◌==◌, string_eq, Eq, ◌↔◌, ◌≡◌, arith, eq_iff,
  if◌then◌else◌,
}
use xform.Base.Text.{CaseTables, to_upper, to_lower, equal_fold, has_prefix}
use Prim.Native.String.{◌++◌}

pub record InboundUser : Type 0 where
  pub email : String
  pub client_id : String
  pub flow : String
  pub reverse : Bool

pub record HttpTransportSettings : Type 0 where
  pub path : String
  pub host : String

pub record GrpcTransportSettings : Type 0 where
  pub service_name : String
  pub authority : String
  pub multi_mode : Bool

pub record XhttpTransportSettings : Type 0 where
  pub path : String
  pub host : String
  pub mode : String
  pub extra_configured : Bool

pub record TransportSettings : Type 0 where
  pub kind : String
  pub raw_header_configured : Bool
  pub raw_header_type : String
  pub final_mask_configured : Bool
  pub web_socket : HttpTransportSettings
  pub http_upgrade : HttpTransportSettings
  pub grpc : GrpcTransportSettings
  pub xhttp : XhttpTransportSettings

pub record TlsSettings : Type 0 where
  pub server_name : String
  pub reject_unknown_sni : Bool
  pub alpn : List String

pub record RealitySettings : Type 0 where
  pub server_names : List String
  pub short_ids : List String

pub record SecuritySettings : Type 0 where
  pub kind : String
  pub tls : TlsSettings
  pub reality : RealitySettings

pub record Inbound : Type 0 where
  pub tag : String
  pub protocol : String
  pub port : String
  pub flow : String
  pub decryption : String
  pub transport : TransportSettings
  pub security : SecuritySettings
  pub users : List InboundUser

-- View.Inbounds()
abbrev pub View : Type 0
View = List Inbound

-- Managed reports whether the panel manages this inbound: tagged and VLESS.
unfoldable pub managed : CaseTables → Inbound → Bool
managed u inbound = not (inbound.tag == "") && equal_fold u inbound.protocol "vless"

vision_flow : SecuritySettings → TransportSettings → String
vision_flow security transport =
    if not (security.kind == "reality")
    then ""
    else if transport.kind == "tcp" || transport.kind == "raw"
    then "xtls-rprx-vision"
    else ""

flow_of : List InboundUser → String → String
flow_of [] otherwise = otherwise
flow_of (user ∷ users) otherwise = user.flow

unfoldable pub default_flow : Inbound → String
unfolding vision_flow flow_of
default_flow inbound = flow_of inbound.users (vision_flow inbound.security inbound.transport)

-- internal/xrayconfig/xrayconfig.go: the labels of the users table.
pub record Label : Type 0 where
  pub protocol : String
  pub security : String
  pub transport : String

-- TransportLabel
unfoldable pub transport_label : CaseTables → String → String
transport_label u network =
    let lowered = to_lower u network in
    if lowered == "" || lowered == "tcp" || lowered == "raw"
    then "tcp"
    else if lowered == "splithttp"
    then "xhttp"
    else lowered

-- runes[0] = unicode.ToUpper(runes[0])
abbrev title_case : CaseTables → String → String
title_case u String.[] = ""
title_case u (String.◌∷◌ c s) = String.◌∷◌ (u.upper c) s

-- SecurityLabel
unfoldable pub security_label : CaseTables → String → String → String
security_label u security flow =
    let lowered = to_lower u security in
    let label =
      if lowered == "" || lowered == "none"
      then "None"
      else if lowered == "tls"
      then "TLS"
      else title_case u security in
    if not (label == "None") && has_prefix (to_lower u flow) "xtls" then "XTLS-" ++ label else label

abbrev pub label_beq : Label → Label → Bool
label_beq a b = a.protocol == b.protocol && (a.security == b.security && a.transport == b.transport)

pub label_beq_iff : (a b : Label) → (label_beq a b ≡ true) ↔ (a ≡ b)
label_beq_iff a b = ground (
  arith,
  eq_iff a.protocol b.protocol,
  eq_iff a.security b.security,
  eq_iff a.transport b.transport,
)

-- Go's == on Label values
instance abbrev pub label_eq : Eq Label
label_eq = record { test = label_beq; test_iff = label_beq_iff }
