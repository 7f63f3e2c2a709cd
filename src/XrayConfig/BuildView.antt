-- ===== src/XrayConfig/BuildView.antt =====
-- internal/xrayconfig/xrayconfig.go, buildView: the inbound view of one decoded config. A json.RawMessage
-- is the JSON value that it holds, none where the field is absent. The order of a list of headers stands
-- for the order in which one `range` over the map happens to visit them.
use xform.Base.{
  String, Bool, true, false, not, List, [], ◌∷◌, map, Option, none, some, ◌==◌, string_eq,
  if◌then◌else◌,
}
use xform.Base.Text.{CaseTables, equal_fold}
use xform.Json.{Json, null, number, text, object, members, int_of, ℤ}
use xform.XrayConfig.{
  InboundUser, XhttpTransportSettings, TransportSettings, SecuritySettings, Inbound, View,
}

pub record HttpTransportConfig : Type 0 where
  pub path : String
  pub host : String
  pub headers : List (String × String)

pub record GrpcConfig : Type 0 where
  pub service_name : String
  pub authority : String
  pub multi_mode : Bool

pub record XhttpConfig : Type 0 where
  pub path : String
  pub host : String
  pub mode : String
  pub extra : Option Json

pub record TlsConfig : Type 0 where
  pub server_name : String
  pub alpn : List String
  pub reject_unknown_sni : Bool

pub record RealityConfig : Type 0 where
  pub server_names : List String
  pub short_ids : List String

pub record RawConfig : Type 0 where
  pub header : Option Json

pub record StreamSettingsConfig : Type 0 where
  pub network : String
  pub security : String
  pub final_mask : Option Json
  pub tls : TlsConfig
  pub reality : RealityConfig
  pub raw : Option RawConfig
  pub tcp : Option RawConfig
  pub web_socket : HttpTransportConfig
  pub http_upgrade : HttpTransportConfig
  pub grpc : GrpcConfig
  pub xhttp : Option XhttpConfig
  pub split_http : Option XhttpConfig

pub record ClientConfig : Type 0 where
  pub email : String
  pub id : String
  pub flow : String
  pub reverse : Option Json

pub record InboundConfig : Type 0 where
  pub tag : String
  pub protocol : String
  pub port : Option Json
  pub clients : List ClientConfig
  pub flow : String
  pub decryption : String
  pub stream_settings : StreamSettingsConfig

-- configured
unfoldable pub configured : Option Json → Bool
configured none = false
configured (some null) = false
configured (some v) = true

-- strconv.Itoa of an integer of JSON, which is its literal but for a negative zero
abbrev printed : String → Option ℤ → String
printed n none = ""
printed n (some i) = if n == "-0" then "0" else n

-- portLabel
unfoldable pub port_label : Option Json → String
unfolding int_of
port_label (some (number n)) = printed n (int_of n)
port_label (some (text range)) = range
port_label _ = ""

-- The decoding of the header's type into a string, "" where it fails.
unfoldable pub header_type : CaseTables → String → List (String × Json) → String
header_type u found [] = found
header_type u found ((key, v) ∷ ms) = elim (equal_fold u "type" key) [
  | true ↦ elim v [ text s ↦ header_type u s ms | null ↦ header_type u found ms | _ ↦ "" ]
  | false ↦ header_type u found ms
]

-- rawHeaderType
unfoldable pub raw_header_type : CaseTables → Option Json → String
unfolding header_type
raw_header_type u (some (object bytes ms)) = header_type u "" (members ms)
raw_header_type u _ = ""

abbrev first_host : CaseTables → List (String × String) → String
first_host u [] = ""
first_host u ((name, value) ∷ headers) =
    if equal_fold u name "host" then value else first_host u headers

-- effectiveWebSocketHost
unfoldable pub effective_web_socket_host : CaseTables → HttpTransportConfig → String
effective_web_socket_host u settings =
    if not (settings.host == "") then settings.host else first_host u settings.headers

-- The settings under the name that is preferred, or those under the other one.
abbrev pub preferred {ℓ} : {A : Type ℓ} → Option A → Option A → Option A
preferred (some a) other = some a
preferred none other = other

abbrev header_of : Option RawConfig → Option Json
header_of none = none
header_of (some raw) = raw.header

abbrev xhttp_of : Option XhttpConfig → XhttpTransportSettings
xhttp_of none = record { path = ""; host = ""; mode = ""; extra_configured = false }
xhttp_of (some x) = record {
  path = x.path;
  host = x.host;
  mode = x.mode;
  extra_configured = configured x.extra;
}

-- The loop over the clients
unfoldable pub view_users : List ClientConfig → List InboundUser
unfolding configured
view_users [] = []
view_users (c ∷ cs) =
    let rest = view_users cs in
    if c.email == ""
    then rest
    else record { email = c.email; client_id = c.id; flow = c.flow; reverse = configured c.reverse }
      ∷ rest

unfoldable pub view_transport : CaseTables → StreamSettingsConfig → TransportSettings
unfolding configured raw_header_type effective_web_socket_host
view_transport u s =
    let header = header_of (preferred s.raw s.tcp) in
    record {
      kind = s.network;
      raw_header_configured = configured header;
      raw_header_type = raw_header_type u header;
      final_mask_configured = configured s.final_mask;
      web_socket = record {
        path = s.web_socket.path;
        host = effective_web_socket_host u s.web_socket;
      };
      http_upgrade = record { path = s.http_upgrade.path; host = s.http_upgrade.host };
      grpc = record {
        service_name = s.grpc.service_name;
        authority = s.grpc.authority;
        multi_mode = s.grpc.multi_mode;
      };
      xhttp = xhttp_of (preferred s.xhttp s.split_http);
    }

unfoldable pub view_security : StreamSettingsConfig → SecuritySettings
view_security s = record {
  kind = s.security;
  tls = record {
    server_name = s.tls.server_name;
    reject_unknown_sni = s.tls.reject_unknown_sni;
    alpn = s.tls.alpn;
  };
  reality = record { server_names = s.reality.server_names; short_ids = s.reality.short_ids };
}

-- The body of buildView's loop
unfoldable pub view_inbound : CaseTables → InboundConfig → Inbound
unfolding view_transport view_security view_users port_label
view_inbound u c = record {
  tag = c.tag;
  protocol = c.protocol;
  port = port_label c.port;
  flow = c.flow;
  decryption = c.decryption;
  transport = view_transport u c.stream_settings;
  security = view_security c.stream_settings;
  users = view_users c.clients;
}

-- buildView
unfoldable pub build_view : CaseTables → List InboundConfig → View
unfolding view_inbound
build_view u = map (view_inbound u)
