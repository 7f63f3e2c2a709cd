-- ===== src/Profiles/Uri.antt =====
-- internal/profiles/uri.go, and the records of internal/profiles/profiles.go that it reads. A text of a
-- profile is its bytes; the types of transport and security, which come from a fixed set, are names.
pub mod Decoding
pub mod Query
pub mod Link
use xform.Base.{
  ℕ, zero, suc, ◌+◌, ◌/◌, ◌%◌, String, Bool, true, false, ◌&&◌, ◌||◌, not, List, [], ◌∷◌, ◌++◌,
  Option, none, some, ◌==◌, nat_eq, string_eq, if◌then◌else◌, ltb, leb,
}
use xform.Base.Lists.{is_empty, contains}
use xform.Base.Text.{codes}

abbrev pub Bytes : Type 0
Bytes = List ℕ

pub record Endpoint : Type 0 where
  pub host : Bytes
  pub port : ℕ

pub record Transport : Type 0 where
  pub type : String
  pub path : Bytes
  pub host : Bytes
  pub service_name : Bytes
  pub mode : Bytes
  pub authority : Bytes
  pub extra : Option Bytes

pub record Security : Type 0 where
  pub type : String
  pub fingerprint : Bytes
  pub server_name : Bytes
  pub alpn : List Bytes
  pub ech : Bytes
  pub certificate_pins : List Bytes
  pub verify_name : Bytes
  pub public_key : Bytes
  pub short_id_present : Bool
  pub short_id : Bytes
  pub post_quantum_verify : Bytes
  pub spider_x : Bytes

-- The fields of Available that the URI is made of.
pub record Available : Type 0 where
  pub name : Bytes
  pub client_id : Bytes
  pub flow : Option Bytes
  pub endpoint : Endpoint
  pub transport : Transport
  pub security : Security

pub record QueryField : Type 0 where
  pub name : Bytes
  pub value : Bytes

abbrev pub field : String → Bytes → QueryField
field name value = record { name = codes name; value = value }

-- A field that is left out when its value is empty.
abbrev pub field_if_set : String → Bytes → List QueryField
field_if_set name value = if is_empty value then [] else field name value ∷ []

abbrev pub optional_field : String → Option Bytes → List QueryField
optional_field name none = []
optional_field name (some value) = field name value ∷ []

-- strings.Join with ","
abbrev pub comma_joined : List Bytes → Bytes
comma_joined [] = []
comma_joined (t ∷ []) = t
comma_joined (t ∷ u ∷ ts) = t ++ (b',' ∷ comma_joined (u ∷ ts))

abbrev pub list_field : String → List Bytes → List QueryField
list_field name values = if is_empty values then [] else field name (comma_joined values) ∷ []

unfoldable pub transport_fields : Transport → List QueryField
transport_fields t =
    if t.type == "ws" || t.type == "httpupgrade"
    then field "path" t.path ∷ field "host" t.host ∷ []
    else if t.type == "grpc"
    then field "serviceName" t.service_name
      ∷ field "mode" t.mode
      ∷ field_if_set "authority" t.authority
    else if t.type == "xhttp"
    then field "path" t.path
      ∷ field "host" t.host
      ∷ field "mode" t.mode
      ∷ optional_field "extra" t.extra
    else []

unfoldable pub security_fields : Security → List QueryField
security_fields s =
    if s.type == "tls"
    then list_field "alpn" s.alpn
      ++ field_if_set "ech" s.ech
      ++ list_field "pcs" s.certificate_pins
      ++ field_if_set "vcn" s.verify_name
    else if s.type == "reality"
    then field "pbk" s.public_key
      ∷ ((if s.short_id_present then field "sid" s.short_id ∷ [] else [])
          ++ field_if_set "pqv" s.post_quantum_verify
          ++ field_if_set "spx" s.spider_x)
    else []

-- The fields of the query, in their order.
unfoldable pub query_fields : Available → List QueryField
unfolding transport_fields security_fields
query_fields p =
    field "type" (codes p.transport.type)
    ∷ field "encryption" (codes "none")
    ∷ (optional_field "flow" p.flow
        ++ (field "security" (codes p.security.type) ∷ [])
        ++ transport_fields p.transport
        ++ (field "fp" p.security.fingerprint ∷ field "sni" p.security.server_name ∷ [])
        ++ security_fields p.security)

-- isURIComponentByte
unfoldable pub is_uri_component_byte : ℕ → Bool
unfolding contains
is_uri_component_byte c =
    (leb b'a' c && leb c b'z')
    || (leb b'A' c && leb c b'Z')
    || (leb b'0' c && leb c b'9')
    || contains (codes "-_.!~*'()") c

-- hex[d]
abbrev pub hex_digit : ℕ → ℕ
hex_digit d = if ltb d 10 then 48 + d else 55 + d

unfoldable pub encode_uri_component : Bytes → Bytes
unfolding is_uri_component_byte
encode_uri_component [] = []
encode_uri_component (c ∷ s) =
    let rest = encode_uri_component s in
    if is_uri_component_byte c
    then c ∷ rest
    else b'%' ∷ hex_digit (c / 16) ∷ hex_digit (c % 16) ∷ rest

-- The loop that writes the query.
unfoldable pub query_of : List QueryField → Bytes
unfolding encode_uri_component
query_of [] = []
query_of (f ∷ []) = f.name ++ (b'=' ∷ encode_uri_component f.value)
query_of (f ∷ g ∷ fs) =
    f.name ++ (b'=' ∷ (encode_uri_component f.value ++ (b'&' ∷ query_of (g ∷ fs))))

-- %d of a uint16, which has five digits at most
abbrev pub decimal : ℕ → ℕ → Bytes
decimal zero n = []
decimal (suc f) n =
    let higher = decimal f (n / 10) in
    if ltb n 10 then (48 + n) ∷ [] else higher ++ ((48 + n % 10) ∷ [])

-- The text behind the email in the fragment, " · " in UTF-8
abbrev pub separated : Bytes → Bytes → Bytes
separated email name = email ++ (32 ∷ 0xc2 ∷ 0xb7 ∷ 32 ∷ name)

unfoldable pub serialize_uri : Bytes → Available → Bytes
unfolding query_fields query_of encode_uri_component
serialize_uri email p =
    codes "vless://"
    ++ p.client_id
    ++ codes "@"
    ++ p.endpoint.host
    ++ codes ":"
    ++ decimal 5 p.endpoint.port
    ++ codes "?"
    ++ (query_of (query_fields p) ++ (b'#' ∷ encode_uri_component (separated email p.name)))
