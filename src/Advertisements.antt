-- ===== src/Advertisements.antt =====
-- internal/advertisements/view.go: the advertised connection settings, one record to an inbound. A
-- topology and the types of transport and security are texts, as in the source.
pub mod Decode
pub mod Transports
pub mod Securities
pub mod Parse
pub mod Rules
pub mod Sound
pub mod Marks
use xform.Base.{ℕ, String, Bool, false, List, [], Option, none, some, ◌==◌, string_eq, ◌||◌}

pub record Transport : Type 0 where
  pub type : String
  pub path : String
  pub host : String
  pub service_name : String
  pub mode : String
  pub authority : String
  pub extra : Option (List ℕ)

pub record Security : Type 0 where
  pub type : String
  pub fingerprint : String
  pub server_name : String
  pub ech : String
  pub verify_name : String
  pub public_key : String
  pub short_id : String
  pub short_id_present : Bool
  pub post_quantum_verify : String
  pub spider_x : String
  pub alpn : List String
  pub certificate_pins : List String

pub record Advertisement : Type 0 where
  pub inbound_tag : String
  pub name : String
  pub topology : String
  pub host : String
  pub port : ℕ
  pub transport : Transport
  pub security : Security
  pub validation_error : Option String
  pub duplicate : Bool

-- View.Advertisements()
abbrev pub View : Type 0
View = List Advertisement

-- Transport{Type: type}
abbrev pub transport_of : String → Transport
transport_of type = record {
  type = type;
  path = "";
  host = "";
  service_name = "";
  mode = "";
  authority = "";
  extra = none;
}

-- Security{Type: type}
abbrev pub security_of : String → Security
security_of type = record {
  type = type;
  fingerprint = "";
  server_name = "";
  ech = "";
  verify_name = "";
  public_key = "";
  short_id = "";
  short_id_present = false;
  post_quantum_verify = "";
  spider_x = "";
  alpn = [];
  certificate_pins = [];
}

abbrev pub advertisement_of : String → String → Advertisement
advertisement_of inbound_tag name = record {
  inbound_tag = inbound_tag;
  name = name;
  topology = "";
  host = "";
  port = 0;
  transport = transport_of "";
  security = security_of "";
  validation_error = none;
  duplicate = false;
}
