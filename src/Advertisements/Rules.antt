-- ===== src/Advertisements/Rules.antt =====
-- The documented rules of an advertisement, for internal/advertisements/parse.go.
use xform.Base.{◌≤◌, true, false, ◌||◌, ◌==◌, string_eq, ◌≡◌}
use xform.Hosts.{Resolver, valid_advertised_host}
use xform.Advertisements.{Transport, Security, Advertisement}
use xform.Advertisements.Transports.{xhttp_modes}
use xform.Advertisements.Parse.{known_topology}

pub record IsTransport (t : Transport) : Type 0 where
  pub typed : (t.type == "") ≡ false
  pub routed :
      t.type == "ws" || t.type == "httpupgrade" || t.type == "xhttp" ≡ true
      → t.path == "" || t.host == "" ≡ false
  pub served : (t.type == "grpc") ≡ true → (t.service_name == "") ≡ false
  pub grpc_mode :
      (t.type == "grpc") ≡ true → t.mode == "gun" || t.mode == "multi" || t.mode == "guna" ≡ true
  pub xhttp_mode : (t.type == "xhttp") ≡ true → xhttp_modes t.mode ≡ true

pub record IsSecurity (s : Security) : Type 0 where
  pub typed : (s.type == "") ≡ false
  pub named :
      s.type == "tls" || s.type == "reality" ≡ true
      → s.server_name == "" || s.fingerprint == "" ≡ false
  pub keyed : (s.type == "reality") ≡ true → (s.public_key == "") ≡ false
  pub with_short_id : (s.type == "reality") ≡ true → s.short_id_present ≡ true

pub record IsAdvertised (r : Resolver) (a : Advertisement) : Type 0 where
  pub tagged : (a.inbound_tag == "") ≡ false
  pub named : (a.name == "") ≡ false
  pub placed : known_topology a.topology ≡ true
  pub hosted : valid_advertised_host r a.host ≡ true
  pub port_low : 1 ≤ a.port
  pub port_high : a.port ≤ 65535
  pub transported : IsTransport a.transport
  pub secured : IsSecurity a.security
