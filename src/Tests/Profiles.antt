-- ===== src/Tests/Profiles.antt =====
-- The link of one profile: the witnesses of its theorems.
use xform.Base.{false, [], ◌∷◌, none, some, ◌≡◌, refl, arith}
use xform.Base.Text.{codes}
use xform.Profiles.Uri.{Available, encode_uri_component, query_fields, separated, serialize_uri}
use xform.Profiles.Uri.Link.{read_uri, read_uri-serialize_uri}

escapes : encode_uri_component (codes "a b&c") ≡ codes "a%20b%26c"
unfolding encode_uri_component
escapes = refl

abbrev profile : Available
profile = record {
  name = codes "de#1";
  client_id = codes "c0ffee";
  flow = none;
  endpoint = record { host = codes "example.com"; port = 443 };
  transport = record {
    type = "ws";
    path = codes "/a?b=c&d";
    host = codes "h";
    service_name = [];
    mode = [];
    authority = [];
    extra = none;
  };
  security = record {
    type = "tls";
    fingerprint = codes "chrome";
    server_name = codes "example.com";
    alpn = codes "h2" ∷ codes "http/1.1" ∷ [];
    ech = [];
    certificate_pins = [];
    verify_name = [];
    public_key = [];
    short_id_present = false;
    short_id = [];
    post_quantum_verify = [];
    spider_x = [];
  };
}

link :
    serialize_uri (codes "ann") profile
    ≡ codes
        "vless://c0ffee@example.com:443?type=ws&encryption=none&security=tls&path=%2Fa%3Fb%3Dc%26d&host=h&fp=chrome&sni=example.com&alpn=h2%2Chttp%2F1.1#ann%20%C2%B7%20de%231"
unfolding serialize_uri
link = refl

read_uri-serialize_uri_example :
    read_uri (serialize_uri (codes "ann") profile)
    ≡ some (query_fields profile, separated (codes "ann") profile.name)
unfolding query_fields
read_uri-serialize_uri_example =
    read_uri-serialize_uri (codes "ann") profile (ground arith) (ground arith) (ground arith)
      (ground arith)
