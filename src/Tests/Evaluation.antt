-- ===== src/Tests/Evaluation.antt =====
-- The evaluation of one user's profiles at a concrete config and advertisement: the witnesses of the
-- theorems on it.
use xform.Base.{
  String, Bool, true, false, [], ◌∷◌, none, some, ◌==◌, string_eq, if◌then◌else◌, ◌≡◌, ◌↔◌, refl,
  arith, eq_iff, nat_eq, ◌||◌, Bool-cases, inl, inr,
}
use xform.Base.Text.{CaseTables}
use xform.Base.Slices.{utf8, byte_length, has_suffix, contains_char, contains_any, every_char}
use xform.Base.Assoc.{delete}
use xform.Base.Lists.{keep}
use xform.Profiles.Match.{
  canonical_inbound_transport, unsupported_direct_transport_feature, canonical_inbound_security,
  empty_reality_short_id_accepted,
}
use xform.Hosts.{is_digit, Address, Resolver, canonical_host}
use xform.Hosts.Canonical.{IsPlain, IsHostName, IsDocumented}
use xform.XrayConfig.{Inbound, InboundUser}
use xform.Advertisements.{Advertisement, advertisement_of, transport_of, security_of}
use xform.Profiles.Uri.{serialize_uri}
use xform.Profiles.Values.{Libraries, Profile, available_fields, build_available}
use xform.Profiles.Built.{build_available-canonical_host}
use xform.Profiles.Results.{Sources, Collection, available, ready, source_state}
use xform.Profiles.Candidate.{evaluate_inbound}
use xform.Profiles.Evaluate.{evaluate}
use xform.Profiles.Offers.{Offered, evaluate_inbound-Offered}
use xform.Profiles.Listed.{candidates, evaluated, evaluate-evaluated}
use xform.Profiles.Total.{evaluate_total}
use xform.Profiles.Distinct.{available_tags, IsDistinct, evaluate-IsDistinct}

abbrev plain : CaseTables
plain = record { upper = λ c. c; lower = λ c. c; fold = λ c. c }

-- One address and one name.
abbrev resolver : Resolver
resolver = record {
  parse_addr = λ s.
      if s == "192.0.2.1"
      then some (record { zone = ""; is6 = false; text = "192.0.2.1" })
      else none;
  to_ascii = λ s. if s == "vpn.example" then some "vpn.example" else none;
}

abbrev libraries : Libraries
libraries = record {
  tables = plain;
  resolver = resolver;
  parse_uuid = λ s. if s == "id-1" then some "id-1" else none;
  transform = λ extra. some extra;
}

abbrev ann : InboundUser
ann = record { email = "ann"; client_id = "id-1"; flow = ""; reverse = false }

abbrev inbound : Inbound
inbound = record {
  tag = "de";
  protocol = "vless";
  port = "443";
  flow = "";
  decryption = "";
  transport = record {
    kind = "ws";
    raw_header_configured = false;
    raw_header_type = "";
    final_mask_configured = false;
    web_socket = record { path = "/a"; host = "" };
    http_upgrade = record { path = ""; host = "" };
    grpc = record { service_name = ""; authority = ""; multi_mode = false };
    xhttp = record { path = ""; host = ""; mode = ""; extra_configured = false };
  };
  security = record {
    kind = "tls";
    tls = record { server_name = ""; reject_unknown_sni = false; alpn = [] };
    reality = record { server_names = []; short_ids = [] };
  };
  users = ann ∷ [];
}

abbrev advertisement : Advertisement
advertisement = record (advertisement_of "de" "Berlin") {
  topology = "direct";
  host = "vpn.example";
  port = 443;
  transport = record (transport_of "ws") { path = "/a"; host = "vpn.example" };
  security = record (security_of "tls") { server_name = "192.0.2.1"; fingerprint = "chrome" };
}

abbrev sources : Sources
sources = record {
  xray_view = inbound ∷ record inbound { tag = "fr"; users = [] } ∷ [];
  xray_available = true;
  xray_loaded_at = 5;
  xray_stale = false;
  xray_error = none;
  advertisements_view = advertisement ∷ [];
  advertisements_configured = true;
  advertisements_available = true;
  advertisements_loaded_at = 3;
  advertisements_stale = true;
  advertisements_error = none;
}

abbrev profile : Profile
profile =
    let fields = available_fields "id-1" "" advertisement "vpn.example" none "192.0.2.1" "" in
    record {
      inbound_tag = "de";
      topology = "direct";
      fields = fields;
      uri = serialize_uri (utf8 "ann") fields;
    }

abbrev collection : Collection
collection = record (source_state sources ready) { items = available profile ∷ [] }

built : build_available libraries "ann" "id-1" "" advertisement ≡ some profile
unfolding build_available canonical_host byte_length
built = refl

found : evaluate libraries "ann" false sources ≡ some collection
unfolding evaluate canonical_host delete keep canonical_inbound_transport
    unsupported_direct_transport_feature canonical_inbound_security empty_reality_short_id_accepted
found = refl

evaluate_inbound-Offered_example :
    (evaluate_inbound libraries "ann" inbound 1 (advertisement ∷ []) sources
      ≡ some (available profile))
    ↔ Offered libraries "ann" inbound 1 (advertisement ∷ []) sources profile
evaluate_inbound-Offered_example =
    evaluate_inbound-Offered libraries "ann" inbound 1 (advertisement ∷ []) sources profile

evaluate-evaluated_example :
    evaluate libraries "ann" false sources
    ≡ evaluated libraries "ann" sources (candidates libraries "ann" sources)
evaluate-evaluated_example = evaluate-evaluated libraries "ann" sources refl

evaluate_total_example : (c : Collection) × (evaluate libraries "ann" false sources ≡ some c)
evaluate_total_example = evaluate_total libraries "ann" false sources

evaluate-IsDistinct_example : IsDistinct (available_tags collection.items)
evaluate-IsDistinct_example = evaluate-IsDistinct libraries "ann" false sources collection found

abbrev the_address : Address
the_address = record { zone = ""; is6 = false; text = "192.0.2.1" }

address_of :
    (s : String) (a : Address)
    → resolver.parse_addr s ≡ some a
    → (s ≡ "192.0.2.1") × (a ≡ the_address)
address_of s a h = elim (Bool-cases (s == "192.0.2.1")) [
  | inl e ↦ ((eq_iff s "192.0.2.1").0 e, ground arith)
  | inr e ↦ absurd (ground arith)
]

name_of : (s name : String) → resolver.to_ascii s ≡ some name → name ≡ "vpn.example"
name_of s name h = elim (Bool-cases (s == "vpn.example")) [
  | inl e ↦ ground arith
  | inr e ↦ absurd (ground arith)
]

the_address-IsPlain : IsPlain the_address.text
unfolding has_suffix
the_address-IsPlain = record {
  given = λ h. let k : ◌≡◌ {A = Bool} false true = (eq_iff "192.0.2.1" "").1 h in cc;
  bare = refl;
  closed = refl;
}

vpn_name : IsHostName plain resolver "vpn.example"
unfolding contains_any contains_char
vpn_name = record { lowered = refl; mapped = refl; strict = refl; bare = refl; named = refl }

dotted_address :
    contains_char b':' "192.0.2.1" || every_char (λ c. c == b'.' || is_digit c) "192.0.2.1" ≡ true
unfolding contains_char every_char
dotted_address = refl

documented : IsDocumented plain resolver
documented = record {
  reparsed = λ s a h z. rw (address_of s a h).1 refl;
  dotted = λ s a h z. rw (address_of s a h).1 the_address-IsPlain;
  shaped = λ s a h. rw (address_of s a h).0 dotted_address;
  host_name = λ s name h. rw (name_of s name h) vpn_name;
}

build_available-canonical_host_example :
    (host : String) × (server_name : String) × (canonical_host plain resolver advertisement.host
      ≡ some host)
    × (canonical_host plain resolver advertisement.security.server_name ≡ some server_name)
    × (canonical_host plain resolver host ≡ some host)
    × (canonical_host plain resolver server_name ≡ some server_name)
    × (profile.fields.endpoint.host ≡ utf8 host)
    × (profile.fields.security.server_name ≡ utf8 server_name)
build_available-canonical_host_example =
    build_available-canonical_host libraries "ann" "id-1" "" advertisement profile documented built
