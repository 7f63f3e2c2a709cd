-- ===== src/Tests/Settings.antt =====
-- One document of advertised connection settings: the witnesses of the theorems on its parse.
use xform.Base.{
  List, String, Bool, true, false, [], ◌∷◌, map, none, some, ◌==◌, string_eq, if◌then◌else◌, ◌≡◌,
  refl, sym, ◌∙◌, subst, eq_iff, Bool-cases, inl, inr,
}
use xform.Base.Slices.{contains_any, has_suffix, byte_length, contains_char}
use xform.Hosts.{Resolver, canonical_host, valid_advertised_host}
use xform.Hosts.Accepted.{IsStrict, canonical_host_total}
use xform.Json.{Json, number, text, object, no_members, member, string_field, int_field_from}
use xform.Advertisements.{advertisement_of}
use xform.Advertisements.Decode.{Decoder, decode}
use xform.Advertisements.Transports.{parse_transport}
use xform.Advertisements.Securities.{parse_security}
use xform.Advertisements.Parse.{parse_advertisement, mark_duplicates}
use xform.Advertisements.Rules.{IsAdvertised}
use xform.Advertisements.Sound.{parse_advertisement-IsAdvertised}
use xform.Advertisements.Marks.{with_mark, mark_duplicates-is_duplicate}
use xform.XrayConfig.BuildView.{HttpTransportConfig, effective_web_socket_host}
use xform.Tests.{letters}

abbrev names : Resolver
names = record {
  parse_addr = λ s. none;
  to_ascii = λ s. if s == "vpn.example" then some "vpn.example" else none;
}

abbrev decoder : Decoder
decoder = record { tables = letters; finite = λ n. true }

abbrev settings : Json
settings = object [] (
    member "inbound_tag" (text "de") (
      member "topology" (text "direct") (
        member "host" (text "vpn.example") (
          member "port" (number "443") (
            member "transport" (object [] (member "type" (text "tcp") no_members)) (
              member "security" (object [] (member "type" (text "tls") no_members)) no_members))))))

settings_run : Unit {0}
unfolding parse_advertisement has_suffix contains_any byte_length decode string_field
    valid_advertised_host int_field_from parse_transport parse_security
settings_run = tt

valid : (parse_advertisement decoder names settings).validation_error ≡ none
unfolding settings_run
valid = refl

parse_advertisement-IsAdvertised_example :
    IsAdvertised names (parse_advertisement decoder names settings)
parse_advertisement-IsAdvertised_example =
    parse_advertisement-IsAdvertised decoder names settings valid

-- A port out of range is refused.
abbrev other_port : Json → Json
other_port port = object [] (
    member "inbound_tag" (text "de") (
      member "topology" (text "direct")
        (member "host" (text "vpn.example") (member "port" port no_members))))

refused :
    (parse_advertisement decoder names (other_port (number "65536"))).validation_error
    ≡ some "port must be an integer from 1 through 65535."
unfolding settings_run
refused = refl

mark_duplicates-is_duplicate_example :
    mark_duplicates (advertisement_of "de" "a" ∷ advertisement_of "de" "b" ∷ [])
    ≡ map
        (with_mark (advertisement_of "de" "a" ∷ advertisement_of "de" "b" ∷ []))
        (advertisement_of "de" "a" ∷ advertisement_of "de" "b" ∷ [])
mark_duplicates-is_duplicate_example =
    mark_duplicates-is_duplicate (advertisement_of "de" "a" ∷ advertisement_of "de" "b" ∷ [])

vpn_bare : contains_any "vpn.example" "[]" ≡ false
unfolding contains_any contains_char
vpn_bare = refl

strict : IsStrict names
strict s h = elim (Bool-cases (s == "vpn.example")) [
  | inl e ↦
      let same = (eq_iff s "vpn.example").0 e in
      let k : ◌≡◌ {A = Bool} false true =
        sym vpn_bare ∙ subst (λ t. contains_any t "[]" ≡ true) same h in
      cc
  | inr e ↦ rw e refl
]

accepted : valid_advertised_host names "vpn.example" ≡ true
unfolding valid_advertised_host has_suffix contains_any byte_length
accepted = refl

canonical_host_total_example :
    (host : String) × (canonical_host letters names "vpn.example" ≡ some host)
canonical_host_total_example = canonical_host_total letters names strict "vpn.example" accepted

-- Two headers that both name the host: the order of the map decides.
abbrev web_socket : List (String × String) → HttpTransportConfig
web_socket headers = record { path = ""; host = ""; headers = headers }

one_order :
    effective_web_socket_host letters (web_socket (("host", "a") ∷ ("hoSt", "b") ∷ [])) ≡ "a"
unfolding effective_web_socket_host
one_order = refl

other_order :
    effective_web_socket_host letters (web_socket (("hoSt", "b") ∷ ("host", "a") ∷ [])) ≡ "b"
unfolding effective_web_socket_host
other_order = refl
