-- ===== src/Advertisements/Sound.antt =====
-- A record that internal/advertisements/parse.go leaves without a validation error obeys the rules.
pub mod Post
pub mod Transports
pub mod Securities
use xform.Base.{
  ℕ, ◌≤◌, String, Bool, true, false, not, ◌&&◌, ◌||◌, ◌==◌, string_eq, ◌≡◌, Option, none, some,
  arith, eq_iff, Bool-cases, Option-cases, inl, inr, refl, List, map,
}
use xform.Json.{Json, Document, IntField, int_field, pos, negsuc, string_field, last_of}
use xform.Hosts.{Resolver, valid_advertised_host}
use xform.Advertisements.{Transport, Security, Advertisement}
use xform.Advertisements.Decode.{Decoder, Checked, valid, problem, decode}
use xform.Advertisements.Transports.{parse_transport}
use xform.Advertisements.Securities.{parse_security}
use xform.Advertisements.Parse.{
  advertisement_document, named_record, known_topology, port_of, field_problem, with_security,
  with_transport, with_port, with_fields, checked_advertisement, decoded_advertisement,
  parse_advertisement,
}
use xform.Advertisements.Rules.{IsTransport, IsSecurity, IsAdvertised}
use xform.Advertisements.Sound.Post.{Ensures}
use xform.Advertisements.Sound.Transports.{parse_transport-IsTransport}
use xform.Advertisements.Sound.Securities.{parse_security-IsSecurity}

-- The rules that are checked before the port.
record IsNamed (r : Resolver) (a : Advertisement) : Type 0 where
  tagged : (a.inbound_tag == "") ≡ false
  named : (a.name == "") ≡ false
  placed : known_topology a.topology ≡ true
  hosted : valid_advertised_host r a.host ≡ true

host_filled :
    (r : Resolver) (host : String) → valid_advertised_host r host ≡ true → (host == "") ≡ false
unfolding valid_advertised_host
host_filled r host h = ground arith

abbrev IsSound : Resolver → Advertisement → Type 0
IsSound r a = a.validation_error ≡ none → IsAdvertised r a

module _ (d : Decoder) (r : Resolver) where
  with_security-IsSound :
      (a : Advertisement) (s : Checked Security)
      → IsNamed r a
      → 1 ≤ a.port
      → a.port ≤ 65535
      → IsTransport a.transport
      → Ensures IsSecurity s
      → IsSound r (with_security a s)
  with_security-IsSound a (valid s) n low high t h e = record {
    tagged = n.tagged;
    named = n.named;
    placed = n.placed;
    hosted = n.hosted;
    port_low = low;
    port_high = high;
    transported = t;
    secured = h;
  }
  with_security-IsSound a (problem m) n low high t h e = absurd (ground arith)

  with_transport-IsSound :
      (raw : Document) (a : Advertisement) (t : Checked Transport)
      → IsNamed r a
      → 1 ≤ a.port
      → a.port ≤ 65535
      → Ensures IsTransport t
      → IsSound r (with_transport d raw a t)
  with_transport-IsSound raw a (problem m) n low high h e = absurd (ground arith)
  with_transport-IsSound raw a (valid t) n low high h e =
      let b = record a { transport = t } in
      let m : IsNamed r b = record {
        tagged = n.tagged;
        named = n.named;
        placed = n.placed;
        hosted = n.hosted;
      } in
      with_security-IsSound b (parse_security d (last_of "security" raw) b.host) m low high h
        (parse_security-IsSecurity d (last_of "security" raw) b.host
          (host_filled r a.host n.hosted))
        e

  port_of_range : (f : IntField) (n : ℕ) → port_of f ≡ some n → (1 ≤ n) × (n ≤ 65535)
  port_of_range f n h = ground arith

  with_port-IsSound :
      (raw : Document) (a : Advertisement) (port : Option ℕ)
      → IsNamed r a
      → ((n : ℕ) → port ≡ some n → (1 ≤ n) × (n ≤ 65535))
      → IsSound r (with_port d raw a port)
  with_port-IsSound raw a none n h e = absurd (ground arith)
  with_port-IsSound raw a (some port) n h e =
      with_transport-IsSound raw (record a { port = port })
        (parse_transport d (last_of "transport" raw))
        (record { tagged = n.tagged; named = n.named; placed = n.placed; hosted = n.hosted })
        (h port refl).0 (h port refl).1 (parse_transport-IsTransport d (last_of "transport" raw)) e

  named_record-IsNamed :
      (raw : Document) → field_problem r raw ≡ none → IsNamed r (named_record raw)
  unfolding field_problem named_record
  named_record-IsNamed raw h = ground arith

  with_fields-IsSound :
      (raw : Document) (p : Option String)
      → field_problem r raw ≡ p
      → IsSound r (with_fields d raw p)
  with_fields-IsSound raw (some m) h e = absurd (ground arith)
  with_fields-IsSound raw none h e =
      with_port-IsSound raw (named_record raw) (port_of (int_field "port" raw))
        (named_record-IsNamed raw h) (port_of_range (int_field "port" raw)) e

  decoded_advertisement-IsSound :
      (v : Json) (raw : Option Document) → IsSound r (decoded_advertisement d r v raw)
  unfolding checked_advertisement
  decoded_advertisement-IsSound v none e = absurd (ground arith)
  decoded_advertisement-IsSound v (some raw) e =
      with_fields-IsSound raw (field_problem r raw) refl e

  -- An advertisement without a validation error obeys every rule: its tag, its name and its type of
  -- transport and of security are not empty, it is direct or fronted, its host is an accepted one
  -- and its port one of an endpoint, and transport and security carry what their type requires.
  pub parse_advertisement-IsAdvertised :
      (v : Json)
      → (parse_advertisement d r v).validation_error ≡ none
      → IsAdvertised r (parse_advertisement d r v)
  unfolding parse_advertisement
  parse_advertisement-IsAdvertised v =
      decoded_advertisement-IsSound v (decode d advertisement_document (some v))
