-- ===== src/Advertisements/Parse.antt =====
-- internal/advertisements/parse.go, Parse: the root of the document, then each advertisement by itself.
-- The document is the JSON value that its bytes stand for, none where they are not one value in UTF-8.
use xform.Base.{
  ℕ, String, Bool, true, false, not, ◌&&◌, ◌||◌, List, [], ◌∷◌, map, Option, none, some, ◌==◌,
  string_eq, if◌then◌else◌, ltb,
}
use xform.Base.Lists.{contains}
use xform.Base.Tally.{count_in, increment}
use xform.Hosts.{Resolver, valid_advertised_host}
use xform.Json.{
  Json, number, array, object, Elements, no_elements, element, elements, Members, no_members,
  member, ℤ, pos, negsuc, int_of, Field, integer_field, array_field, raw_field, Document, last_of,
  string_field, IntField, int_field, text_at,
}
use xform.Advertisements.{Transport, Security, Advertisement, View, advertisement_of}
use xform.Advertisements.Decode.{Decoder, Checked, valid, problem, strings, decode}
use xform.Advertisements.Transports.{parse_transport}
use xform.Advertisements.Securities.{parse_security}

-- advertisementDocument
abbrev pub advertisement_document : List Field
advertisement_document =
    record { name = "port"; kind = integer_field }
    ∷ record { name = "transport"; kind = raw_field }
    ∷ record { name = "security"; kind = raw_field }
    ∷ strings ("inbound_tag" ∷ "name" ∷ "topology" ∷ "host" ∷ [])

-- rootDocument
abbrev pub root_document : List Field
root_document =
    record { name = "version"; kind = integer_field }
    ∷ record { name = "advertisements"; kind = array_field }
    ∷ []

-- invalidate
abbrev pub invalidate : Advertisement → String → Advertisement
invalidate a message = record a { validation_error = some message }

-- advertisementIdentity
unfoldable pub advertisement_identity : Json → Advertisement
unfolding text_at
advertisement_identity v =
    let tag = text_at "inbound_tag" v in
    let name = text_at "name" v in advertisement_of tag (if name == "" then tag else name)

-- The record of the fields that are copied before any is checked.
unfoldable pub named_record : Document → Advertisement
named_record raw =
    let tag = (string_field "inbound_tag" raw).value in
    let name = (string_field "name" raw).value in
    record (advertisement_of tag (if name == "" then tag else name)) {
      topology = (string_field "topology" raw).value;
      host = (string_field "host" raw).value;
    }

abbrev pub known_topology : String → Bool
known_topology topology = topology == "direct" || topology == "fronted"

-- The port as a uint16, where it is one of an endpoint.
abbrev pub port_of : IntField → Option ℕ
port_of f = elim f.value [
  | pos n ↦ if not f.set || (ltb n 1 || ltb 65535 n) then none else some n
  | negsuc n ↦ none
]

-- The checks of the fields before the port, the message of the first that fails.
unfoldable pub field_problem : Resolver → Document → Option String
field_problem r raw =
    let tag = string_field "inbound_tag" raw in
    let name = string_field "name" raw in
    let topology = string_field "topology" raw in
    let host = string_field "host" raw in
    if not tag.set || tag.value == ""
    then some "inbound_tag is required and must not be empty."
    else if name.set && name.value == ""
    then some "name must not be empty when present."
    else if not topology.set || not (known_topology topology.value)
    then some "topology must be direct or fronted."
    else if not host.set || not (valid_advertised_host r host.value)
    then some "host must be a domain, IPv4 address, or IPv6 address without a scheme or path."
    else none

abbrev pub with_security : Advertisement → Checked Security → Advertisement
with_security a (problem message) = invalidate a message
with_security a (valid security) = record a { security = security }

abbrev pub with_transport : Decoder → Document → Advertisement → Checked Transport → Advertisement
with_transport d raw a (problem message) = invalidate a message
with_transport d raw a (valid transport) =
    with_security (record a { transport = transport })
      (parse_security d (last_of "security" raw) a.host)

abbrev pub with_port : Decoder → Document → Advertisement → Option ℕ → Advertisement
with_port d raw a none = invalidate a "port must be an integer from 1 through 65535."
with_port d raw a (some port) =
    with_transport d raw (record a { port = port }) (parse_transport d (last_of "transport" raw))

abbrev pub with_fields : Decoder → Document → Option String → Advertisement
with_fields d raw (some message) = invalidate (named_record raw) message
with_fields d raw none = with_port d raw (named_record raw) (port_of (int_field "port" raw))

-- What follows the decoding of the record.
unfoldable pub checked_advertisement : Decoder → Resolver → Document → Advertisement
unfolding field_problem named_record
checked_advertisement d r raw = with_fields d raw (field_problem r raw)

abbrev pub decoded_advertisement : Decoder → Resolver → Json → Option Document → Advertisement
decoded_advertisement d r v none =
    invalidate (advertisement_identity v)
      "Advertisement fields must use the documented names and JSON types."
decoded_advertisement d r v (some raw) = checked_advertisement d r raw

-- parseAdvertisement
unfoldable pub parse_advertisement : Decoder → Resolver → Json → Advertisement
unfolding checked_advertisement advertisement_identity
parse_advertisement d r v = decoded_advertisement d r v (decode d advertisement_document (some v))

-- The first loop of markDuplicates
unfoldable pub count_tags : View → List (String × ℕ) → List (String × ℕ)
unfolding increment
count_tags [] counts = counts
count_tags (a ∷ view) counts =
    count_tags view (if not (a.inbound_tag == "") then increment a.inbound_tag counts else counts)

abbrev pub marked : List (String × ℕ) → Advertisement → Advertisement
marked counts a = record a {
  duplicate = not (a.inbound_tag == "") && ltb 1 (count_in a.inbound_tag counts);
}

-- markDuplicates
unfoldable pub mark_duplicates : View → View
unfolding count_tags count_in
mark_duplicates view = map (marked (count_tags view [])) view

-- validateJSONValue: no object has a key twice.
unfoldable mutual
  pub has_unique_keys : Json → Bool
  has_unique_keys (array vs) = each_has_unique_keys vs
  has_unique_keys (object bytes ms) = members_have_unique_keys [] ms
  has_unique_keys _ = true

  pub each_has_unique_keys : Elements → Bool
  each_has_unique_keys no_elements = true
  each_has_unique_keys (element v vs) = has_unique_keys v && each_has_unique_keys vs

  pub members_have_unique_keys : List String → Members → Bool
  members_have_unique_keys keys no_members = true
  members_have_unique_keys keys (member k v ms) =
      not (contains keys k) && has_unique_keys v && members_have_unique_keys (k ∷ keys) ms

pub data Root : Type 0 where
  malformed : Root
  version_required : Root
  unsupported_version : Root
  advertisements_required : Root
  parsed : View → Root

abbrev pub root_of_array : Decoder → Resolver → Option Json → Root
root_of_array d r (some (array vs)) =
    parsed (mark_duplicates (map (parse_advertisement d r) (elements vs)))
root_of_array d r _ = advertisements_required

abbrev is_one : Option ℤ → Bool
is_one (some (pos n)) = ltb 0 n && ltb n 2
is_one _ = false

abbrev pub root_of : Decoder → Resolver → Document → Option Json → Root
root_of d r raw (some (number n)) =
    if not (is_one (int_of n))
    then unsupported_version
    else root_of_array d r (last_of "advertisements" raw)
root_of d r raw _ = version_required

abbrev pub root_of_document : Decoder → Resolver → Option Document → Root
root_of_document d r none = malformed
root_of_document d r (some raw) = root_of d r raw (last_of "version" raw)

-- Parse
unfoldable pub parse : Decoder → Resolver → Option Json → Root
unfolding parse_advertisement mark_duplicates has_unique_keys
parse d r none = malformed
parse d r (some v) =
    if has_unique_keys v then root_of_document d r (decode d root_document (some v)) else malformed
