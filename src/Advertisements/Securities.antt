-- ===== src/Advertisements/Securities.antt =====
-- internal/advertisements/parse.go, parseSecurity: one case to a type of security.
use xform.Base.{
  String, true, not, List, [], ◌∷◌, Option, none, some, ◌==◌, string_eq, if◌then◌else◌,
}
use xform.Json.{Json, Field, texts_field, Document, StringField, string_field, strings_field}
use xform.Advertisements.{Security, security_of}
use xform.Advertisements.Decode.{
  Decoder, Checked, valid, problem, strings, type_only, decode, object_type, is_filled, or_default,
}

-- tlsSecurityDocument
abbrev pub tls_security_document : List Field
tls_security_document =
    record { name = "alpn"; kind = texts_field }
    ∷ record { name = "certificate_pins"; kind = texts_field }
    ∷ strings ("type" ∷ "fingerprint" ∷ "server_name" ∷ "ech" ∷ "verify_name" ∷ [])

-- realitySecurityDocument
abbrev pub reality_security_document : List Field
reality_security_document = strings (
    "type" ∷ "fingerprint" ∷ "server_name" ∷ "public_key" ∷ "short_id" ∷ "post_quantum_verify"
    ∷ "spider_x" ∷ [])

abbrev pub fingerprint_message : String
fingerprint_message = "security fingerprint must not be empty when present."

-- fingerprint
abbrev pub fingerprint : StringField → Checked String
fingerprint f =
    if not f.set
    then valid "chrome"
    else if f.value == ""
    then problem fingerprint_message
    else valid f.value

unfoldable pub tls_fields : String → Document → Checked String → Checked Security
tls_fields host raw (problem message) = problem message
tls_fields host raw (valid fingerprint) = valid (record (security_of "tls") {
  fingerprint = fingerprint;
  server_name = or_default host (string_field "server_name" raw).value;
  ech = (string_field "ech" raw).value;
  verify_name = (string_field "verify_name" raw).value;
  alpn = strings_field "alpn" raw;
  certificate_pins = strings_field "certificate_pins" raw;
})

-- The case of TLS
unfoldable pub tls_security : String → Option Document → Checked Security
unfolding tls_fields
tls_security host none = problem "TLS fields must use the documented names and JSON types."
tls_security host (some raw) = tls_fields host raw (fingerprint (string_field "fingerprint" raw))

unfoldable pub reality_fields : Document → Checked String → Checked Security
reality_fields raw (problem message) = problem message
reality_fields raw (valid fingerprint) =
    let server_name = string_field "server_name" raw in
    let public_key = string_field "public_key" raw in
    let short_id = string_field "short_id" raw in
    if not (is_filled server_name)
    then problem "REALITY server_name is required and must not be empty."
    else if not (is_filled public_key)
    then problem "REALITY public_key is required and must not be empty."
    else if not short_id.set
    then problem "REALITY short_id must be present."
    else valid (record (security_of "reality") {
      fingerprint = fingerprint;
      server_name = server_name.value;
      public_key = public_key.value;
      short_id = short_id.value;
      short_id_present = true;
      post_quantum_verify = (string_field "post_quantum_verify" raw).value;
      spider_x = (string_field "spider_x" raw).value;
    })

-- The case of REALITY
unfoldable pub reality_security : Option Document → Checked Security
unfolding reality_fields
reality_security none = problem "REALITY fields must use the documented names and JSON types."
reality_security (some raw) = reality_fields raw (fingerprint (string_field "fingerprint" raw))

abbrev pub bare_security : String → String → Option Document → Checked Security
bare_security type message none = problem message
bare_security type message (some raw) = valid (security_of type)

unfoldable pub security_by : Decoder → Option Json → String → String → Checked Security
unfolding decode tls_security reality_security
security_by d doc host type =
    if type == "tls"
    then tls_security host (decode d tls_security_document doc)
    else if type == "reality"
    then reality_security (decode d reality_security_document doc)
    else if type == "none"
    then bare_security "none" "none security accepts only type." (decode d type_only doc)
    else bare_security type "unsupported security accepts only type." (decode d type_only doc)

abbrev security_or : Decoder → Option Json → String → Option String → Checked Security
security_or d doc host none = problem "security must be a typed object."
security_or d doc host (some type) = security_by d doc host type

-- parseSecurity
unfoldable pub parse_security : Decoder → Option Json → String → Checked Security
unfolding object_type security_by
parse_security d doc host = security_or d doc host (object_type d doc)
