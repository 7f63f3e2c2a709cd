-- ===== src/Advertisements/Transports.antt =====
-- internal/advertisements/parse.go, parseTransport: one case to a type of transport.
use xform.Base.{
  ℕ, String, Bool, not, ◌&&◌, ◌||◌, List, [], ◌∷◌, Option, none, some, ◌==◌, string_eq,
  if◌then◌else◌,
}
use xform.Json.{Json, Field, raw_field, Document, last_of, string_field}
use xform.Advertisements.{Transport, transport_of}
use xform.Advertisements.Decode.{
  Decoder, Checked, valid, problem, strings, type_only, decode, valid_jcs_object, object_type,
  is_filled, or_default,
}

-- httpTransportDocument
abbrev pub http_transport_document : List Field
http_transport_document = strings ("type" ∷ "path" ∷ "host" ∷ [])

-- grpcTransportDocument
abbrev pub grpc_transport_document : List Field
grpc_transport_document = strings ("type" ∷ "service_name" ∷ "mode" ∷ "authority" ∷ [])

-- xhttpTransportDocument
abbrev pub xhttp_transport_document : List Field
xhttp_transport_document =
    record { name = "extra"; kind = raw_field } ∷ strings ("type" ∷ "path" ∷ "host" ∷ "mode" ∷ [])

abbrev pub http_message : String
http_message = "WebSocket and HTTPUpgrade transport require non-empty path and host strings."

-- The case of WebSocket and HTTPUpgrade
unfoldable pub http_transport : String → Option Document → Checked Transport
http_transport type none = problem http_message
http_transport type (some raw) =
    let path = string_field "path" raw in
    let host = string_field "host" raw in
    if is_filled path && is_filled host
    then valid (record (transport_of type) { path = path.value; host = host.value })
    else problem http_message

abbrev pub grpc_message : String
grpc_message = "gRPC transport requires a non-empty service_name string."

-- The case of gRPC
unfoldable pub grpc_transport : Option Document → Checked Transport
grpc_transport none = problem grpc_message
grpc_transport (some raw) =
    let service_name = string_field "service_name" raw in
    let mode = or_default "gun" (string_field "mode" raw).value in
    if not (is_filled service_name)
    then problem grpc_message
    else if not (mode == "gun") && not (mode == "multi") && not (mode == "guna")
    then problem "gRPC mode must be gun, multi, or guna."
    else valid (record (transport_of "grpc") {
      service_name = service_name.value;
      mode = mode;
      authority = (string_field "authority" raw).value;
    })

abbrev pub xhttp_modes : String → Bool
xhttp_modes mode =
    mode == "auto" || mode == "packet-up" || mode == "stream-up" || mode == "stream-one"

abbrev pub with_extra : Transport → Option (List ℕ) → Checked Transport
with_extra t none =
    problem "XHTTP extra must be a JSON object accepted by JSON Canonicalization Scheme processing."
with_extra t (some bytes) = valid (record t { extra = some bytes })

unfoldable pub extra_transport : Decoder → Transport → Option Json → Checked Transport
unfolding valid_jcs_object
extra_transport d t none = valid t
extra_transport d t (some extra) = with_extra t (valid_jcs_object d extra)

abbrev pub xhttp_message : String
xhttp_message = "XHTTP transport requires non-empty path, host, and mode strings."

-- The case of XHTTP
unfoldable pub xhttp_transport : Decoder → Option Document → Checked Transport
unfolding extra_transport
xhttp_transport d none = problem xhttp_message
xhttp_transport d (some raw) =
    let path = string_field "path" raw in
    let host = string_field "host" raw in
    let mode = string_field "mode" raw in
    if not (is_filled path && is_filled host && is_filled mode)
    then problem xhttp_message
    else if not (xhttp_modes mode.value)
    then problem "XHTTP mode must be auto, packet-up, stream-up, or stream-one."
    else extra_transport d
        (record (transport_of "xhttp") { path = path.value; host = host.value; mode = mode.value })
        (last_of "extra" raw)

abbrev pub bare_transport : String → String → Option Document → Checked Transport
bare_transport type message none = problem message
bare_transport type message (some raw) = valid (transport_of type)

unfoldable pub transport_by : Decoder → Option Json → String → Checked Transport
unfolding decode http_transport grpc_transport xhttp_transport
transport_by d doc type =
    if type == "tcp"
    then bare_transport "tcp" "tcp transport accepts only type." (decode d type_only doc)
    else if type == "ws" || type == "httpupgrade"
    then http_transport type (decode d http_transport_document doc)
    else if type == "grpc"
    then grpc_transport (decode d grpc_transport_document doc)
    else if type == "xhttp"
    then xhttp_transport d (decode d xhttp_transport_document doc)
    else bare_transport type "unsupported transport accepts only type." (decode d type_only doc)

abbrev transport_or : Decoder → Option Json → Option String → Checked Transport
transport_or d doc none = problem "transport must be a typed object."
transport_or d doc (some type) = transport_by d doc type

-- parseTransport
unfoldable pub parse_transport : Decoder → Option Json → Checked Transport
unfolding object_type transport_by
parse_transport d doc = transport_or d doc (object_type d doc)
