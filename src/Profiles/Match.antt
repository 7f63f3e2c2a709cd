-- ===== src/Profiles/Match.antt =====
-- internal/profiles/profiles.go: whether an advertised client view fits the inbound that it is for. The
-- texts are Go strings of valid UTF-8, as JSON decoding makes them.
use xform.Base.{
  String, Bool, true, false, not, ◌&&◌, ◌||◌, List, [], ◌∷◌, Option, none, some, ◌==◌, nat_eq,
  string_eq, if◌then◌else◌,
}
use xform.Base.Text.{CaseTables, to_lower, equal_fold, has_prefix}
use xform.Base.Slices.{contains_char, cut_last, split}
use xform.Hosts.{Resolver, equal_host}
use xform.XrayConfig.{Inbound}
use xform.Advertisements.{Transport, Security, Advertisement}

abbrev pub default_none : String → String
default_none value = if value == "" then "none" else value

-- supportedTransport
abbrev pub supported_transport : String → Bool
supported_transport t = t == "tcp" || t == "ws" || t == "httpupgrade" || t == "grpc" || t == "xhttp"

-- canonicalInboundTransport, none for a type that is not supported
unfoldable pub canonical_inbound_transport : CaseTables → String → Option String
canonical_inbound_transport u value =
    let lowered = to_lower u value in
    if lowered == "" || lowered == "raw" || lowered == "tcp"
    then some "tcp"
    else if lowered == "ws" || lowered == "websocket"
    then some "ws"
    else if lowered == "httpupgrade"
    then some "httpupgrade"
    else if lowered == "grpc"
    then some "grpc"
    else if lowered == "xhttp" || lowered == "splithttp"
    then some "xhttp"
    else none

-- supportedSecurity
abbrev pub supported_security : String → Bool
supported_security s = s == "tls" || s == "reality" || s == "none"

-- canonicalInboundSecurity
unfoldable pub canonical_inbound_security : CaseTables → String → Option String
canonical_inbound_security u value =
    let lowered = to_lower u value in
    if lowered == "" || lowered == "none"
    then some "none"
    else if lowered == "tls"
    then some "tls"
    else if lowered == "reality"
    then some "reality"
    else none

abbrev pub is_tcp : Option String → Bool
is_tcp none = false
is_tcp (some t) = t == "tcp"

-- unsupportedDirectTransportFeature
unfoldable pub unsupported_direct_transport_feature : CaseTables → Inbound → Bool
unfolding canonical_inbound_transport
unsupported_direct_transport_feature u inbound =
    inbound.transport.final_mask_configured
    || (is_tcp (canonical_inbound_transport u inbound.transport.kind)
        && inbound.transport.raw_header_configured
        && not (equal_fold u (default_none inbound.transport.raw_header_type) "none"))

-- containsFold
unfoldable pub contains_fold : CaseTables → List String → String → Bool
contains_fold u [] wanted = false
contains_fold u (value ∷ values) wanted = equal_fold u value wanted || contains_fold u values wanted

-- containsHost
unfoldable pub contains_host : CaseTables → Resolver → List String → String → Bool
unfolding equal_host
contains_host u r [] wanted = false
contains_host u r (host ∷ hosts) wanted =
    equal_host u r host wanted || contains_host u r hosts wanted

-- emptyRealityShortIDAccepted
unfoldable pub empty_reality_short_id_accepted : CaseTables → Inbound → Advertisement → Bool
unfolding contains_fold
empty_reality_short_id_accepted u inbound a =
    not (a.security.type == "reality")
    || not (a.security.short_id == "")
    || contains_fold u inbound.security.reality.short_ids ""

abbrev pub vision : String
vision = "xtls-rprx-vision"

-- compatibleShape
unfoldable pub compatible_shape : String → String → String → Bool
compatible_shape flow transport security =
    if not (flow == "") && not (flow == vision)
    then false
    else if security == "reality"
        && not (transport == "tcp")
        && not (transport == "grpc")
        && not (transport == "xhttp")
    then false
    else if flow == vision
    then transport == "tcp" && (security == "tls" || security == "reality")
    else true

abbrev pub normalized_path : String → String
normalized_path path = if path == "" then "/" else path

abbrev pub normalized_xhttp_mode : String → String
normalized_xhttp_mode mode = if mode == "" then "auto" else mode

-- acceptedHost
abbrev pub accepted_host : CaseTables → Resolver → String → String → Bool
accepted_host u r inbound_host advertised_host =
    inbound_host == "" || equal_host u r inbound_host advertised_host

abbrev prefix_and_names : Option (String × String) → Option (String × List String)
prefix_and_names none = none
prefix_and_names (some (before, after)) =
    if before == "" || after == "" then none else some (before, split b'|' after)

-- splitGRPCService
unfoldable pub split_grpc_service : String → Option (String × List String)
unfolding cut_last split
split_grpc_service service =
    if not (has_prefix service "/") then none else prefix_and_names (cut_last b'/' service)

abbrev second_or : String → List String → String
second_or first [] = first
second_or first (second ∷ names) = second

abbrev wanted_name : String → List String → String → Bool
wanted_name mode [] name = false
wanted_name mode (first ∷ names) name =
    name == (if mode == "multi" then second_or first names else first)

abbrev accepted_names :
    String → Option (String × List String) → Option (String × List String) → Bool
accepted_names mode (some (prefix, names)) (some (client_prefix, name ∷ [])) =
    client_prefix == prefix && wanted_name mode names name
accepted_names mode server client = false

-- acceptedGRPCService
unfoldable pub accepted_grpc_service : String → String → String → Bool
unfolding split_grpc_service contains_char
accepted_grpc_service inbound advertised mode =
    if not (has_prefix inbound "/")
    then inbound == advertised
    else if contains_char b'|' advertised
    then false
    else accepted_names mode (split_grpc_service inbound) (split_grpc_service advertised)

-- The first switch of directMatch
unfoldable pub transport_match : CaseTables → Resolver → Inbound → Transport → Bool
unfolding accepted_grpc_service
transport_match u r inbound t =
    if t.type == "ws"
    then normalized_path inbound.transport.web_socket.path == t.path
      && accepted_host u r inbound.transport.web_socket.host t.host
    else if t.type == "httpupgrade"
    then normalized_path inbound.transport.http_upgrade.path == t.path
      && accepted_host u r inbound.transport.http_upgrade.host t.host
    else if t.type == "grpc"
    then accepted_grpc_service inbound.transport.grpc.service_name t.service_name t.mode
    else if t.type == "xhttp"
    then normalized_path inbound.transport.xhttp.path == t.path
      && accepted_host u r inbound.transport.xhttp.host t.host
      && normalized_xhttp_mode inbound.transport.xhttp.mode == t.mode
    else true

-- The second switch of directMatch
unfoldable pub security_match : CaseTables → Resolver → Inbound → Security → Bool
unfolding contains_host contains_fold
security_match u r inbound s =
    if s.type == "tls"
    then not (
        inbound.security.tls.reject_unknown_sni
        && not (inbound.security.tls.server_name == "")
        && not (equal_host u r inbound.security.tls.server_name s.server_name))
    else if s.type == "reality"
    then contains_host u r inbound.security.reality.server_names s.server_name
      && contains_fold u inbound.security.reality.short_ids s.short_id
    else true

-- directMatch, where both types are equal when its switches are reached
unfoldable pub direct_match :
    CaseTables → Resolver → Inbound → String → String → Advertisement → Bool
unfolding transport_match security_match
direct_match u r inbound transport security a =
    if not (transport == a.transport.type) || not (security == a.security.type)
    then false
    else transport_match u r inbound a.transport && security_match u r inbound a.security
