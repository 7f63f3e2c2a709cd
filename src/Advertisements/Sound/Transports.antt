-- ===== src/Advertisements/Sound/Transports.antt =====
-- Every transport that parseTransport of internal/advertisements/parse.go returns obeys the rules.
use xform.Base.{
  String, true, false, not, ◌&&◌, ◌||◌, ◌==◌, string_eq, ◌≡◌, Option, none, some, arith, Bool-cases,
  Option-cases, inl, inr, refl,
}
use xform.Json.{Json, Document, string_field, last_of}
use xform.Advertisements.{Transport}
use xform.Advertisements.Decode.{
  Decoder, decode, object_type, valid_jcs_object, type_only, is_filled, or_default,
}
use xform.Advertisements.Transports.{
  xhttp_modes, http_transport, grpc_transport, xhttp_transport, extra_transport, with_extra,
  bare_transport, transport_by, parse_transport,
}
use xform.Advertisements.Rules.{IsTransport}
use xform.Advertisements.Sound.Post.{Ensures, equal_apart, object_type_filled}

module _ (type : String) (typed : (type == "") ≡ false) where
  http_transport-IsTransport :
      (raw : Option Document)
      → type == "grpc" || type == "xhttp" ≡ false
      → Ensures IsTransport (http_transport type raw)
  unfolding http_transport
  http_transport-IsTransport none k = tt
  http_transport-IsTransport (some raw) k =
      let filled = is_filled (string_field "path" raw) && is_filled (string_field "host" raw) in
      elim (Bool-cases filled) [ inl e ↦ rw e (ground arith) | inr e ↦ rw e tt ]

  bare_transport-IsTransport :
      (message : String) (raw : Option Document)
      → type == "ws" || type == "httpupgrade" || type == "grpc" || type == "xhttp" ≡ false
      → Ensures IsTransport (bare_transport type message raw)
  bare_transport-IsTransport message none k = tt
  bare_transport-IsTransport message (some raw) k = ground arith

grpc_transport-IsTransport : (raw : Option Document) → Ensures IsTransport (grpc_transport raw)
unfolding grpc_transport
grpc_transport-IsTransport none = tt
grpc_transport-IsTransport (some raw) =
    let mode = or_default "gun" (string_field "mode" raw).value in
    let strange = not (mode == "gun") && not (mode == "multi") && not (mode == "guna") in
    elim (Bool-cases (is_filled (string_field "service_name" raw))) [
      | inl e ↦ elim (Bool-cases strange) [
        | inl k ↦ rw (e, k) tt
        | inr k ↦ rw (e, k) (ground arith)
      ]
      | inr e ↦ rw e tt
    ]

extra_transport-IsTransport :
    (d : Decoder) (t : Transport) (extra : Option Json)
    → IsTransport t
    → Ensures IsTransport (extra_transport d t extra)
unfolding extra_transport
extra_transport-IsTransport d t none h = h
extra_transport-IsTransport d t (some v) h =
    elim (valid_jcs_object d v) as (λ o. Ensures IsTransport (with_extra t o)) [
      | none ↦ tt
      | some bytes ↦ ground arith
    ]

xhttp_transport-IsTransport :
    (d : Decoder) (raw : Option Document) → Ensures IsTransport (xhttp_transport d raw)
unfolding xhttp_transport
xhttp_transport-IsTransport d none = tt
xhttp_transport-IsTransport d (some raw) =
    let path = string_field "path" raw in
    let host = string_field "host" raw in
    let mode = string_field "mode" raw in
    elim (Bool-cases (is_filled path && is_filled host && is_filled mode)) [
      | inl e ↦ elim (Bool-cases (xhttp_modes mode.value)) [
        | inl k ↦ rw (e, k) (extra_transport-IsTransport d _ (last_of "extra" raw) (ground arith))
        | inr k ↦ rw (e, k) tt
      ]
      | inr e ↦ rw e tt
    ]

http_other :
    (type : String)
    → type == "ws" || type == "httpupgrade" ≡ true
    → type == "grpc" || type == "xhttp" ≡ false
http_other type k = elim (Bool-cases (type == "ws")) [
  | inl e ↦ rw (equal_apart type "ws" "grpc" e refl, equal_apart type "ws" "xhttp" e refl) refl
  | inr e ↦
      let f : (type == "httpupgrade") ≡ true = ground arith in
      rw
        (
          equal_apart type "httpupgrade" "grpc" f refl,
          equal_apart type "httpupgrade" "xhttp" f refl,
        )
        refl
]

transport_by-IsTransport :
    (d : Decoder) (doc : Option Json) (type : String)
    → (type == "") ≡ false
    → Ensures IsTransport (transport_by d doc type)
unfolding transport_by
transport_by-IsTransport d doc type typed = elim (Bool-cases (type == "tcp")) [
  | inl e ↦ rw e (bare_transport-IsTransport "tcp" refl _ (decode d type_only doc) refl)
  | inr e ↦ elim (Bool-cases (type == "ws" || type == "httpupgrade")) [
    | inl k ↦ rw (e, k) (http_transport-IsTransport type typed _ (http_other type k))
    | inr k ↦ elim (Bool-cases (type == "grpc")) [
      | inl m ↦ rw (e, k, m) (grpc_transport-IsTransport _)
      | inr m ↦ elim (Bool-cases (type == "xhttp")) [
        | inl n ↦ rw (e, k, m, n) (xhttp_transport-IsTransport d _)
        | inr n ↦ rw (e, k, m, n) (bare_transport-IsTransport type typed _ _ (ground arith))
      ]
    ]
  ]
]

pub parse_transport-IsTransport :
    (d : Decoder) (doc : Option Json) → Ensures IsTransport (parse_transport d doc)
unfolding parse_transport
parse_transport-IsTransport d doc = elim (Option-cases (object_type d doc)) [
  | inl e ↦ rw e tt
  | inr (type, e) ↦ rw e (transport_by-IsTransport d doc type (object_type_filled d doc type e))
]
