-- ===== src/Advertisements/Sound/Securities.antt =====
-- Every security that parseSecurity of internal/advertisements/parse.go returns obeys the rules.
use xform.Base.{
  String, false, ◌||◌, ◌==◌, string_eq, ◌≡◌, Option, none, some, arith, Bool-cases, Option-cases,
  inl, inr, refl,
}
use xform.Json.{Json, Document, StringField, string_field}
use xform.Advertisements.Decode.{
  Decoder, Checked, valid, problem, decode, object_type, type_only, is_filled,
}
use xform.Advertisements.Securities.{
  fingerprint, tls_fields, tls_security, reality_fields, reality_security, bare_security,
  security_by, parse_security,
}
use xform.Advertisements.Rules.{IsSecurity}
use xform.Advertisements.Sound.Post.{Ensures, object_type_filled}

abbrev IsFilled : String → Type 0
IsFilled s = (s == "") ≡ false

fingerprint-IsFilled : (f : StringField) → Ensures IsFilled (fingerprint f)
fingerprint-IsFilled f = elim (Bool-cases f.set) [
  | inl e ↦ elim (Bool-cases (f.value == "")) [ inl k ↦ rw (e, k) tt | inr k ↦ rw (e, k) k ]
  | inr e ↦ rw e refl
]

tls_fields-IsSecurity :
    (host : String) (raw : Document) (f : Checked String)
    → IsFilled host
    → Ensures IsFilled f
    → Ensures IsSecurity (tls_fields host raw f)
unfolding tls_fields
tls_fields-IsSecurity host raw (problem m) k h = tt
tls_fields-IsSecurity host raw (valid f) k h = ground arith

tls_security-IsSecurity :
    (host : String) (raw : Option Document)
    → IsFilled host
    → Ensures IsSecurity (tls_security host raw)
unfolding tls_security
tls_security-IsSecurity host none k = tt
tls_security-IsSecurity host (some raw) k =
    tls_fields-IsSecurity host raw _ k (fingerprint-IsFilled (string_field "fingerprint" raw))

reality_fields-IsSecurity :
    (raw : Document) (f : Checked String)
    → Ensures IsFilled f
    → Ensures IsSecurity (reality_fields raw f)
unfolding reality_fields
reality_fields-IsSecurity raw (problem m) h = tt
reality_fields-IsSecurity raw (valid f) h =
    let server_name = string_field "server_name" raw in
    let public_key = string_field "public_key" raw in
    let short_id = string_field "short_id" raw in
    elim (Bool-cases (is_filled server_name)) [
      | inl e ↦ elim (Bool-cases (is_filled public_key)) [
        | inl k ↦ elim (Bool-cases short_id.set) [
          | inl m ↦ rw (e, k, m) (ground arith)
          | inr m ↦ rw (e, k, m) tt
        ]
        | inr k ↦ rw (e, k) tt
      ]
      | inr e ↦ rw e tt
    ]

reality_security-IsSecurity : (raw : Option Document) → Ensures IsSecurity (reality_security raw)
unfolding reality_security
reality_security-IsSecurity none = tt
reality_security-IsSecurity (some raw) =
    reality_fields-IsSecurity raw _ (fingerprint-IsFilled (string_field "fingerprint" raw))

bare_security-IsSecurity :
    (type message : String) (raw : Option Document)
    → IsFilled type
    → type == "tls" || type == "reality" ≡ false
    → Ensures IsSecurity (bare_security type message raw)
bare_security-IsSecurity type message none h k = tt
bare_security-IsSecurity type message (some raw) h k = ground arith

security_by-IsSecurity :
    (d : Decoder) (doc : Option Json) (host type : String)
    → IsFilled host
    → IsFilled type
    → Ensures IsSecurity (security_by d doc host type)
unfolding security_by
security_by-IsSecurity d doc host type h typed = elim (Bool-cases (type == "tls")) [
  | inl e ↦ rw e (tls_security-IsSecurity host _ h)
  | inr e ↦ elim (Bool-cases (type == "reality")) [
    | inl k ↦ rw (e, k) (reality_security-IsSecurity _)
    | inr k ↦ elim (Bool-cases (type == "none")) [
      | inl m ↦ rw (e, k, m) (bare_security-IsSecurity "none" _ (decode d type_only doc) refl refl)
      | inr m ↦ rw (e, k, m) (bare_security-IsSecurity type _ _ typed (ground arith))
    ]
  ]
]

pub parse_security-IsSecurity :
    (d : Decoder) (doc : Option Json) (host : String)
    → IsFilled host
    → Ensures IsSecurity (parse_security d doc host)
unfolding parse_security
parse_security-IsSecurity d doc host h = elim (Option-cases (object_type d doc)) [
  | inl e ↦ rw e tt
  | inr (type, e) ↦
      rw e (security_by-IsSecurity d doc host type h (object_type_filled d doc type e))
]
