-- ===== src/Profiles/Uri/Link.antt =====
-- internal/profiles/uri.go: serializeURI, against the reader of Profiles.Uri.Query.
use xform.Base.{
  ℕ, zero, suc, ◌+◌, ◌/◌, ◌%◌, String, Bool, true, false, List, [], ◌∷◌, ◌++◌, Option, none, some,
  ◌==◌, nat_eq, if◌then◌else◌, ltb, ◌≡◌, ap, ◌∙◌, arith, Bool-cases, inl, inr,
}
use xform.Base.Lists.{All, All-append, append_assoc}
use xform.Base.Text.{codes}
use xform.Profiles.Uri.{
  Bytes, QueryField, Available, Transport, Security, field_if_set, optional_field, list_field,
  transport_fields, security_fields, query_fields, separated, query_of, encode_uri_component,
  decimal, serialize_uri,
}
use xform.Profiles.Uri.Decoding.{IsByte, Lacks}
use xform.Profiles.Uri.Query.{cut, cut-Lacks, read_link, read_link-query_of, Plain}

-- A name that the reader does not split.
abbrev Named : QueryField → Type 0
Named f = Lacks b'&' f.name × (Lacks b'=' f.name × Lacks b'#' f.name)

field_if_set-Named :
    (name : String) (value : Bytes)
    → Named (record { name = codes name; value = [] })
    → All Named (field_if_set name value)
field_if_set-Named name [] h = tt
field_if_set-Named name (c ∷ s) h = (h, tt)

optional_field-Named :
    (name : String) (value : Option Bytes)
    → Named (record { name = codes name; value = [] })
    → All Named (optional_field name value)
optional_field-Named name none h = tt
optional_field-Named name (some s) h = (h, tt)

list_field-Named :
    (name : String) (values : List Bytes)
    → Named (record { name = codes name; value = [] })
    → All Named (list_field name values)
list_field-Named name [] h = tt
list_field-Named name (v ∷ vs) h = (h, tt)

transport_fields-Named : (t : Transport) → All Named (transport_fields t)
unfolding transport_fields
transport_fields-Named t =
    ground (arith, field_if_set-Named "authority" t.authority, optional_field-Named "extra" t.extra)

if_Named :
    (b : Bool) (fs gs : List QueryField)
    → All Named fs
    → All Named gs
    → All Named (if b then fs else gs)
if_Named true fs gs h k = h
if_Named false fs gs h k = k

tls_fields-Named :
    (s : Security)
    → All Named (
        list_field "alpn" s.alpn
        ++ field_if_set "ech" s.ech
        ++ list_field "pcs" s.certificate_pins
        ++ field_if_set "vcn" s.verify_name)
tls_fields-Named s =
    All-append Named _ _
      (All-append Named _ _
        (All-append Named _ _ (list_field-Named "alpn" s.alpn (ground arith))
          (field_if_set-Named "ech" s.ech (ground arith)))
        (list_field-Named "pcs" s.certificate_pins (ground arith)))
      (field_if_set-Named "vcn" s.verify_name (ground arith))

short_id-Named : (b : Bool) (f : QueryField) → Named f → All Named (if b then f ∷ [] else [])
short_id-Named true f h = (h, tt)
short_id-Named false f h = tt

reality_fields-Named :
    (s : Security)
    → All Named (
        (if s.short_id_present then record { name = codes "sid"; value = s.short_id } ∷ [] else [])
        ++ field_if_set "pqv" s.post_quantum_verify
        ++ field_if_set "spx" s.spider_x)
reality_fields-Named s =
    All-append Named _ _
      (All-append Named _ _ (short_id-Named s.short_id_present _ (ground arith))
        (field_if_set-Named "pqv" s.post_quantum_verify (ground arith)))
      (field_if_set-Named "spx" s.spider_x (ground arith))

security_fields-Named : (s : Security) → All Named (security_fields s)
unfolding security_fields
security_fields-Named s = ground (arith, tls_fields-Named s, reality_fields-Named s)

query_fields-Named : (p : Available) → All Named (query_fields p)
unfolding query_fields
query_fields-Named p = (
  ground arith,
  (
    ground arith,
    All-append Named _ _
        (All-append Named _ _
          (All-append Named _ _
            (All-append Named _ _ (optional_field-Named "flow" p.flow (ground arith))
              (ground arith))
            (transport_fields-Named p.transport))
          (ground arith))
        (security_fields-Named p.security),
  ),
)

Named-Plain :
    (fs : List QueryField) → All Named fs → All (λ f. All IsByte f.value) fs → All Plain fs
Named-Plain [] h k = tt
Named-Plain (f ∷ fs) h k = ((h.0.0, (h.0.1.0, (h.0.1.1, k.0))), Named-Plain fs h.1 k.1)

decimal-Lacks : (f n : ℕ) → Lacks b'?' (decimal f n)
decimal-Lacks zero n = tt
decimal-Lacks (suc f) n =
    let last : ((48 + n % 10) == b'?') ≡ false = ground arith in
    let digits =
      All-append (λ c. (c == b'?') ≡ false) (decimal f (n / 10)) ((48 + n % 10) ∷ [])
        (decimal-Lacks f (n / 10)) (last, tt) in
    let single : ltb n 10 ≡ true → ((48 + n) == b'?') ≡ false = λ small. ground arith in
    elim (Bool-cases (ltb n 10)) [
      | inl small ↦ rw small (single small, tt)
      | inr more ↦ rw more digits
    ]

abbrev read_behind : Bytes × Option Bytes → Option (List QueryField × Bytes)
read_behind (before, none) = none
read_behind (before, some link) = read_link link

-- The fields and the fragment of a link: what stands behind its first `?`.
abbrev pub read_uri : Bytes → Option (List QueryField × Bytes)
read_uri s = read_behind (cut b'?' s)

-- The link up to its query.
abbrev head_of : Available → Bytes
head_of p =
    codes "vless://"
    ++ p.client_id
    ++ codes "@"
    ++ p.endpoint.host
    ++ codes ":"
    ++ decimal 5 p.endpoint.port

head_of-Lacks :
    (p : Available) → Lacks b'?' p.client_id → Lacks b'?' p.endpoint.host → Lacks b'?' (head_of p)
head_of-Lacks p h k =
    let scheme : Lacks b'?' (codes "vless://") = ground arith in
    let at : Lacks b'?' (codes "@") = ground arith in
    let colon : Lacks b'?' (codes ":") = ground arith in
    let join = All-append (λ c. (c == b'?') ≡ false) in
    let host = p.endpoint.host in
    let user = codes "vless://" ++ p.client_id in
    let named = join (codes "vless://") p.client_id scheme h in
    let reached = join (user ++ codes "@") host (join user (codes "@") named at) k in
    join (user ++ codes "@" ++ host ++ codes ":") (decimal 5 p.endpoint.port)
      (join (user ++ codes "@" ++ host) (codes ":") reached colon) (decimal-Lacks 5 p.endpoint.port)

-- Reading the link of a profile gives back its query fields and, in the fragment, the email and the
-- profile's name, whatever bytes these hold, if the Client ID and the host hold no `?`.
pub read_uri-serialize_uri :
    (email : Bytes) (p : Available)
    → Lacks b'?' p.client_id
    → Lacks b'?' p.endpoint.host
    → All (λ f. All IsByte f.value) (query_fields p)
    → All IsByte (separated email p.name)
    → read_uri (serialize_uri email p) ≡ some (query_fields p, separated email p.name)
unfolding serialize_uri query_fields
read_uri-serialize_uri email p h k values fragment =
    let tail =
      query_of (query_fields p) ++ (b'#' ∷ encode_uri_component (separated email p.name)) in
    let plain = Named-Plain (query_fields p) (query_fields-Named p) values in
    ap read_uri (append_assoc (head_of p) (b'?' ∷ []) tail)
    ∙ ap read_behind (cut-Lacks b'?' (head_of p) tail (head_of-Lacks p h k))
    ∙ read_link-query_of _ _ (separated email p.name) plain fragment
