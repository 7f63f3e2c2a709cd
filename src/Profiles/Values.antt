-- ===== src/Profiles/Values.antt =====
-- internal/profiles/profiles.go: the checks of the values that a client is given, and the profile that is
-- built from an advertisement that passes them. uuid.ParseString of xray-core and jcs.Transform of
-- gowebpki/jcs are parameters.
use xform.Base.{
  ℕ, suc, ◌*◌, ◌/◌, ◌%◌, String, Bool, false, not, ◌&&◌, ◌||◌, map, Option, none, some, ◌==◌,
  nat_eq, string_eq, if◌then◌else◌, ltb, leb,
}
use xform.Base.Text.{CaseTables, has_prefix}
use xform.Base.Slices.{utf8, byte_length, every_char}
use xform.Json.{is_some}
use xform.Hosts.{Resolver, canonical_host}
use xform.Advertisements.{Security, Advertisement}
use xform.Profiles.Uri.{Bytes, Available, serialize_uri}
use Prim.Native.Char.{code}

pub record Libraries : Type 0 where
  pub tables : CaseTables
  pub resolver : Resolver
  pub parse_uuid : String → Option String
  pub transform : Bytes → Option Bytes

abbrev is_base64_url : ℕ → Bool
is_base64_url c =
    (leb b'a' c && leb c b'z')
    || (leb b'A' c && leb c b'Z')
    || (leb b'0' c && leb c b'9')
    || c == b'-'
    || c == b'_'

-- The characters of the alphabet; line ends are skipped, any other is an error.
base64_digits : String → Option ℕ
base64_digits String.[] = some 0
base64_digits (String.◌∷◌ c s) =
    let rest = base64_digits s in
    if is_base64_url (code c)
    then elim rest [ none ↦ none | some n ↦ some (suc n) ]
    else if code c == 10 || code c == 13
    then rest
    else none

abbrev decoded_length : Option ℕ → Option ℕ
decoded_length none = none
decoded_length (some n) = if n % 4 == 1 then none else some (n * 6 / 8)

-- base64.RawURLEncoding.DecodeString: the length of what it decodes to, none for its error
unfoldable pub base64_length : String → Option ℕ
unfolding base64_digits
base64_length s = decoded_length (base64_digits s)

abbrev decodes_to : ℕ → Option ℕ → Bool
decodes_to n none = false
decodes_to n (some m) = m == n

abbrev is_hex : ℕ → Bool
is_hex c = (leb b'0' c && leb c b'9') || (leb b'a' c && leb c b'f') || (leb b'A' c && leb c b'F')

-- hex.DecodeString has no error.
abbrev pub is_hex_text : String → Bool
is_hex_text s = every_char is_hex s && byte_length s % 2 == 0

abbrev is_host : Libraries → String → Bool
is_host l host = is_some (canonical_host l.tables l.resolver host)

abbrev pub key_message : String
key_message = "The advertised REALITY public_key is not a valid X25519 public key."

abbrev pub short_id_message : String
short_id_message = "The advertised REALITY short_id is not valid hexadecimal data."

-- The checks of REALITY at the end of invalidClientValues
unfoldable pub invalid_reality_values : Security → Option String
unfolding base64_length every_char byte_length
invalid_reality_values s =
    if not (decodes_to 32 (base64_length s.public_key))
    then some key_message
    else if ltb 16 (byte_length s.short_id)
    then some short_id_message
    else if not (is_hex_text s.short_id)
    then some short_id_message
    else if not (s.post_quantum_verify == "")
        && not (decodes_to 1952 (base64_length s.post_quantum_verify))
    then some "The advertised REALITY post_quantum_verify value is invalid."
    else if not (s.spider_x == "") && not (has_prefix s.spider_x "/")
    then some "The advertised REALITY spider_x must start with a slash."
    else none

-- invalidClientValues, none for its ""
unfoldable pub invalid_client_values : Libraries → Advertisement → Option String
unfolding invalid_reality_values
invalid_client_values l a =
    let s = a.security in
    if not (is_host l a.host)
    then some "The advertised public host cannot be canonicalized."
    else if not (s.type == "tls") && not (s.type == "reality")
    then none
    else if not (is_host l s.server_name)
    then some "The advertised security server_name is not a valid host."
    else if s.type == "tls" && not (s.verify_name == "") && not (is_host l s.verify_name)
    then some "The advertised TLS verify_name is not a valid host."
    else if not (s.type == "reality")
    then none
    else invalid_reality_values s

-- Available, with the fields of the link apart
pub record Profile : Type 0 where
  pub inbound_tag : String
  pub topology : String
  pub fields : Available
  pub uri : Bytes

infixl 5 ◌>>=◌
abbrev pub ◌>>=◌ {ℓ κ} : {A : Type ℓ} {B : Type κ} → Option A → (A → Option B) → Option B
none >>= k = none
some a >>= k = k a

-- json.RawMessage(canonical), where there is an extra object
abbrev pub transformed : Libraries → Option Bytes → Option (Option Bytes)
transformed l none = some none
transformed l (some extra) = do canonical ← l.transform extra; some (some canonical)

abbrev pub verified : Libraries → String → Option String
verified l name = if name == "" then some "" else canonical_host l.tables l.resolver name

abbrev pub flow_pointer : String → Option Bytes
flow_pointer flow = if flow == "" then none else some (utf8 flow)

-- The fields of the profile, from the values that were made canonical.
unfoldable pub available_fields :
    String → String → Advertisement → String → Option Bytes → String → String → Available
unfolding utf8
available_fields client_id flow a host extra server_name verify_name = record {
  name = utf8 a.name;
  client_id = utf8 client_id;
  flow = flow_pointer flow;
  endpoint = record { host = utf8 host; port = a.port };
  transport = record {
    type = a.transport.type;
    path = utf8 a.transport.path;
    host = utf8 a.transport.host;
    service_name = utf8 a.transport.service_name;
    mode = utf8 a.transport.mode;
    authority = utf8 a.transport.authority;
    extra = extra;
  };
  security = record {
    type = a.security.type;
    fingerprint = utf8 a.security.fingerprint;
    server_name = utf8 server_name;
    alpn = map utf8 a.security.alpn;
    ech = utf8 a.security.ech;
    certificate_pins = map utf8 a.security.certificate_pins;
    verify_name = utf8 verify_name;
    public_key = utf8 a.security.public_key;
    short_id_present = a.security.short_id_present;
    short_id = utf8 a.security.short_id;
    post_quantum_verify = utf8 a.security.post_quantum_verify;
    spider_x = utf8 a.security.spider_x;
  };
}

abbrev pub assembled :
    String
    → String
    → String
    → Advertisement
    → Option String
    → Option (Option Bytes)
    → Option String
    → Option String
    → Option Profile
assembled email client_id flow a canonical_host canonical_extra canonical_server canonical_name = do
  host ← canonical_host
  extra ← canonical_extra
  server_name ← canonical_server
  verify_name ← canonical_name
  let fields = available_fields client_id flow a host extra server_name verify_name
  some (record {
    inbound_tag = a.inbound_tag;
    topology = a.topology;
    fields = fields;
    uri = serialize_uri (utf8 email) fields;
  })

-- buildAvailable
unfoldable pub build_available :
    Libraries → String → String → String → Advertisement → Option Profile
unfolding available_fields
build_available l email client_id flow a =
    assembled email client_id flow a (canonical_host l.tables l.resolver a.host)
      (transformed l a.transport.extra) (canonical_host l.tables l.resolver a.security.server_name)
      (verified l a.security.verify_name)
