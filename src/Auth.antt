-- ===== src/Auth.antt =====
-- internal/auth/auth.go: admission to the panel's HTTP interface. SHA-256 is the parameter `digest`;
-- net/http's reading of the session cookie and encoding/json's of a login body are the parameters
-- `cookie_of` and `password_of`. Times and durations are whole seconds of the clock.
pub mod Sessions
pub mod Gateway
use xform.Base.{
  ℕ, zero, suc, ◌+◌, ◌*◌, String, Bool, true, false, ◌&&◌, ◌||◌, not, List, [], ◌∷◌, ◌++◌, Option,
  none, some, ◌==◌, nat_eq, string_eq, if◌then◌else◌, ltb, leb,
}
use xform.Base.Lists.{keep}
use xform.Base.Text.{CaseTables, equal_fold}
use Prim.Native.Char.{Char, code}

pub data Mode : Type 0 where
  mode_password mode_trusted_proxy : Mode

-- SessionTTL
abbrev pub session_ttl : ℕ
session_ttl = 24 * 3600

-- The bytes of a character in UTF-8.
abbrev char_size : ℕ → ℕ
char_size c = if ltb c 0x80 then 1 else if ltb c 0x800 then 2 else if ltb c 0x10000 then 3 else 4

unfoldable pub byte_length : String → ℕ
byte_length String.[] = 0
byte_length (String.◌∷◌ c s) = char_size (code c) + byte_length s

abbrev pub is_lower_hex : ℕ → Bool
is_lower_hex c = (leb 48 c && leb c 57) || (leb 97 c && leb c 102)

unfoldable pub all_lower_hex : String → Bool
all_lower_hex String.[] = true
all_lower_hex (String.◌∷◌ c s) = is_lower_hex (code c) && all_lower_hex s

-- ValidateTrustedProxySecret, as whether it returns no error
unfoldable pub validate_trusted_proxy_secret : String → Bool
validate_trusted_proxy_secret secret =
    if not (byte_length secret == 64) then false else all_lower_hex secret

abbrev pub Headers : Type 0
Headers = List (String × List String)

pub record Request : Type 0 where
  pub method : String
  pub path : String
  pub headers : Headers
  pub body : String

abbrev pub trusted_headers : List String
trusted_headers =
    "X-Xform-Authenticated" ∷ "Authorization" ∷ "Proxy-Authorization" ∷ "Forwarded" ∷ "Cookie"
    ∷ "X-Forwarded-For" ∷ "X-Forwarded-Host" ∷ "X-Forwarded-Port" ∷ "X-Forwarded-Proto"
    ∷ "X-Forwarded-User" ∷ "X-Forwarded-Email" ∷ "X-Forwarded-Groups"
    ∷ "X-Forwarded-Preferred-Username" ∷ "X-Forwarded-Access-Token" ∷ "X-Forwarded-Authorization"
    ∷ "X-Forwarded-Client-Cert" ∷ "X-Forwarded-Server" ∷ "X-Auth-Request-User"
    ∷ "X-Auth-Request-Email" ∷ "X-Auth-Request-Groups" ∷ "X-Auth-Request-Preferred-Username"
    ∷ "X-Auth-Request-Token" ∷ "X-Auth-Request-Access-Token" ∷ "X-Auth-Request-Redirect"
    ∷ "X-Auth-Request-Id-Token" ∷ "X-Auth-Request-IdToken" ∷ "X-Access-Token" ∷ "X-ID-Token"
    ∷ "X-Id-Token" ∷ "Remote-User" ∷ "Remote-Email" ∷ "Remote-Groups" ∷ "X-Remote-User"
    ∷ "X-Remote-Email" ∷ "X-Remote-Groups" ∷ "X-Authenticated-User" ∷ "X-Authenticated-Email"
    ∷ "X-User" ∷ "X-Email" ∷ "X-Groups" ∷ "X-Group" ∷ "X-Real-IP" ∷ "X-Original-URL"
    ∷ "X-Original-URI" ∷ "X-Original-Method" ∷ "X-Forwarded-Uri" ∷ "X-SSL-Client-Cert"
    ∷ "X-Client-Cert" ∷ []

-- The inner loop of stripTrustedHeaders.
unfoldable pub names_one : CaseTables → String → List String → Bool
names_one u key [] = false
names_one u key (name ∷ names) = equal_fold u key name || names_one u key names

unfoldable pub header_values : CaseTables → String → Headers → List String
header_values u name [] = []
header_values u name ((key, entries) ∷ rest) =
    let later = header_values u name rest in
    if equal_fold u key name then entries ++ later else later

unfoldable pub strip_trusted_headers : CaseTables → Headers → Headers
unfolding keep
strip_trusted_headers u = keep (λ h. not (names_one u h.0 trusted_headers))

abbrev pub is_health_request : Request → Bool
is_health_request r = (r.method == "GET" || r.method == "HEAD") && r.path == "/api/v1/healthz"
