-- ===== src/Tests/Auth.antt =====
-- Runs of the authentication gateway. The digest of the runs is the text itself, and the cookie is
-- the one value of the header `Cookie`.
use xform.Base.{String, true, false, List, [], ◌∷◌, Option, none, some, ◌≡◌, refl, string_eq, ◌⊎◌}
use xform.Base.Lists.{keep}
use xform.Base.Assoc.{lookup}
use xform.Auth.{Request, Headers, strip_trusted_headers, header_values, names_one}
use xform.Auth.Sessions.{
  Sessions, validate, logout, run_calls, validates, logs_in, check_expiry,
  validate-run_calls-logout, validate-run_calls-validate,
}
use xform.Auth.Gateway.{
  handle, handle-trusted_gateway, handle-password_gateway, IsStripped, IsAsserted, IsLive, route,
  require_session, require_trusted_assertion, check_assertion,
}
use xform.Tests.{letters}

abbrev own : String → String
own s = s

abbrev first_cookie : Headers → Option String
first_cookie [] = none
first_cookie ((name, values) ∷ rest) = first values
  where
    first : List String → Option String
    first [] = none
    first (v ∷ vs) = some v

abbrev one_session : Sessions
one_session = record { password_hash = "secret"; expiries = ("t1", 100) ∷ [] }

validate-run_calls-logout_example :
    (validate "t1" 5 5 (
      run_calls own
        (validates "t1" 3 3 ∷ logs_in "secret" (some "t2") 4 ∷ [])
        (logout "t1" one_session))).0
    ≡ false
validate-run_calls-logout_example =
    validate-run_calls-logout own "t1" (validates "t1" 3 3 ∷ logs_in "secret" (some "t2") 4 ∷ []) 5
      5 one_session (tt, (refl, tt))

validate-run_calls-validate_example :
    (validate "t1" 86409 86409
      (run_calls own (validates "t2" 50 50 ∷ []) (validate "t1" 9 9 one_session).1)).0
    ≡ false
unfolding validate check_expiry lookup
validate-run_calls-validate_example =
    validate-run_calls-validate own "t1" (validates "t2" 50 50 ∷ []) 9 9 86409 86409 one_session
      refl (refl, tt)

abbrev asking : String → Headers → Request
asking path headers = record { method = "GET"; path = path; headers = headers; body = "" }

abbrev asserted_headers : Headers
asserted_headers =
    ("X-Xform-Authenticated", "secret" ∷ [])
    ∷ ("Remote-User", "eve" ∷ [])
    ∷ ("Accept", "*/*" ∷ [])
    ∷ []

handle-trusted_gateway_example :
    IsStripped letters own first_cookie some (asking "/" (("Accept", "*/*" ∷ []) ∷ []))
    × ((false ≡ true)
        ⊎ IsAsserted letters own first_cookie some "secret"
            (header_values letters "X-Xform-Authenticated" asserted_headers))
unfolding handle require_trusted_assertion check_assertion header_values strip_trusted_headers
    names_one keep
handle-trusted_gateway_example =
    handle-trusted_gateway letters own first_cookie some none 9 9 (asking "/" asserted_headers)
      (asking "/" (("Accept", "*/*" ∷ []) ∷ [])) "secret" refl

abbrev with_cookie : Request
with_cookie = asking "/api/v1/users" (("Cookie", "t1" ∷ []) ∷ [])

handle-password_gateway_example :
    (with_cookie ≡ with_cookie)
    × (false ≡ false → IsLive letters own first_cookie some 9 one_session (some "t1"))
unfolding handle route require_session validate check_expiry lookup
handle-password_gateway_example =
    handle-password_gateway letters own first_cookie some none 9 9 with_cookie with_cookie
      one_session refl
