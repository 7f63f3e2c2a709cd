-- ===== src/Auth/Gateway.antt =====
-- internal/auth/auth.go: the Gateway and the HTTP handler that it puts before the application.
use xform.Base.{
  ℕ, String, Bool, true, false, ◌&&◌, ◌||◌, not, List, [], ◌∷◌, Option, none, some, ◌==◌, string_eq,
  ltb, if◌then◌else◌, ◌≡◌, refl, arith, subst, ◌⊎◌, Bool-cases, Option-cases, inl, inr,
}
use xform.Base.Lists.{All, keep}
use xform.Base.Assoc.{lookup}
use xform.Base.Text.{CaseTables, has_prefix}
use xform.Auth.{
  Mode, mode_password, mode_trusted_proxy, Request, Headers, is_health_request,
  strip_trusted_headers, header_values, names_one, trusted_headers, validate_trusted_proxy_secret,
}
use xform.Auth.Sessions.{
  Sessions, new_session_store, login, validate, logout, check_expiry, LoginAnswer, logged_in,
  wrong_password, no_entropy,
}

-- What NewPassword and NewTrustedProxy build: the mode with its session store or its hash. The field
-- of the other mode is nil or zero and is not read.
pub data Gateway : Type 0 where
  password_gateway : Sessions → Gateway
  trusted_gateway : String → Gateway

-- Mode
abbrev pub mode : Gateway → Mode
mode (password_gateway s) = mode_password
mode (trusted_gateway hash) = mode_trusted_proxy

-- What comes of a request: it goes on to the application, or the gateway writes a status with an
-- error text.
pub data Reply : Type 0 where
  forwards : Request → Reply
  writes : ℕ → String → Reply

pub data SetCookie : Type 0 where
  sets_session : String → SetCookie
  clears_session : SetCookie

pub record Response : Type 0 where
  pub no_store : Bool
  pub cookie : Option SetCookie
  pub reply : Reply

abbrev pub respond : Bool → Option SetCookie → Reply → Response
respond no_store cookie reply = record { no_store = no_store; cookie = cookie; reply = reply }

abbrev pub unauthorized : Response
unauthorized = respond true none (writes 401 "unauthenticated")

abbrev pub new_password : (String → String) → String → Gateway
new_password digest password = password_gateway (new_session_store digest password)

-- NewTrustedProxy; none is its error
abbrev pub new_trusted_proxy : (String → String) → String → Option Gateway
new_trusted_proxy digest secret =
    if not (validate_trusted_proxy_secret secret)
    then none
    else some (trusted_gateway (digest secret))

module _ (u : CaseTables) (digest : String → String) (cookie_of : Headers → Option String)
    (password_of : String → Option String) where
  abbrev strip : Request → Request
  strip r = record r { headers = strip_trusted_headers u r.headers }

  -- The values of the assertion header, and the request.
  unfoldable pub check_assertion : List String → String → Request → Response
  check_assertion [] hash r = unauthorized
  check_assertion (value ∷ []) hash r =
      if not (digest value == hash) then unauthorized else respond true none (forwards (strip r))
  check_assertion (value ∷ other ∷ rest) hash r = unauthorized

  unfoldable pub require_trusted_assertion : String → Request → Response
  unfolding check_assertion
  require_trusted_assertion hash r =
      check_assertion (header_values u "X-Xform-Authenticated" r.headers) hash r

  abbrev login_response : LoginAnswer → Response
  login_response no_entropy = respond true none (writes 500 "login unavailable")
  login_response wrong_password = respond true none (writes 401 "invalid password")
  login_response (logged_in token) = respond true (some (sets_session token)) (writes 204 "")

  unfoldable pub log_in : Option String → ℕ → Option String → Sessions → Response × Sessions
  log_in entropy now none s = (respond true none (writes 400 "invalid request"), s)
  log_in entropy now (some password) s =
      let (answer, s') = login digest password entropy now s in
      if password == ""
      then (respond true none (writes 400 "invalid request"), s)
      else (login_response answer, s')

  unfoldable pub log_out : ℕ → ℕ → Option String → Sessions → Response × Sessions
  log_out now later none s = (unauthorized, s)
  log_out now later (some token) s =
      let (live, s') = validate token now later s in
      if not live
      then (unauthorized, s')
      else (respond true (some clears_session) (writes 204 ""), logout token s')

  unfoldable pub require_session : ℕ → ℕ → Request → Option String → Sessions → Response × Sessions
  require_session now later r none s = (unauthorized, s)
  require_session now later r (some token) s =
      let (live, s') = validate token now later s in
      if not live
      then (unauthorized, s')
      else (respond true (some (sets_session token)) (forwards r), s')

  -- The switch of password mode.
  unfoldable pub route : Option String → ℕ → ℕ → Request → Sessions → Response × Sessions
  unfolding log_in log_out require_session
  route entropy now later r s =
      if r.method == "POST" && r.path == "/api/v1/login"
      then log_in entropy now (password_of r.body) s
      else if r.method == "POST" && r.path == "/api/v1/logout"
      then log_out now later (cookie_of r.headers) s
      else if has_prefix r.path "/api/"
      then require_session now later r (cookie_of r.headers) s
      else (respond false none (forwards r), s)

  -- Handler
  unfoldable pub handle : Option String → ℕ → ℕ → Request → Gateway → Response × Gateway
  unfolding require_trusted_assertion route
  handle entropy now later r (trusted_gateway hash) =
      if is_health_request r
      then (respond false none (forwards (strip r)), trusted_gateway hash)
      else (require_trusted_assertion hash r, trusted_gateway hash)
  handle entropy now later r (password_gateway s) =
      let (response, s') = route entropy now later r s in
      if is_health_request r
      then (respond false none (forwards r), password_gateway s)
      else (response, password_gateway s')

  -- No header of the list is left.
  abbrev pub IsStripped : Request → Type 0
  IsStripped q = All (λ h. names_one u h.0 trusted_headers ≡ false) q.headers

  All-keep_others :
      (names : List String) (hs : Headers)
      → All (λ h. names_one u h.0 names ≡ false) (keep (λ h. not (names_one u h.0 names)) hs)
  unfolding keep
  All-keep_others names [] = tt
  All-keep_others names (h ∷ hs) = elim (Bool-cases (names_one u h.0 names)) [
    | inl hit ↦ rw hit (All-keep_others names hs)
    | inr other ↦ rw other (other, All-keep_others names hs)
  ]

  strip-IsStripped : (r : Request) → IsStripped (strip r)
  unfolding strip_trusted_headers
  strip-IsStripped r = All-keep_others trusted_headers r.headers

  -- One value that hashes to the gateway's digest.
  abbrev pub IsAsserted : String → List String → Type 0
  IsAsserted hash values =
      (value : String) × (values ≡ value ∷ []) × ((digest value == hash) ≡ true)

  asserted :
      (values : List String) (hash : String) (r q : Request)
      → (check_assertion values hash r).reply ≡ forwards q
      → IsStripped q × IsAsserted hash values
  unfolding check_assertion
  asserted [] hash r q h = cc h
  asserted (value ∷ []) hash r q h = elim (Bool-cases (digest value == hash)) [
    | inl right ↦
        let e : strip r ≡ q = ground (arith, h) in
        (subst IsStripped e (strip-IsStripped r), (value, refl, right))
    | inr wrong ↦ absurd (ground (arith, h))
  ]
  asserted (value ∷ other ∷ rest) hash r q h = cc h

  -- Behind an authentication gateway a request reaches the application only as a health check or
  -- with exactly one assertion value, of the digest of the Admission secret, and without any of the
  -- trusted headers.
  pub handle-trusted_gateway :
      (entropy : Option String) (now later : ℕ) (r q : Request) (hash : String)
      → (handle entropy now later r (trusted_gateway hash)).0.reply ≡ forwards q
      → IsStripped q
        × ((is_health_request r ≡ true)
            ⊎ IsAsserted hash (header_values u "X-Xform-Authenticated" r.headers))
  unfolding handle require_trusted_assertion
  handle-trusted_gateway entropy now later r q hash h = elim (Bool-cases (is_health_request r)) [
    | inl health ↦
        let e : strip r ≡ q = ground (arith, h) in
        (subst IsStripped e (strip-IsStripped r), inl health)
    | inr other ↦ let a = asserted _ hash r q (rw other at h) in (a.0, inr a.1)
  ]

  -- A session that is alive at the time.
  abbrev pub IsLive : ℕ → Sessions → Option String → Type 0
  IsLive now s cookie =
      (token : String) × (cookie ≡ some token)
      × (expiry : ℕ) × (lookup token s.expiries ≡ some expiry)
      × (ltb now expiry ≡ true)

  live :
      (now later : ℕ) (r q : Request) (cookie : Option String) (s : Sessions)
      → (require_session now later r cookie s).0.reply ≡ forwards q
      → (r ≡ q) × IsLive now s cookie
  unfolding require_session validate check_expiry
  live now later r q none s h = cc h
  live now later r q (some token) s h = elim (Option-cases (lookup token s.expiries)) [
    | inl gone ↦ absurd (ground (arith, gone, h))
    | inr (expiry, found) ↦
        let e : r ≡ q = ground (arith, found, h) in
        let t : ltb now expiry ≡ true = ground (arith, found, h) in
        (e, (token, refl, expiry, found, t))
  ]

  log_in-writes :
      (entropy : Option String) (now : ℕ) (o : Option String) (s : Sessions) (q : Request)
      → (log_in entropy now o s).0.reply ≡ forwards q
      → ⊥
  unfolding log_in login
  log_in-writes entropy now none s q h = cc h
  log_in-writes none now (some password) s q h = ground (arith, h)
  log_in-writes (some token) now (some password) s q h = ground (arith, h)

  log_out-writes :
      (now later : ℕ) (o : Option String) (s : Sessions) (q : Request)
      → (log_out now later o s).0.reply ≡ forwards q
      → ⊥
  unfolding log_out
  log_out-writes now later none s q h = cc h
  log_out-writes now later (some token) s q h = ground (arith, h)

  -- With a shared password a request reaches the application unchanged, and a request for a path
  -- under /api/ that is not the health check does so only with the cookie of a live session.
  pub handle-password_gateway :
      (entropy : Option String) (now later : ℕ) (r q : Request) (s : Sessions)
      → (handle entropy now later r (password_gateway s)).0.reply ≡ forwards q
      → (r ≡ q)
        × ((is_health_request r || not (has_prefix r.path "/api/")) ≡ false
            → IsLive now s (cookie_of r.headers))
  unfolding handle route
  handle-password_gateway entropy now later r q s h = elim (Bool-cases (is_health_request r)) [
    | inl health ↦ (ground (arith, h), λ api. absurd (ground arith))
    | inr other ↦ elim (Bool-cases (r.method == "POST" && r.path == "/api/v1/login")) [
      | inl login_path ↦
          absurd (log_in-writes entropy now (password_of r.body) s q (rw (other, login_path) at h))
      | inr not_login ↦ elim (Bool-cases (r.method == "POST" && r.path == "/api/v1/logout")) [
        | inl logout_path ↦ absurd (
            log_out-writes now later (cookie_of r.headers) s q
              (rw (other, not_login, logout_path) at h))
        | inr not_logout ↦ elim (Bool-cases (has_prefix r.path "/api/")) [
          | inl api ↦
              let l =
                live now later r q (cookie_of r.headers) s
                  (rw (other, not_login, not_logout, api) at h) in
              (l.0, λ _. l.1)
          | inr page ↦
              let e : r ≡ q = cc (rw (other, not_login, not_logout, page) at h) in
              (e, λ api. absurd (ground arith))
        ]
      ]
    ]
  ]
