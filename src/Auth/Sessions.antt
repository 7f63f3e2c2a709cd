-- ===== src/Auth/Sessions.antt =====
-- internal/auth/auth.go: the store of Password Sessions. `digest` is SHA-256; `entropy` is what
-- rand.Read gives, as hex, or none for its error. Validate reads the clock twice.
use xform.Base.{
  ℕ, ◌+◌, String, Bool, true, false, not, List, [], ◌∷◌, Option, none, some, ◌==◌, string_eq, ltb,
  if◌then◌else◌, ◌≡◌, refl, arith, ◌∙◌, eq_iff,
}
use xform.Base.Assoc.{
  lookup, insert, delete, lookup-insert, lookup-delete, lookup-delete_self, lookup-insert_self,
}
use xform.Base.Lists.{All}
use xform.Auth.{session_ttl}

pub record Sessions : Type 0 where
  pub password_hash : String
  pub expiries : List (String × ℕ)

-- What Login returns.
pub data LoginAnswer : Type 0 where
  logged_in : String → LoginAnswer
  wrong_password no_entropy : LoginAnswer

abbrev pub new_session_store : (String → String) → String → Sessions
new_session_store digest password = record { password_hash = digest password; expiries = [] }

abbrev issue : Option String → ℕ → Sessions → LoginAnswer × Sessions
issue none now s = (no_entropy, s)
issue (some token) now s =
    (logged_in token, record s { expiries = insert token (now + session_ttl) s.expiries })

unfoldable pub login :
    (String → String) → String → Option String → ℕ → Sessions → LoginAnswer × Sessions
login digest candidate entropy now s =
    if not (digest candidate == s.password_hash) then (wrong_password, s) else issue entropy now s

abbrev pub forget : String → Sessions → Sessions
forget token s = record s { expiries = delete token s.expiries }

unfoldable pub check_expiry : String → ℕ → ℕ → Option ℕ → Sessions → Bool × Sessions
check_expiry token now later none s = (false, s)
check_expiry token now later (some expiry) s =
    if not (ltb now expiry)
    then (false, forget token s)
    else (true, record s { expiries = insert token (later + session_ttl) s.expiries })

unfoldable pub validate : String → ℕ → ℕ → Sessions → Bool × Sessions
unfolding check_expiry
validate token now later s = check_expiry token now later (lookup token s.expiries) s

abbrev pub logout : String → Sessions → Sessions
logout = forget

-- One call on the store, each under its mutex.
pub data Call : Type 0 where
  logs_in : String → Option String → ℕ → Call
  validates : String → ℕ → ℕ → Call
  logs_out : String → Call

module _ (digest : String → String) where
  unfoldable pub call : Call → Sessions → Sessions
  call (logs_in candidate entropy now) s = (login digest candidate entropy now s).1
  call (validates token now later) s = (validate token now later s).1
  call (logs_out token) s = logout token s

  unfoldable pub run_calls : List Call → Sessions → Sessions
  run_calls [] s = s
  run_calls (c ∷ cs) s = run_calls cs (call c s)

  -- The call does not bring the token about.
  abbrev pub IsNotIssued : String → Call → Type 0
  IsNotIssued token (logs_in candidate none now) = Unit
  IsNotIssued token (logs_in candidate (some fresh) now) = (fresh == token) ≡ false
  IsNotIssued token (validates t now later) = Unit
  IsNotIssued token (logs_out t) = Unit

  -- The call is about other tokens.
  abbrev pub IsElsewhere : String → Call → Type 0
  IsElsewhere token (logs_in candidate none now) = Unit
  IsElsewhere token (logs_in candidate (some fresh) now) = (fresh == token) ≡ false
  IsElsewhere token (validates t now later) = (t == token) ≡ false
  IsElsewhere token (logs_out t) = (t == token) ≡ false

  check_expiry-elsewhere :
      (t token : String) (now later : ℕ) (o : Option ℕ) (s : Sessions)
      → (t == token) ≡ false
      → lookup token (check_expiry t now later o s).1.expiries ≡ lookup token s.expiries
  unfolding check_expiry
  check_expiry-elsewhere t token now later none s h = refl
  check_expiry-elsewhere t token now later (some e) s h = ground (
    arith,
    lookup-insert t token (later + session_ttl) s.expiries,
    lookup-delete t token s.expiries,
  )

  call-elsewhere :
      (token : String) (c : Call) (s : Sessions)
      → IsElsewhere token c
      → lookup token (call c s).expiries ≡ lookup token s.expiries
  unfolding call login validate
  call-elsewhere token (logs_in candidate none now) s h = ground arith
  call-elsewhere token (logs_in candidate (some fresh) now) s h =
      ground (arith, lookup-insert fresh token (now + session_ttl) s.expiries)
  call-elsewhere token (validates t now later) s h = check_expiry-elsewhere t token now later _ s h
  call-elsewhere token (logs_out t) s h = ground (arith, lookup-delete t token s.expiries)

  call-gone :
      (token : String) (c : Call) (s : Sessions)
      → IsNotIssued token c
      → lookup token s.expiries ≡ none
      → lookup token (call c s).expiries ≡ none
  unfolding call login validate check_expiry
  call-gone token (logs_in candidate none now) s h g = ground arith
  call-gone token (logs_in candidate (some fresh) now) s h g =
      ground (arith, lookup-insert fresh token (now + session_ttl) s.expiries)
  call-gone token (validates t now later) s h g = ground (
    arith,
    eq_iff t token,
    lookup-insert t token (later + session_ttl) s.expiries,
    lookup-delete t token s.expiries,
  )
  call-gone token (logs_out t) s h g = ground (arith, lookup-delete t token s.expiries)

  run_calls-gone :
      (token : String) (cs : List Call) (s : Sessions)
      → All (IsNotIssued token) cs
      → lookup token s.expiries ≡ none
      → lookup token (run_calls cs s).expiries ≡ none
  unfolding run_calls
  run_calls-gone token [] s h g = g
  run_calls-gone token (c ∷ cs) s h g =
      run_calls-gone token cs (call c s) h.1 (call-gone token c s h.0 g)

  run_calls-elsewhere :
      (token : String) (cs : List Call) (s : Sessions)
      → All (IsElsewhere token) cs
      → lookup token (run_calls cs s).expiries ≡ lookup token s.expiries
  unfolding run_calls
  run_calls-elsewhere token [] s h = refl
  run_calls-elsewhere token (c ∷ cs) s h =
      run_calls-elsewhere token cs (call c s) h.1 ∙ call-elsewhere token c s h.0

  -- A token that was logged out is refused at any later time, whatever calls come between, unless a
  -- login draws the same token again.
  pub validate-run_calls-logout :
      (token : String) (cs : List Call) (now later : ℕ) (s : Sessions)
      → All (IsNotIssued token) cs
      → (validate token now later (run_calls cs (logout token s))).0 ≡ false
  unfolding validate check_expiry
  validate-run_calls-logout token cs now later s h =
      ground
        (arith, run_calls-gone token cs (logout token s) h (lookup-delete_self token s.expiries))

  -- A token whose session was live and used at the time `used` is accepted exactly until a whole
  -- SessionTTL after it, whatever calls for other tokens come between.
  pub validate-run_calls-validate :
      (token : String) (cs : List Call) (at used now later : ℕ) (s : Sessions)
      → (validate token at used s).0 ≡ true
      → All (IsElsewhere token) cs
      → (validate token now later (run_calls cs (validate token at used s).1)).0
        ≡ ltb now (used + session_ttl)
  unfolding validate check_expiry
  validate-run_calls-validate token cs at used now later s live h = ground (
    arith,
    lookup-insert_self token (used + session_ttl) s.expiries,
    run_calls-elsewhere token cs (validate token at used s).1 h,
  )
