-- ===== src/Profiles/Fits.antt =====
-- When evaluateInbound of internal/profiles/profiles.go finds no problem in the shape of a connection:
-- the conditions, apart from the order in which they are checked.
use xform.Base.{
  String, Bool, true, false, not, ◌&&◌, ◌||◌, Option, none, some, ◌==◌, string_eq, ◌≡◌, ◌↔◌, arith,
  eq_iff, if◌then◌else◌, Bool-cases, inl, inr, refl, ap, subst, ◌∙◌, eq_refl, or-false, not-false,
  and-false,
}
use xform.Base.Text.{equal_fold}
use xform.Json.{is_some}
use xform.XrayConfig.{Inbound, InboundUser}
use xform.Advertisements.{Advertisement}
use xform.Profiles.Match.{
  default_none, supported_transport, canonical_inbound_transport, canonical_inbound_security,
  supported_security, unsupported_direct_transport_feature, empty_reality_short_id_accepted,
  compatible_shape, transport_match, security_match, direct_match,
}
use xform.Profiles.Values.{Libraries}
use xform.Profiles.Candidate.{
  effective_flow, is_direct, shape_problem, text_or_empty, transport_refused, security_refused,
  shape_refused, no_encryption, matches_directly,
}

-- What a direct advertisement has to agree in with its inbound.
pub record FitsDirect (l : Libraries) (inbound : Inbound) (a : Advertisement) : Type 0 where
  pub transport :
      canonical_inbound_transport l.tables inbound.transport.kind ≡ some a.transport.type
  pub plain : unsupported_direct_transport_feature l.tables inbound ≡ false
  pub security : canonical_inbound_security l.tables inbound.security.kind ≡ some a.security.type
  pub routed : transport_match l.tables l.resolver inbound a.transport ≡ true
  pub secured : security_match l.tables l.resolver inbound a.security ≡ true

pub record Fits (l : Libraries) (inbound : Inbound) (user : InboundUser) (a : Advertisement)
    : Type 0 where
  pub transport : supported_transport a.transport.type ≡ true
  pub security : a.security.type == "tls" || a.security.type == "reality" ≡ true
  pub plain : equal_fold l.tables (default_none inbound.decryption) "none" ≡ true
  pub shape : compatible_shape (effective_flow inbound user) a.transport.type a.security.type ≡ true
  pub short_id : empty_reality_short_id_accepted l.tables inbound a ≡ true
  pub direct : is_direct a ≡ true → FitsDirect l inbound a

pub record Passes (l : Libraries) (inbound : Inbound) (user : InboundUser) (a : Advertisement)
    : Type 0 where
  pub transport : transport_refused l inbound a ≡ false
  pub security : security_refused l inbound a ≡ false
  pub plain : no_encryption l inbound ≡ true
  pub secure : (a.security.type == "none") ≡ false
  pub shape : shape_refused l inbound user a ≡ false

passed {ℓ} :
    {A : Type ℓ} (b : Bool) (p : A) (o : Option A)
    → (if b then some p else o) ≡ none
    → (b ≡ false) × (o ≡ none)
passed true p o h = absurd (ground arith)
passed false p o h = (refl, h)

matched :
    (a b c : Bool)
    → (if not a || not b then false else c) ≡ true
    → (a ≡ true) × (b ≡ true) × (c ≡ true)
matched a b c h = ground arith

secured :
    (type : String)
    → supported_security type ≡ true
    → (type == "none") ≡ false
    → type == "tls" || type == "reality" ≡ true
secured type h k = ground arith

secure_type : (type : String) → type == "tls" || type == "reality" ≡ true → (type == "none") ≡ false
secure_type type h = elim (Bool-cases (type == "none")) [
  | inl e ↦
      let k : ◌≡◌ {A = Bool} false true =
        subst (λ t. t == "tls" || t == "reality" ≡ true) ((eq_iff type "none").0 e) h in
      cc
  | inr e ↦ e
]

and-true_left : (a b : Bool) → a && b ≡ true → a ≡ true
and-true_left a b h = ground arith

and-true_right : (a b : Bool) → a && b ≡ true → b ≡ true
and-true_right a b h = ground arith

module _ (l : Libraries) (inbound : Inbound) (user : InboundUser) (a : Advertisement) where
  shape_problem-Passes : shape_problem l inbound user a ≡ none → Passes l inbound user a
  unfolding shape_problem
  shape_problem-Passes h =
      let (transport, h1) = passed (transport_refused l inbound a) _ _ h in
      let (security, h2) = passed (security_refused l inbound a) _ _ h1 in
      let (plain, h3) = passed (not (no_encryption l inbound)) _ _ h2 in
      let (secure, h4) = passed (a.security.type == "none") _ _ h3 in
      let (shape, h5) = passed (shape_refused l inbound user a) _ _ h4 in
      record {
        transport = transport;
        security = security;
        plain = ground arith;
        secure = secure;
        shape = shape;
      }

  Passes-shape_problem : Passes l inbound user a → shape_problem l inbound user a ≡ none
  unfolding shape_problem
  Passes-shape_problem p = rw (p.transport, p.security, p.plain, p.secure, p.shape) refl

  direct_match-FitsDirect :
      (transport security : Option String)
      → canonical_inbound_transport l.tables inbound.transport.kind ≡ transport
      → canonical_inbound_security l.tables inbound.security.kind ≡ security
      → unsupported_direct_transport_feature l.tables inbound ≡ false
      → is_some transport ≡ true
      → is_some security ≡ true
      → direct_match l.tables l.resolver inbound
          (text_or_empty transport)
          (text_or_empty security)
          a
        ≡ true
      → FitsDirect l inbound a
  unfolding direct_match
  direct_match-FitsDirect none security e k f h j m = absurd (ground arith)
  direct_match-FitsDirect (some t) none e k f h j m = absurd (ground arith)
  direct_match-FitsDirect (some t) (some c) e k f h j m =
      let (same, alike, both) = matched (t == a.transport.type) (c == a.security.type) _ m in
      record {
        transport = e ∙ ap some ((eq_iff t a.transport.type).0 same);
        plain = f;
        security = k ∙ ap some ((eq_iff c a.security.type).0 alike);
        routed = and-true_left _ _ both;
        secured = and-true_right _ _ both;
      }

  -- The checks of the shape, taken apart.
  shape_refused_parts :
      shape_refused l inbound user a ≡ false
      → (compatible_shape (effective_flow inbound user) a.transport.type a.security.type ≡ true)
        × (empty_reality_short_id_accepted l.tables inbound a ≡ true)
        × (is_direct a ≡ true → matches_directly l inbound a ≡ true)
  unfolding shape_refused
  shape_refused_parts h =
      let shape = compatible_shape (effective_flow inbound user) a.transport.type a.security.type in
      let short_id = empty_reality_short_id_accepted l.tables inbound a in
      let match = matches_directly l inbound a in
      let (first, direct) = or-false (not shape || not short_id) (is_direct a && not match) h in
      let (p, q) = or-false (not shape) (not short_id) first in
      (
        not-false shape p,
        not-false short_id q,
        λ d. not-false match (and-false (is_direct a) (not match) direct d),
      )

  transport_refused_parts :
      transport_refused l inbound a ≡ false
      → (supported_transport a.transport.type ≡ true)
        × (is_direct a ≡ true
            → (is_some (canonical_inbound_transport l.tables inbound.transport.kind) ≡ true)
              × (unsupported_direct_transport_feature l.tables inbound ≡ false))
  unfolding transport_refused
  transport_refused_parts h =
      let known = is_some (canonical_inbound_transport l.tables inbound.transport.kind) in
      let feature = unsupported_direct_transport_feature l.tables inbound in
      let (p, rest) =
        or-false (not (supported_transport a.transport.type))
          (is_direct a && (not known || feature)) h in
      (
        not-false _ p,
        λ d.
            let (q, r) =
              or-false (not known) feature
                (and-false (is_direct a) (not known || feature) rest d) in
            (not-false known q, r),
      )

  security_refused_parts :
      security_refused l inbound a ≡ false
      → (supported_security a.security.type ≡ true)
        × (is_direct a ≡ true
            → is_some (canonical_inbound_security l.tables inbound.security.kind) ≡ true)
  unfolding security_refused
  security_refused_parts h =
      let known = is_some (canonical_inbound_security l.tables inbound.security.kind) in
      let (p, rest) =
        or-false (not (supported_security a.security.type)) (is_direct a && not known) h in
      (not-false _ p, λ d. not-false known (and-false (is_direct a) (not known) rest d))

  Passes-FitsDirect : Passes l inbound user a → is_direct a ≡ true → FitsDirect l inbound a
  unfolding matches_directly
  Passes-FitsDirect p d =
      let (known, plain) = (transport_refused_parts p.transport).1 d in
      direct_match-FitsDirect _ _ refl refl plain known ((security_refused_parts p.security).1 d)
        ((shape_refused_parts p.shape).2 d)

  Passes-Fits : Passes l inbound user a → Fits l inbound user a
  Passes-Fits p =
      let (shape, short_id, direct) = shape_refused_parts p.shape in
      record {
        transport = (transport_refused_parts p.transport).0;
        security = secured a.security.type (security_refused_parts p.security).0 p.secure;
        plain = p.plain;
        shape = shape;
        short_id = short_id;
        direct = Passes-FitsDirect p;
      }

  FitsDirect-direct_match : FitsDirect l inbound a → matches_directly l inbound a ≡ true
  unfolding matches_directly direct_match
  FitsDirect-direct_match f =
      rw (f.transport, f.security, eq_refl a.transport.type, eq_refl a.security.type, f.routed)
        f.secured

  Fits-Passes : Fits l inbound user a → Passes l inbound user a
  unfolding transport_refused security_refused shape_refused
  Fits-Passes f = elim (Bool-cases (is_direct a)) [
    | inl d ↦
        let g = f.direct d in
        record {
          transport = rw (f.transport, g.transport, g.plain, d) refl;
          security = rw (f.security, g.security, d) refl;
          plain = f.plain;
          secure = secure_type a.security.type f.security;
          shape = rw (f.shape, f.short_id, FitsDirect-direct_match g, d) refl;
        }
    | inr d ↦ record {
      transport = rw (f.transport, d) refl;
      security = rw (f.security, d) refl;
      plain = f.plain;
      secure = secure_type a.security.type f.security;
      shape = rw (f.shape, f.short_id, d) refl;
    }
  ]

  -- The checks of transport, security, encryption and shape find no problem exactly where the
  -- advertised types are supported, the security is TLS or REALITY, the inbound asks for no
  -- encryption of VLESS, the flow fits, an empty short id is one of the inbound's, and a direct
  -- advertisement agrees with its inbound in the types and in what each type carries.
  pub shape_problem-Fits : (shape_problem l inbound user a ≡ none) ↔ Fits l inbound user a
  shape_problem-Fits =
      (λ h. Passes-Fits (shape_problem-Passes h), λ f. Passes-shape_problem (Fits-Passes f))
