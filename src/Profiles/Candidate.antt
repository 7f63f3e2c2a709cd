-- ===== src/Profiles/Candidate.antt =====
-- internal/profiles/profiles.go, evaluateInbound: the checks of one inbound in their order. Indexing the
-- users of an inbound that has none panics, which is none here.
use xform.Base.{
  ℕ, String, Bool, not, ◌&&◌, ◌||◌, List, [], ◌∷◌, Option, none, some, ◌==◌, nat_eq, string_eq,
  if◌then◌else◌, ltb,
}
use xform.Base.Lists.{length, keep}
use xform.Base.Text.{equal_fold}
use xform.Json.{is_some}
use xform.XrayConfig.{Inbound, InboundUser}
use xform.Advertisements.{Advertisement}
use xform.Profiles.Match.{
  default_none, supported_transport, canonical_inbound_transport, supported_security,
  canonical_inbound_security, unsupported_direct_transport_feature, empty_reality_short_id_accepted,
  compatible_shape, direct_match,
}
use xform.Profiles.Values.{Libraries, Profile, invalid_client_values, build_available}
use xform.Profiles.Results.{
  Reason, advertisement_missing, advertisement_invalid, duplicate_inbound_tag, duplicate_user,
  inbound_tag_missing, reverse_user, unsupported_transport, unsupported_security,
  unsupported_encryption, insecure_connection, inbound_mismatch, invalid_client_id, Sources, Item,
  available, unavailable,
}

abbrev pub filled_text : String → Option String
filled_text value = if value == "" then none else some value

abbrev pub refusal : Option String → Option String → Reason → String → Item
refusal tag name reason message =
    unavailable (record { inbound_tag = tag; name = name; reason = reason; message = message })

-- matchingUsers
abbrev pub matching_users : String → List InboundUser → List InboundUser
matching_users email = keep (λ user. user.email == email)

-- duplicateAdvertisementName
abbrev pub duplicate_advertisement_name : List Advertisement → Option String
duplicate_advertisement_name (a ∷ []) = filled_text a.name
duplicate_advertisement_name _ = none

abbrev pub effective_flow : Inbound → InboundUser → String
effective_flow inbound user = if user.flow == "" then inbound.flow else user.flow

abbrev pub text_or_empty : Option String → String
text_or_empty none = ""
text_or_empty (some s) = s

abbrev pub is_direct : Advertisement → Bool
is_direct a = a.topology == "direct"

-- The condition of unsupported_transport
unfoldable pub transport_refused : Libraries → Inbound → Advertisement → Bool
transport_refused l inbound a =
    not (supported_transport a.transport.type)
    || (is_direct a
        && (not (is_some (canonical_inbound_transport l.tables inbound.transport.kind))
            || unsupported_direct_transport_feature l.tables inbound))

-- The condition of unsupported_security
unfoldable pub security_refused : Libraries → Inbound → Advertisement → Bool
security_refused l inbound a =
    not (supported_security a.security.type)
    || (is_direct a && not (is_some (canonical_inbound_security l.tables inbound.security.kind)))

-- The call of directMatch with the canonical types of the inbound
unfoldable pub matches_directly : Libraries → Inbound → Advertisement → Bool
unfolding direct_match
matches_directly l inbound a =
    direct_match l.tables l.resolver inbound
      (text_or_empty (canonical_inbound_transport l.tables inbound.transport.kind))
      (text_or_empty (canonical_inbound_security l.tables inbound.security.kind)) a

-- The condition of inbound_mismatch
unfoldable pub shape_refused : Libraries → Inbound → InboundUser → Advertisement → Bool
unfolding matches_directly compatible_shape
shape_refused l inbound user a =
    not (compatible_shape (effective_flow inbound user) a.transport.type a.security.type)
    || not (empty_reality_short_id_accepted l.tables inbound a)
    || (is_direct a && not (matches_directly l inbound a))

abbrev pub no_encryption : Libraries → Inbound → Bool
no_encryption l inbound = equal_fold l.tables (default_none inbound.decryption) "none"

-- The refusals behind the Client ID, none where all checks pass.
unfoldable pub shape_problem :
    Libraries → Inbound → InboundUser → Advertisement → Option (Reason × String)
unfolding transport_refused security_refused shape_refused
shape_problem l inbound user a =
    if transport_refused l inbound a
    then some (
      unsupported_transport, "The applicable transport is not supported for Connection profiles.",
    )
    else if security_refused l inbound a
    then some (
      unsupported_security,
      "The applicable transport security is not supported for Connection profiles.",
    )
    else if not (no_encryption l inbound)
    then some (unsupported_encryption, "The inbound requires unsupported VLESS Encryption.")
    else if a.security.type == "none"
    then some (insecure_connection, "An unsecured VLESS profile is not available.")
    else if shape_refused l inbound user a
    then some (
      inbound_mismatch,
      "The advertised client view is incompatible with the matching inbound or effective flow.",
    )
    else none

abbrev pub built : Inbound → Advertisement → Option Profile → Item
built inbound a (some profile) = available profile
built inbound a none =
    refusal (some inbound.tag) (filled_text a.name) advertisement_invalid
      "The Advertised connection settings cannot be serialized canonically."

abbrev pub shaped :
    Libraries
    → String
    → String
    → Inbound
    → InboundUser
    → Advertisement
    → Option (Reason × String)
    → Item
shaped l email client_id inbound user a (some (reason, message)) =
    refusal (some inbound.tag) (filled_text a.name) reason message
shaped l email client_id inbound user a none =
    built inbound a (build_available l email client_id (effective_flow inbound user) a)

abbrev pub identified :
    Libraries → String → Inbound → InboundUser → Advertisement → Option String → Item
identified l email inbound user a none =
    refusal (some inbound.tag) (filled_text a.name) invalid_client_id
      "The configured Client ID cannot be converted to a UUID."
identified l email inbound user a (some client_id) =
    shaped l email client_id inbound user a (shape_problem l inbound user a)

abbrev pub unless_invalid : Inbound → Advertisement → Option String → Item → Item
unless_invalid inbound a none item = item
unless_invalid inbound a (some message) item =
    refusal (some inbound.tag) (filled_text a.name) advertisement_invalid message

-- What follows once one advertisement is selected.
unfoldable pub evaluate_advertisement :
    Libraries → String → Inbound → InboundUser → Advertisement → Item
unfolding invalid_client_values shape_problem build_available
evaluate_advertisement l email inbound user a = unless_invalid inbound a a.validation_error (
    unless_invalid inbound a (invalid_client_values l a)
      (identified l email inbound user a (l.parse_uuid user.client_id)))

abbrev missing : Inbound → Item
missing inbound =
    refusal (some inbound.tag) none advertisement_missing
      "No Advertised connection settings select this inbound."

-- The advertisement that is selected where there is one alone.
abbrev pub evaluate_selected :
    Libraries → String → Inbound → InboundUser → List Advertisement → Item
evaluate_selected l email inbound user (a ∷ []) = evaluate_advertisement l email inbound user a
evaluate_selected l email inbound user _ = missing inbound

-- The checks of the selected user and of the sources.
unfoldable pub evaluate_user :
    Libraries → String → Inbound → List Advertisement → Sources → InboundUser → Item
unfolding evaluate_advertisement
evaluate_user l email inbound selected sources user =
    if user.reverse
    then refusal (some inbound.tag) (duplicate_advertisement_name selected) reverse_user
        "The matching User is configured for reverse connections."
    else if sources.advertisements_configured && not sources.advertisements_available
    then refusal (some inbound.tag) none Reason.source_unavailable
        "The configured Advertised connection settings have not loaded successfully."
    else if not sources.advertisements_configured
    then missing inbound
    else evaluate_selected l email inbound user selected

abbrev pub users_checked :
    Libraries → String → Inbound → List Advertisement → Sources → List InboundUser → Option Item
users_checked l email inbound selected sources [] = none
users_checked l email inbound selected sources (user ∷ []) =
    some (evaluate_user l email inbound selected sources user)
users_checked l email inbound selected sources (user ∷ other ∷ users) = some (
    refusal (some inbound.tag) (duplicate_advertisement_name selected) duplicate_user
      "The User appears more than once in this inbound.")

-- evaluateInbound
unfoldable pub evaluate_inbound :
    Libraries → String → Inbound → ℕ → List Advertisement → Sources → Option Item
unfolding evaluate_user
evaluate_inbound l email inbound duplicate_tag_count selected sources =
    if inbound.tag == ""
    then some (refusal none none inbound_tag_missing "The matching VLESS inbound has no tag.")
    else if ltb 1 duplicate_tag_count || ltb 1 (length selected)
    then some (
        refusal (some inbound.tag) (duplicate_advertisement_name selected) duplicate_inbound_tag
          "The inbound tag does not identify one unique inbound and advertisement.")
    else users_checked l email inbound selected sources (matching_users email inbound.users)
