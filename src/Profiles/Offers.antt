-- ===== src/Profiles/Offers.antt =====
-- When evaluateInbound of internal/profiles/profiles.go gives a profile that is available.
use xform.Base.{
  ℕ, String, Bool, true, false, not, ◌&&◌, ◌||◌, List, [], ◌∷◌, Option, none, some, ◌==◌, nat_eq,
  string_eq, if◌then◌else◌, ltb, ◌≡◌, ◌↔◌, refl, arith, or-false, if-false, not-false, and-false,
  ap, ◌∙◌,
}
use xform.Base.Lists.{length}
use xform.XrayConfig.{Inbound, InboundUser}
use xform.Advertisements.{Advertisement}
use xform.Profiles.Results.{Unavailable, Sources, Item, available, unavailable, Reason}
use xform.Profiles.Values.{Libraries, Profile, invalid_client_values, build_available}
use xform.Profiles.Candidate.{
  effective_flow, matching_users, shape_problem, built, shaped, identified, unless_invalid,
  evaluate_advertisement, evaluate_selected, evaluate_user, users_checked, evaluate_inbound,
}
use xform.Profiles.Fits.{Fits, shape_problem-Fits}

-- What the checks of one advertisement come to.
pub record Offer (l : Libraries) (email : String) (inbound : Inbound) (user : InboundUser)
    (a : Advertisement) (p : Profile) : Type 0 where
  pub client_id : String
  pub sound : a.validation_error ≡ none
  pub values : invalid_client_values l a ≡ none
  pub identity : l.parse_uuid user.client_id ≡ some client_id
  pub fits : Fits l inbound user a
  pub made : build_available l email client_id (effective_flow inbound user) a ≡ some p

unless-some :
    (p : Profile) (b : Bool) (r : Unavailable) (item : Option Item)
    → (if b then some (unavailable r) else item) ≡ some (available p)
    → (b ≡ false) × (item ≡ some (available p))
unless-some p true r item h = absurd (ground arith)
unless-some p false r item h = (refl, h)

module _ (l : Libraries) (email : String) (inbound : Inbound) (p : Profile) where
  unless_invalid-available :
      (a : Advertisement) (o : Option String) (item : Item)
      → unless_invalid inbound a o item ≡ available p
      → (o ≡ none) × (item ≡ available p)
  unless_invalid-available a none item h = (refl, h)
  unless_invalid-available a (some m) item h = absurd (ground arith)

  built-available :
      (a : Advertisement) (o : Option Profile) → built inbound a o ≡ available p → o ≡ some p
  built-available a none h = absurd (ground arith)
  built-available a (some q) h = ground arith

  shaped-available :
      (client_id : String) (user : InboundUser) (a : Advertisement) (o : Option (Reason × String))
      → shaped l email client_id inbound user a o ≡ available p
      → (o ≡ none) × (build_available l email client_id (effective_flow inbound user) a ≡ some p)
  shaped-available client_id user a (some r) h = absurd (ground arith)
  shaped-available client_id user a none h = (refl, built-available a _ h)

  identified-available :
      (user : InboundUser) (a : Advertisement) (o : Option String)
      → identified l email inbound user a o ≡ available p
      → (client_id : String) × (o ≡ some client_id)
        × (shape_problem l inbound user a ≡ none)
        × (build_available l email client_id (effective_flow inbound user) a ≡ some p)
  identified-available user a none h = absurd (ground arith)
  identified-available user a (some client_id) h =
      let (fits, made) = shaped-available client_id user a (shape_problem l inbound user a) h in
      (client_id, refl, fits, made)

  evaluate_advertisement_of_Offer :
      (user : InboundUser) (a : Advertisement)
      → Offer l email inbound user a p
      → evaluate_advertisement l email inbound user a ≡ available p
  unfolding evaluate_advertisement
  evaluate_advertisement_of_Offer user a o =
      let values = invalid_client_values l a in
      let identity = identified l email inbound user a in
      let shape = shaped l email o.client_id inbound user a in
      ap
        (λ e.
          unless_invalid inbound a e
            (unless_invalid inbound a values (identity (l.parse_uuid user.client_id))))
        o.sound
      ∙ ap (λ e. unless_invalid inbound a e (identity (l.parse_uuid user.client_id))) o.values
      ∙ ap identity o.identity
      ∙ ap shape ((shape_problem-Fits l inbound user a).1 o.fits)
      ∙ ap (built inbound a) o.made

  evaluate_advertisement-available :
      (user : InboundUser) (a : Advertisement)
      → (evaluate_advertisement l email inbound user a ≡ available p)
        ↔ Offer l email inbound user a p
  unfolding evaluate_advertisement
  evaluate_advertisement-available user a = (
    λ h.
        let (sound, h1) = unless_invalid-available a a.validation_error _ h in
        let (values, h2) = unless_invalid-available a (invalid_client_values l a) _ h1 in
        let (client_id, identity, fits, made) =
          identified-available user a (l.parse_uuid user.client_id) h2 in
        record {
          client_id = client_id;
          sound = sound;
          values = values;
          identity = identity;
          fits = (shape_problem-Fits l inbound user a).0 fits;
          made = made;
        },
    λ o. evaluate_advertisement_of_Offer user a o,
  )

  unless-available :
      (b : Bool) (r : Unavailable) (item : Item)
      → (if b then unavailable r else item) ≡ available p
      → (b ≡ false) × (item ≡ available p)
  unless-available true r item h = absurd (ground arith)
  unless-available false r item h = (refl, h)

  evaluate_selected-available :
      (user : InboundUser) (selected : List Advertisement)
      → evaluate_selected l email inbound user selected ≡ available p
      → (a : Advertisement) × (selected ≡ a ∷ []) × Offer l email inbound user a p
  evaluate_selected-available user [] h = absurd (ground arith)
  evaluate_selected-available user (a ∷ []) h =
      (a, refl, (evaluate_advertisement-available user a).0 h)
  evaluate_selected-available user (a ∷ b ∷ view) h = absurd (ground arith)

  evaluate_user-available :
      (user : InboundUser) (selected : List Advertisement) (s : Sources)
      → evaluate_user l email inbound selected s user ≡ available p
      → (user.reverse ≡ false)
        × (s.advertisements_configured ≡ true)
        × (s.advertisements_available ≡ true)
        × ((a : Advertisement) × (selected ≡ a ∷ []) × Offer l email inbound user a p)
  unfolding evaluate_user
  evaluate_user-available user selected s h =
      let (forward, h1) = unless-available user.reverse _ _ h in
      let (loaded, h2) =
        unless-available (s.advertisements_configured && not s.advertisements_available) _ _ h1 in
      let (configured, h3) = unless-available (not s.advertisements_configured) _ _ h2 in
      let there = not-false s.advertisements_configured configured in
      (
        forward,
        there,
        not-false s.advertisements_available (and-false s.advertisements_configured _ loaded there),
        evaluate_selected-available user selected h3,
      )

  users_checked-available :
      (selected : List Advertisement) (s : Sources) (users : List InboundUser)
      → users_checked l email inbound selected s users ≡ some (available p)
      → (user : InboundUser) × (users ≡ user ∷ [])
        × (evaluate_user l email inbound selected s user ≡ available p)
  users_checked-available selected s [] h = absurd (ground arith)
  users_checked-available selected s (user ∷ []) h = (user, refl, ground arith)
  users_checked-available selected s (user ∷ other ∷ users) h = absurd (ground arith)

-- What evaluating one inbound has to find for a profile to be available.
pub record Offered (l : Libraries) (email : String) (inbound : Inbound) (count : ℕ)
    (selected : List Advertisement) (s : Sources) (p : Profile) : Type 0 where
  pub user : InboundUser
  pub a : Advertisement
  pub tagged : (inbound.tag == "") ≡ false
  pub alone : ltb 1 count ≡ false
  pub listed : matching_users email inbound.users ≡ user ∷ []
  pub forward : user.reverse ≡ false
  pub configured : s.advertisements_configured ≡ true
  pub loaded : s.advertisements_available ≡ true
  pub chosen : selected ≡ a ∷ []
  pub offer : Offer l email inbound user a p

module _ (l : Libraries) (email : String) (inbound : Inbound) (count : ℕ)
    (selected : List Advertisement) (s : Sources) (p : Profile) where
  evaluate_inbound-available :
      evaluate_inbound l email inbound count selected s ≡ some (available p)
      → Offered l email inbound count selected s p
  unfolding evaluate_inbound
  evaluate_inbound-available h =
      let (tagged, h1) = unless-some p (inbound.tag == "") _ _ h in
      let (alone, h2) = unless-some p (ltb 1 count || ltb 1 (length selected)) _ _ h1 in
      let (user, listed, h3) =
        users_checked-available l email inbound p selected s (matching_users email inbound.users)
          h2 in
      let (forward, configured, loaded, (a, chosen, offer)) =
        evaluate_user-available l email inbound p user selected s h3 in
      record {
        user = user;
        a = a;
        tagged = tagged;
        alone = (or-false (ltb 1 count) _ alone).0;
        listed = listed;
        forward = forward;
        configured = configured;
        loaded = loaded;
        chosen = chosen;
        offer = offer;
      }

  evaluate_user_of_Offered :
      (o : Offered l email inbound count selected s p)
      → evaluate_user l email inbound selected s o.user ≡ available p
  unfolding evaluate_user
  evaluate_user_of_Offered o =
      if-false o.user.reverse _ _ o.forward
      ∙ if-false (s.advertisements_configured && not s.advertisements_available) _ _
          (ground (arith, o.loaded))
      ∙ if-false (not s.advertisements_configured) _ _ (ground (arith, o.configured))
      ∙ ap (evaluate_selected l email inbound o.user) o.chosen
      ∙ evaluate_advertisement_of_Offer l email inbound p o.user o.a o.offer

  few : Offered l email inbound count selected s p → ltb 1 count || ltb 1 (length selected) ≡ false
  few o = ground (arith, o.alone, ap length o.chosen)

  available_of_Offered :
      Offered l email inbound count selected s p
      → evaluate_inbound l email inbound count selected s ≡ some (available p)
  unfolding evaluate_inbound
  available_of_Offered o =
      if-false (inbound.tag == "") _ _ o.tagged
      ∙ if-false (ltb 1 count || ltb 1 (length selected)) _ _ (few o)
      ∙ ap (users_checked l email inbound selected s) o.listed
      ∙ ap some (evaluate_user_of_Offered o)

  -- The inbound gives an available profile exactly where it has a tag that is counted at most once,
  -- the user stands in it once and not for reverse connections, the advertisements are configured and
  -- loaded, one alone is selected and is valid in itself and in its values, the Client ID is a UUID,
  -- the shape fits, and the profile is the one that is built from them.
  pub evaluate_inbound-Offered :
      (evaluate_inbound l email inbound count selected s ≡ some (available p))
      ↔ Offered l email inbound count selected s p
  evaluate_inbound-Offered = (evaluate_inbound-available, available_of_Offered)
