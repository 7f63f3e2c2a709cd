-- ===== src/Profiles/Evaluate.antt =====
-- internal/profiles/profiles.go, Evaluate: one result for each VLESS inbound that has the user, in the
-- order of the xray config, or none where evaluating one panics.
use xform.Base.{
  ℕ, String, Bool, false, not, ◌&&◌, ◌||◌, List, [], ◌∷◌, ◌++◌, Option, none, some, ◌==◌, nat_eq,
  string_eq, if◌then◌else◌,
}
use xform.Base.Assoc.{lookup, insert}
use xform.Base.Text.{equal_fold}
use xform.Base.Tally.{count_in, increment}
use xform.XrayConfig.{Inbound, InboundUser}
use xform.Advertisements.{Advertisement}
use xform.Profiles.Values.{Libraries}
use xform.Profiles.Results.{
  State, ready, disabled_user, no_matching_inbound, Sources, Item, Collection, source_state,
}
use xform.Profiles.Candidate.{evaluate_inbound}

abbrev pub has_user : String → List InboundUser → Bool
has_user email [] = false
has_user email (user ∷ users) = user.email == email || has_user email users

-- The inbounds that match, and how often each tag stands in the config.
pub record Matches : Type 0 where
  pub matching : List Inbound
  pub tag_counts : List (String × ℕ)

-- The body of the first loop
unfoldable pub match_inbound : Libraries → String → Inbound → Matches → Matches
unfolding increment
match_inbound l email inbound m = record {
  matching =
      if equal_fold l.tables inbound.protocol "vless" && has_user email inbound.users
      then m.matching ++ inbound ∷ []
      else m.matching;
  tag_counts = if not (inbound.tag == "") then increment inbound.tag m.tag_counts else m.tag_counts;
}

unfoldable pub match_inbounds : Libraries → String → List Inbound → Matches → Matches
unfolding match_inbound
match_inbounds l email [] m = m
match_inbounds l email (inbound ∷ inbounds) m =
    match_inbounds l email inbounds (match_inbound l email inbound m)

abbrev pub grouped : Option (List Advertisement) → List Advertisement
grouped none = []
grouped (some selected) = selected

-- The loop that groups the advertisements by their tag
unfoldable pub group_by_tag :
    List Advertisement → List (String × List Advertisement) → List (String × List Advertisement)
unfolding lookup insert
group_by_tag [] m = m
group_by_tag (a ∷ view) m =
    group_by_tag view (insert a.inbound_tag (grouped (lookup a.inbound_tag m) ++ a ∷ []) m)

abbrev pub both : Option Item → Option (List Item) → Option (List Item)
both (some item) (some items) = some (item ∷ items)
both _ _ = none

-- The last loop
unfoldable pub evaluate_all :
    Libraries
    → String
    → List (String × ℕ)
    → List (String × List Advertisement)
    → Sources
    → List Inbound
    → Option (List Item)
unfolding evaluate_inbound count_in
evaluate_all l email counts by_tag sources [] = some []
evaluate_all l email counts by_tag sources (inbound ∷ inbounds) =
    both
      (evaluate_inbound l email inbound (count_in inbound.tag counts)
        (grouped (lookup inbound.tag by_tag)) sources)
      (evaluate_all l email counts by_tag sources inbounds)

abbrev pub with_items : Sources → Option (List Item) → Option Collection
with_items s none = none
with_items s (some items) = some (record (source_state s ready) { items = items })

abbrev pub evaluate_matches :
    Libraries → String → Sources → List (String × ℕ) → List Inbound → Option Collection
evaluate_matches l email s tag_counts [] = some (source_state s no_matching_inbound)
evaluate_matches l email s tag_counts (inbound ∷ inbounds) = with_items s (
    evaluate_all l email tag_counts
      (if s.advertisements_available then group_by_tag s.advertisements_view [] else []) s
      (inbound ∷ inbounds))

abbrev pub no_matches : Matches
no_matches = record { matching = []; tag_counts = [] }

-- Evaluate
unfoldable pub evaluate : Libraries → String → Bool → Sources → Option Collection
unfolding match_inbounds evaluate_all group_by_tag source_state
evaluate l email disabled s =
    if disabled
    then some (source_state s disabled_user)
    else if not s.xray_available
    then some (source_state s State.source_unavailable)
    else let m = match_inbounds l email s.xray_view no_matches in
      evaluate_matches l email s m.tag_counts m.matching
