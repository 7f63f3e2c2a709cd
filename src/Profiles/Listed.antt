-- ===== src/Profiles/Listed.antt =====
-- Evaluate of internal/profiles/profiles.go against its description: the verdicts on the inbounds that
-- match, in the order of the config, each by how often the tag stands in config and advertisements.
use xform.Base.{
  ℕ, ◌+◌, String, Bool, true, false, not, ◌&&◌, List, [], ◌∷◌, ◌++◌, Option, some, ◌==◌, nat_eq,
  string_eq, if◌then◌else◌, ◌≡◌, refl, ap, sym, ◌∙◌, arith, eq_iff, Bool-cases, if-false, inl, inr,
}
use xform.Base.Lists.{keep, append_assoc, append-nil}
use xform.Base.Assoc.{lookup, insert, lookup-insert}
use xform.Base.Text.{equal_fold}
use xform.Base.Tally.{count_in, occurrences, count_in-increment, count_in-nil}
use xform.XrayConfig.{Inbound}
use xform.Advertisements.{Advertisement}
use xform.Profiles.Results.{no_matching_inbound, Sources, Item, Collection, source_state}
use xform.Profiles.Values.{Libraries}
use xform.Profiles.Candidate.{evaluate_inbound}
use xform.Profiles.Evaluate.{
  has_user, Matches, match_inbound, match_inbounds, grouped, group_by_tag, both, evaluate_all,
  with_items, no_matches, evaluate_matches, evaluate,
}

abbrev pub inbound_tags : List Inbound → List String
inbound_tags [] = []
inbound_tags (i ∷ is) = i.tag ∷ inbound_tags is

-- How many inbounds of the config have a tag; none counts as having an empty one.
abbrev pub tag_count : List Inbound → String → ℕ
tag_count view tag = if tag == "" then 0 else occurrences tag (inbound_tags view)

abbrev pub is_candidate : Libraries → String → Inbound → Bool
is_candidate l email i = equal_fold l.tables i.protocol "vless" && has_user email i.users

-- The advertisements that select a tag, where they are available.
abbrev pub selected : Sources → String → List Advertisement
selected s tag =
    if s.advertisements_available
    then keep (λ a. a.inbound_tag == tag) s.advertisements_view
    else []

unfoldable pub verdict : Libraries → String → Sources → Inbound → Option Item
verdict l email s i = evaluate_inbound l email i (tag_count s.xray_view i.tag) (selected s i.tag) s

unfoldable pub verdicts : Libraries → String → Sources → List Inbound → Option (List Item)
verdicts l email s [] = some []
verdicts l email s (i ∷ is) = both (verdict l email s i) (verdicts l email s is)

module _ (l : Libraries) (email : String) where
  matching-match_inbounds :
      (view : List Inbound) (m : Matches)
      → (match_inbounds l email view m).matching ≡ m.matching ++ keep (is_candidate l email) view
  unfolding match_inbounds match_inbound keep
  matching-match_inbounds [] m = sym (append-nil m.matching)
  matching-match_inbounds (i ∷ is) m = elim (Bool-cases (is_candidate l email i)) [
    | inl e ↦
        matching-match_inbounds is (match_inbound l email i m)
        ∙ rw e (append_assoc m.matching (i ∷ []) (keep (is_candidate l email) is))
    | inr e ↦ matching-match_inbounds is (match_inbound l email i m) ∙ rw e refl
  ]

  count_in-match_inbounds :
      (k : String) (view : List Inbound) (m : Matches)
      → count_in k (match_inbounds l email view m).tag_counts
        ≡ count_in k m.tag_counts + tag_count view k
  unfolding match_inbounds match_inbound occurrences
  count_in-match_inbounds k [] m = ground arith
  count_in-match_inbounds k (i ∷ is) m = ground (
    arith,
    eq_iff i.tag k,
    eq_iff i.tag "",
    eq_iff k "",
    count_in-increment i.tag k m.tag_counts,
    count_in-match_inbounds k is (match_inbound l email i m),
  )

grouped-group_by_tag :
    (k : String) (view : List Advertisement) (m : List (String × List Advertisement))
    → grouped (lookup k (group_by_tag view m))
      ≡ grouped (lookup k m) ++ keep (λ a. a.inbound_tag == k) view
unfolding group_by_tag keep
grouped-group_by_tag k [] m = sym (append-nil _)
grouped-group_by_tag k (a ∷ view) m =
    let rest = keep (λ b. b.inbound_tag == k) view in
    let more = grouped (lookup a.inbound_tag m) ++ a ∷ [] in
    grouped-group_by_tag k view (insert a.inbound_tag more m)
    ∙ ap (λ o. grouped o ++ rest) (lookup-insert a.inbound_tag k more m)
    ∙ elim (Bool-cases (a.inbound_tag == k)) [
      | inl e ↦ rw e (
          ap (λ t. (grouped (lookup t m) ++ a ∷ []) ++ rest) ((eq_iff a.inbound_tag k).0 e)
          ∙ append_assoc (grouped (lookup k m)) (a ∷ []) rest)
      | inr e ↦ rw e refl
    ]

module _ (l : Libraries) (email : String) (s : Sources) where
  -- The maps that the loops of Evaluate hand to the checks of one inbound.
  counts : List (String × ℕ)
  counts = (match_inbounds l email s.xray_view no_matches).tag_counts

  by_tag : List (String × List Advertisement)
  by_tag = if s.advertisements_available then group_by_tag s.advertisements_view [] else []

  counts_lem : (k : String) → count_in k counts ≡ tag_count s.xray_view k
  unfolding counts
  counts_lem k =
      count_in-match_inbounds l email k s.xray_view no_matches
      ∙ ap (λ n. n + tag_count s.xray_view k) (count_in-nil k)
      ∙ (omega arith)

  by_tag_lem : (k : String) → grouped (lookup k by_tag) ≡ selected s k
  unfolding by_tag lookup
  by_tag_lem k = elim (Bool-cases s.advertisements_available) [
    | inl e ↦ rw e (grouped-group_by_tag k s.advertisements_view [])
    | inr e ↦ rw e refl
  ]

  evaluate_all-verdicts :
      (is : List Inbound) → evaluate_all l email counts by_tag s is ≡ verdicts l email s is
  unfolding evaluate_all verdicts verdict
  evaluate_all-verdicts [] = refl
  evaluate_all-verdicts (i ∷ is) =
      ap
        (λ n.
          both (evaluate_inbound l email i n (grouped (lookup i.tag by_tag)) s)
            (evaluate_all l email counts by_tag s is))
        (counts_lem i.tag)
      ∙ ap
          (λ ads.
            both (evaluate_inbound l email i (tag_count s.xray_view i.tag) ads s)
              (evaluate_all l email counts by_tag s is))
          (by_tag_lem i.tag)
      ∙ ap (both (verdict l email s i)) (evaluate_all-verdicts is)

  -- The inbounds of the config that match, in its order.
  unfoldable pub candidates : List Inbound
  candidates = keep (is_candidate l email) s.xray_view

  pub candidates_lem : candidates ≡ keep (is_candidate l email) s.xray_view
  unfolding candidates
  candidates_lem = refl

  abbrev pub evaluated : List Inbound → Option Collection
  evaluated [] = some (source_state s no_matching_inbound)
  evaluated (i ∷ is) = with_items s (verdicts l email s (i ∷ is))

  evaluate_matches-evaluated :
      (is : List Inbound) → evaluate_matches l email s counts is ≡ evaluated is
  unfolding by_tag
  evaluate_matches-evaluated [] = refl
  evaluate_matches-evaluated (i ∷ is) = ap (with_items s) (evaluate_all-verdicts (i ∷ is))

  -- For a user that is not disabled and a config that is loaded, the evaluation is the list of the
  -- verdicts on the matching inbounds in the order of the config, where an inbound is judged by the
  -- number of inbounds of the whole config with its tag and by all the advertisements with its tag;
  -- without a matching inbound it says so and lists nothing.
  pub evaluate-evaluated : s.xray_available ≡ true → evaluate l email false s ≡ evaluated candidates
  unfolding evaluate candidates counts
  evaluate-evaluated h =
      if-false (not s.xray_available) _ _ (rw h refl)
      ∙ ap (evaluate_matches l email s counts)
          (matching-match_inbounds l email s.xray_view no_matches)
      ∙ evaluate_matches-evaluated (keep (is_candidate l email) s.xray_view)
