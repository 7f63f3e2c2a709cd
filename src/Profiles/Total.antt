-- ===== src/Profiles/Total.antt =====
-- Evaluate of internal/profiles/profiles.go always has a result: indexing the users never panics.
use xform.Base.{
  String, Bool, true, false, not, ◌||◌, List, [], ◌∷◌, Option, some, ◌==◌, nat_eq, string_eq,
  if◌then◌else◌, ltb, ◌≡◌, refl, ap, ◌∙◌, arith, if-true, Bool-cases, inl, inr,
}
use xform.Base.Lists.{is_empty, keep, length}
use xform.XrayConfig.{Inbound, InboundUser}
use xform.Advertisements.{Advertisement}
use xform.Profiles.Results.{
  State, no_matching_inbound, disabled_user, Sources, Item, Collection, source_state,
}
use xform.Profiles.Values.{Libraries}
use xform.Profiles.Candidate.{matching_users, evaluate_user, users_checked, evaluate_inbound}
use xform.Profiles.Evaluate.{has_user, both, with_items, evaluate}
use xform.Profiles.Listed.{
  tag_count, is_candidate, selected, verdict, verdicts, candidates, candidates_lem, evaluated,
  evaluate-evaluated,
}

module _ (l : Libraries) (email : String) (s : Sources) where
  matching_users_filled :
      (users : List InboundUser)
      → has_user email users ≡ true
      → is_empty (matching_users email users) ≡ false
  unfolding keep
  matching_users_filled [] h = ground arith
  matching_users_filled (user ∷ users) h = ground (arith, matching_users_filled users)

  users_checked_total :
      (i : Inbound) (ads : List Advertisement) (users : List InboundUser)
      → is_empty users ≡ false
      → (item : Item) × (users_checked l email i ads s users ≡ some item)
  users_checked_total i ads [] h = absurd (ground arith)
  users_checked_total i ads (user ∷ []) h = (evaluate_user l email i ads s user, refl)
  users_checked_total i ads (user ∷ other ∷ users) h = (_, refl)

  some-if :
      {A : Type 0} (b : Bool) (x : A) (o : Option A)
      → (a : A) × (o ≡ some a)
      → (a : A) × ((if b then some x else o) ≡ some a)
  some-if true x o h = (x, refl)
  some-if false x o h = h

  verdict_total :
      (i : Inbound)
      → has_user email i.users ≡ true
      → (item : Item) × (verdict l email s i ≡ some item)
  unfolding verdict evaluate_inbound
  verdict_total i h = some-if (i.tag == "") _ _ (
      some-if (ltb 1 (tag_count s.xray_view i.tag) || ltb 1 (length (selected s i.tag))) _ _ (
        users_checked_total i (selected s i.tag) (matching_users email i.users)
          (matching_users_filled i.users h)))

  verdicts_total :
      (is : List Inbound)
      → (items : List Item) × (verdicts l email s (keep (is_candidate l email) is) ≡ some items)
  unfolding verdicts keep
  verdicts_total [] = ([], refl)
  verdicts_total (i ∷ is) = elim (Bool-cases (is_candidate l email i)) [
    | inl e ↦
        let (item, p) = verdict_total i (ground arith) in
        let (items, q) = verdicts_total is in
        (
          item ∷ items,
          rw (e, verdicts)
              (ap (λ o. both o (verdicts l email s (keep (is_candidate l email) is))) p
                ∙ ap (both (some item)) q),
        )
    | inr e ↦ let (items, q) = verdicts_total is in (items, rw e q)
  ]

  evaluated_total :
      (is : List Inbound)
      → (items : List Item) × (verdicts l email s is ≡ some items)
      → (c : Collection) × (evaluated l email s is ≡ some c)
  evaluated_total [] h = (source_state s no_matching_inbound, refl)
  evaluated_total (i ∷ is) (items, h) = (_, ap (with_items s) h)

  evaluate_total_at : (disabled : Bool) → (c : Collection) × (evaluate l email disabled s ≡ some c)
  unfolding evaluate
  evaluate_total_at true = (source_state s disabled_user, refl)
  evaluate_total_at false = elim (Bool-cases s.xray_available) [
    | inl e ↦
        let (items, h) = verdicts_total s.xray_view in
        let (c, k) =
          evaluated_total (candidates l email s)
            (items, ap (verdicts l email s) (candidates_lem l email s) ∙ h) in
        (c, evaluate-evaluated l email s e ∙ k)
    | inr e ↦
        (source_state s State.source_unavailable, if-true (not s.xray_available) _ _ (rw e refl))
  ]

-- The evaluation has a result for every user, every config and all advertisements: the users of an
-- inbound are indexed only where there is one.
pub evaluate_total :
    (l : Libraries) (email : String) (disabled : Bool) (s : Sources)
    → (c : Collection) × (evaluate l email disabled s ≡ some c)
evaluate_total l email disabled s = evaluate_total_at l email s disabled
