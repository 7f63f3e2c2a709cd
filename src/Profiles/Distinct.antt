-- ===== src/Profiles/Distinct.antt =====
-- No two of the available profiles of one result of Evaluate, internal/profiles/profiles.go, are for one
-- inbound tag.
use xform.Base.{
  ℕ, suc, ◌≤◌, String, Bool, true, false, not, List, [], ◌∷◌, Option, none, some, ◌==◌, nat_eq,
  string_eq, if-false, ltb, ◌≡◌, refl, ap, sym, ◌∙◌, subst, arith, eq_iff, if-true, eq_refl,
  Bool-cases, inl, inr,
}
use xform.Base.Lists.{keep, contains}
use xform.Base.Tally.{occurrences}
use xform.XrayConfig.{Inbound}
use xform.Profiles.Results.{Sources, Item, available, unavailable, Collection, source_state}
use xform.Profiles.Values.{Libraries, Profile}
use xform.Profiles.Candidate.{effective_flow}
use xform.Profiles.Built.{build_available-IsBuilt}
use xform.Profiles.Evaluate.{both, with_items, evaluate}
use xform.Profiles.Offers.{evaluate_inbound-Offered}
use xform.Profiles.Listed.{
  inbound_tags, tag_count, is_candidate, selected, verdict, verdicts, candidates, candidates_lem,
  evaluated, evaluate-evaluated,
}

-- The inbound tags of the profiles that are available, in their order.
abbrev pub available_tags : List Item → List String
available_tags [] = []
available_tags (available p ∷ items) = p.inbound_tag ∷ available_tags items
available_tags (unavailable u ∷ items) = available_tags items

abbrev pub IsDistinct : List String → Type 0
IsDistinct [] = Unit
IsDistinct (k ∷ ks) = (contains ks k ≡ false) × IsDistinct ks

keep_head {ℓ} :
    {A : Type ℓ} (p : A → Bool) (xs : List A) (a : A) (rest : List A)
    → keep p xs ≡ a ∷ rest
    → p a ≡ true
unfolding keep
keep_head p [] a rest h = ground arith
keep_head p (x ∷ xs) a rest h = elim (Bool-cases (p x)) [
  | inl e ↦ ground arith
  | inr e ↦ keep_head p xs a rest (sym (if-false (p x) _ _ e) ∙ h)
]

at_most_one : (n : ℕ) → ltb 1 n ≡ false → n ≤ 1
at_most_one n h = ground arith

some-injective {ℓ} : {A : Type ℓ} {x y : A} → some x ≡ some y → x ≡ y
some-injective h = cc

nothing_contained :
    (k : String) (items : List Item) → [] ≡ items → contains (available_tags items) k ≡ true → ⊥
unfolding contains
nothing_contained k [] same c = ground arith
nothing_contained k (item ∷ items) same c = ground arith

both-some :
    (o : Option Item) (os : Option (List Item)) (items : List Item)
    → both o os ≡ some items
    → (item : Item) × (rest : List Item) × (o ≡ some item)
      × (os ≡ some rest)
      × (items ≡ item ∷ rest)
both-some none os items h = absurd (ground arith)
both-some (some item) none items h = absurd (ground arith)
both-some (some item) (some rest) items h = (item, rest, refl, refl, sym (some-injective h))

occurrences_self : (k : String) (ks : List String) → occurrences k (k ∷ ks) ≡ suc (occurrences k ks)
unfolding occurrences
occurrences_self k ks = rw (eq_refl k) refl

module _ (l : Libraries) (email : String) (s : Sources) where
  -- An available profile carries the tag of its inbound, which no other inbound has.
  verdict-available :
      (i : Inbound) (p : Profile)
      → verdict l email s i ≡ some (available p)
      → (p.inbound_tag ≡ i.tag) × (occurrences i.tag (inbound_tags s.xray_view) ≤ 1)
  unfolding verdict
  verdict-available i p h =
      let o =
        (evaluate_inbound-Offered l email i (tag_count s.xray_view i.tag) (selected s i.tag) s p).0
          h in
      let a_tag =
        keep_head (λ b. b.inbound_tag == i.tag) s.advertisements_view o.a []
          (sym (if-true s.advertisements_available _ _ o.loaded) ∙ o.chosen) in
      let built =
        build_available-IsBuilt l email o.offer.client_id (effective_flow i o.user) o.a p
          o.offer.made in
      (
        built.tag ∙ (eq_iff o.a.inbound_tag i.tag).0 a_tag,
        at_most_one _ (ap (ltb 1) (sym (if-false (i.tag == "") _ _ o.tagged)) ∙ o.alone),
      )

  tag_of_item :
      (i : Inbound) (is : List Inbound) (item : Item) (rest : List Item) (k : String)
      → verdict l email s i ≡ some item
      → (contains (available_tags rest) k ≡ true → 1 ≤ occurrences k (inbound_tags is))
      → contains (available_tags (item ∷ rest)) k ≡ true
      → 1 ≤ occurrences k (inbound_tags (i ∷ is))
  unfolding contains occurrences
  tag_of_item i is (unavailable u) rest k h later c = ground arith
  tag_of_item i is (available p) rest k h later c =
      ground (arith, verdict-available i p h, eq_iff p.inbound_tag k, eq_iff i.tag k)

  -- The tag of an available profile in a list of verdicts is the tag of one of its inbounds.
  contains-available_tags :
      (is : List Inbound) (items : List Item) (k : String)
      → verdicts l email s is ≡ some items
      → contains (available_tags items) k ≡ true
      → 1 ≤ occurrences k (inbound_tags is)
  unfolding verdicts
  contains-available_tags [] items k h c =
      let same = some-injective h in absurd (nothing_contained k items same c)
  contains-available_tags (i ∷ is) items k h c =
      let (item, rest, p, q, same) =
        both-some (verdict l email s i) (verdicts l email s is) items h in
      tag_of_item i is item rest k p (contains-available_tags is rest k q)
        (subst (λ all. contains (available_tags all) k ≡ true) same c)

  item-IsDistinct :
      (i : Inbound) (is : List Inbound) (item : Item) (rest : List Item)
      → occurrences i.tag (inbound_tags (i ∷ is)) ≤ occurrences i.tag (inbound_tags s.xray_view)
      → verdict l email s i ≡ some item
      → verdicts l email s is ≡ some rest
      → IsDistinct (available_tags rest)
      → IsDistinct (available_tags (item ∷ rest))
  item-IsDistinct i is (unavailable u) rest few h k d = d
  item-IsDistinct i is (available p) rest few h k d =
      let (same, alone) = verdict-available i p h in
      (
        elim (Bool-cases (contains (available_tags rest) p.inbound_tag)) [
          | inl c ↦
              let later =
                contains-available_tags is rest i.tag k
                  (subst (λ t. contains (available_tags rest) t ≡ true) same c) in
              absurd (omega (arith, occurrences_self i.tag (inbound_tags is)))
          | inr c ↦ c
        ],
        d,
      )

  occurrences_step :
      (i : Inbound) (is : List Inbound) (k : String)
      → occurrences k (inbound_tags is) ≤ occurrences k (inbound_tags (i ∷ is))
  unfolding occurrences
  occurrences_step i is k = ground arith

  IsDistinct-available_tags :
      (is : List Inbound) (items : List Item)
      → ((k : String) → occurrences k (inbound_tags is) ≤ occurrences k (inbound_tags s.xray_view))
      → verdicts l email s is ≡ some items
      → IsDistinct (available_tags items)
  unfolding verdicts
  IsDistinct-available_tags [] items few h =
      subst (λ all. IsDistinct (available_tags all)) (some-injective h) tt
  IsDistinct-available_tags (i ∷ is) items few h =
      let (item, rest, p, q, same) =
        both-some (verdict l email s i) (verdicts l email s is) items h in
      let later =
        IsDistinct-available_tags is rest (λ k. omega (arith, occurrences_step i is k, few k)) q in
      subst (λ all. IsDistinct (available_tags all)) (sym same)
        (item-IsDistinct i is item rest (few i.tag) p q later)

  occurrences-keep :
      (p : Inbound → Bool) (view : List Inbound) (k : String)
      → occurrences k (inbound_tags (keep p view)) ≤ occurrences k (inbound_tags view)
  unfolding keep occurrences
  occurrences-keep p [] k = omega arith
  occurrences-keep p (i ∷ is) k = ground (arith, occurrences-keep p is k)

  with_items-some :
      (o : Option (List Item)) (c : Collection)
      → with_items s o ≡ some c
      → (items : List Item) × (o ≡ some items) × (c.items ≡ items)
  with_items-some none c h = absurd (ground arith)
  with_items-some (some items) c h =
      (items, refl, ap (λ (d : Collection). d.items) (sym (some-injective h)))

  evaluated-IsDistinct :
      (is : List Inbound) (c : Collection)
      → ((k : String) → occurrences k (inbound_tags is) ≤ occurrences k (inbound_tags s.xray_view))
      → evaluated l email s is ≡ some c
      → IsDistinct (available_tags c.items)
  unfolding source_state
  evaluated-IsDistinct [] c few h =
      subst (λ (d : Collection). IsDistinct (available_tags d.items)) (some-injective h) tt
  evaluated-IsDistinct (i ∷ is) c few h =
      let (items, listed, same) = with_items-some (verdicts l email s (i ∷ is)) c h in
      subst (λ all. IsDistinct (available_tags all)) (sym same)
        (IsDistinct-available_tags (i ∷ is) items few listed)

  few_candidates :
      (k : String)
      → occurrences k (inbound_tags (candidates l email s))
        ≤ occurrences k (inbound_tags s.xray_view)
  few_candidates k =
      rw (candidates_lem l email s) (occurrences-keep (is_candidate l email) s.xray_view k)

  evaluate-IsDistinct_at :
      (disabled : Bool) (c : Collection)
      → evaluate l email disabled s ≡ some c
      → IsDistinct (available_tags c.items)
  unfolding evaluate source_state
  evaluate-IsDistinct_at true c h =
      subst (λ (d : Collection). IsDistinct (available_tags d.items)) (some-injective h) tt
  evaluate-IsDistinct_at false c h = elim (Bool-cases s.xray_available) [
    | inl e ↦
        evaluated-IsDistinct (candidates l email s) c few_candidates
          (sym (evaluate-evaluated l email s e) ∙ h)
    | inr e ↦
        subst (λ (d : Collection). IsDistinct (available_tags d.items))
          (some-injective (sym (if-true (not s.xray_available) _ _ (rw e refl)) ∙ h)) tt
  ]

-- In every result of an evaluation the available profiles have pairwise different inbound tags.
pub evaluate-IsDistinct :
    (l : Libraries) (email : String) (disabled : Bool) (s : Sources) (c : Collection)
    → evaluate l email disabled s ≡ some c
    → IsDistinct (available_tags c.items)
evaluate-IsDistinct l email disabled s c h = evaluate-IsDistinct_at l email s disabled c h
