-- ===== src/XrayConfig/Jsonc/Enough.antt =====
-- internal/xrayconfig/render.go: the fuel that decides a scan.
use xform.Base.{
  ℕ, zero, suc, ◌+◌, ◌*◌, ◌<◌, ◌≤◌, String, true, false, ◌||◌, List, [], ◌∷◌, Option, none, ◌==◌,
  nat_eq, string_eq, ◌≡◌, refl, sym, ap, ◌∙◌, subst, arith, Bool-cases, inl, inr,
}
use xform.Base.Lists.{length}
use xform.XrayConfig.Jsonc.{Cursor, out_of_fuel, between, mode_after, blank, ends_literal}
use xform.XrayConfig.Jsonc.Parser.{
  object_turn, array_turn, value_turn, value, object_loop, array_loop, parse_jsonc,
}
use xform.XrayConfig.Jsonc.Sizes.{
  size, size-skip, Leaves, value_turn_short, value-Leaves, object_loop-Leaves, array_loop-Leaves,
}
use xform.XrayConfig.Jsonc.Agree.{
  Rests, Next, skip-Rests, blank-Rests, Next-Leaves, object_entry_same, array_entry_same,
  value_turn_same,
}

module _ (unmarshal : List ℕ → Option String) where
  -- The loop over an array makes no progress at `}` and at `:`.
  stuck_brace :
      (f start p : ℕ) (s : List ℕ) → array_loop unmarshal f start (p, b'}' ∷ s) ≡ out_of_fuel
  unfolding array_loop mode_after ends_literal
  stuck_brace zero start p s = refl
  stuck_brace (suc zero) start p s = refl
  stuck_brace (suc (suc f)) start p s = rw (stuck_brace (suc f) start p s) refl

  stuck_colon :
      (f start p : ℕ) (s : List ℕ) → array_loop unmarshal f start (p, b':' ∷ s) ≡ out_of_fuel
  unfolding array_loop mode_after ends_literal
  stuck_colon zero start p s = refl
  stuck_colon (suc zero) start p s = refl
  stuck_colon (suc (suc f)) start p s = rw (stuck_colon (suc f) start p s) refl

  pub array_loop_stuck :
      (f start p b : ℕ) (s : List ℕ)
      → (b == b'}' || b == b':') ≡ true
      → array_loop unmarshal f start (p, b ∷ s) ≡ out_of_fuel
  array_loop_stuck f start p b s h =
      ground (arith, stuck_brace f start p s, stuck_colon f start p s)

  -- The turn of the loop that is not stuck.
  value_comma-Next : (f p : ℕ) (s : List ℕ) → Next (length s) (value unmarshal f (p, b',' ∷ s))
  unfolding value mode_after ends_literal
  value_comma-Next zero p s = tt
  value_comma-Next (suc f) p s = size-skip between (p + 1) s

  inside_literal :
      (b : ℕ) (s : List ℕ)
      → mode_after between b s ≡ none
      → (b == b',') ≡ false
      → (b == b']') ≡ false
      → (b == b'}' || b == b':') ≡ false
      → ends_literal b s ≡ false
  unfolding mode_after ends_literal
  inside_literal b s rests c r h = ground arith

  value-Next :
      (f p b : ℕ) (s : List ℕ)
      → mode_after between b s ≡ none
      → (b == b']') ≡ false
      → (b == b'}' || b == b':') ≡ false
      → Next (length s) (value unmarshal f (p, b ∷ s))
  unfolding value
  value-Next zero p b s rests r h = tt
  value-Next (suc f) p b s rests r h = elim (Bool-cases (b == b',')) [
    | inl comma ↦
        subst (λ c. Next (length s) (value unmarshal (suc f) (p, c ∷ s))) (ground arith)
          (value_comma-Next (suc f) p s)
    | inr other ↦
        let consumed : Leaves (length s)
            (value_turn unmarshal (object_loop unmarshal f) (array_loop unmarshal f) (p, b ∷ s)) =
          value_turn_short unmarshal (object_loop unmarshal f) (array_loop unmarshal f)
            (object_loop-Leaves unmarshal f) (array_loop-Leaves unmarshal f) p b s
            (inside_literal b s rests other r h) in
        subst
          (λ c.
            Next (length s)
              (value_turn unmarshal (object_loop unmarshal f) (array_loop unmarshal f) c))
          (sym (blank-Rests p b s rests)) (Next-Leaves (length s) _ consumed)
  ]

  array_turn_stuck :
      (f start p b : ℕ) (s : List ℕ)
      → mode_after between b s ≡ none
      → (b == b'}' || b == b':') ≡ true
      → array_turn unmarshal (value unmarshal f) (array_loop unmarshal f start) start (p, b ∷ s)
        ≡ out_of_fuel
  unfolding array_loop
  array_turn_stuck f start p b s rests h =
      ap (array_turn unmarshal (value unmarshal f) (array_loop unmarshal f start) start)
        (sym (blank-Rests p b s rests))
      ∙ array_loop_stuck (suc f) start p b s h

  object_turn_same :
      (f start : ℕ) (c : Cursor)
      → ((d : Cursor) → size d < size c → value unmarshal (suc f) d ≡ value unmarshal f d)
      → ((d : Cursor)
          → size d < size c
          → object_loop unmarshal (suc f) start d ≡ object_loop unmarshal f start d)
      → object_turn unmarshal
          (value unmarshal (suc f))
          (object_loop unmarshal (suc f) start)
          start
          c
        ≡ object_turn unmarshal (value unmarshal f) (object_loop unmarshal f start) start c
  unfolding object_turn
  object_turn_same f start (p, []) hv hm = refl
  object_turn_same f start (p, b ∷ s) hv hm =
      let entry =
        object_entry_same unmarshal (value unmarshal (suc f)) (value unmarshal f)
          (object_loop unmarshal (suc f) start) (object_loop unmarshal f start) p b s
          (value-Leaves unmarshal f) (λ d le. hv d (omega arith)) (λ d le. hm d (omega arith)) in
      ground (arith, entry)

  array_turn_same :
      (f start : ℕ) (c : Cursor)
      → Rests c
      → value unmarshal (suc f) c ≡ value unmarshal f c
      → ((d : Cursor)
          → size d < size c
          → array_loop unmarshal (suc f) start d ≡ array_loop unmarshal f start d)
      → array_turn unmarshal (value unmarshal (suc f)) (array_loop unmarshal (suc f) start) start c
        ≡ array_turn unmarshal (value unmarshal f) (array_loop unmarshal f start) start c
  unfolding array_turn
  array_turn_same f start (p, []) rests hv hm = refl
  array_turn_same f start (p, b ∷ s) rests hv hm = elim (Bool-cases (b == b']')) [
    | inl closed ↦ ground (arith, closed)
    | inr more ↦ elim (Bool-cases (b == b'}' || b == b':')) [
      | inl stuck ↦
          array_turn_stuck (suc f) start p b s rests stuck
          ∙ sym (array_turn_stuck f start p b s rests stuck)
      | inr moves ↦
          let entry =
            array_entry_same unmarshal (value unmarshal (suc f)) (value unmarshal f)
              (array_loop unmarshal (suc f) start) (array_loop unmarshal f start) p b s
              (λ v e de. subst (λ x. Next (length s) x) de (value-Next f p b s rests more moves)) hv
              (λ d le. hm d (omega arith)) in
          ground (arith, more, entry)
    ]
  ]

  mutual
    unfolding value object_loop array_loop

    value_enough :
        (f : ℕ) (c : Cursor) → 2 * size c + 1 ≤ f → value unmarshal (suc f) c ≡ value unmarshal f c
    value_enough zero c h = ground arith
    value_enough (suc f) c h =
        let short = size-skip between c.0 c.1 in
        value_turn_same unmarshal (object_loop unmarshal (suc f)) (object_loop unmarshal f)
          (array_loop unmarshal (suc f)) (array_loop unmarshal f) (blank c)
          (λ q d le. object_loop_enough f q d (omega arith))
          (λ q d le. array_loop_enough f q d (omega arith))

    object_loop_enough :
        (f start : ℕ) (c : Cursor)
        → 2 * size c + 2 ≤ f
        → object_loop unmarshal (suc f) start c ≡ object_loop unmarshal f start c
    object_loop_enough zero start c h = ground arith
    object_loop_enough (suc f) start c h =
        let short = size-skip between c.0 c.1 in
        object_turn_same f start (blank c) (λ d le. value_enough f d (omega arith))
          (λ d le. object_loop_enough f start d (omega arith))

    array_loop_enough :
        (f start : ℕ) (c : Cursor)
        → 2 * size c + 2 ≤ f
        → array_loop unmarshal (suc f) start c ≡ array_loop unmarshal f start c
    array_loop_enough zero start c h = ground arith
    array_loop_enough (suc f) start c h =
        let short = size-skip between c.0 c.1 in
        array_turn_same f start (blank c) (skip-Rests between c.0 c.1)
          (value_enough f (blank c) (omega arith))
          (λ d le. array_loop_enough f start d (omega arith))

  value_steady :
      (c : Cursor) (extra : ℕ)
      → value unmarshal (2 * size c + 1 + extra) c ≡ value unmarshal (2 * size c + 1) c
  value_steady c zero =
      let none_extra : 2 * size c + 1 + 0 ≡ 2 * size c + 1 = omega arith in
      ap (λ f. value unmarshal f c) none_extra
  value_steady c (suc extra) =
      let one_more : 2 * size c + 1 + suc extra ≡ suc (2 * size c + 1 + extra) = omega arith in
      ap (λ f. value unmarshal f c) one_more
      ∙ value_enough (2 * size c + 1 + extra) c (omega arith)
      ∙ value_steady c extra

  -- On 2n + 1 units of fuel, for n bytes, the scan has the result that it has on any more: what has not
  -- returned by then never returns.
  pub parse_jsonc_decided :
      (document : List ℕ) (extra : ℕ)
      → parse_jsonc unmarshal (2 * length document + 1 + extra) document
        ≡ parse_jsonc unmarshal (2 * length document + 1) document
  unfolding parse_jsonc
  parse_jsonc_decided document extra = rw (value_steady (0, document) extra) refl

  -- A document that begins with `[}` or `[:` is scanned for ever.
  pub parse_jsonc_stuck :
      (fuel b : ℕ) (s : List ℕ)
      → (b == b'}' || b == b':') ≡ true
      → parse_jsonc unmarshal fuel (b'[' ∷ b ∷ s) ≡ out_of_fuel
  unfolding parse_jsonc mode_after
  parse_jsonc_stuck zero b s h = refl
  parse_jsonc_stuck (suc f) b s h = rw (array_loop_stuck f 0 1 b s h) refl
