-- ===== src/XrayConfig/Jsonc/Agree.antt =====
-- internal/xrayconfig/render.go: two descents that agree on what is left agree.
use xform.Base.{
  ℕ, ◌+◌, ◌<◌, ◌≤◌, String, List, [], ◌∷◌, Option, none, nat_eq, string_eq, ◌≡◌, refl, ap, ◌∙◌,
  subst, arith, Option-cases, inl, inr,
}
use xform.Base.Lists.{length}
use xform.XrayConfig.Jsonc.{
  Node, Cursor, Parse, out_of_fuel, failed, parsed, bind, Mode, between, line_slash, line,
  block_star, block, block_slash, unclosed, mode_after, skip, blank, separator,
}
use xform.XrayConfig.Jsonc.Parser.{
  Members, Elements, str, colon, object_entry, array_entry, value_turn,
}
use xform.XrayConfig.Jsonc.Sizes.{size, size-skip, size-separator, Leaves, str-Leaves, colon-Leaves}

-- What blank leaves is empty or begins with a byte that blank does not skip.
abbrev pub Rests : Cursor → Type 0
Rests (p, []) = Unit
Rests (p, b ∷ s) = mode_after between b s ≡ none

stops_between :
    (m : Mode) (c : ℕ) (s : List ℕ) → mode_after m c s ≡ none → mode_after between c s ≡ none
unfolding mode_after
stops_between between c s h = h
stops_between line_slash c s h = ground arith
stops_between line c s h = ground arith
stops_between block_star c s h = ground arith
stops_between block c s h = ground arith
stops_between block_slash c s h = ground arith
stops_between unclosed c s h = ground arith

pub skip-Rests : (m : Mode) (p : ℕ) (s : List ℕ) → Rests (skip m p s)
unfolding skip
skip-Rests m p [] = tt
skip-Rests m p (c ∷ s) = elim (Option-cases (mode_after m c s)) [
  | inl stop ↦ ground (arith, stop, stops_between m c s stop)
  | inr (n, go) ↦ ground (arith, go, skip-Rests n (p + 1) s)
]

pub blank-Rests :
    (p b : ℕ) (s : List ℕ) → mode_after between b s ≡ none → blank (p, b ∷ s) ≡ (p, b ∷ s)
unfolding skip
blank-Rests p b s h = ground (arith, h)

module _ {ℓ κ} {A : Type ℓ} {B : Type κ} where
  bind_same :
      (x : Parse A) (k l : A → Cursor → Parse B)
      → ((a : A) (d : Cursor) → x ≡ parsed a d → k a d ≡ l a d)
      → bind x k ≡ bind x l
  bind_same out_of_fuel k l h = refl
  bind_same (failed e) k l h = refl
  bind_same (parsed a d) k l h = h a d refl

  bind_equal :
      (x y : Parse A) (k l : A → Cursor → Parse B)
      → x ≡ y
      → ((a : A) (d : Cursor) → y ≡ parsed a d → k a d ≡ l a d)
      → bind x k ≡ bind y l
  bind_equal x y k l e h = ap (λ z. bind z k) e ∙ bind_same y k l h

-- Behind the item and its comma at most `n` bytes are left.
abbrev pub Next : ℕ → Parse Node → Type 0
Next n out_of_fuel = Unit
Next n (failed e) = Unit
Next n (parsed v e) = size (separator b']' e).1 ≤ n

pub Next-Leaves : (n : ℕ) (x : Parse Node) → Leaves n x → Next n x
Next-Leaves n out_of_fuel h = tt
Next-Leaves n (failed e) h = tt
Next-Leaves n (parsed v e) h = omega (arith, size-separator b']' e)

left {ℓ} :
    {A : Type ℓ} (n : ℕ) (x : Parse A) (a : A) (d : Cursor)
    → Leaves n x
    → x ≡ parsed a d
    → size d ≤ n
left n x a d h e = subst (λ y. Leaves n y) e h

module _ (unmarshal : List ℕ → Option String) where
  -- Two descents that agree on shorter rests agree.
  module _ (read read2 : Cursor → Parse Node) where
    pub object_entry_same :
        (more more2 : Cursor → Parse Members) (p b : ℕ) (s : List ℕ)
        → ((d : Cursor) → Leaves (size d) (read2 d))
        → ((d : Cursor) → size d ≤ length s → read d ≡ read2 d)
        → ((d : Cursor) → size d ≤ length s → more d ≡ more2 d)
        → object_entry unmarshal read more (p, b ∷ s)
          ≡ object_entry unmarshal read2 more2 (p, b ∷ s)
    unfolding object_entry
    object_entry_same more more2 p b s short hr hm =
        bind_same (str unmarshal (p, b ∷ s)) _ _ λ key c kc.
          bind_same (colon key.1 (blank c)) _ _ λ u d cd.
            let key_left : size c ≤ length s =
              left (length s) (str unmarshal (p, b ∷ s)) key c (str-Leaves unmarshal p b s) kc in
            let colon_left : size d ≤ size (blank c) =
              left (size (blank c)) (colon key.1 (blank c)) u d (colon-Leaves key.1 (blank c)) cd in
            let d_short : size d ≤ length s = omega (arith, size-skip between c.0 c.1) in
            bind_equal (read d) (read2 d) _ _ (hr d d_short) λ v e de.
              let e_left : size e ≤ size d = left (size d) (read2 d) v e (short d) de in
              bind_equal (more (separator b'}' e).1) (more2 (separator b'}' e).1) _ _
                (hm (separator b'}' e).1 (omega (arith, size-separator b'}' e))) λ rest f ef. refl

    pub array_entry_same :
        (more more2 : Cursor → Parse Elements) (p b : ℕ) (s : List ℕ)
        → ((v : Node) (e : Cursor)
            → read2 (p, b ∷ s) ≡ parsed v e
            → size (separator b']' e).1 ≤ length s)
        → read (p, b ∷ s) ≡ read2 (p, b ∷ s)
        → ((d : Cursor) → size d ≤ length s → more d ≡ more2 d)
        → array_entry unmarshal read more (p, b ∷ s) ≡ array_entry unmarshal read2 more2 (p, b ∷ s)
    unfolding array_entry
    array_entry_same more more2 p b s short hr hm =
        bind_equal (read (p, b ∷ s)) (read2 (p, b ∷ s)) _ _ hr λ v e de.
          bind_equal (more (separator b']' e).1) (more2 (separator b']' e).1) _ _
            (hm (separator b']' e).1 (short v e de)) λ rest f ef. refl

  pub value_turn_same :
      (m m2 : ℕ → Cursor → Parse Members) (l l2 : ℕ → Cursor → Parse Elements) (c : Cursor)
      → ((q : ℕ) (d : Cursor) → size d < size c → m q d ≡ m2 q d)
      → ((q : ℕ) (d : Cursor) → size d < size c → l q d ≡ l2 q d)
      → value_turn unmarshal m l c ≡ value_turn unmarshal m2 l2 c
  unfolding value_turn
  value_turn_same m m2 l l2 (p, []) hm hl = refl
  value_turn_same m m2 l l2 (p, b ∷ s) hm hl =
      ground (arith, hm p (p + 1, s) (omega arith), hl p (p + 1, s) (omega arith))
