-- ===== src/XrayConfig/Jsonc/Sizes.antt =====
-- internal/xrayconfig/render.go: how much of the document each part of the scan leaves.
use xform.Base.{
  ℕ, zero, suc, ◌+◌, ◌≤◌, String, Bool, false, not, ◌&&◌, List, [], ◌∷◌, Option, some, ◌==◌, nat_eq,
  string_eq, ◌≡◌, arith, Bool-cases, Option-cases, inl, inr,
}
use xform.Base.Lists.{length}
use xform.XrayConfig.Jsonc.{
  Node, Cursor, Parse, out_of_fuel, failed, parsed, bind, Mode, between, mode_after, skip, blank,
  scan_string, scan_literal, ends_literal, literal_at, separator_at, separator,
}
use xform.XrayConfig.Jsonc.Parser.{
  Members, Elements, str, colon, object_turn, object_entry, array_turn, array_entry, value_turn,
  value, object_loop, array_loop, object_from, array_from, text_from,
}

-- The bytes that are left.
abbrev pub size : Cursor → ℕ
size (p, s) = length s

pub size-skip : (m : Mode) (p : ℕ) (s : List ℕ) → size (skip m p s) ≤ length s
unfolding skip
size-skip m p [] = omega arith
size-skip m p (c ∷ s) = elim (Option-cases (mode_after m c s)) [
  | inl stop ↦ ground (arith, stop)
  | inr (n, go) ↦ ground (arith, go, size-skip n (p + 1) s)
]

pub scan_string-size :
    (e : Bool) (s body after : List ℕ)
    → scan_string e s ≡ some (body, after)
    → length body + length after ≡ length s
unfolding scan_string
scan_string-size e [] body after h = ground arith
scan_string-size e (c ∷ s) body after h = elim (Bool-cases (not e && c == b'"')) [
  | inl closing ↦ ground (arith, closing, h)
  | inr inner ↦ elim (Option-cases (scan_string (not e && c == b'\\') s)) [
    | inl nothing ↦ ground (arith, inner, nothing, h)
    | inr ((b, a), found) ↦
        ground (arith, inner, found, h, scan_string-size (not e && c == b'\\') s b a found)
  ]
]

pub size-scan_literal : (p : ℕ) (s : List ℕ) → size (scan_literal p s) ≤ length s
unfolding scan_literal
size-scan_literal p [] = omega arith
size-scan_literal p (c ∷ s) = ground (arith, size-scan_literal (p + 1) s)

pub size-separator_at : (q : ℕ) (c : Cursor) → size (separator_at q c).1 ≤ size c
unfolding separator_at
size-separator_at q (p, []) = omega arith
size-separator_at q (p, b ∷ s) = ground (arith, size-skip between (p + 1) s)

pub size-separator : (q : ℕ) (c : Cursor) → size (separator q c).1 ≤ size c
size-separator q c = omega (arith, size-separator_at q (blank c), size-skip between c.0 c.1)

-- At most `n` bytes are left behind what the parser returns.
abbrev pub Leaves {ℓ} : {A : Type ℓ} → ℕ → Parse A → Type 0
Leaves n out_of_fuel = Unit
Leaves n (failed e) = Unit
Leaves n (parsed a d) = size d ≤ n

module _ {ℓ κ} {A : Type ℓ} {B : Type κ} where
  pub bind-Leaves :
      (m n : ℕ) (k : A → Cursor → Parse B) (x : Parse A)
      → Leaves m x
      → ((a : A) (d : Cursor) → size d ≤ m → Leaves n (k a d))
      → Leaves n (bind x k)
  bind-Leaves m n k out_of_fuel h g = tt
  bind-Leaves m n k (failed e) h g = tt
  bind-Leaves m n k (parsed a d) h g = g a d h

pub weaken-Leaves {ℓ} : {A : Type ℓ} {m n : ℕ} (x : Parse A) → Leaves m x → m ≤ n → Leaves n x
weaken-Leaves out_of_fuel h le = tt
weaken-Leaves (failed e) h le = tt
weaken-Leaves (parsed a d) h le = omega arith

pub colon-Leaves : (e : ℕ) (c : Cursor) → Leaves (size c) (colon e c)
colon-Leaves e (p, []) = tt
colon-Leaves e (p, b ∷ s) = ground arith

module _ (unmarshal : List ℕ → Option String) where
  pub str-Leaves : (p b : ℕ) (s : List ℕ) → Leaves (length s) (str unmarshal (p, b ∷ s))
  unfolding str
  str-Leaves p b s = elim (Option-cases (scan_string false s)) [
    | inl nothing ↦ ground (arith, nothing)
    | inr ((body, after), found) ↦ ground (arith, found, scan_string-size false s body after found)
  ]

  -- The loops and the descent, over what they call.
  module _ (read : Cursor → Parse Node) (hr : (d : Cursor) → Leaves (size d) (read d)) where
    object_entry-Leaves :
        (more : Cursor → Parse Members)
        → ((d : Cursor) → Leaves (size d) (more d))
        → (p b : ℕ) (s : List ℕ) → Leaves (length s) (object_entry unmarshal read more (p, b ∷ s))
    unfolding object_entry
    object_entry-Leaves more hm p b s =
        let n = length s in
        bind-Leaves n n _ (str unmarshal (p, b ∷ s)) (str-Leaves p b s) λ key c kc.
          let colon_at = weaken-Leaves (colon key.1 (blank c)) (colon-Leaves key.1 (blank c)) in
          bind-Leaves n n _ (colon key.1 (blank c))
            (colon_at (omega (arith, size-skip between c.0 c.1)))
            λ _ d cd. bind-Leaves n n _ (read d) (weaken-Leaves (read d) (hr d) cd) λ v e de.
              let next = (separator b'}' e).1 in
              bind-Leaves n n _ (more next)
                (weaken-Leaves (more next) (hm next) (omega (arith, size-separator b'}' e)))
                λ rest f ef. ef

    array_entry-Leaves :
        (more : Cursor → Parse Elements)
        → ((d : Cursor) → Leaves (size d) (more d))
        → (c : Cursor) → Leaves (size c) (array_entry unmarshal read more c)
    unfolding array_entry
    array_entry-Leaves more hm c =
        let n = size c in
        bind-Leaves n n _ (read c) (hr c) λ v e de.
          let next = (separator b']' e).1 in
          bind-Leaves n n _ (more next)
            (weaken-Leaves (more next) (hm next) (omega (arith, size-separator b']' e)))
            λ rest f ef. ef

    pub object_turn-Leaves :
        (more : Cursor → Parse Members) (start : ℕ)
        → ((d : Cursor) → Leaves (size d) (more d))
        → (c : Cursor) → Leaves (size c) (object_turn unmarshal read more start c)
    unfolding object_turn
    object_turn-Leaves more start hm (p, []) = tt
    object_turn-Leaves more start hm (p, b ∷ s) =
        let entry = object_entry unmarshal read more (p, b ∷ s) in
        let entry_short : Leaves (suc (length s)) entry =
          weaken-Leaves entry (object_entry-Leaves more hm p b s) (omega arith) in
        ground (arith, entry_short)

    pub array_turn-Leaves :
        (more : Cursor → Parse Elements) (start : ℕ)
        → ((d : Cursor) → Leaves (size d) (more d))
        → (c : Cursor) → Leaves (size c) (array_turn unmarshal read more start c)
    unfolding array_turn
    array_turn-Leaves more start hm (p, []) = tt
    array_turn-Leaves more start hm (p, b ∷ s) =
        ground (arith, array_entry-Leaves more hm (p, b ∷ s))

  module _ (members : ℕ → Cursor → Parse Members) (elements : ℕ → Cursor → Parse Elements)
      (hm : (q : ℕ) (d : Cursor) → Leaves (size d) (members q d))
      (he : (q : ℕ) (d : Cursor) → Leaves (size d) (elements q d)) where
    -- A byte that does not end a literal is consumed.
    pub value_turn_short :
        (p b : ℕ) (s : List ℕ)
        → ends_literal b s ≡ false
        → Leaves (length s) (value_turn unmarshal members elements (p, b ∷ s))
    unfolding value_turn literal_at scan_literal
    value_turn_short p b s inside =
        let n = length s in
        let obj : Leaves n (object_from p (members p (p + 1, s))) =
          bind-Leaves n n _ (members p (p + 1, s)) (hm p (p + 1, s)) λ m d h. h in
        let arr : Leaves n (array_from p (elements p (p + 1, s))) =
          bind-Leaves n n _ (elements p (p + 1, s)) (he p (p + 1, s)) λ m d h. h in
        let txt : Leaves n (text_from p (str unmarshal (p, b ∷ s))) =
          bind-Leaves n n _ (str unmarshal (p, b ∷ s)) (str-Leaves p b s) λ m d h. h in
        ground (arith, obj, arr, txt, inside, size-scan_literal (p + 1) s)

    pub value_turn-Leaves : (c : Cursor) → Leaves (size c) (value_turn unmarshal members elements c)
    unfolding value_turn literal_at
    value_turn-Leaves (p, []) = tt
    value_turn-Leaves (p, b ∷ s) =
        let n = length s in
        let obj : Leaves (suc n) (object_from p (members p (p + 1, s))) =
          bind-Leaves n (suc n) _ (members p (p + 1, s)) (hm p (p + 1, s)) λ m d h. omega arith in
        let arr : Leaves (suc n) (array_from p (elements p (p + 1, s))) =
          bind-Leaves n (suc n) _ (elements p (p + 1, s)) (he p (p + 1, s)) λ m d h. omega arith in
        let txt : Leaves (suc n) (text_from p (str unmarshal (p, b ∷ s))) =
          bind-Leaves n (suc n) _ (str unmarshal (p, b ∷ s)) (str-Leaves p b s)
            λ m d h. omega arith in
        ground (arith, obj, arr, txt, size-scan_literal p (b ∷ s))

  mutual
    unfolding value object_loop array_loop

    pub value-Leaves : (f : ℕ) (c : Cursor) → Leaves (size c) (value unmarshal f c)
    value-Leaves zero c = tt
    value-Leaves (suc f) c =
        weaken-Leaves (value unmarshal (suc f) c)
          (value_turn-Leaves (object_loop unmarshal f) (array_loop unmarshal f)
            (object_loop-Leaves f) (array_loop-Leaves f) (blank c))
          (size-skip between c.0 c.1)

    pub object_loop-Leaves :
        (f start : ℕ) (c : Cursor) → Leaves (size c) (object_loop unmarshal f start c)
    object_loop-Leaves zero start c = tt
    object_loop-Leaves (suc f) start c =
        weaken-Leaves (object_loop unmarshal (suc f) start c)
          (object_turn-Leaves (value unmarshal f) (value-Leaves f) (object_loop unmarshal f start)
            start (object_loop-Leaves f start) (blank c))
          (size-skip between c.0 c.1)

    pub array_loop-Leaves :
        (f start : ℕ) (c : Cursor) → Leaves (size c) (array_loop unmarshal f start c)
    array_loop-Leaves zero start c = tt
    array_loop-Leaves (suc f) start c =
        weaken-Leaves (array_loop unmarshal (suc f) start c)
          (array_turn-Leaves (value unmarshal f) (value-Leaves f) (array_loop unmarshal f start)
            start (array_loop-Leaves f start) (blank c))
          (size-skip between c.0 c.1)
