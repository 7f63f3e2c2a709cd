-- ===== src/XrayConfig/Jsonc/Spans/Cursors.antt =====
-- internal/xrayconfig/render.go: where the cursor stands before and behind each part of a scan.
use xform.Base.{
  ℕ, suc, ◌+◌, ◌<◌, ◌≤◌, String, false, List, [], ◌∷◌, Option, nat_eq, ◌≡◌, arith, Option-cases,
  inl, inr,
}
use xform.Base.Lists.{length}
use xform.XrayConfig.Jsonc.{
  Node, end_of, Cursor, Parse, out_of_fuel, failed, parsed, bind, Mode, between, mode_after, skip,
  blank, scan_string, scan_literal, separator_at, separator,
}
use xform.XrayConfig.Jsonc.Parser.{Members, Elements, str, colon}
use xform.XrayConfig.Jsonc.Sizes.{scan_string-size}
use xform.XrayConfig.Jsonc.Spans.{InSpan, PropsIn, ItemsIn}

-- Of a document of `n` bytes the cursor has the rest from its offset on; past the end it has nothing.
abbrev pub Exact : ℕ → Cursor → Type 0
Exact n (p, s) = p + length s ≡ n

abbrev pub Within : ℕ → Cursor → Type 0
Within n (p, []) = Unit
Within n (p, b ∷ s) = p + suc (length s) ≡ n

-- From a cursor on: not before its offset.
abbrev pub Beyond : ℕ → ℕ → Cursor → Type 0
Beyond n lo c = (lo ≤ c.0) × Within n c

pub Exact-Within : (n : ℕ) (c : Cursor) → Exact n c → Within n c
Exact-Within n (p, []) h = tt
Exact-Within n (p, b ∷ s) h = h

pub skip-Beyond :
    (n : ℕ) (m : Mode) (p : ℕ) (s : List ℕ) → Within n (p, s) → Beyond n p (skip m p s)
unfolding skip
skip-Beyond n between p [] h = (omega arith, tt)
skip-Beyond n m p [] h = (omega arith, tt)
skip-Beyond n m p (c ∷ s) h = elim (Option-cases (mode_after m c s)) [
  | inl stop ↦ ground (arith, stop)
  | inr (k, go) ↦
      ground (arith, go, skip-Beyond n k (p + 1) s (Exact-Within n (p + 1, s) (omega arith)))
]

separator_at-Beyond : (n q : ℕ) (c : Cursor) → Within n c → Beyond n c.0 (separator_at q c).1
unfolding separator_at
separator_at-Beyond n q (p, []) h = (omega arith, tt)
separator_at-Beyond n q (p, b ∷ s) h =
    let behind = skip-Beyond n between (p + 1) s (Exact-Within n (p + 1, s) (omega arith)) in
    ground (arith, behind)

pub separator-Beyond : (n q : ℕ) (c : Cursor) → Within n c → Beyond n c.0 (separator q c).1
separator-Beyond n q (p, s) h =
    let blanks = skip-Beyond n between p s h in
    let sep = separator_at-Beyond n q (blank (p, s)) blanks.1 in (omega arith, sep.1)

pub scan_literal-Exact :
    (n p : ℕ) (s : List ℕ)
    → Exact n (p, s)
    → (p ≤ (scan_literal p s).0) × Exact n (scan_literal p s)
unfolding scan_literal
scan_literal-Exact n p [] h = (omega arith, h)
scan_literal-Exact n p (c ∷ s) h =
    let further = scan_literal-Exact n (p + 1) s (omega arith) in ground (arith, further)

-- What holds of an answer and of the cursor behind it, if there is one.
abbrev pub Holds {ℓ} : {A : Type ℓ} → (A → Cursor → Type 0) → Parse A → Type 0
Holds P out_of_fuel = Unit
Holds P (failed e) = Unit
Holds P (parsed a d) = P a d

module _ {ℓ κ} {A : Type ℓ} {B : Type κ} where
  pub bind-Holds :
      (P : A → Cursor → Type 0) (Q : B → Cursor → Type 0) (k : A → Cursor → Parse B) (x : Parse A)
      → Holds P x
      → ((a : A) (d : Cursor) → P a d → Holds Q (k a d))
      → Holds Q (bind x k)
  bind-Holds P Q k out_of_fuel h g = tt
  bind-Holds P Q k (failed e) h g = tt
  bind-Holds P Q k (parsed a d) h g = g a d h

-- The cursor stands at the end of the answer's span, which begins at `lo` or later.
abbrev pub ValueAt : ℕ → ℕ → Node → Cursor → Type 0
ValueAt n lo v d = InSpan lo d.0 v × ((end_of v ≡ d.0) × ((lo ≤ d.0) × Exact n d))

abbrev pub MembersAt : ℕ → ℕ → Members → Cursor → Type 0
MembersAt n lo m d = PropsIn lo m.close m.props × ((m.close ≡ d.0) × ((lo < d.0) × Exact n d))

abbrev pub ElementsAt : ℕ → ℕ → Elements → Cursor → Type 0
ElementsAt n lo e d = ItemsIn lo e.close e.items × ((e.close ≡ d.0) × ((lo < d.0) × Exact n d))

abbrev pub TextAt : ℕ → ℕ → String × ℕ → Cursor → Type 0
TextAt n p t d = (t.1 ≡ d.0) × ((p < d.0) × Exact n d)

abbrev pub ColonAt : ℕ → ℕ → Unit {0} → Cursor → Type 0
ColonAt n p u d = (p < d.0) × Exact n d

pub colon-Holds : (n e : ℕ) (c : Cursor) → Within n c → Holds (ColonAt n c.0) (colon e c)
colon-Holds n e (p, []) h = tt
colon-Holds n e (p, b ∷ s) h = ground arith

module _ (unmarshal : List ℕ → Option String) (n : ℕ) where
  pub str-Holds : (c : Cursor) → Within n c → Holds (TextAt n c.0) (str unmarshal c)
  unfolding str
  str-Holds (p, []) h = tt
  str-Holds (p, b ∷ s) h = elim (Option-cases (scan_string false s)) [
    | inl nothing ↦ ground (arith, nothing)
    | inr ((body, after), found) ↦ ground (arith, found, scan_string-size false s body after found)
  ]
