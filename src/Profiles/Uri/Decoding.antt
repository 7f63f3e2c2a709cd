-- ===== src/Profiles/Uri/Decoding.antt =====
-- internal/profiles/uri.go: encodeURIComponent, against a percent-decoder of its own.
use xform.Base.{
  ℕ, ◌+◌, ◌*◌, ◌-◌, ◌/◌, ◌%◌, ◌<◌, Bool, true, false, ◌&&◌, ◌||◌, [], ◌∷◌, Option, none, some, ◌==◌,
  nat_eq, if◌then◌else◌, leb, ◌≡◌, refl, sym, ap, ◌∙◌, subst, arith, Bool-cases, inl, inr,
}
use xform.Base.Lists.{All, contains}
use xform.Profiles.Uri.{Bytes, is_uri_component_byte, hex_digit, encode_uri_component}

-- Where the percent-decoder stands: behind a whole byte, behind `%`, behind its first digit.
pub data Pending : Type 0 where
  plain : Pending
  percent : Pending
  digit : ℕ → Pending

abbrev pub hex_value : ℕ → Option ℕ
hex_value c =
    if leb b'0' c && leb c b'9'
    then some (c - 48)
    else if leb b'A' c && leb c b'F'
    then some (c - 55)
    else none

abbrev pub prepend : ℕ → Option Bytes → Option Bytes
prepend c none = none
prepend c (some s) = some (c ∷ s)

unfoldable pub read_from : Pending → Bytes → Option Bytes
read_from plain [] = some []
read_from percent [] = none
read_from (digit h) [] = none
read_from plain (c ∷ s) = elim (c == b'%') [
  | true ↦ read_from percent s
  | false ↦ prepend c (read_from plain s)
]
read_from percent (c ∷ s) = elim (hex_value c) [ none ↦ none | some h ↦ read_from (digit h) s ]
read_from (digit h) (c ∷ s) = elim (hex_value c) [
  | none ↦ none
  | some l ↦ prepend (16 * h + l) (read_from plain s)
]

abbrev pub decode : Bytes → Option Bytes
decode = read_from plain

abbrev pub IsByte : ℕ → Type 0
IsByte c = c < 256

hex_value-hex_digit : (d : ℕ) → d < 16 → hex_value (hex_digit d) ≡ some d
hex_value-hex_digit d h = ground arith

-- The bytes by which the reader splits are not kept as they are.
unfoldable pub is_reserved : ℕ → Bool
is_reserved c = c == b'%' || (c == b'&' || (c == b'=' || c == b'#'))

reserved_escaped : (c : ℕ) → is_reserved c ≡ true → is_uri_component_byte c ≡ false
unfolding is_reserved is_uri_component_byte contains
reserved_escaped c h = ground arith

-- No byte of the text is `b`.
abbrev pub Lacks : ℕ → Bytes → Type 0
Lacks b = All (λ c. (c == b) ≡ false)

kept_step :
    (c : ℕ) (s : Bytes)
    → is_uri_component_byte c ≡ true
    → encode_uri_component (c ∷ s) ≡ c ∷ encode_uri_component s
unfolding encode_uri_component
kept_step c s h = rw (encode_uri_component, h) refl

escaped_step :
    (c : ℕ) (s : Bytes)
    → is_uri_component_byte c ≡ false
    → encode_uri_component (c ∷ s)
      ≡ b'%' ∷ hex_digit (c / 16) ∷ hex_digit (c % 16) ∷ encode_uri_component s
unfolding encode_uri_component
escaped_step c s h = rw (encode_uri_component, h) refl

plain_step : (c : ℕ) (s : Bytes) → (c == b'%') ≡ false → decode (c ∷ s) ≡ prepend c (decode s)
unfolding read_from
plain_step c s h = ground (arith, h)

digits_step :
    (x y a b : ℕ) (s : Bytes)
    → hex_value x ≡ some a
    → hex_value y ≡ some b
    → decode (b'%' ∷ x ∷ y ∷ s) ≡ prepend (16 * a + b) (decode s)
unfolding read_from
digits_step x y a b s h l = ground (arith, h, l)

-- Percent-decoding gives back what was encoded.
pub decode-encode_uri_component :
    (s : Bytes) → All IsByte s → decode (encode_uri_component s) ≡ some s
unfolding read_from encode_uri_component
decode-encode_uri_component [] h = refl
decode-encode_uri_component (c ∷ s) h =
    let rest = ap (prepend c) (decode-encode_uri_component s h.1) in
    let whole : 16 * (c / 16) + c % 16 ≡ c = omega arith in
    elim (Bool-cases (is_uri_component_byte c)) [
      | inl kept ↦
          let other : (c == b'%') ≡ false = ground (arith, reserved_escaped c) in
          ap decode (kept_step c s kept) ∙ plain_step c (encode_uri_component s) other ∙ rest
      | inr escaped ↦
          ap decode (escaped_step c s escaped)
          ∙ digits_step (hex_digit (c / 16)) (hex_digit (c % 16)) (c / 16) (c % 16)
              (encode_uri_component s) (hex_value-hex_digit (c / 16) (omega arith))
              (hex_value-hex_digit (c % 16) (omega arith))
          ∙ ap (λ d. prepend d (decode (encode_uri_component s))) whole
          ∙ rest
    ]

hex_digit-Lacks : (b d : ℕ) → d < 16 → is_reserved b ≡ true → (hex_digit d == b) ≡ false
unfolding is_reserved
hex_digit-Lacks b d h r = ground arith

pub encode_uri_component-Lacks :
    (b : ℕ) (s : Bytes)
    → is_reserved b ≡ true
    → (b == b'%') ≡ false
    → All IsByte s
    → Lacks b (encode_uri_component s)
unfolding encode_uri_component
encode_uri_component-Lacks b [] r p h = tt
encode_uri_component-Lacks b (c ∷ s) r p h =
    let rest = encode_uri_component-Lacks b s r p h.1 in
    let high = hex_digit-Lacks b (c / 16) (omega arith) r in
    let low = hex_digit-Lacks b (c % 16) (omega arith) r in
    elim (Bool-cases (is_uri_component_byte c)) [
      | inl kept ↦
          let other : (c == b) ≡ false = ground (arith, reserved_escaped c) in
          subst (Lacks b) (sym (kept_step c s kept)) (other, rest)
      | inr escaped ↦
          let sign : (b'%' == b) ≡ false = ground arith in
          subst (Lacks b) (sym (escaped_step c s escaped)) (sign, (high, (low, rest)))
    ]
