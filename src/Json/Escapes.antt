-- ===== src/Json/Escapes.antt =====
-- validUnicodeScalarEscapes of internal/advertisements/parse.go: no string of a document escapes half of
-- a surrogate pair.
use xform.Base.{
  ℕ, zero, suc, ◌+◌, ◌*◌, ◌-◌, Bool, true, false, ◌&&◌, List, [], ◌∷◌, Option, none, some, ◌==◌,
  nat_eq, if◌then◌else◌, leb,
}

-- Where the scan stands: outside strings, inside one, behind a backslash, at the digits of an escape
-- with the number left and their value so far, or between the halves of a pair.
pub data Place : Type 0 where
  outside : Place
  inside : Place
  escaped : Place
  digits : ℕ → ℕ → Bool → Place
  low_slash : Place
  low_u : Place

-- One digit of parseHexCode
abbrev pub hex_value : ℕ → Option ℕ
hex_value c =
    if leb b'0' c && leb c b'9'
    then some (c - b'0')
    else if leb b'a' c && leb c b'f'
    then some (c - b'a' + 10)
    else if leb b'A' c && leb c b'F'
    then some (c - b'A' + 10)
    else none

abbrev pub is_high : ℕ → Bool
is_high v = leb 0xd800 v && leb v 0xdbff

abbrev pub is_low : ℕ → Bool
is_low v = leb 0xdc00 v && leb v 0xdfff

-- The place behind the last digit; the flag says that a low half is due.
unfoldable pub behind_digits : Bool → ℕ → Option Place
behind_digits true v = if is_low v then some inside else none
behind_digits false v = if is_high v then some low_slash else if is_low v then none else some inside

abbrev pub next_digit : ℕ → ℕ → Bool → Option ℕ → Option Place
next_digit left v low none = none
next_digit zero v low (some d) = behind_digits low (v * 16 + d)
next_digit (suc left) v low (some d) = some (digits left (v * 16 + d) low)

-- A place with n digits left has one more digit after n others.
unfoldable pub step : Place → ℕ → Option Place
unfolding behind_digits
step outside c = some (if c == b'"' then inside else outside)
step inside c = some (if c == b'"' then outside else if c == b'\\' then escaped else inside)
step escaped c = some (if c == b'u' then digits 3 0 false else inside)
step (digits left v low) c = next_digit left v low (hex_value c)
step low_slash c = if c == b'\\' then some low_u else none
step low_u c = if c == b'u' then some (digits 3 0 true) else none

abbrev pub is_outside : Place → Bool
is_outside outside = true
is_outside _ = false

unfoldable pub scan_escapes : Option Place → List ℕ → Bool
unfolding step
scan_escapes none bytes = false
scan_escapes (some p) [] = is_outside p
scan_escapes (some p) (c ∷ bytes) = scan_escapes (step p c) bytes

-- validUnicodeScalarEscapes
abbrev pub valid_unicode_scalar_escapes : List ℕ → Bool
valid_unicode_scalar_escapes = scan_escapes (some outside)
