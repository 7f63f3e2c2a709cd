-- ===== src/Base/Text.antt =====
-- What the source uses of Go's `strings` and `unicode`. The tables of Unicode are data of Go's
-- standard library: upper and lower case of a character, and the representative of its simple-fold
-- orbit. Functions that read them take them as `CaseTables`.
use Prim.Native.Nat.{ℕ}
use Prim.Native.Char.{Char, code}
use Prim.Native.String.{String, compare}
use mathlib.Core.Bool.{Bool, true, false, ◌&&◌, ◌||◌}
use text.Mathlib.Text.{is_le}
use mathlib.Core.List.{List, [], ◌∷◌}
use mathlib.Core.Path.{◌≡◌, refl}
use xform.Base.Tests.{◌==◌, nat_eq, string_eq, leb, if◌then◌else◌}

pub record CaseTables : Type 0 where
  pub upper : Char → Char
  pub lower : Char → Char
  pub fold : Char → Char

-- The bytes of a text of ASCII characters.
abbrev pub codes : String → List ℕ
codes String.[] = []
codes (String.◌∷◌ c s) = code c ∷ codes s

abbrev pub map_chars : (Char → Char) → String → String
map_chars f String.[] = ""
map_chars f (String.◌∷◌ c s) = String.◌∷◌ (f c) (map_chars f s)

abbrev pub to_upper : CaseTables → String → String
to_upper u = map_chars u.upper

abbrev pub to_lower : CaseTables → String → String
to_lower u = map_chars u.lower

-- strings.EqualFold
abbrev pub equal_fold : CaseTables → String → String → Bool
equal_fold u s t = map_chars u.fold s == map_chars u.fold t

-- unicode.IsSpace
abbrev pub is_space : ℕ → Bool
is_space c =
    (leb 9 c && leb c 13)
    || c == 32
    || c == 0x85
    || c == 0xa0
    || c == 0x1680
    || (leb 0x2000 c && leb c 0x200a)
    || c == 0x2028
    || c == 0x2029
    || c == 0x202f
    || c == 0x205f
    || c == 0x3000

trim_left : String → String
trim_left String.[] = ""
trim_left (String.◌∷◌ c s) =
    let rest = trim_left s in if is_space (code c) then rest else String.◌∷◌ c s

trim_right : String → String
trim_right String.[] = ""
trim_right (String.◌∷◌ c s) =
    let rest = trim_right s in if is_space (code c) && rest == "" then "" else String.◌∷◌ c rest

-- strings.TrimSpace
unfoldable pub trim_space : String → String
unfolding trim_left trim_right
trim_space s = trim_right (trim_left s)

-- strings.HasPrefix
abbrev pub has_prefix : String → String → Bool
has_prefix s String.[] = true
has_prefix String.[] (String.◌∷◌ c t) = false
has_prefix (String.◌∷◌ d s) (String.◌∷◌ c t) = code d == code c && has_prefix s t

-- The order of the bytes of two texts.
abbrev pub text_le : String → String → Bool
text_le s t = is_le (compare s t)

trimmed : trim_space " \t a b\n" ≡ "a b"
unfolding trim_space
trimmed = refl
