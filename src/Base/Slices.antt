-- ===== src/Base/Slices.antt =====
-- More of Go's `strings`, where the source cuts, splits and measures a text, and the bytes of a text.
use Prim.Native.Nat.{ℕ, ◌+◌, ◌/◌, ◌%◌}
use Prim.Native.Char.{Char, code}
use Prim.Native.String.{String, ◌++◌ as concat}
use mathlib.Core.Bool.{Bool, true, false, ◌&&◌, ◌||◌}
use mathlib.Core.Option.{Option, none, some}
use mathlib.Core.List.{List, [], ◌∷◌, ◌++◌}
use mathlib.Core.Logic.{inl, inr}
use mathlib.Core.Path.{◌≡◌, refl}
use native.Mathlib.Omega.{arith}
use text.Mathlib.TextEquality.{eq_iff, Char-path}
use text.Mathlib.TextLemmas.{nil-append, cons-append, concat-ne-nil, cons-ne-nil}
use xform.Base.Tests.{◌==◌, nat_eq, string_eq, ltb, if◌then◌else◌, Option-cases, eq_refl}
use xform.Base.Lists.{length}

-- The UTF-8 bytes of one character.
abbrev char_bytes : ℕ → List ℕ
char_bytes c =
    if ltb c 0x80
    then c ∷ []
    else if ltb c 0x800
    then (0xc0 + c / 64) ∷ (0x80 + c % 64) ∷ []
    else if ltb c 0x10000
    then (0xe0 + c / 4096) ∷ (0x80 + c / 64 % 64) ∷ (0x80 + c % 64) ∷ []
    else (0xf0 + c / 262144) ∷ (0x80 + c / 4096 % 64) ∷ (0x80 + c / 64 % 64) ∷ (0x80 + c % 64) ∷ []

-- []byte(s)
unfoldable pub utf8 : String → List ℕ
utf8 String.[] = []
utf8 (String.◌∷◌ c s) = char_bytes (code c) ++ utf8 s

-- len(s)
unfoldable pub byte_length : String → ℕ
unfolding utf8
byte_length s = length (utf8 s)

-- strings.HasSuffix
unfoldable pub has_suffix : String → String → Bool
has_suffix String.[] t = t == ""
has_suffix (String.◌∷◌ c s) t = String.◌∷◌ c s == t || has_suffix s t

-- strings.ContainsRune
unfoldable pub contains_char : ℕ → String → Bool
contains_char n String.[] = false
contains_char n (String.◌∷◌ c s) = code c == n || contains_char n s

-- strings.ContainsAny
unfoldable pub contains_any : String → String → Bool
unfolding contains_char
contains_any String.[] chars = false
contains_any (String.◌∷◌ c s) chars = contains_char (code c) chars || contains_any s chars

-- A loop over the characters that looks for one that fails a test.
unfoldable pub every_char : (ℕ → Bool) → String → Bool
every_char p String.[] = true
every_char p (String.◌∷◌ c s) = p (code c) && every_char p s

-- s[1:]
abbrev pub rest_of : String → String
rest_of String.[] = ""
rest_of (String.◌∷◌ c s) = s

-- s[:len(s)-1] of a text that ends in an ASCII character
unfoldable pub without_last : String → String
without_last String.[] = ""
without_last (String.◌∷◌ c s) = if s == "" then "" else String.◌∷◌ c (without_last s)

abbrev onto_first : Char → List String → List String
onto_first c [] = String.◌∷◌ c "" ∷ []
onto_first c (t ∷ ts) = String.◌∷◌ c t ∷ ts

-- strings.Split by one ASCII character
unfoldable pub split : ℕ → String → List String
split n String.[] = "" ∷ []
split n (String.◌∷◌ c s) =
    let parts = split n s in if code c == n then "" ∷ parts else onto_first c parts

abbrev or_cut_here : ℕ → Char → String → Option (String × String) → Option (String × String)
or_cut_here n c s (some (before, after)) = some (String.◌∷◌ c before, after)
or_cut_here n c s none = if code c == n then some ("", s) else none

-- s[:i] and s[i+1:] for i the strings.LastIndex of a character, none where it does not occur
unfoldable pub cut_last : ℕ → String → Option (String × String)
cut_last n String.[] = none
cut_last n (String.◌∷◌ c s) = or_cut_here n c s (cut_last n s)

-- Taking off the last character undoes putting it on.
pub without_last-concat : (s : String) (c : Char) → without_last (concat s (String.◌∷◌ c "")) ≡ s
unfolding without_last
without_last-concat String.[] c = rw nil-append refl
without_last-concat (String.◌∷◌ d s) c = rw cons-append (
    ground
      (arith, eq_iff (concat s (String.◌∷◌ c "")) "", concat-ne-nil c s, without_last-concat s c))

has_suffix_self : (t : String) → has_suffix t t ≡ true
unfolding has_suffix
has_suffix_self String.[] = refl
has_suffix_self (String.◌∷◌ c t) = ground (arith, eq_refl (String.◌∷◌ c t))

pub has_suffix-concat : (s t : String) → has_suffix (concat s t) t ≡ true
unfolding has_suffix
has_suffix-concat String.[] t = rw nil-append (has_suffix_self t)
has_suffix-concat (String.◌∷◌ c s) t = rw cons-append (ground (arith, has_suffix-concat s t))

cut_last-none : (n : ℕ) (s : String) → cut_last n s ≡ none → contains_char n s ≡ false
unfolding cut_last contains_char
cut_last-none n String.[] h = refl
cut_last-none n (String.◌∷◌ c s) h = elim (Option-cases (cut_last n s)) [
  | inl e ↦ ground (arith, cut_last-none n s e)
  | inr (p, e) ↦ (ground arith)
]

-- A text cut at the last occurrence of a character is the two parts with the character between
-- them, and the second part does not hold it.
pub cut_last-concat :
    (c : Char) (s before after : String)
    → cut_last (code c) s ≡ some (before, after)
    → (s ≡ concat before (String.◌∷◌ c after)) × (contains_char (code c) after ≡ false)
unfolding cut_last
cut_last-concat c String.[] before after h = ground arith
cut_last-concat c (String.◌∷◌ d s) before after h = elim (Option-cases (cut_last (code c) s)) [
  | inl e ↦ (ground (arith, cut_last-none (code c) s e, Char-path d c, nil-append (String.◌∷◌ c s)))
  | inr ((b, a), e) ↦ (ground (arith, cut_last-concat c s b a e, cons-append d b (String.◌∷◌ c a)))
]

pub cons-beq-nil : (c : Char) (s : String) → (String.◌∷◌ c s == "") ≡ false
cons-beq-nil c s = ground (arith, eq_iff (String.◌∷◌ c s) "", cons-ne-nil c s)

pub cons-beq-cons :
    (c d : Char) (s t : String) → (String.◌∷◌ c s == String.◌∷◌ d t) ≡ (code c == code d && s == t)
cons-beq-cons c d s t =
    ground (arith, eq_iff (String.◌∷◌ c s) (String.◌∷◌ d t), eq_iff s t, Char-path c d)

concat-beq-nil : (s : String) (c : Char) → (concat s (String.◌∷◌ c "") == "") ≡ false
concat-beq-nil s c = ground (arith, eq_iff (concat s (String.◌∷◌ c "")) "", concat-ne-nil c s)

-- A text that ends in one character ends in no other.
pub has_suffix-concat_char :
    (s : String) (c d : Char)
    → has_suffix (concat s (String.◌∷◌ c "")) (String.◌∷◌ d "") ≡ (code c == code d)
unfolding has_suffix
has_suffix-concat_char String.[] c d =
    rw nil-append
      (ground (arith, cons-beq-cons c d "" "", cons-beq-nil d "", eq_refl {A = String} ""))
has_suffix-concat_char (String.◌∷◌ e s) c d = rw cons-append (
    ground (
      arith,
      cons-beq-cons e d (concat s (String.◌∷◌ c "")) "",
      concat-beq-nil s c,
      has_suffix-concat_char s c d,
    ))
