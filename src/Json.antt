-- ===== src/Json.antt =====
-- A JSON document as the value that its tokens make, and what the source relies on of Go's
-- encoding/json: how the members of an object are matched with the fields of a struct, by name or else
-- by the name in another case, and which values a field takes. A number is its text; an object has
-- its own bytes, which a json.RawMessage of it holds.
pub mod Escapes
use xform.Base.{
  ℕ, zero, suc, ◌+◌, ◌*◌, ◌-◌, ◌^◌, String, Bool, true, false, not, ◌&&◌, ◌||◌, List, [], ◌∷◌,
  Option, none, some, ◌==◌, nat_eq, string_eq, if◌then◌else◌, ltb, leb,
}
use xform.Base.Text.{CaseTables, equal_fold}
use Prim.Native.Char.{code}
use Prim.Native.String

mutual
  pub data Json : Type 0 where
    null : Json
    boolean : Bool → Json
    number : String → Json
    text : String → Json
    array : Elements → Json
    object : List ℕ → Members → Json

  pub data Elements : Type 0 where
    no_elements : Elements
    element : Json → Elements → Elements

  pub data Members : Type 0 where
    no_members : Members
    member : String → Json → Members → Members

abbrev pub elements : Elements → List Json
elements no_elements = []
elements (element v vs) = v ∷ elements vs

abbrev pub members : Members → List (String × Json)
members no_members = []
members (member k v ms) = (k, v) ∷ members ms

pub data ℤ : Type 0 where
  pos : ℕ → ℤ
  negsuc : ℕ → ℤ

unfoldable pub decimal_from : ℕ → String → Option ℕ
decimal_from n String.[] = some n
decimal_from n (String.◌∷◌ c s) =
    let rest = decimal_from (n * 10 + (code c - b'0')) s in
    if leb b'0' (code c) && leb (code c) b'9' then rest else none

abbrev within : Option ℕ → Option ℤ
within none = none
within (some n) = if ltb n (2 ^ 63) then some (pos n) else none

abbrev negated : Option ℕ → Option ℤ
negated none = none
negated (some zero) = some (pos 0)
negated (some (suc n)) = if ltb n (2 ^ 63) then some (negsuc n) else none

-- The number as an int, none where it has a fraction or an exponent or is out of range.
unfoldable pub int_of : String → Option ℤ
unfolding decimal_from
int_of String.[] = none
int_of (String.◌∷◌ c s) =
    if code c == b'-' then negated (decimal_from 0 s) else within (decimal_from 0 (String.◌∷◌ c s))

-- The Go type of a field: a string, an array of strings that are not empty, an int, an array, or a
-- json.RawMessage.
pub data Kind : Type 0 where
  text_field texts_field integer_field array_field raw_field : Kind

pub record Field : Type 0 where
  pub name : String
  pub kind : Kind

abbrev pub is_some {ℓ} : {A : Type ℓ} → Option A → Bool
is_some none = false
is_some (some a) = true

abbrev filled_text : Json → Bool
filled_text (text s) = not (s == "")
filled_text _ = false

abbrev filled_texts : List Json → Bool
filled_texts [] = true
filled_texts (v ∷ vs) = filled_text v && filled_texts vs

unfoldable pub fits : Kind → Json → Bool
unfolding int_of
fits text_field (text s) = true
fits text_field _ = false
fits texts_field (array vs) = filled_texts (elements vs)
fits texts_field _ = false
fits integer_field null = true
fits integer_field (number n) = is_some (int_of n)
fits integer_field _ = false
fits array_field null = true
fits array_field (array vs) = true
fits array_field _ = false
fits raw_field _ = true

-- The field of a struct that a key stands for.
unfoldable pub exact_field : String → List Field → Option Field
exact_field key [] = none
exact_field key (f ∷ fs) = if f.name == key then some f else exact_field key fs

unfoldable pub folded_field : CaseTables → String → List Field → Option Field
folded_field u key [] = none
folded_field u key (f ∷ fs) = if equal_fold u f.name key then some f else folded_field u key fs

abbrev or_else {ℓ} : {A : Type ℓ} → Option A → Option A → Option A
or_else none b = b
or_else (some a) b = some a

unfoldable pub field_of : CaseTables → String → List Field → Option Field
unfolding exact_field folded_field
field_of u key fs = or_else (exact_field key fs) (folded_field u key fs)

-- The members of an object by the names of the fields, in order.
abbrev pub Document : Type 0
Document = List (String × Json)

abbrev pub with_member : Option Field → Json → Option Document → Option Document
with_member (some f) v (some rest) = if fits f.kind v then some ((f.name, v) ∷ rest) else none
with_member _ v _ = none

unfoldable pub decode_members : CaseTables → List Field → List (String × Json) → Option Document
unfolding field_of fits
decode_members u fs [] = some []
decode_members u fs ((key, v) ∷ ms) = with_member (field_of u key fs) v (decode_members u fs ms)

-- decodeStrict of internal/advertisements/parse.go into a struct, none for its error.
unfoldable pub decode_strict : CaseTables → List Field → Json → Option Document
unfolding decode_members
decode_strict u fs null = some []
decode_strict u fs (object bytes ms) = decode_members u fs (members ms)
decode_strict u fs _ = none

-- Of members with one name the last one counts.
unfoldable pub last_of : String → Document → Option Json
last_of name [] = none
last_of name ((k, v) ∷ doc) = or_else (last_of name doc) (if k == name then some v else none)

abbrev text_of : Option Json → String
text_of (some (text s)) = s
text_of _ = ""

abbrev strings_of : List Json → List String
strings_of [] = []
strings_of (v ∷ vs) = text_of (some v) ∷ strings_of vs

abbrev texts_of : Option Json → List String
texts_of (some (array vs)) = strings_of (elements vs)
texts_of _ = []

-- stringField and its UnmarshalJSON
pub record StringField : Type 0 where
  pub value : String
  pub set : Bool

unfoldable pub string_field : String → Document → StringField
unfolding last_of
string_field name doc = record {
  value = text_of (last_of name doc);
  set = is_some (last_of name doc);
}

-- stringArrayField, its values
unfoldable pub strings_field : String → Document → List String
unfolding last_of
strings_field name doc = texts_of (last_of name doc)

abbrev int_or : Option ℤ → ℤ → ℤ
int_or none n = n
int_or (some n) m = n

abbrev number_or : ℤ → Json → ℤ
number_or otherwise (number n) = int_or (int_of n) otherwise
number_or otherwise _ = otherwise

-- intField: a null sets the field and leaves its value alone.
pub record IntField : Type 0 where
  pub value : ℤ
  pub set : Bool

unfoldable pub int_field_from : IntField → String → Document → IntField
unfolding int_of
int_field_from f name [] = f
int_field_from f name ((k, v) ∷ doc) =
    int_field_from (if k == name then record { value = number_or f.value v; set = true } else f)
      name doc

abbrev pub int_field : String → Document → IntField
int_field = int_field_from (record { value = pos 0; set = false })

-- Decoding into a map of json.RawMessage, then one entry into a string: "" where either fails.
unfoldable pub text_at : String → Json → String
unfolding last_of
text_at key (object bytes ms) = text_of (last_of key (members ms))
text_at key _ = ""
