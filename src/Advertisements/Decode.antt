-- ===== src/Advertisements/Decode.antt =====
-- internal/advertisements/parse.go: what its decoding of transport and security shares. A problem is the
-- message that the source returns with a zero value.
use xform.Base.{
  ℕ, String, Bool, true, false, not, ◌&&◌, List, [], ◌∷◌, Option, none, some, ◌==◌, string_eq,
  if◌then◌else◌,
}
use xform.Base.Text.{CaseTables}
use xform.Json.{
  Json, null, boolean, number, text, array, object, Elements, no_elements, element, Members,
  no_members, member, Field, text_field, is_some, Document, decode_strict, field_of, members,
  StringField,
}
use xform.Json.Escapes.{valid_unicode_scalar_escapes, scan_escapes}

-- The tables of Unicode, and whether strconv.ParseFloat reads a number as a finite one.
pub record Decoder : Type 0 where
  pub tables : CaseTables
  pub finite : String → Bool

pub data Checked {ℓ} (A : Type ℓ) : Type ℓ where
  valid : A → Checked A
  problem : String → Checked A

abbrev pub strings : List String → List Field
strings [] = []
strings (name ∷ names) = record { name = name; kind = text_field } ∷ strings names

abbrev pub type_only : List Field
type_only = strings ("type" ∷ [])

unfoldable pub decode : Decoder → List Field → Option Json → Option Document
unfolding decode_strict
decode d fs none = none
decode d fs (some v) = decode_strict d.tables fs v

unfoldable mutual
  -- validJCSValue
  pub valid_jcs_value : Decoder → Json → Bool
  valid_jcs_value d null = true
  valid_jcs_value d (boolean b) = true
  valid_jcs_value d (text s) = true
  valid_jcs_value d (number n) = d.finite n
  valid_jcs_value d (array vs) = valid_jcs_elements d vs
  valid_jcs_value d (object bytes ms) = valid_jcs_members d ms

  pub valid_jcs_elements : Decoder → Elements → Bool
  valid_jcs_elements d no_elements = true
  valid_jcs_elements d (element v vs) = valid_jcs_value d v && valid_jcs_elements d vs

  pub valid_jcs_members : Decoder → Members → Bool
  valid_jcs_members d no_members = true
  valid_jcs_members d (member k v ms) = valid_jcs_value d v && valid_jcs_members d ms

-- validJCSObject, with the bytes of an object that passes it
unfoldable pub valid_jcs_object : Decoder → Json → Option (List ℕ)
unfolding scan_escapes
valid_jcs_object d (object bytes ms) =
    if valid_unicode_scalar_escapes bytes && valid_jcs_members d ms then some bytes else none
valid_jcs_object d _ = none

-- Decoding into a struct with a type alone, where other members are skipped: the type, none for an
-- error.
unfoldable pub type_from : Decoder → String → List (String × Json) → Option String
unfolding field_of
type_from d found [] = some found
type_from d found ((key, v) ∷ ms) = elim (is_some (field_of d.tables key type_only)) [
  | true ↦ elim v [ text s ↦ type_from d s ms | _ ↦ none ]
  | false ↦ type_from d found ms
]

abbrev pub filled : Option String → Option String
filled none = none
filled (some s) = if s == "" then none else some s

-- objectType
unfoldable pub object_type : Decoder → Option Json → Option String
unfolding type_from
object_type d (some (object bytes ms)) = filled (type_from d "" (members ms))
object_type d _ = none

abbrev pub is_filled : StringField → Bool
is_filled f = f.set && not (f.value == "")

abbrev pub or_default : String → String → String
or_default default value = if value == "" then default else value
