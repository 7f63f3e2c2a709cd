-- ===== src/Advertisements/Sound/Post.antt =====
-- A property of what a check of internal/advertisements/parse.go returns, and its type.
use xform.Base.{String, true, false, ◌==◌, string_eq, ◌≡◌, Option, none, some, arith, eq_iff}
use xform.Json.{Json, object, members}
use xform.Advertisements.Decode.{Decoder, Checked, valid, problem, object_type, filled, type_from}

-- A property of the value, where there is no problem.
abbrev pub Ensures {ℓ κ} : {A : Type ℓ} → (A → Type κ) → Checked A → Type κ
Ensures P (valid a) = P a
Ensures P (problem message) = Unit

pub equal_apart : (s a b : String) → (s == a) ≡ true → (a == b) ≡ false → (s == b) ≡ false
equal_apart s a b e k = rw ((eq_iff s a).0 e) k

filled_lem : (o : Option String) (type : String) → filled o ≡ some type → (type == "") ≡ false
filled_lem none type h = ground arith
filled_lem (some s) type h = ground arith

pub object_type_filled :
    (d : Decoder) (doc : Option Json) (type : String)
    → object_type d doc ≡ some type
    → (type == "") ≡ false
unfolding object_type
object_type_filled d none type h = ground arith
object_type_filled d (some (object bytes ms)) type h =
    filled_lem (type_from d "" (members ms)) type h
object_type_filled d (some v) type h = ground arith
