-- ===== src/Hosts/Labels.antt =====
-- The loop over the labels of a name, in one pass and in two.
use xform.Base.{
  String, Bool, true, ◌&&◌, ◌||◌, List, [], ◌∷◌, none, some, ◌==◌, nat_eq, string_eq, if◌then◌else◌,
  ◌≡◌, refl, arith,
}
use xform.Base.Slices.{every_char, split}
use xform.Hosts.{is_digit, scan_labels, labels_fit}

abbrev pub every_digits : List String → Bool
every_digits [] = true
every_digits (label ∷ labels) = every_char is_digit label && every_digits labels

pub scan_labels_lem :
    (labels : List String) (numeric : Bool)
    → scan_labels labels numeric
      ≡ (if labels_fit labels then some (numeric && every_digits labels) else none)
unfolding scan_labels labels_fit
scan_labels_lem [] numeric = ground arith
scan_labels_lem (label ∷ labels) numeric =
    ground (arith, scan_labels_lem labels (numeric && every_char is_digit label))

pub every_digits-split :
    (s : String) → every_digits (split b'.' s) ≡ every_char (λ c. c == b'.' || is_digit c) s
unfolding split every_char
every_digits-split String.[] = refl
every_digits-split (String.◌∷◌ c s) = ground (arith, every_digits-split s)
