-- ===== src/Hosts.antt =====
-- The host checks: canonicalHost and equalHost of internal/profiles/profiles.go, and
-- validAdvertisedHost of internal/advertisements/parse.go. IP addresses are read and written by Go's
-- netip, and names are brought to ASCII by the profile `Lookup` of golang.org/x/net/idna: both are a
-- parameter, a `Resolver`.
pub mod Labels
pub mod Canonical
pub mod Accepted
use xform.Base.{
  ℕ, String, Bool, true, false, ◌&&◌, ◌||◌, not, List, [], ◌∷◌, Option, none, some, ◌==◌, nat_eq,
  string_eq, if◌then◌else◌, ltb, leb,
}
use xform.Base.Text.{CaseTables, to_lower, equal_fold, has_prefix, is_space}
use xform.Base.Slices.{
  byte_length, has_suffix, contains_char, contains_any, every_char, rest_of, without_last, split,
}
use Prim.Native.String
use Prim.Native.String.{◌++◌ as concat}

-- netip.Addr: Zone(), Is6() and String()
pub record Address : Type 0 where
  pub zone : String
  pub is6 : Bool
  pub text : String

-- netip.ParseAddr and idna.Lookup.ToASCII, none for an error
pub record Resolver : Type 0 where
  pub parse_addr : String → Option Address
  pub to_ascii : String → Option String

abbrev pub bracketed : String → Bool
bracketed host = has_prefix host "["

-- host[1 : len(host)-1] where it is bracketed
unfoldable pub address_host : String → String
unfolding without_last
address_host host = if bracketed host then without_last (rest_of host) else host

abbrev pub is_digit : ℕ → Bool
is_digit c = leb b'0' c && leb c b'9'

abbrev pub label_fits : String → Bool
label_fits label = not (label == "" || ltb 63 (byte_length label))

-- The loop over the labels: whether all are digits, none where a label is empty or too long.
unfoldable pub scan_labels : List String → Bool → Option Bool
unfolding every_char
scan_labels [] numeric = some numeric
scan_labels (label ∷ labels) numeric =
    let rest = scan_labels labels (numeric && every_char is_digit label) in
    if label_fits label then rest else none

abbrev pub named : CaseTables → String → Option Bool → Option String
named u ascii none = none
named u ascii (some numeric) = if numeric then none else some (to_lower u ascii)

abbrev pub too_long : String → Bool
too_long ascii = ascii == "" || ltb 253 (byte_length ascii) || has_suffix ascii "."

unfoldable pub canonical_ascii : CaseTables → Option String → Option String
unfolding scan_labels split
canonical_ascii u none = none
canonical_ascii u (some ascii) =
    if too_long ascii then none else named u ascii (scan_labels (split b'.' ascii) true)

unfoldable pub canonical_name : CaseTables → Resolver → String → Option String
unfolding canonical_ascii contains_any
canonical_name u r host =
    if bracketed host || contains_any host "[]:/?#@%"
    then none
    else canonical_ascii u (r.to_ascii host)

unfoldable pub canonical_address : Bool → Address → Option String
canonical_address bracketed address =
    if not (address.zone == "") || (bracketed && not address.is6)
    then none
    else if address.is6
    then some (String.◌∷◌ "[" (concat address.text "]"))
    else some address.text

abbrev pub address_or : Option String → Bool → Option Address → Option String
address_or name bracketed none = name
address_or name bracketed (some address) = canonical_address bracketed address

-- canonicalHost
unfoldable pub canonical_host : CaseTables → Resolver → String → Option String
unfolding canonical_name canonical_address address_host has_suffix
canonical_host u r host =
    if host == "" || has_suffix host "."
    then none
    else if bracketed host && not (has_suffix host "]")
    then none
    else address_or (canonical_name u r host) (bracketed host) (r.parse_addr (address_host host))

abbrev pub equal_canonical : Bool → Option String → Option String → Bool
equal_canonical folded (some left) (some right) = left == right
equal_canonical folded left right = folded

-- equalHost
unfoldable pub equal_host : CaseTables → Resolver → String → String → Bool
unfolding canonical_host
equal_host u r left right =
    equal_canonical (equal_fold u left right) (canonical_host u r left) (canonical_host u r right)

unfoldable pub labels_fit : List String → Bool
labels_fit [] = true
labels_fit (label ∷ labels) = label_fits label && labels_fit labels

unfoldable pub valid_ascii : Option String → Bool
unfolding labels_fit split every_char
valid_ascii none = false
valid_ascii (some ascii) =
    if too_long ascii
    then false
    else labels_fit (split b'.' ascii) && not (every_char (λ c. c == b'.' || is_digit c) ascii)

unfoldable pub valid_name : Resolver → String → Bool
unfolding valid_ascii contains_char
valid_name r host =
    if bracketed host
    then false
    else if contains_char b':' host
    then false
    else valid_ascii (r.to_ascii host)

unfoldable pub valid_address : Bool → Address → Bool
valid_address bracketed address = address.zone == "" && (not bracketed || address.is6)

abbrev pub valid_address_or : Bool → Bool → Option Address → Bool
valid_address_or name bracketed none = name
valid_address_or name bracketed (some address) = valid_address bracketed address

-- validAdvertisedHost
unfoldable pub valid_advertised_host : Resolver → String → Bool
unfolding valid_name valid_address address_host has_suffix contains_any every_char
valid_advertised_host r host =
    if host == ""
      || has_suffix host "."
      || contains_any host "/?#@%"
      || not (every_char (λ c. not (is_space c)) host)
    then false
    else if bracketed host && not (has_suffix host "]")
    then false
    else valid_address_or (valid_name r host) (bracketed host) (r.parse_addr (address_host host))
