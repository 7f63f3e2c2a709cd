-- ===== src/Hosts/Accepted.antt =====
-- The parser of the advertisements accepts only hosts that the evaluation of a profile can canonicalize.
use xform.Base.{
  String, Bool, true, not, ◌∙◌, false, ◌&&◌, ◌||◌, Option, none, some, ◌==◌, nat_eq, string_eq, ◌≡◌,
  inl, inr, refl, arith, Bool-cases,
}
use xform.Base.Text.{CaseTables, to_lower}
use xform.Base.Slices.{has_suffix, contains_char, contains_any, split}
use xform.Hosts.{
  address_or, valid_address_or, Address, Resolver, bracketed, address_host, canonical_ascii,
  canonical_name, canonical_address, canonical_host, valid_ascii, valid_name, valid_address,
  valid_advertised_host,
}
use xform.Hosts.Labels.{scan_labels_lem, every_digits-split}
use xform.Hosts.Canonical.{in_brackets}

contains_any_parts :
    (s : String)
    → contains_any s "[]:/?#@%"
      ≡ (contains_any s "[]" || (contains_char b':' s || contains_any s "/?#@%"))
unfolding contains_any contains_char
contains_any_parts String.[] = refl
contains_any_parts (String.◌∷◌ c s) = ground (arith, contains_any_parts s)

module _ (u : CaseTables) where
  canonical_ascii_total :
      (name : Option String)
      → valid_ascii name ≡ true
      → (host : String) × (canonical_ascii u name ≡ some host)
  unfolding canonical_ascii valid_ascii
  canonical_ascii_total none h = absurd (ground arith)
  canonical_ascii_total (some name) h = (
    to_lower u name,
    ground (arith, scan_labels_lem (split b'.' name) true, every_digits-split name),
  )

  canonical_address_total :
      (closed : Bool) (a : Address)
      → valid_address closed a ≡ true
      → (host : String) × (canonical_address closed a ≡ some host)
  unfolding canonical_address valid_address
  canonical_address_total closed a h = elim (Bool-cases a.is6) [
    | inl e ↦ (in_brackets a.text, ground arith)
    | inr e ↦ (a.text, ground arith)
  ]

-- idna.Lookup has StrictDomainName set: a name with a bracket is an error.
abbrev pub IsStrict : Resolver → Type 0
IsStrict r = (s : String) → contains_any s "[]" ≡ true → r.to_ascii s ≡ none

module _ (u : CaseTables) (r : Resolver) (strict : IsStrict r) where
  valid_ascii-none : valid_ascii none ≡ false
  unfolding valid_ascii
  valid_ascii-none = refl

  canonical_name_total :
      (s : String)
      → valid_name r s ≡ true
      → contains_any s "/?#@%" ≡ false
      → (host : String) × (canonical_name u r s ≡ some host)
  unfolding canonical_name valid_name
  canonical_name_total s h k = elim (Bool-cases (contains_any s "[]")) [
    | inl e ↦ absurd (ground (arith, valid_ascii-none, strict s e))
    | inr e ↦
        let (host, found) = canonical_ascii_total u (r.to_ascii s) (ground arith) in
        (host, ground (arith, contains_any_parts s))
  ]

  valid_advertised_host_parts :
      (s : String)
      → valid_advertised_host r s ≡ true
      → (s == "" || has_suffix s "." ≡ false)
        × (contains_any s "/?#@%" ≡ false)
        × (bracketed s && not (has_suffix s "]") ≡ false)
        × (valid_address_or (valid_name r s) (bracketed s) (r.parse_addr (address_host s)) ≡ true)
  unfolding valid_advertised_host
  valid_advertised_host_parts s h = ground arith

  canonical_host-address_or :
      (s : String)
      → s == "" || has_suffix s "." ≡ false
      → bracketed s && not (has_suffix s "]") ≡ false
      → canonical_host u r s
        ≡ address_or (canonical_name u r s) (bracketed s) (r.parse_addr (address_host s))
  unfolding canonical_host
  canonical_host-address_or s given closed = rw (given, closed) refl

  address_or_total :
      (s : String) (address : Option Address)
      → contains_any s "/?#@%" ≡ false
      → valid_address_or (valid_name r s) (bracketed s) address ≡ true
      → (host : String) × (address_or (canonical_name u r s) (bracketed s) address ≡ some host)
  address_or_total s none k h = canonical_name_total s h k
  address_or_total s (some a) k h = canonical_address_total u (bracketed s) a h

  -- Where idna refuses names with brackets, a host that the parser of the advertisements accepts has a
  -- canonical form.
  pub canonical_host_total :
      (s : String)
      → valid_advertised_host r s ≡ true
      → (host : String) × (canonical_host u r s ≡ some host)
  canonical_host_total s h =
      let (given, clean, closed, valid) = valid_advertised_host_parts s h in
      let (host, found) = address_or_total s (r.parse_addr (address_host s)) clean valid in
      (host, canonical_host-address_or s given closed ∙ found)
