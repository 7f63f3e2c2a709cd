-- ===== src/Hosts/Canonical.antt =====
-- A canonical host is its own canonical form.
use xform.Base.{
  String, Bool, true, false, ◌||◌, Option, none, some, ◌==◌, nat_eq, string_eq, ◌≡◌, ◌≢◌, ◌⊎◌, inl,
  sym, ap, subst, ◌∙◌, inr, refl, arith, eq_iff, Option-cases,
}
use xform.Base.Text.{CaseTables, to_lower}
use xform.Base.Slices.{
  has_suffix, contains_char, contains_any, every_char, split, without_last-concat,
  has_suffix-concat_char, cons-beq-nil, cons-beq-cons,
}
use xform.Hosts.{
  too_long, Address, Resolver, bracketed, address_host, is_digit, canonical_ascii, canonical_name,
  canonical_address, canonical_host,
}
use xform.Hosts.Labels.{scan_labels_lem, every_digits-split}
use Prim.Native.String.{◌++◌ as concat}

-- What an IPv4 address is printed as: neither empty nor bracketed nor with a dot at its end.
pub record IsPlain (text : String) : Type 0 where
  pub given : text ≢ ""
  pub bare : bracketed text ≡ false
  pub closed : has_suffix text "." ≡ false

-- What idna.Lookup gives back: a name in lower case that it maps to itself, of letters, digits,
-- hyphens and dots.
pub record IsHostName (u : CaseTables) (r : Resolver) (name : String) : Type 0 where
  pub lowered : to_lower u name ≡ name
  pub mapped : r.to_ascii name ≡ some name
  pub strict : contains_any name "[]:/?#@%" ≡ false
  pub bare : bracketed name ≡ false
  pub named : contains_char b':' name ≡ false

-- The host between brackets, which an IPv6 address is written as.
abbrev pub in_brackets : String → String
in_brackets text = String.◌∷◌ "[" (concat text "]")

module _ (u : CaseTables) (r : Resolver) (a : Address) where
  canonical_host-in_brackets :
      r.parse_addr a.text ≡ some a
      → a.zone ≡ ""
      → a.is6 ≡ true
      → canonical_host u r (in_brackets a.text) ≡ some (in_brackets a.text)
  unfolding canonical_host has_suffix canonical_address address_host
  canonical_host-in_brackets parsed unzoned six = ground (
    arith,
    cons-beq-nil "[" (concat a.text "]"),
    cons-beq-cons "[" "." (concat a.text "]") "",
    cons-beq-cons "[" "]" (concat a.text "]") "",
    eq_iff a.zone "",
    has_suffix-concat_char a.text "]" ".",
    has_suffix-concat_char a.text "]" "]",
    without_last-concat a.text "]",
  )

  canonical_host-dotted :
      r.parse_addr a.text ≡ some a
      → a.zone ≡ ""
      → a.is6 ≡ false
      → IsPlain a.text
      → canonical_host u r a.text ≡ some a.text
  unfolding canonical_host canonical_address address_host
  canonical_host-dotted parsed unzoned four plain =
      ground (arith, eq_iff a.zone "", eq_iff a.text "")

-- What the two libraries promise: an address prints as a text that reads as itself, an IPv4 address
-- as a plain one; a text that reads as an address holds a colon or is of digits and dots alone; and
-- what idna gives back is a host name.
pub record IsDocumented (u : CaseTables) (r : Resolver) : Type 0 where
  pub reparsed :
      (s : String) (a : Address)
      → r.parse_addr s ≡ some a
      → a.zone ≡ ""
      → r.parse_addr a.text ≡ some a
  pub dotted : (s : String) (a : Address) → r.parse_addr s ≡ some a → a.is6 ≡ false → IsPlain a.text
  pub shaped :
      (s : String) (a : Address)
      → r.parse_addr s ≡ some a
      → contains_char b':' s || every_char (λ c. c == b'.' || is_digit c) s ≡ true
  pub host_name : (s name : String) → r.to_ascii s ≡ some name → IsHostName u r name

module _ (u : CaseTables) (r : Resolver) (d : IsDocumented u r) where
  canonical_host-canonical_address :
      (s : String) (a : Address) (open_bracket : Bool) (host : String)
      → r.parse_addr s ≡ some a
      → canonical_address open_bracket a ≡ some host
      → canonical_host u r host ≡ some host
  unfolding canonical_address
  canonical_host-canonical_address s a open_bracket host e h = ground (
    arith,
    eq_iff a.zone "",
    d.reparsed s a,
    d.dotted s a,
    canonical_host-in_brackets u r a,
    canonical_host-dotted u r a,
  )

  -- A name that passes is itself in lower case, and is not of digits and dots alone.
  named-canonical_ascii :
      (name host : String)
      → canonical_ascii u (some name) ≡ some host
      → (to_lower u name ≡ host)
        × (every_char (λ c. c == b'.' || is_digit c) name ≡ false)
        × (too_long name ≡ false)
  unfolding canonical_ascii
  named-canonical_ascii name host h =
      ground (arith, scan_labels_lem (split b'.' name) true, every_digits-split name)

  parse_addr-host_name :
      (name : String)
      → IsHostName u r name
      → every_char (λ c. c == b'.' || is_digit c) name ≡ false
      → r.parse_addr name ≡ none
  parse_addr-host_name name n letters = elim (Option-cases (r.parse_addr name)) [
    | inl e ↦ e
    | inr (a, e) ↦ ground (arith, d.shaped name a e)
  ]

  canonical_host-canonical_ascii :
      (name : String)
      → IsHostName u r name
      → canonical_ascii u (some name) ≡ some name
      → canonical_host u r name ≡ some name
  unfolding canonical_host canonical_name address_host
  canonical_host-canonical_ascii name n h =
      let parts = named-canonical_ascii name name h in
      ground (arith, parse_addr-host_name name n parts.1, parts.2, h)

  canonical_name-ascii :
      (s host : String)
      → canonical_name u r s ≡ some host
      → canonical_ascii u (r.to_ascii s) ≡ some host
  unfolding canonical_name
  canonical_name-ascii s host h = ground arith

  canonical_ascii_of_name :
      (s host : String) (ascii : Option String)
      → r.to_ascii s ≡ ascii
      → canonical_ascii u ascii ≡ some host
      → canonical_host u r host ≡ some host
  unfolding canonical_ascii
  canonical_ascii_of_name s host none e h = ground arith
  canonical_ascii_of_name s host (some name) e h =
      let n = d.host_name s name e in
      let same : name ≡ host = sym n.lowered ∙ (named-canonical_ascii name host h).0 in
      subst (λ t. canonical_host u r t ≡ some t) same
        (canonical_host-canonical_ascii name n (h ∙ ap some (sym same)))

  canonical_host-canonical_name :
      (s host : String) → canonical_name u r s ≡ some host → canonical_host u r host ≡ some host
  canonical_host-canonical_name s host h =
      canonical_ascii_of_name s host (r.to_ascii s) refl (canonical_name-ascii s host h)

  -- Where an accepted host comes from.
  canonical_host-cases :
      (s host : String)
      → canonical_host u r s ≡ some host
      → (canonical_name u r s ≡ some host)
        ⊎ ((a : Address) × (r.parse_addr (address_host s) ≡ some a)
            × (canonical_address (bracketed s) a ≡ some host))
  unfolding canonical_host
  canonical_host-cases s host h = elim (Option-cases (r.parse_addr (address_host s))) [
    | inl e ↦ inl (ground arith)
    | inr (a, e) ↦ inr (a, e, ground arith)
  ]

  -- The canonical form of a host is a host in canonical form.
  pub canonical_host_idempotent :
      (s host : String) → canonical_host u r s ≡ some host → canonical_host u r host ≡ some host
  canonical_host_idempotent s host h = elim (canonical_host-cases s host h) [
    | inl e ↦ canonical_host-canonical_name s host e
    | inr (a, e, k) ↦ canonical_host-canonical_address (address_host s) a (bracketed s) host e k
  ]
