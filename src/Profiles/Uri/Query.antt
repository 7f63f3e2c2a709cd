-- ===== src/Profiles/Uri/Query.antt =====
-- internal/profiles/uri.go: what a client reads in the query and the fragment of a link, by a reader of
-- its own: percent-decoding, and the split at `#`, `&` and `=`.
use xform.Base.{
  ℕ, true, false, List, [], ◌∷◌, ◌++◌, Option, none, some, ◌==◌, nat_eq, if◌then◌else◌, ◌≡◌, refl,
  sym, ap, ◌∙◌, subst, arith,
}
use xform.Base.Lists.{append_assoc, All-append, All}
use xform.Profiles.Uri.{Bytes, QueryField, encode_uri_component, query_of}
use xform.Profiles.Uri.Decoding.{
  decode, IsByte, Lacks, is_reserved, decode-encode_uri_component, encode_uri_component-Lacks,
}

-- The text before the first `b`, and what stands behind it.
abbrev pub cut : ℕ → Bytes → Bytes × Option Bytes
cut b [] = ([], none)
cut b (c ∷ s) = let rest = cut b s in if c == b then ([], some s) else (c ∷ rest.0, rest.1)

-- The text before the first `b`, and the texts behind it between the others.
abbrev pub pieces : ℕ → Bytes → Bytes × List Bytes
pieces b [] = ([], [])
pieces b (c ∷ s) =
    let rest = pieces b s in if c == b then ([], rest.0 ∷ rest.1) else (c ∷ rest.0, rest.1)

pub cut-Lacks : (b : ℕ) (xs ys : Bytes) → Lacks b xs → cut b (xs ++ (b ∷ ys)) ≡ (xs, some ys)
cut-Lacks b [] ys h = ground arith
cut-Lacks b (x ∷ xs) ys h = rw (h.0, cut-Lacks b xs ys h.1) refl

pieces-Lacks : (b : ℕ) (xs : Bytes) → Lacks b xs → pieces b xs ≡ (xs, [])
pieces-Lacks b [] h = refl
pieces-Lacks b (x ∷ xs) h = rw (h.0, pieces-Lacks b xs h.1) refl

pieces-more :
    (b : ℕ) (xs ys : Bytes)
    → Lacks b xs
    → pieces b (xs ++ (b ∷ ys)) ≡ (xs, (pieces b ys).0 ∷ (pieces b ys).1)
pieces-more b [] ys h = ground arith
pieces-more b (x ∷ xs) ys h = rw (h.0, pieces-more b xs ys h.1) refl

abbrev pub read_value : Bytes → Option Bytes → Option QueryField
read_value name none = none
read_value name (some value) = some (record { name = name; value = value })

-- One field: the name up to the first `=`, and the value behind it, decoded.
abbrev pub read_split : Bytes × Option Bytes → Option QueryField
read_split (name, none) = none
read_split (name, some value) = read_value name (decode value)

abbrev pub add_field : Option QueryField → Option (List QueryField) → Option (List QueryField)
add_field none fs = none
add_field (some f) none = none
add_field (some f) (some fs) = some (f ∷ fs)

unfoldable pub read_fields : List Bytes → Option (List QueryField)
read_fields [] = some []
read_fields (t ∷ ts) = add_field (read_split (cut b'=' t)) (read_fields ts)

unfoldable pub read_query : Bytes → Option (List QueryField)
unfolding read_fields
read_query s = read_fields ((pieces b'&' s).0 ∷ (pieces b'&' s).1)

abbrev pub both {ℓ κ} : {A : Type ℓ} {B : Type κ} → Option A → Option B → Option (A × B)
both none y = none
both (some a) none = none
both (some a) (some b) = some (a, b)

abbrev pub read_parts : Bytes × Option Bytes → Option (List QueryField × Bytes)
read_parts (query, none) = none
read_parts (query, some fragment) = both (read_query query) (decode fragment)

-- The fields and the fragment of a link, from behind its `?`.
abbrev pub read_link : Bytes → Option (List QueryField × Bytes)
read_link s = read_parts (cut b'#' s)

-- A field whose name the reader does not split, with a value of bytes.
abbrev pub Plain : QueryField → Type 0
Plain f = Lacks b'&' f.name × (Lacks b'=' f.name × (Lacks b'#' f.name × All IsByte f.value))

abbrev one_field : QueryField → Bytes
one_field f = f.name ++ (b'=' ∷ encode_uri_component f.value)

one_field-Lacks :
    (b : ℕ) (f : QueryField)
    → is_reserved b ≡ true
    → (b == b'%') ≡ false
    → (b'=' == b) ≡ false
    → Lacks b f.name
    → All IsByte f.value
    → Lacks b (one_field f)
one_field-Lacks b f r p e h v =
    All-append (λ c. (c == b) ≡ false) f.name _ h (e, encode_uri_component-Lacks b f.value r p v)

read_split-one_field : (f : QueryField) → Plain f → read_split (cut b'=' (one_field f)) ≡ some f
read_split-one_field f h =
    ap read_split (cut-Lacks b'=' f.name (encode_uri_component f.value) h.1.0)
    ∙ ap (read_value f.name) (decode-encode_uri_component f.value h.1.1.1)

query_of_more :
    (f g : QueryField) (fs : List QueryField)
    → query_of (f ∷ g ∷ fs) ≡ one_field f ++ (b'&' ∷ query_of (g ∷ fs))
unfolding query_of
query_of_more f g fs =
    sym (append_assoc f.name (b'=' ∷ encode_uri_component f.value) (b'&' ∷ query_of (g ∷ fs)))

read_query-more :
    (f : QueryField) (s : Bytes)
    → Plain f
    → read_query (one_field f ++ (b'&' ∷ s)) ≡ add_field (some f) (read_query s)
unfolding read_query is_reserved
read_query-more f s h =
    rw
      (
        pieces-more b'&' (one_field f) s (one_field-Lacks b'&' f refl refl refl h.0 h.1.1.1),
        read_split-one_field f h,
      )
      refl

-- The query that is written for fields is read as these fields.
read_query-query_of :
    (f : QueryField) (fs : List QueryField)
    → All Plain (f ∷ fs)
    → read_query (query_of (f ∷ fs)) ≡ some (f ∷ fs)
unfolding read_query query_of is_reserved
read_query-query_of f [] h =
    rw
      (
        pieces-Lacks b'&' (one_field f) (one_field-Lacks b'&' f refl refl refl h.0.0 h.0.1.1.1),
        read_split-one_field f h.0,
      )
      refl
read_query-query_of f (g ∷ fs) h =
    ap read_query (query_of_more f g fs)
    ∙ read_query-more f (query_of (g ∷ fs)) h.0
    ∙ ap (add_field (some f)) (read_query-query_of g fs h.1)

query_of-Lacks :
    (f : QueryField) (fs : List QueryField) → All Plain (f ∷ fs) → Lacks b'#' (query_of (f ∷ fs))
unfolding query_of is_reserved
query_of-Lacks f [] h = one_field-Lacks b'#' f refl refl refl h.0.1.1.0 h.0.1.1.1
query_of-Lacks f (g ∷ fs) h = subst (Lacks b'#') (sym (query_of_more f g fs)) (
    All-append (λ c. (c == b'#') ≡ false) (one_field f) _
      (one_field-Lacks b'#' f refl refl refl h.0.1.1.0 h.0.1.1.1) (refl, query_of-Lacks g fs h.1))

pub read_link-query_of :
    (f : QueryField) (fs : List QueryField) (fragment : Bytes)
    → All Plain (f ∷ fs)
    → All IsByte fragment
    → read_link (query_of (f ∷ fs) ++ (b'#' ∷ encode_uri_component fragment))
      ≡ some (f ∷ fs, fragment)
read_link-query_of f fs fragment h k =
    ap read_parts
      (cut-Lacks b'#' (query_of (f ∷ fs)) (encode_uri_component fragment) (query_of-Lacks f fs h))
    ∙ rw (read_query-query_of f fs h, decode-encode_uri_component fragment k) refl
