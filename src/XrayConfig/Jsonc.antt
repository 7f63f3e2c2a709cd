-- ===== src/XrayConfig/Jsonc.antt =====
-- internal/xrayconfig/render.go: the token scan of a JSONC document, bytes as numbers. A cursor is the
-- parser's `pos` and the bytes of the document from there on, none once `pos` is past the end.
-- `unmarshal` is json.Unmarshal of the bytes of one string, none for its error.
pub mod Parser
pub mod Sizes
pub mod Agree
pub mod Enough
pub mod Spans
use xform.Base.{
  ℕ, zero, suc, ◌+◌, String, Bool, true, false, not, ◌&&◌, ◌||◌, List, [], ◌∷◌, Option, none, some,
  ◌==◌, nat_eq, string_eq, if◌then◌else◌, ◌≡◌, refl,
}
use xform.Base.Lists.{length}

-- node, one constructor to a kind: the span `start` to `end` first. An object has its keys with the
-- offsets of their first bytes and their values, an array its items and the offsets of its commas, and
-- both say whether there is a comma before the closer.
mutual
  pub data Node : Type 0 where
    object : ℕ → ℕ → Props → Bool → Node
    array : ℕ → ℕ → Nodes → List ℕ → Bool → Node
    text : ℕ → ℕ → String → Node
    literal : ℕ → ℕ → Node

  pub data Props : Type 0 where
    no_props : Props
    prop : String → ℕ → Node → Props → Props

  pub data Nodes : Type 0 where
    no_nodes : Nodes
    item : Node → Nodes → Nodes

abbrev pub start_of : Node → ℕ
start_of (object start end props trailing) = start
start_of (array start end items commas trailing) = start
start_of (text start end value) = start
start_of (literal start end) = start

abbrev pub end_of : Node → ℕ
end_of (object start end props trailing) = end
end_of (array start end items commas trailing) = end
end_of (text start end value) = end
end_of (literal start end) = end

-- node.get
unfoldable pub get_prop : String → Props → Option Node
get_prop key no_props = none
get_prop key (prop k at v ps) = if k == key then some v else get_prop key ps

unfoldable pub get : String → Node → Option Node
unfolding get_prop
get key (object start end props trailing) = get_prop key props
get key _ = none

pub data Problem : Type 0 where
  unexpected_end : Problem
  unterminated_object : ℕ → Problem
  missing_colon : ℕ → Problem
  unterminated_array : ℕ → Problem
  malformed_string : ℕ → Problem
  unterminated_string : ℕ → Problem
  trailing_content : ℕ → Problem

abbrev pub Cursor : Type 0
Cursor = ℕ × List ℕ

pub data Parse {ℓ} (A : Type ℓ) : Type ℓ where
  out_of_fuel : Parse A
  failed : Problem → Parse A
  parsed : A → Cursor → Parse A

module _ {ℓ κ} {A : Type ℓ} {B : Type κ} where
  abbrev pub bind : Parse A → (A → Cursor → Parse B) → Parse B
  bind out_of_fuel k = out_of_fuel
  bind (failed e) k = failed e
  bind (parsed a c) k = k a c

-- Where blank stands: between comments, at the second byte of `//` or of `/*`, inside, at the second
-- byte of `*/`, and past the last byte of a block comment that nothing closes.
pub data Mode : Type 0 where
  between : Mode
  line_slash : Mode
  line : Mode
  block_star : Mode
  block : Mode
  block_slash : Mode
  unclosed : Mode

abbrev pub is_blank : ℕ → Bool
is_blank c = c == b' ' || c == 9 || c == 13 || c == 10

abbrev pub starts : ℕ → List ℕ → Bool
starts b [] = false
starts b (c ∷ s) = c == b

abbrev in_block : ℕ → List ℕ → Mode
in_block c [] = unclosed
in_block c (d ∷ s) = if c == b'*' && d == b'/' then block_slash else block

-- The mode after the byte `c`, none where blank returns without it.
unfoldable pub mode_after : Mode → ℕ → List ℕ → Option Mode
mode_after between c s =
    if is_blank c
    then some between
    else if c == b'/' && starts b'/' s
    then some line_slash
    else if c == b'/' && starts b'*' s
    then some block_star
    else none
mode_after line_slash c s = some line
mode_after line c s = some (if c == 10 then between else line)
mode_after block_star c s = some block
mode_after block c s = some (in_block c s)
mode_after block_slash c s = some between
mode_after unclosed c s = some unclosed

-- The end of a block comment is stepped over even where the document ends before it.
abbrev pub past_end : Mode → ℕ → ℕ
past_end block p = p + 2
past_end unclosed p = p + 1
past_end _ p = p

unfoldable pub skip : Mode → ℕ → List ℕ → Cursor
skip m p [] = (past_end m p, [])
skip m p (c ∷ s) = elim (mode_after m c s) [ none ↦ (p, c ∷ s) | some n ↦ skip n (p + 1) s ]

abbrev pub blank : Cursor → Cursor
blank (p, s) = skip between p s

-- The bytes of a string from behind its first byte to its closing quote, and what follows.
unfoldable pub scan_string : Bool → List ℕ → Option (List ℕ × List ℕ)
scan_string escaped [] = none
scan_string escaped (c ∷ s) =
    let rest = scan_string (not escaped && c == b'\\') s in
    if not escaped && c == b'"'
    then some (c ∷ [], s)
    else elim rest [ none ↦ none | some (body, after) ↦ some (c ∷ body, after) ]

unfoldable pub ends_literal : ℕ → List ℕ → Bool
ends_literal c s =
    is_blank c
    || (c == b',' || c == b'}' || c == b']' || c == b':')
    || (c == b'/' && (starts b'/' s || starts b'*' s))

unfoldable pub scan_literal : ℕ → List ℕ → Cursor
scan_literal p [] = (p, [])
scan_literal p (c ∷ s) = elim (ends_literal c s) [
  | true ↦ (p, c ∷ s)
  | false ↦ scan_literal (p + 1) s
]

unfoldable pub literal_at : Cursor → Parse Node
unfolding scan_literal
literal_at (p, s) = let c = scan_literal p s in parsed (literal p c.0) c

-- A comma after an item, with its offset, and whether the closer follows it.
unfoldable pub separator_at : ℕ → Cursor → (List ℕ × Bool) × Cursor
unfolding skip
separator_at closer (p, []) = (([], false), (p, []))
separator_at closer (p, b ∷ s) =
    let after = skip between (p + 1) s in
    if b == b',' then ((p ∷ [], starts closer after.1), after) else (([], false), (p, b ∷ s))

abbrev pub separator : ℕ → Cursor → (List ℕ × Bool) × Cursor
separator closer c = separator_at closer (blank c)
