-- ===== src/XrayConfig/Jsonc/Spans.antt =====
-- internal/xrayconfig/render.go: where in the document the spans of a scan lie.
pub mod Cursors
pub mod Bounds
use xform.Base.{
  ℕ, zero, suc, ◌+◌, ◌<◌, ◌≤◌, String, Bool, true, false, not, ◌&&◌, List, [], ◌∷◌, Option, none,
  some, ◌==◌, nat_eq, if◌then◌else◌, ◌≡◌, refl, arith, Bool-cases, Option-cases, inl, inr, ◌⊎◌,
}
use xform.Base.Lists.{length}
use xform.XrayConfig.Jsonc.{
  Node, Props, Nodes, object, array, text, literal, no_props, prop, no_nodes, item, end_of, Cursor,
  Parse, out_of_fuel, failed, parsed, bind, Mode, between, mode_after, skip, blank, scan_string,
  scan_literal, literal_at, separator_at, separator,
}
use xform.XrayConfig.Jsonc.Parser.{
  Members, Elements, str, colon, object_turn, object_entry, array_turn, array_entry, value_turn,
  value, object_loop, array_loop, object_from, array_from, text_from, parse_jsonc,
}
use xform.XrayConfig.Jsonc.Sizes.{size, scan_string-size}

-- The span of a node lies between two offsets, and so do, from left to right without overlap, the spans
-- of what it holds; the last byte of an object or an array is its own.
unfoldable mutual
  pub InSpan : ℕ → ℕ → Node → Type 0
  InSpan lo hi (object start end props trailing) =
      (lo ≤ start) × ((end ≤ hi) × PropsIn (start + 1) end props)
  InSpan lo hi (array start end items commas trailing) =
      (lo ≤ start) × ((end ≤ hi) × ItemsIn (start + 1) end items)
  InSpan lo hi (text start end value) = (lo ≤ start) × ((start < end) × (end ≤ hi))
  InSpan lo hi (literal start end) = (lo ≤ start) × ((start ≤ end) × (end ≤ hi))

  pub PropsIn : ℕ → ℕ → Props → Type 0
  PropsIn lo hi no_props = lo < hi
  PropsIn lo hi (prop key at v ps) = (lo ≤ at) × (InSpan (at + 1) hi v × PropsIn (end_of v) hi ps)

  pub ItemsIn : ℕ → ℕ → Nodes → Type 0
  ItemsIn lo hi no_nodes = lo < hi
  ItemsIn lo hi (item v vs) = InSpan lo hi v × ItemsIn (end_of v) hi vs

pub widen :
    (v : Node) (lo hi low high : ℕ) → low ≤ lo → hi ≤ high → InSpan lo hi v → InSpan low high v
unfolding InSpan
widen (object start end props trailing) lo hi low high l h i = (omega arith, (omega arith, i.1.1))
widen (array start end items commas trailing) lo hi low high l h i =
    (omega arith, (omega arith, i.1.1))
widen (text start end value) lo hi low high l h i = (omega arith, (i.1.0, omega arith))
widen (literal start end) lo hi low high l h i = (omega arith, (i.1.0, omega arith))

pub from_lower : (ps : Props) (lo low hi : ℕ) → low ≤ lo → PropsIn lo hi ps → PropsIn low hi ps
unfolding InSpan
from_lower no_props lo low hi l i = omega arith
from_lower (prop key at v ps) lo low hi l i = (omega arith, i.1)

pub from_lower_item : (vs : Nodes) (lo low hi : ℕ) → low ≤ lo → ItemsIn lo hi vs → ItemsIn low hi vs
unfolding InSpan
from_lower_item no_nodes lo low hi l i = omega arith
from_lower_item (item v vs) lo low hi l i = (widen v lo hi low hi l (omega arith) i.0, i.1)
