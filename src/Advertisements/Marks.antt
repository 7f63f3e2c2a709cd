-- ===== src/Advertisements/Marks.antt =====
-- markDuplicates of internal/advertisements/parse.go against a count over the whole document.
use xform.Base.{
  ℕ, ◌+◌, String, Bool, false, not, ◌&&◌, ◌==◌, string_eq, ◌≡◌, List, [], ◌∷◌, map, arith, eq_iff,
  if◌then◌else◌, ltb, ap,
}
use mathlib.Core.Path.{fun_ext}
use xform.Base.Tally.{count_in, increment, occurrences, count_in-increment, count_in-nil}
use xform.Advertisements.{Advertisement, View}
use xform.Advertisements.Parse.{count_tags, marked, mark_duplicates}

abbrev pub tags : View → List String
tags [] = []
tags (a ∷ view) = a.inbound_tag ∷ tags view

pub count_in-count_tags :
    (k : String) (view : View) (counts : List (String × ℕ))
    → (k == "") ≡ false
    → count_in k (count_tags view counts) ≡ count_in k counts + occurrences k (tags view)
unfolding count_tags occurrences
count_in-count_tags k [] counts h = ground arith
count_in-count_tags k (a ∷ view) counts h = ground (
  arith,
  eq_iff a.inbound_tag k,
  eq_iff a.inbound_tag "",
  count_in-increment a.inbound_tag k counts,
  count_in-count_tags k view
      (if not (a.inbound_tag == "") then increment a.inbound_tag counts else counts),
)

-- A record is a duplicate exactly where its tag is not empty and stands on another record too.
abbrev pub is_duplicate : View → Advertisement → Bool
is_duplicate view a = not (a.inbound_tag == "") && ltb 1 (occurrences a.inbound_tag (tags view))

abbrev pub with_mark : View → Advertisement → Advertisement
with_mark view a = record a { duplicate = is_duplicate view a }

marked_lem : (view : View) (a : Advertisement) → marked (count_tags view []) a ≡ with_mark view a
marked_lem view a =
    ground (arith, count_in-count_tags a.inbound_tag view [], count_in-nil a.inbound_tag)

-- Marking the duplicates keeps every record and its order and sets nothing but the mark, which says
-- that the tag is not empty and that more than one record of the document has it.
pub mark_duplicates-is_duplicate : (view : View) → mark_duplicates view ≡ map (with_mark view) view
unfolding mark_duplicates
mark_duplicates-is_duplicate view = ap (λ f. map f view) (fun_ext (marked_lem view))
