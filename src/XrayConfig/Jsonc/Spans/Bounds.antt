-- ===== src/XrayConfig/Jsonc/Spans/Bounds.antt =====
-- internal/xrayconfig/render.go: every span of a scan lies in the document.
use xform.Base.{ℕ, zero, suc, ◌+◌, ◌≤◌, String, List, [], ◌∷◌, Option, nat_eq, ◌≡◌, subst, arith}
use xform.Base.Lists.{length}
use xform.XrayConfig.Jsonc.{
  Node, end_of, Cursor, Parse, out_of_fuel, failed, parsed, between, blank, literal_at, separator,
}
use xform.XrayConfig.Jsonc.Parser.{
  Members, Elements, str, colon, object_turn, object_entry, array_turn, array_entry, value_turn,
  value, object_loop, array_loop, object_from, array_from, text_from, parse_jsonc,
}
use xform.XrayConfig.Jsonc.Spans.{InSpan, widen, from_lower, from_lower_item}
use xform.XrayConfig.Jsonc.Spans.Cursors.{
  Within, Holds, ValueAt, MembersAt, ElementsAt, TextAt, ColonAt, Exact-Within, skip-Beyond,
  separator-Beyond, scan_literal-Exact, colon-Holds, bind-Holds, str-Holds,
}

module _ (unmarshal : List ℕ → Option String) (n : ℕ) where
  module _ (read : Cursor → Parse Node)
      (hr : (d : Cursor) → Within n d → Holds (ValueAt n d.0) (read d)) where
    object_entry-Holds :
        (more : Cursor → Parse Members)
        → ((d : Cursor) → Within n d → Holds (MembersAt n d.0) (more d))
        → (c : Cursor) → Within n c
        → Holds (MembersAt n c.0) (object_entry unmarshal read more c)
    unfolding object_entry InSpan
    object_entry-Holds more hm c h =
        bind-Holds (TextAt n c.0) (MembersAt n c.0) _ (str unmarshal c) (str-Holds unmarshal n c h)
          λ key d kd.
            let gap = skip-Beyond n between d.0 d.1 (Exact-Within n d kd.1.1) in
            bind-Holds (ColonAt n (blank d).0) (MembersAt n c.0) _ (colon key.1 (blank d))
              (colon-Holds n key.1 (blank d) gap.1)
              λ u e ce.
                bind-Holds (ValueAt n e.0) (MembersAt n c.0) _ (read e)
                  (hr e (Exact-Within n e ce.1))
                  λ v f vf.
                    let sep = separator-Beyond n b'}' f (Exact-Within n f vf.1.1.1) in
                    let next = (separator b'}' f).1 in
                    bind-Holds (MembersAt n next.0) (MembersAt n c.0) _ (more next) (hm next sep.1)
                      λ rest g rg.
                        let inner =
                          widen v e.0 f.0 (c.0 + 1) rest.close (omega arith) (omega arith) vf.0 in
                        let others =
                          from_lower rest.props next.0 (end_of v) rest.close (omega arith) rg.0 in
                        ((omega arith, (inner, others)), (rg.1.0, (omega arith, rg.1.1.1)))

    array_entry-Holds :
        (more : Cursor → Parse Elements)
        → ((d : Cursor) → Within n d → Holds (ElementsAt n d.0) (more d))
        → (c : Cursor) → Within n c
        → Holds (ElementsAt n c.0) (array_entry unmarshal read more c)
    unfolding array_entry InSpan
    array_entry-Holds more hm c h =
        bind-Holds (ValueAt n c.0) (ElementsAt n c.0) _ (read c) (hr c h) λ v f vf.
          let sep = separator-Beyond n b']' f (Exact-Within n f vf.1.1.1) in
          let next = (separator b']' f).1 in
          bind-Holds (ElementsAt n next.0) (ElementsAt n c.0) _ (more next) (hm next sep.1)
            λ rest g rg.
              let inner = widen v c.0 f.0 c.0 rest.close (omega arith) (omega arith) vf.0 in
              let others =
                from_lower_item rest.items next.0 (end_of v) rest.close (omega arith) rg.0 in
              ((inner, others), (rg.1.0, (omega arith, rg.1.1.1)))

    object_turn-Holds :
        (more : Cursor → Parse Members) (start : ℕ)
        → ((d : Cursor) → Within n d → Holds (MembersAt n d.0) (more d))
        → (c : Cursor) → Within n c
        → Holds (MembersAt n c.0) (object_turn unmarshal read more start c)
    unfolding object_turn InSpan
    object_turn-Holds more start hm (p, []) h = tt
    object_turn-Holds more start hm (p, b ∷ s) h =
        ground (arith, object_entry-Holds more hm (p, b ∷ s) h)

    array_turn-Holds :
        (more : Cursor → Parse Elements) (start : ℕ)
        → ((d : Cursor) → Within n d → Holds (ElementsAt n d.0) (more d))
        → (c : Cursor) → Within n c
        → Holds (ElementsAt n c.0) (array_turn unmarshal read more start c)
    unfolding array_turn InSpan
    array_turn-Holds more start hm (p, []) h = tt
    array_turn-Holds more start hm (p, b ∷ s) h =
        ground (arith, array_entry-Holds more hm (p, b ∷ s) h)

  module _ (members : ℕ → Cursor → Parse Members) (elements : ℕ → Cursor → Parse Elements)
      (hm : (q : ℕ) (d : Cursor) → Within n d → Holds (MembersAt n d.0) (members q d))
      (he : (q : ℕ) (d : Cursor) → Within n d → Holds (ElementsAt n d.0) (elements q d)) where
    value_turn-Holds :
        (c : Cursor) → Within n c → Holds (ValueAt n c.0) (value_turn unmarshal members elements c)
    unfolding value_turn literal_at InSpan
    value_turn-Holds (p, []) h = tt
    value_turn-Holds (p, b ∷ s) h =
        let inside = Exact-Within n (p + 1, s) (omega arith) in
        let obj : Holds (ValueAt n p) (object_from p (members p (p + 1, s))) =
          bind-Holds (MembersAt n (p + 1)) (ValueAt n p) _ (members p (p + 1, s))
            (hm p (p + 1, s) inside)
            λ m d h. ((omega arith, (omega arith, h.0)), (h.1.0, (omega arith, h.1.1.1))) in
        let arr : Holds (ValueAt n p) (array_from p (elements p (p + 1, s))) =
          bind-Holds (ElementsAt n (p + 1)) (ValueAt n p) _ (elements p (p + 1, s))
            (he p (p + 1, s) inside)
            λ m d h. ((omega arith, (omega arith, h.0)), (h.1.0, (omega arith, h.1.1.1))) in
        let txt : Holds (ValueAt n p) (text_from p (str unmarshal (p, b ∷ s))) =
          bind-Holds (TextAt n p) (ValueAt n p) _ (str unmarshal (p, b ∷ s))
            (str-Holds unmarshal n (p, b ∷ s) h)
            λ m d h. ((omega arith, (omega arith, omega arith)), (h.0, (omega arith, h.1.1))) in
        ground (arith, obj, arr, txt, scan_literal-Exact n p (b ∷ s) h)

  -- The same behind the blanks in front of what is read.
  at_blank-value :
      (c : Cursor) (x : Parse Node)
      → c.0 ≤ (blank c).0
      → Holds (ValueAt n (blank c).0) x
      → Holds (ValueAt n c.0) x
  at_blank-value c out_of_fuel l h = tt
  at_blank-value c (failed e) l h = tt
  at_blank-value c (parsed v d) l h =
      (widen v (blank c).0 d.0 c.0 d.0 l (omega arith) h.0, (h.1.0, (omega arith, h.1.1.1)))

  at_blank-members :
      (c : Cursor) (x : Parse Members)
      → c.0 ≤ (blank c).0
      → Holds (MembersAt n (blank c).0) x
      → Holds (MembersAt n c.0) x
  at_blank-members c out_of_fuel l h = tt
  at_blank-members c (failed e) l h = tt
  at_blank-members c (parsed m d) l h =
      (from_lower m.props (blank c).0 c.0 m.close l h.0, (h.1.0, (omega arith, h.1.1.1)))

  at_blank-elements :
      (c : Cursor) (x : Parse Elements)
      → c.0 ≤ (blank c).0
      → Holds (ElementsAt n (blank c).0) x
      → Holds (ElementsAt n c.0) x
  at_blank-elements c out_of_fuel l h = tt
  at_blank-elements c (failed e) l h = tt
  at_blank-elements c (parsed m d) l h =
      (from_lower_item m.items (blank c).0 c.0 m.close l h.0, (h.1.0, (omega arith, h.1.1.1)))

  mutual
    unfolding value object_loop array_loop

    value-Holds : (f : ℕ) (c : Cursor) → Within n c → Holds (ValueAt n c.0) (value unmarshal f c)
    value-Holds zero c h = tt
    value-Holds (suc f) c h =
        let gap = skip-Beyond n between c.0 c.1 h in
        at_blank-value c (value unmarshal (suc f) c) gap.0 (
          value_turn-Holds (object_loop unmarshal f) (array_loop unmarshal f) (object_loop-Holds f)
            (array_loop-Holds f) (blank c) gap.1)

    object_loop-Holds :
        (f start : ℕ) (c : Cursor)
        → Within n c
        → Holds (MembersAt n c.0) (object_loop unmarshal f start c)
    object_loop-Holds zero start c h = tt
    object_loop-Holds (suc f) start c h =
        let gap = skip-Beyond n between c.0 c.1 h in
        at_blank-members c (object_loop unmarshal (suc f) start c) gap.0 (
          object_turn-Holds (value unmarshal f) (value-Holds f) (object_loop unmarshal f start)
            start (object_loop-Holds f start) (blank c) gap.1)

    array_loop-Holds :
        (f start : ℕ) (c : Cursor)
        → Within n c
        → Holds (ElementsAt n c.0) (array_loop unmarshal f start c)
    array_loop-Holds zero start c h = tt
    array_loop-Holds (suc f) start c h =
        let gap = skip-Beyond n between c.0 c.1 h in
        at_blank-elements c (array_loop unmarshal (suc f) start c) gap.0 (
          array_turn-Holds (value unmarshal f) (value-Holds f) (array_loop unmarshal f start) start
            (array_loop-Holds f start) (blank c) gap.1)

abbrev InDocument : List ℕ → Node → Cursor → Type 0
InDocument document root c = InSpan 0 (length document) root

-- Every span of a document that scans lies in the document, one inside or behind the other.
pub parse_jsonc-InSpan :
    (unmarshal : List ℕ → Option String) (fuel : ℕ) (document : List ℕ) (root : Node) (c : Cursor)
    → parse_jsonc unmarshal fuel document ≡ parsed root c
    → InSpan 0 (length document) root
unfolding parse_jsonc
parse_jsonc-InSpan unmarshal fuel document root c h =
    let n = length document in
    let scan =
      value-Holds unmarshal n fuel (0, document) (Exact-Within n (0, document) (omega arith)) in
    let whole : Holds (InDocument document) (parse_jsonc unmarshal fuel document) =
      bind-Holds (ValueAt n 0) (InDocument document) _ (value unmarshal fuel (0, document)) scan
        λ v d vd. ground (arith, widen v 0 d.0 0 n (omega arith) (omega arith) vd.0) in
    subst (λ x. Holds (InDocument document) x) h whole
